-- ===== src/Capturer.antt =====
-- crates/capturer/src/main.rs: the publisher that forwards the captured units to the stream server.
-- A text is the list of its characters. The rates in a line of the log are computed in floating
-- point from the three numbers that a line has here; a clock reads whole seconds.
pub mod Forwarding
use xyzen_relay.Prelude.{
  ℕ, zero, suc, ◌+◌, ◌-◌, ◌*◌, ◌%◌, ◌^◌, Bool, true, false, Option, none, some, List, [], ◌∷◌, ◌++◌,
  length, leb, ◌==◌, if◌then◌else◌,
}
use xyzen_relay.Prelude.Int.{ℤ}
use xyzen_relay.Mac.{Shared}
use xyzen_relay.Mac.Capture.{Platform, start}

-- '/'
abbrev pub slash : ℕ
slash = 0x2f

-- `trim_end_matches('/')`: a character stays where something stays behind it.
abbrev pub keep : ℕ → List ℕ → List ℕ
keep c [] = if c == slash then [] else c ∷ []
keep c (d ∷ ds) = c ∷ d ∷ ds

unfoldable pub trim_end_matches : List ℕ → List ℕ
trim_end_matches [] = []
trim_end_matches (c ∷ cs) = keep c (trim_end_matches cs)

-- `format!("{}/{}", ..)`.
unfoldable pub publisher_url : List ℕ → List ℕ → List ℕ
publisher_url stream_url peer_id = trim_end_matches stream_url ++ slash ∷ peer_id

-- The loop of the thread between the two channels, of which the second takes `more` units before it
-- is closed.
unfoldable pub bridge : ℕ → List (List ℕ × ℤ) → List (List ℕ)
bridge more [] = []
bridge zero (nal ∷ nals) = []
bridge (suc more) ((data_bytes, pts_us) ∷ nals) = data_bytes ∷ bridge more nals

pub record Tally : Type 0 where
  pub total : ℕ
  pub nals : ℕ
  pub last_log : ℕ

pub record Line : Type 0 where
  pub total : ℕ
  pub nals : ℕ
  pub secs : ℕ

-- The two additions of a `u64`, which wrap in a release build.
abbrev pub counted : ℕ → Tally → Tally
counted n t = record t { total = (t.total + n) % 2 ^ 64; nals = (t.nals + 1) % 2 ^ 64 }

unfoldable pub logged : ℕ → Tally → List Line × Tally
logged now t =
    if leb 2 (now - t.last_log)
    then (
      record { total = t.total; nals = t.nals; secs = now - t.last_log } ∷ [],
      record { total = 0; nals = 0; last_log = now },
    )
    else ([], t)

-- What the loop has sent, the lines it has logged, and its counters at the end.
pub record Forwarded : Type 0 where
  pub sent : List (List ℕ)
  pub lines : List Line
  pub tally : Tally

abbrev pub ahead : List ℕ → List Line → Forwarded → Forwarded
ahead nal lines f = record f { sent = nal ∷ f.sent; lines = lines ++ f.lines }

-- The loop on the units, each with the time behind its send; the sink takes `more` messages.
unfoldable pub forward : ℕ → List (List ℕ × ℕ) → Tally → Forwarded
unfolding logged
forward more [] t = record { sent = []; lines = []; tally = t }
forward zero (x ∷ xs) t = record { sent = []; lines = []; tally = t }
forward (suc more) ((nal, now) ∷ xs) t =
    let (lines, t') = logged now (counted (length nal) t) in ahead nal lines (forward more xs t')

-- `start_native`, on macOS or elsewhere; `true` where there is a receiver.
unfoldable pub start_native : Bool → Platform → ℕ → ℕ → ℕ → ℕ → Shared → Bool × Shared
start_native true a width height fps bitrate_kbps s = start a width height fps bitrate_kbps 0 s
start_native false a width height fps bitrate_kbps s = (false, s)

-- The command line, with its defaults.
pub record Args : Type 0 where
  pub peer_id : List ℕ
  pub stream_url : List ℕ
  pub width : ℕ
  pub height : ℕ
  pub fps : ℕ
  pub bitrate_kbps : ℕ

-- `stream_url` is ws://127.0.0.1:21130/ws/stream if none is given.
abbrev pub args_for : List ℕ → List ℕ → Args
args_for peer_id stream_url = record {
  peer_id = peer_id;
  stream_url = stream_url;
  width = 1920;
  height = 1080;
  fps = 30;
  bitrate_kbps = 4000;
}

pub data Exit : Type 0 where
  not_connected not_captured : Exit
  closed : Forwarded → Exit

-- `connect` says whether the server takes the address; `xs` are the units that come through the
-- bridge, with the time behind each send, and `now` is the time of the start.
unfoldable pub main :
    (List ℕ → Bool) → Bool → Platform → Args → ℕ → ℕ → List (List ℕ × ℕ) → Shared → Exit × Shared
main connect macos a args more now xs s =
    let (captured, s') = start_native macos a args.width args.height args.fps args.bitrate_kbps s in
    if connect (publisher_url args.stream_url args.peer_id)
    then (if captured
        then (closed (forward more xs (record { total = 0; nals = 0; last_log = now })), s')
        else (not_captured, s'))
    else (not_connected, s)
