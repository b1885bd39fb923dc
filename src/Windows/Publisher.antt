-- ===== src/Windows/Publisher.antt =====
-- crates/win-capturer/src/publisher.rs: the public calls and the capture thread, in steps of which each
-- has at most one lock, load, store or send of what the threads share, so that any interleaving of them
-- is a list of events. What the platform answers, and what the encoder does with a picture
-- (Windows/Encoder.antt), comes with the event. The callback as one function is in Callback.antt. A
-- poisoned lock, which needs a panic of the thread, and the wait after a failed session are left out.
pub mod Events
pub mod Sessions
pub mod Single
pub mod InHand
pub mod Nearer
pub mod Stopping
pub mod Settings
pub mod Quiet
pub mod Getters
pub mod Callback
pub mod Handler
use xyzen_relay.Prelude.{
  ℕ, zero, suc, Bool, true, false, not, ◌||◌, Option, none, some, List, [], ◌∷◌, ◌++◌, ◌==◌,
  if◌then◌else◌,
}
use xyzen_relay.Windows.Encoder.{Nal}

pub record State : Type 0 where
  pub width : ℕ
  pub height : ℕ
  pub fps : ℕ
  pub bitrate_kbps : ℕ
  pub display_id : ℕ
  pub running : Bool
  pub needs_rebuild : Bool

abbrev pub default : State
default = record {
  width = 0;
  height = 0;
  fps = 0;
  bitrate_kbps = 0;
  display_id = 0;
  running = false;
  needs_rebuild = false;
}

pub record CaptureSnapshot : Type 0 where
  pub width : ℕ
  pub height : ℕ
  pub fps : ℕ
  pub bitrate_kbps : ℕ
  pub display_id : ℕ

-- What the threads share. The sender is the number of its channel, and `sent` the NALs that went into
-- each.
pub record Shared : Type 0 where
  pub state : State
  pub shutdown : Bool
  pub sender : Option ℕ
  pub channels : ℕ
  pub sent : List (ℕ × Nal)

-- One picture: its size, whether `configure`, `buffer` and `submit_frame` went well, what `drain` gave
-- (none for an error), and how many NALs the receiver takes before it is gone.
pub record Frame : Type 0 where
  pub width : ℕ
  pub height : ℕ
  pub configured : Bool
  pub buffered : Bool
  pub submitted : Bool
  pub drained : Option (List Nal)
  pub taken : ℕ

-- Where the capture thread is: what it does next. From `checking` to `giving_up` it is inside the
-- callback of a session, with a picture, or with NALs still to be sent, of which the receiver takes so
-- many before it is gone.
pub data CaptureThread : Type 0 where
  starting loop_top snapshotting : CaptureThread
  clearing resolving : CaptureSnapshot → CaptureThread
  capturing : CaptureSnapshot → Option (ℕ × ℕ) → CaptureThread
  checking encoding : CaptureSnapshot → Option (ℕ × ℕ) → Frame → CaptureThread
  taking_sender : CaptureSnapshot → Option (ℕ × ℕ) → ℕ → List Nal → CaptureThread
  sending : CaptureSnapshot → Option (ℕ × ℕ) → ℕ → ℕ → List Nal → CaptureThread
  giving_up session_over resetting dropping_sender finishing : CaptureThread

-- Where a call of `start` is, behind its first block.
pub data Starter : Type 0 where
  resetting_shutdown storing_sender spawning : Starter

pub record Publisher : Type 0 where
  pub shared : Shared
  pub threads : List CaptureThread
  pub starters : List Starter

-- The first block of `start`; `none` is `Err`.
unfoldable pub claim : ℕ → ℕ → ℕ → ℕ → ℕ → State → Option State
claim width height fps bitrate_kbps display_id s =
    if s.running
    then none
    else some (record {
      width = width;
      height = height;
      fps = fps;
      bitrate_kbps = bitrate_kbps;
      display_id = display_id;
      running = true;
      needs_rebuild = false;
    })

-- The setters, each under one lock; `none` is `Err`.
unfoldable pub select_display : ℕ → State → Option State
select_display display_id s =
    if not s.running
    then none
    else if s.display_id == display_id
    then some s
    else some (record s { display_id = display_id; needs_rebuild = true })

unfoldable pub set_bitrate_kbps : ℕ → State → Option State
set_bitrate_kbps kbps s =
    if not s.running then none else some (record s { bitrate_kbps = kbps; needs_rebuild = true })

unfoldable pub set_fps : ℕ → State → Option State
set_fps fps s = if not s.running then none else some (record s { fps = fps; needs_rebuild = true })

unfoldable pub set_resolution : ℕ → ℕ → State → Option State
set_resolution width height s =
    if not s.running
    then none
    else some (record s { width = width; height = height; needs_rebuild = true })

abbrev pub snapshot_of : State → CaptureSnapshot
snapshot_of s = record {
  width = s.width;
  height = s.height;
  fps = s.fps;
  bitrate_kbps = s.bitrate_kbps;
  display_id = s.display_id;
}

-- What the platform answers to a step of the thread. Outside a session a picture is no answer, and
-- counts as one that went well.
pub data Answer : Type 0 where
  went_well failed : Answer
  arrived : Frame → Answer

abbrev pub Step : Type 0
Step = Shared × CaptureThread

-- A callback begins with a look at the flag of `stop`.
abbrev pub session : CaptureSnapshot → Option (ℕ × ℕ) → Shared → Answer → Step
session snapshot dims sh went_well = (sh, session_over)
session snapshot dims sh failed = (sh, session_over)
session snapshot dims sh (arrived f) =
    (sh, if sh.shutdown then session_over else checking snapshot dims f)

abbrev pub handed : CaptureSnapshot → Option (ℕ × ℕ) → ℕ → Option (List Nal) → CaptureThread
handed snapshot dims taken none = capturing snapshot dims
handed snapshot dims taken (some nals) = taking_sender snapshot dims taken nals

-- `buffer`, `submit_frame` and `drain`.
abbrev pub encoded : CaptureSnapshot → Option (ℕ × ℕ) → Frame → CaptureThread
encoded snapshot dims f =
    if not f.buffered
    then session_over
    else if not f.submitted
    then capturing snapshot dims
    else handed snapshot dims f.taken f.drained

-- The `match` on `configured_dims`, then the encoder; only the lock of a changed size is shared.
unfoldable pub encode : CaptureSnapshot → Frame → Shared → Option (ℕ × ℕ) → Step
encode snapshot f sh none =
    (sh, if f.configured then encoded snapshot (some (f.width, f.height)) f else session_over)
encode snapshot f sh (some (cw, ch)) =
    if not (f.width == cw) || not (f.height == ch)
    then (record sh { state = record sh.state { needs_rebuild = true } }, session_over)
    else (sh, encoded snapshot (some (cw, ch)) f)

abbrev pub with_sender : CaptureSnapshot → Option (ℕ × ℕ) → ℕ → List Nal → Option ℕ → CaptureThread
with_sender snapshot dims taken nals none = capturing snapshot dims
with_sender snapshot dims taken nals (some tx) = sending snapshot dims tx taken nals

-- One round of the loop over the NALs.
abbrev pub send_next : CaptureSnapshot → Option (ℕ × ℕ) → ℕ → ℕ → List Nal → Shared → Step
send_next snapshot dims tx taken [] sh = (sh, capturing snapshot dims)
send_next snapshot dims tx zero (nal ∷ nals) sh = (sh, giving_up)
send_next snapshot dims tx (suc taken) (nal ∷ nals) sh =
    (record sh { sent = sh.sent ++ ((tx, nal) ∷ []) }, sending snapshot dims tx taken nals)

-- Whether a step of the platform that ends the thread by `?` failed.
abbrev pub unless_failed : Answer → CaptureThread → CaptureThread
unless_failed failed next = resetting
unless_failed went_well next = next
unless_failed (arrived f) next = next

-- One step of the thread that `start` spawns: `run_capture_thread`, then the rest of the closure. At
-- the end there is no thread any more.
unfoldable pub thread_step : Answer → CaptureThread → Shared → Shared × Option CaptureThread
thread_step a starting sh = (sh, some (unless_failed a loop_top))
thread_step a loop_top sh = (sh, some (if sh.shutdown then resetting else snapshotting))
thread_step a snapshotting sh = (sh, some (clearing (snapshot_of sh.state)))
thread_step a (clearing s) sh =
    (record sh { state = record sh.state { needs_rebuild = false } }, some (resolving s))
thread_step a (resolving s) sh = (sh, some (unless_failed a (capturing s none)))
thread_step a (capturing s dims) sh = let (sh', t) = session s dims sh a in (sh', some t)
thread_step a (checking s dims f) sh =
    (sh, some (if sh.state.needs_rebuild then session_over else encoding s dims f))
thread_step a (encoding s dims f) sh = let (sh', t) = encode s f sh dims in (sh', some t)
thread_step a (taking_sender s dims taken nals) sh =
    (sh, some (with_sender s dims taken nals sh.sender))
thread_step a (sending s dims tx taken nals) sh =
    let (sh', t) = send_next s dims tx taken nals sh in (sh', some t)
thread_step a giving_up sh = (record sh { shutdown = true }, some session_over)
thread_step a session_over sh = (sh, some (if sh.shutdown then resetting else loop_top))
thread_step a resetting sh = (record sh { shutdown = false }, some dropping_sender)
thread_step a dropping_sender sh = (record sh { sender = none }, some finishing)
thread_step a finishing sh = (record sh { state = record sh.state { running = false } }, none)

abbrev pub put_back {ℓ} : {A : Type ℓ} → Option A → List A → List A
put_back none as' = as'
put_back (some a) as' = a ∷ as'

unfoldable pub run_threads : ℕ → Answer → List CaptureThread → Shared → Shared × List CaptureThread
run_threads i a [] sh = (sh, [])
run_threads zero a (t ∷ ts) sh = let (sh', t') = thread_step a t sh in (sh', put_back t' ts)
run_threads (suc i) a (t ∷ ts) sh = let (sh', ts') = run_threads i a ts sh in (sh', t ∷ ts')
