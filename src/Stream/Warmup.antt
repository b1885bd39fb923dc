-- ===== src/Stream/Warmup.antt =====
-- crates/stream/src/main.rs, `WarmupWindow`: what a room keeps to start a fresh viewer.
-- `param_sets` is a `HashMap<u8, Bytes>`, a frame is the list of its bytes, `usize` has 64 bits.
pub mod Invariant
pub mod Replay
pub mod Overflow
pub mod History
pub mod Origin
pub mod Latest
pub mod Snapshot
use xyzen_relay.Prelude.{
  ℕ, ◌+◌, ◌-◌, ◌*◌, ◌^◌, min, Bool, true, false, Option, none, some, List, [], ◌∷◌, ◌++◌, ltb, leb,
  if◌then◌else◌, length, is_empty,
}
use xyzen_relay.Prelude.Assoc.{lookup, insert, keys, nat_eq}
use xyzen_relay.Stream.Nal.{Codec, NalKind, param_set, keyframe, delta, unknown, classify_nal}

abbrev pub Bytes : Type 0
Bytes = List ℕ

abbrev pub warmup_delta_max_bytes : ℕ
warmup_delta_max_bytes = 16 * 1024 * 1024

abbrev pub warmup_key_max_bytes : ℕ
warmup_key_max_bytes = 8 * 1024 * 1024

abbrev pub saturating_add : ℕ → ℕ → ℕ
saturating_add a b = min (a + b) (2 ^ 64 - 1)

pub record WarmupWindow : Type 0 where
  pub codec : Option Codec
  pub param_sets : List (ℕ × Bytes)
  pub keyframe : List Bytes
  pub keyframe_total_bytes : ℕ
  pub since_keyframe : List Bytes
  pub since_keyframe_total_bytes : ℕ

abbrev pub default : WarmupWindow
default = record {
  codec = none;
  param_sets = [];
  keyframe = [];
  keyframe_total_bytes = 0;
  since_keyframe = [];
  since_keyframe_total_bytes = 0;
}

-- `sort_unstable` on the keys, as an insertion sort.
sort_insert : ℕ → List ℕ → List ℕ
sort_insert k [] = k ∷ []
sort_insert k (x ∷ xs) = if leb k x then k ∷ x ∷ xs else x ∷ sort_insert k xs

sort_unstable : List ℕ → List ℕ
unfolding sort_insert
sort_unstable [] = []
sort_unstable (x ∷ xs) = sort_insert x (sort_unstable xs)

-- The loop over the sorted keys.
collect : List (ℕ × Bytes) → List ℕ → List Bytes
collect sets [] = []
collect sets (k ∷ ks) = elim (lookup k sets) [
  | none ↦ collect sets ks
  | some b ↦ b ∷ collect sets ks
]

unfoldable pub sorted_param_sets : WarmupWindow → List Bytes
unfolding sort_unstable collect lookup
sorted_param_sets w = collect w.param_sets (sort_unstable (keys w.param_sets))

-- The frames that a fresh decoder is sent, in order.
unfoldable pub snapshot : WarmupWindow → List Bytes
unfolding sorted_param_sets
snapshot w =
    if is_empty w.keyframe then [] else sorted_param_sets w ++ (w.keyframe ++ w.since_keyframe)

-- `if self.codec.is_none() { self.codec = Some(codec) }`.
unfoldable pub lock_codec : Option Codec → Codec → Option Codec
lock_codec none c = some c
lock_codec (some d) c = some d

record_param_set : WarmupWindow → Codec → ℕ → Bytes → WarmupWindow × Bool
unfolding lock_codec insert
record_param_set w c nal_type frame = (
  record w { codec = lock_codec w.codec c; param_sets = insert nal_type frame w.param_sets },
  false,
)

record_keyframe : WarmupWindow → Bytes → WarmupWindow × Bool
record_keyframe w frame =
    let cleared = record w {
      keyframe = [];
      keyframe_total_bytes = 0;
      since_keyframe = [];
      since_keyframe_total_bytes = 0;
    } in
    if leb (length frame) warmup_key_max_bytes
    then (record cleared { keyframe_total_bytes = length frame; keyframe = frame ∷ [] }, true)
    else (cleared, true)

record_delta : WarmupWindow → Bytes → WarmupWindow × Bool
record_delta w frame =
    let projected = saturating_add w.since_keyframe_total_bytes (length frame) in
    if is_empty w.keyframe
    then (w, false)
    else if ltb warmup_delta_max_bytes projected
    then (
      record w {
        since_keyframe = [];
        since_keyframe_total_bytes = 0;
        keyframe = [];
        keyframe_total_bytes = 0;
      },
      false,
    )
    else (
      record w {
        since_keyframe_total_bytes = projected;
        since_keyframe = w.since_keyframe ++ frame ∷ [];
      },
      false,
    )

unfoldable pub record_as : NalKind → WarmupWindow → Bytes → WarmupWindow × Bool
unfolding record_param_set record_keyframe record_delta
record_as (param_set c nal_type) w frame = record_param_set w c nal_type frame
record_as keyframe w frame = record_keyframe w frame
record_as delta w frame = record_delta w frame
record_as unknown w frame = record_delta w frame

-- `record`: file the frame, and say whether a fresh keyframe has landed.
unfoldable pub record_frame : WarmupWindow → Bytes → WarmupWindow × Bool
unfolding record_as
record_frame w frame = record_as (classify_nal frame w.codec) w frame

-- The window after a publisher's frames, oldest first.
unfoldable pub record_all : WarmupWindow → List Bytes → WarmupWindow
record_all w [] = w
record_all w (f ∷ fs) = record_all (record_frame w f).0 fs
