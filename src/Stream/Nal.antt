-- ===== src/Stream/Nal.antt =====
-- crates/stream/src/main.rs, `Codec`, `NalKind` and `classify_nal`: what the relay reads off a frame.
pub mod Laws
use xyzen_relay.Prelude.{
  ℕ, ◌/◌, ◌^◌, Bool, true, false, ◌&&◌, ◌||◌, Option, none, some, List, [], ◌∷◌, bit_and, ltb, leb,
  ◌==◌, if◌then◌else◌, length, drop, get_or,
}

pub data Codec : Type 0 where
  hevc h264 : Codec

pub data NalKind : Type 0 where
  param_set : Codec → ℕ → NalKind
  keyframe delta unknown : NalKind

abbrev pub nal_timestamp_prefix : ℕ
nal_timestamp_prefix = 8

-- `slice::starts_with`.
unfoldable pub starts_with : List ℕ → List ℕ → Bool
starts_with xs [] = true
starts_with [] (p ∷ ps) = false
starts_with (x ∷ xs) (p ∷ ps) = x == p && starts_with xs ps

-- Where the bytes behind the start code begin.
unfoldable pub start_code_len : List ℕ → Option ℕ
start_code_len body =
    if starts_with body (0 ∷ 0 ∷ 0 ∷ 1 ∷ [])
    then some 4
    else if starts_with body (0 ∷ 0 ∷ 1 ∷ [])
    then some 3
    else none

unfoldable pub is_hevc_param_set : ℕ → Bool
is_hevc_param_set t = t == 32 || (t == 33 || t == 34)

unfoldable pub is_h264_param_set : ℕ → Bool
is_h264_param_set t = t == 7 || t == 8

-- The arms for a room that is locked to a codec.
unfoldable pub classify_known : Codec → ℕ → ℕ → NalKind
classify_known hevc hevc_type h264_type =
    if is_hevc_param_set hevc_type
    then param_set hevc hevc_type
    else if leb 16 hevc_type && leb hevc_type 23
    then keyframe
    else delta
classify_known h264 hevc_type h264_type =
    if is_h264_param_set h264_type
    then param_set h264 h264_type
    else if h264_type == 5
    then keyframe
    else delta

-- Discovery: only a parameter set is believed, HEVC's first.
unfoldable pub classify_discovery : ℕ → ℕ → NalKind
classify_discovery hevc_type h264_type =
    if is_hevc_param_set hevc_type
    then param_set hevc hevc_type
    else if is_h264_param_set h264_type
    then param_set h264 h264_type
    else unknown

unfoldable pub classify_first : ℕ → Option Codec → NalKind
unfolding classify_known classify_discovery is_hevc_param_set is_h264_param_set
classify_first first none = classify_discovery (bit_and (first / 2 ^ 1) 0x3f) (bit_and first 0x1f)
classify_first first (some codec) =
    classify_known codec (bit_and (first / 2 ^ 1) 0x3f) (bit_and first 0x1f)

-- `body[off]`, the first byte behind the start code, if the frame gets that far.
unfoldable pub first_byte : List ℕ → Option ℕ
unfolding start_code_len starts_with
first_byte stamped =
    let body = drop nal_timestamp_prefix stamped in
    if leb (length stamped) nal_timestamp_prefix then none else elim (start_code_len body) [
      | none ↦ none
      | some off ↦ if leb (length body) off then none else some (get_or body off 0)
    ]

-- A frame with no such byte is `Unknown`.
unfoldable pub classify_at : Option ℕ → Option Codec → NalKind
classify_at none known_codec = unknown
classify_at (some first) known_codec = classify_first first known_codec

unfoldable pub classify_nal : List ℕ → Option Codec → NalKind
classify_nal stamped known_codec = classify_at (first_byte stamped) known_codec
