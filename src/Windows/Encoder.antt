-- ===== src/Windows/Encoder.antt =====
-- crates/win-capturer/src/encoder.rs, `H264Encoder`: the calls that it makes of MediaFoundation, in
-- order and with their arguments, and its own state. `host` is the platform: what each call answers,
-- given the calls before it (the newest first). A call that fails ends the operation, as `?` does.
pub mod Setup
pub mod Feed
pub mod Post
pub mod Calls
pub mod Configured
pub mod Submitted
pub mod Odd
pub mod Samples
pub mod Drained
use xyzen_relay.Prelude.{
  ℕ, zero, suc, ◌+◌, ◌-◌, ◌*◌, ◌/◌, ◌%◌, ◌^◌, max, min, bit_or, Bool, true, false, ◌||◌, Option,
  none, some, List, [], ◌∷◌, ◌++◌, map, ltb, leb, ◌==◌, if◌then◌else◌, length, get_or,
}
use xyzen_relay.Windows.Annexb.{avcc_to_annexb}
use xyzen_relay.Windows.Nv12.{bgra_to_nv12}

pub data Error : Type 0 where
  mf : ℕ → Error
  not_configured no_encoder_found : Error
  input_buffer_size : ℕ → ℕ → Error

-- `panic`: the code panics. `unfinished`: a loop is not done when its fuel is.
pub data Result {ℓ} (A : Type ℓ) : Type ℓ where
  ok : A → Result A
  err : Error → Result A
  panic unfinished : Result A

pub data Side : Type 0 where
  input output : Side

-- The calls, with the arguments that the code computes. The media subtype is H264 for the output and
-- NV12 for the input. `write` is the bytes put into a locked buffer, `clock` a reading of the system's.
pub data Call : Type 0 where
  enum_sync enum_hardware activate_first unlock_async get_stream_ids : Call
  create_media_type set_major_type set_subtype set_interlace : Side → Call
  set_frame_size set_frame_rate set_pixel_aspect set_type : Side → ℕ → Call
  set_avg_bitrate : ℕ → Call
  set_profile begin_streaming start_of_stream clock : Call
  create_buffer set_current_length set_sample_time set_sample_duration process_input : ℕ → Call
  lock_buffer unlock_buffer create_sample add_buffer : Call
  write : List ℕ → Call
  output_stream_info process_output : ℕ → Call
  convert_to_contiguous : Call

pub data Reply : Type 0 where
  failed : ℕ → Reply
  done : List ℕ → Reply

-- `epoch` is in microseconds since 1970.
pub record H264Encoder : Type 0 where
  pub transform : Option ℕ
  pub input_stream_id : ℕ
  pub output_stream_id : ℕ
  pub width : ℕ
  pub height : ℕ
  pub frame_duration_100ns : ℕ
  pub next_pts_100ns : ℕ
  pub epoch : ℕ

abbrev pub new : H264Encoder
new = record {
  transform = none;
  input_stream_id = 0;
  output_stream_id = 0;
  width = 0;
  height = 0;
  frame_duration_100ns = 0;
  next_pts_100ns = 0;
  epoch = 0;
}

-- `crate::Nal`.
pub record Nal : Type 0 where
  pub data_bytes : List ℕ
  pub pts_us : ℕ

pub record Machine : Type 0 where
  pub encoder : H264Encoder
  pub log : List Call

abbrev pub Mf {ℓ} : Type ℓ → Type ℓ
Mf A = Machine → Result A × Machine

abbrev pub after {ℓ κ} :
    {A : Type ℓ} {B : Type κ} → Result A × Machine → (A → Mf B) → Result B × Machine
after (ok a, m) f = f a m
after (err e, m) f = (err e, m)
after (panic, m) f = (panic, m)
after (unfinished, m) f = (unfinished, m)

infixl 5 ◌>>=◌
unfoldable pub ◌>>=◌ {ℓ κ} : {A : Type ℓ} {B : Type κ} → Mf A → (A → Mf B) → Mf B
(x >>= f) m = after (x m) f

unfoldable pub pure {ℓ} : {A : Type ℓ} → A → Mf A
pure a m = (ok a, m)

unfoldable pub fail {ℓ} : {A : Type ℓ} → Error → Mf A
fail e m = (err e, m)

unfoldable pub read : Mf H264Encoder
read m = (ok m.encoder, m)

unfoldable pub put : H264Encoder → Mf (Unit {0})
put e m = (ok tt, record m { encoder = e })

abbrev pub answered : Reply → Result (List ℕ)
answered (failed code) = err (mf code)
answered (done values) = ok values

abbrev pub e_notimpl : ℕ
e_notimpl = 0x80004001

abbrev pub mf_e_transform_need_more_input : ℕ
mf_e_transform_need_more_input = 0xc00d6d72

-- `(hi << 32) | lo`.
unfoldable pub mf_set_size : ℕ → ℕ → ℕ
mf_set_size hi lo = bit_or (hi * 2 ^ 32) lo

-- `(n + 1) & !1` on `u32`.
unfoldable pub round_even : ℕ → ℕ
round_even n = (n + 1) % 2 ^ 32 / 2 * 2

-- `i64::saturating_add`.
unfoldable pub saturating_add : ℕ → ℕ → ℕ
saturating_add a b = min (a + b) (2 ^ 63 - 1)

-- `i64::try_from(..).ok()... .unwrap_or(0)` on a reading of the clock.
abbrev pub micros : Reply → ℕ
micros (failed code) = 0
micros (done values) = if ltb (get_or values 0 0) (2 ^ 63) then get_or values 0 0 else 0

-- `i64::to_be_bytes`.
abbrev pub to_be_bytes : ℕ → List ℕ
to_be_bytes n =
    n / 2 ^ 56 % 256
    ∷ n / 2 ^ 48 % 256
    ∷ n / 2 ^ 40 % 256
    ∷ n / 2 ^ 32 % 256
    ∷ n / 2 ^ 24 % 256
    ∷ n / 2 ^ 16 % 256
    ∷ n / 2 ^ 8 % 256
    ∷ n % 256
    ∷ []

module _ (host : List Call → Call → Reply) where
  -- One call, noted whatever it answers.
  unfoldable pub ask : Call → Mf (List ℕ)
  ask c m = (answered (host m.log c), record m { log = c ∷ m.log })

  -- A call that cannot fail, or whose failure is passed over.
  unfoldable pub note : Call → Mf Reply
  note c m = (ok (host m.log c), record m { log = c ∷ m.log })
