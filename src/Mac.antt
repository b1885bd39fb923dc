-- ===== src/Mac.antt =====
-- crates/mac-capturer/src/lib.rs, the capturer and the settings of the running capturer, with the functions of
-- crates/mac-capturer/swift/MacCapturer.swift that it calls. What ScreenCaptureKit and VideoToolbox
-- answer comes as an argument. An `i32`, and an `Int` of Swift, is a signed integer.
pub mod Resolution
pub mod Capture
pub mod Listing
use xyzen_relay.Prelude.{
  ℕ, suc, ◌+◌, ◌-◌, ◌*◌, ◌/◌, ◌%◌, ◌^◌, bit_and, bit_or, Bool, true, false, not, ◌&&◌, Option, none,
  some, ltb, leb, ◌==◌, if◌then◌else◌,
}
use xyzen_relay.Prelude.Int.{ℤ, pos, negsuc, clamp_pos}

-- `sharedCapturer`, where there is one.
pub record MacCapturer : Type 0 where
  pub width : ℤ
  pub height : ℤ
  pub fps : ℤ
  pub current_bitrate_kbps : ℤ
  pub stream : Bool
  pub encoder : Bool
  pub current_display_id : ℕ

abbrev pub Shared : Type 0
Shared = Option MacCapturer

-- `n as i32` of a `u32`, and `v as u32` back.
abbrev pub as_i32 : ℕ → ℤ
as_i32 n = if ltb n (2 ^ 31) then pos n else negsuc (2 ^ 32 - 1 - n)

abbrev pub as_u32 : ℤ → ℕ
as_u32 (pos n) = n % 2 ^ 32
as_u32 (negsuc n) = 2 ^ 32 - 1 - n % 2 ^ 32

abbrev pub eq_nat : ℤ → ℕ → Bool
eq_nat (pos a) n = a == n
eq_nat (negsuc a) n = false

-- `Int32(min(0xFFFF, z))`.
abbrev pub half_word : ℤ → ℤ
half_word (pos n) = pos (if leb n 0xffff then n else 0xffff)
half_word (negsuc n) = negsuc n

-- What the platform answers: whether the encoder takes a property, the stream a configuration, and
-- whether a new encoder can be made.
pub record Answers : Type 0 where
  pub property_set : Bool
  pub updated : Bool
  pub made : Bool

-- `setFps` and `setResolution`; `false` is a throw.
unfoldable pub set_fps_method : Answers → ℕ → MacCapturer → Bool × MacCapturer
set_fps_method a new_fps c =
    if eq_nat c.fps new_fps
    then (true, c)
    else if c.stream && a.updated
    then (true, record c { fps = pos new_fps })
    else (false, c)

unfoldable pub set_resolution_method : Answers → ℕ → ℕ → MacCapturer → Bool × MacCapturer
set_resolution_method a new_w new_h c =
    if eq_nat c.width new_w && eq_nat c.height new_h
    then (true, c)
    else if c.stream && a.updated
    then (a.made, record c { width = pos new_w; height = pos new_h; encoder = a.made })
    else (false, c)

-- The result that a function of Swift gives, and that of Rust made of it.
abbrev pub thrown : Bool × MacCapturer → ℕ × Shared
thrown (ok, c) = (if ok then 0 else 2, some c)

unfoldable pub xz_capturer_set_bitrate : Answers → ℤ → Shared → ℕ × Shared
xz_capturer_set_bitrate a kbps none = (1, none)
xz_capturer_set_bitrate a kbps (some c) =
    if not c.encoder
    then (1, some c)
    else if a.property_set
    then (0, some (record c { current_bitrate_kbps = pos (clamp_pos kbps 100 100000) }))
    else (2, some c)

unfoldable pub xz_capturer_set_fps : Answers → ℤ → Shared → ℕ × Shared
xz_capturer_set_fps a fps none = (1, none)
xz_capturer_set_fps a fps (some c) = thrown (set_fps_method a (clamp_pos fps 5 120) c)

unfoldable pub xz_capturer_set_resolution : Answers → ℤ → ℤ → Shared → ℕ × Shared
xz_capturer_set_resolution a width height none = (1, none)
xz_capturer_set_resolution a width height (some c) =
    thrown (set_resolution_method a (clamp_pos width 160 7680) (clamp_pos height 120 4320) c)

-- `(w << 16) | h` in 32 bits.
unfoldable pub xz_capturer_resolution : Shared → ℤ
xz_capturer_resolution none = pos 0
xz_capturer_resolution (some c) =
    as_i32 (bit_or (as_u32 (half_word c.width) * 2 ^ 16 % 2 ^ 32) (as_u32 (half_word c.height)))

abbrev pub field : (MacCapturer → ℤ) → Shared → ℤ
field f none = pos 0
field f (some c) = f c

pub data Outcome : Type 0 where
  done not_started set_failed : Outcome

abbrev pub outcome : ℕ → Outcome
outcome rc = if rc == 0 then done else if rc == 1 then not_started else set_failed

unfoldable pub set_bitrate_kbps : Answers → ℕ → Shared → Outcome × Shared
set_bitrate_kbps a kbps s =
    let (rc, s') = xz_capturer_set_bitrate a (as_i32 kbps) s in (outcome rc, s')

unfoldable pub set_fps : Answers → ℕ → Shared → Outcome × Shared
set_fps a fps s = let (rc, s') = xz_capturer_set_fps a (as_i32 fps) s in (outcome rc, s')

unfoldable pub set_resolution : Answers → ℕ → ℕ → Shared → Outcome × Shared
set_resolution a width height s =
    let (rc, s') = xz_capturer_set_resolution a (as_i32 width) (as_i32 height) s in (outcome rc, s')

-- A negative number is 0.
abbrev pub unsigned : ℤ → ℕ
unsigned (pos n) = n
unsigned (negsuc n) = 0

unfoldable pub bitrate_kbps : Shared → ℕ
bitrate_kbps s = unsigned (field (λ c. c.current_bitrate_kbps) s)

unfoldable pub fps : Shared → ℕ
fps s = unsigned (field (λ c. c.fps) s)

abbrev pub unpacked : ℤ → ℕ × ℕ
unpacked (negsuc n) = (0, 0)
unpacked (pos n) = if n == 0 then (0, 0) else (bit_and (n / 2 ^ 16) 0xffff, bit_and n 0xffff)

unfoldable pub resolution : Shared → ℕ × ℕ
resolution s = unpacked (xz_capturer_resolution s)
