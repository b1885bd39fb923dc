-- ===== src/Windows/Nv12.antt =====
-- crates/win-capturer/src/encoder.rs, `bgra_to_nv12`: a captured picture turned into the planes that
-- the encoder takes. `none` is a panic, a read or a write out of range. An `i32` is the number
-- itself: the terms are bytes, or their means, times numbers below 256, far below 2 ^ 31.
pub mod Planes
pub mod Chroma
pub mod Picture
pub mod Range
pub mod Bounds
use xyzen_relay.Prelude.{
  ℕ, zero, suc, ◌+◌, ◌-◌, ◌*◌, ◌/◌, Option, none, some, List, [], ◌∷◌, leb, if◌then◌else◌,
}
use xyzen_relay.Prelude.Int.{ℤ, pos, negsuc, clamp_pos}

-- `xs[i]`.
abbrev pub get_elem? {ℓ} : {A : Type ℓ} → List A → ℕ → Option A
get_elem? [] i = none
get_elem? (x ∷ xs) zero = some x
get_elem? (x ∷ xs) (suc i) = get_elem? xs i

abbrev pub push_front : ℕ → Option (List ℕ) → Option (List ℕ)
push_front x none = none
push_front x (some xs) = some (x ∷ xs)

-- `xs[i] = v`.
abbrev pub set : List ℕ → ℕ → ℕ → Option (List ℕ)
set [] i v = none
set (x ∷ xs) zero v = some (v ∷ xs)
set (x ∷ xs) (suc i) v = push_front x (set xs i v)

-- What comes after a step that may panic.
abbrev pub and_then {ℓ κ} : {A : Type ℓ} {B : Type κ} → Option A → (A → Option B) → Option B
and_then none k = none
and_then (some a) k = k a

-- `z + k` and `z - k`.
abbrev pub add_nat : ℤ → ℕ → ℤ
add_nat (pos n) k = pos (n + k)
add_nat (negsuc n) k = if leb k n then negsuc (n - k) else pos (k - suc n)

abbrev pub sub_nat : ℤ → ℕ → ℤ
sub_nat (pos n) k = if leb k n then pos (n - k) else negsuc (k - suc n)
sub_nat (negsuc n) k = negsuc (n + k)

-- `z >> 8`, which rounds down.
abbrev pub shift_8 : ℤ → ℤ
shift_8 (pos n) = pos (n / 256)
shift_8 (negsuc n) = negsuc (n / 256)

unfoldable pub luma : ℕ → ℕ → ℕ → ℕ
luma b g r = clamp_pos (add_nat (shift_8 (pos (66 * r + 129 * g + 25 * b + 128))) 16) 0 255

unfoldable pub chroma_u : ℕ → ℕ → ℕ → ℕ
chroma_u b g r =
    let sum = add_nat (add_nat (sub_nat (sub_nat (pos 0) (38 * r)) (74 * g)) (112 * b)) 128 in
    clamp_pos (add_nat (shift_8 sum) 128) 0 255

unfoldable pub chroma_v : ℕ → ℕ → ℕ → ℕ
chroma_v b g r =
    let sum = add_nat (sub_nat (sub_nat (pos (112 * r)) (94 * g)) (18 * b)) 128 in
    clamp_pos (add_nat (shift_8 sum) 128) 0 255

-- One byte of the first plane: the pixel at `src[i]`, written at `dst[j]`.
unfoldable pub write_luma : List ℕ → ℕ → ℕ → List ℕ → Option (List ℕ)
write_luma src i j dst = and_then (get_elem? src i) (λ b.
    and_then (get_elem? src (i + 1))
      (λ g. and_then (get_elem? src (i + 2)) (λ r. set dst j (luma b g r))))

-- `for x in 0..w`, with the columns left and `x`, and `for y in 0..h`, with the rows left and `y`.
unfoldable pub luma_row : List ℕ → ℕ → ℕ → ℕ → ℕ → List ℕ → Option (List ℕ)
luma_row src src_row dst_row zero x dst = some dst
luma_row src src_row dst_row (suc n) x dst =
    and_then (write_luma src (src_row + x * 4) (dst_row + x) dst)
      (luma_row src src_row dst_row n (suc x))

unfoldable pub luma_rows : List ℕ → ℕ → ℕ → ℕ → List ℕ → Option (List ℕ)
luma_rows src w zero y dst = some dst
luma_rows src w (suc n) y dst =
    and_then (luma_row src (y * w * 4) (y * w) w 0 dst) (luma_rows src w n (suc y))

-- The sums over the pixels so far, blue, green and red.
abbrev pub Sums : Type 0
Sums = ℕ × ℕ × ℕ

unfoldable pub add_pixel : List ℕ → ℕ → Sums → Option Sums
add_pixel src i (sum_b, sum_g, sum_r) = and_then (get_elem? src i) (λ b.
    and_then (get_elem? src (i + 1))
      (λ g. and_then (get_elem? src (i + 2)) (λ r. some (sum_b + b, sum_g + g, sum_r + r))))

-- The loops over `dy` and `dx`, two rounds each.
unfoldable pub block_sums : List ℕ → ℕ → ℕ → ℕ → Option Sums
block_sums src w y x = and_then (add_pixel src (((y + 0) * w + (x + 0)) * 4) (0, 0, 0)) (λ s.
    and_then (add_pixel src (((y + 0) * w + (x + 1)) * 4) s) (λ s.
      and_then (add_pixel src (((y + 1) * w + (x + 0)) * 4) s)
        (λ s. add_pixel src (((y + 1) * w + (x + 1)) * 4) s)))

unfoldable pub write_chroma : List ℕ → ℕ → ℕ → ℕ → ℕ → List ℕ → Option (List ℕ)
write_chroma src w uv_off y x dst =
    let dst_idx = uv_off + y / 2 * w + x in
    and_then (block_sums src w y x) (λ (s : Sums).
      let b = s.0 / 4 in
      let g = s.1 / 4 in
      let r = s.2 / 4 in
      and_then (set dst dst_idx (chroma_u b g r)) (λ dst. set dst (dst_idx + 1) (chroma_v b g r)))

-- `(0..w).step_by(2)` and `(0..h).step_by(2)`, with the rounds left.
unfoldable pub chroma_row : List ℕ → ℕ → ℕ → ℕ → ℕ → ℕ → List ℕ → Option (List ℕ)
chroma_row src w uv_off y zero x dst = some dst
chroma_row src w uv_off y (suc n) x dst =
    and_then (write_chroma src w uv_off y x dst) (chroma_row src w uv_off y n (x + 2))

unfoldable pub chroma_rows : List ℕ → ℕ → ℕ → ℕ → ℕ → List ℕ → Option (List ℕ)
chroma_rows src w uv_off zero y dst = some dst
chroma_rows src w uv_off (suc n) y dst =
    and_then (chroma_row src w uv_off y ((w + 1) / 2) 0 dst) (chroma_rows src w uv_off n (y + 2))

unfoldable pub bgra_to_nv12 : List ℕ → ℕ → ℕ → List ℕ → Option (List ℕ)
bgra_to_nv12 src w h dst =
    and_then (luma_rows src w h 0 dst) (chroma_rows src w (w * h) ((h + 1) / 2) 0)
