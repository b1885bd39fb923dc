-- ===== src/Windows/Annexb/Avcc.antt =====
-- The length-prefixed form that a hardware encoder emits: what the loop makes of it, and the lengths
-- that `is_annexb` takes for a start code.
use xyzen_relay.Prelude.{
  ℕ, zero, suc, ◌+◌, ◌-◌, ◌/◌, ◌%◌, ◌^◌, ◌≤◌, ◌<◌, ◌≡◌, refl, sym, ap, ◌∙◌, Bool, true, false, ◌&&◌,
  ◌||◌, some, List, [], ◌∷◌, ◌++◌, map, append_assoc, arith, leb, ltb, ◌==◌, length, take, drop,
  All, length-append, length-drop, drop-drop, get_or-drop, take-length_append, drop-length_append,
}
use xyzen_relay.Stream.Nal.{starts_with}
use xyzen_relay.Windows.Annexb.{
  start_code, slice, is_annexb, push, from_be_bytes, avcc_loop, avcc_to_annexb,
}

-- `u32::to_be_bytes`.
abbrev pub be32 : ℕ → List ℕ
be32 n = (n / 16777216) % 256 ∷ (n / 65536) % 256 ∷ (n / 256) % 256 ∷ n % 256 ∷ []

-- Units, each behind its length.
unfoldable pub avcc_stream : List (List ℕ) → List ℕ
avcc_stream [] = []
avcc_stream (nal ∷ nals) = be32 (length nal) ++ (nal ++ avcc_stream nals)

-- Whether a whole unit stands at the front.
unfoldable pub has_unit : List ℕ → Bool
unfolding from_be_bytes
has_unit s = leb 4 (length s) && leb (4 + from_be_bytes s 0) (length s)

pub from_be_bytes-drop :
    (off : ℕ) (buf : List ℕ) → from_be_bytes buf off ≡ from_be_bytes (drop off buf) 0
unfolding from_be_bytes
from_be_bytes-drop off buf = ground (
  arith,
  get_or-drop off 0 buf 0,
  get_or-drop off 1 buf 0,
  get_or-drop off 2 buf 0,
  get_or-drop off 3 buf 0,
)

from_be_bytes-be32 : (n : ℕ) (s : List ℕ) → n < 2 ^ 32 → from_be_bytes (be32 n ++ s) 0 ≡ n
unfolding from_be_bytes
from_be_bytes-be32 n s h = omega arith

-- A round: nothing whole is left, or the unit at `off`.
pub avcc_loop-end :
    (fuel off : ℕ) (buf : List ℕ)
    → has_unit (drop off buf) ≡ false
    → avcc_loop (suc fuel) off buf ≡ some []
unfolding avcc_loop has_unit
avcc_loop-end fuel off buf h =
    let n = from_be_bytes-drop off buf in ground (arith, length-drop off buf)

pub avcc_loop-unit :
    (fuel off : ℕ) (buf : List ℕ)
    → has_unit (drop off buf) ≡ true
    → avcc_loop (suc fuel) off buf
      ≡ push
          (start_code ++ slice buf (off + 4) (off + 4 + from_be_bytes buf off))
          (avcc_loop fuel (off + 4 + from_be_bytes buf off) buf)
unfolding avcc_loop has_unit
avcc_loop-unit fuel off buf h =
    let n = from_be_bytes-drop off buf in
    let here : leb (off + 4) (length buf) ≡ true = ground (arith, length-drop off buf) in
    let whole : ltb (length buf) (off + 4 + from_be_bytes buf off) ≡ false =
      ground (arith, length-drop off buf) in
    rw (here, whole) refl

-- The round at a unit that stands at `off`.
avcc_loop-front :
    (nal rest buf : List ℕ) (fuel off : ℕ)
    → length nal < 2 ^ 32
    → drop off buf ≡ be32 (length nal) ++ (nal ++ rest)
    → (avcc_loop (suc fuel) off buf
        ≡ push (start_code ++ nal) (avcc_loop fuel (off + 4 + length nal) buf))
      × (drop (off + 4 + length nal) buf ≡ rest)
unfolding has_unit
avcc_loop-front nal rest buf fuel off fits at =
    let n = length nal in
    let read : from_be_bytes (drop off buf) 0 ≡ n =
      ap (λ s. from_be_bytes s 0) at ∙ from_be_bytes-be32 n (nal ++ rest) fits in
    let value : from_be_bytes buf off ≡ n = from_be_bytes-drop off buf ∙ read in
    let whole : has_unit (drop off buf) ≡ true =
      ground (arith, ap (length {A = ℕ}) at, length-append nal rest) in
    let behind : drop (off + 4) buf ≡ nal ++ rest = sym (drop-drop off 4 buf) ∙ ap (drop 4) at in
    let size : off + 4 + n - (off + 4) ≡ n = omega arith in
    let unit : slice buf (off + 4) (off + 4 + n) ≡ nal =
      ap (λ k. take k (drop (off + 4) buf)) size
      ∙ ap (take n) behind
      ∙ take-length_append nal rest in
    (
      avcc_loop-unit fuel off buf whole
          ∙ ap
              (λ k.
                push (start_code ++ slice buf (off + 4) (off + 4 + k))
                  (avcc_loop fuel (off + 4 + k) buf))
              value
          ∙ ap (λ u. push (start_code ++ u) (avcc_loop fuel (off + 4 + n) buf)) unit,
      sym (drop-drop (off + 4) n buf) ∙ ap (drop n) behind ∙ drop-length_append nal rest,
    )

-- The loop on a stream that begins at `off`, and ends in less than a unit.
pub avcc_loop-stream :
    (nals : List (List ℕ)) (tail buf : List ℕ) (fuel off : ℕ)
    → All (λ nal. length nal < 2 ^ 32) nals
    → has_unit tail ≡ false
    → drop off buf ≡ avcc_stream nals ++ tail
    → length nals < fuel
    → avcc_loop fuel off buf ≡ some (map (λ nal. start_code ++ nal) nals)
unfolding avcc_stream
avcc_loop-stream nals tail buf zero off small ends at enough = absurd (omega arith)
avcc_loop-stream [] tail buf (suc fuel) off small ends at enough =
    avcc_loop-end fuel off buf (rw (at) ends)
avcc_loop-stream (nal ∷ nals) tail buf (suc fuel) off (fits, small) ends at enough =
    let front = at ∙ ap (λ s. be32 (length nal) ++ s) (append_assoc nal (avcc_stream nals) tail) in
    let (round, next) = avcc_loop-front nal (avcc_stream nals ++ tail) buf fuel off fits front in
    round
    ∙ ap (push (start_code ++ nal))
        (avcc_loop-stream nals tail buf fuel (off + 4 + length nal) small ends next (omega arith))

pub avcc_stream-le :
    (nals : List (List ℕ)) (tail : List ℕ) → length nals ≤ length (avcc_stream nals ++ tail)
unfolding avcc_stream
avcc_stream-le [] tail = omega arith
avcc_stream-le (nal ∷ nals) tail = omega (
  arith,
  avcc_stream-le nals tail,
  length-append nal (avcc_stream nals),
  length-append (nal ++ avcc_stream nals) tail,
  length-append (avcc_stream nals) tail,
)

-- A first length of 1, or of 256 to 511, is what `is_annexb` looks for.
abbrev pub sniffed : ℕ → Bool
sniffed n = n == 1 || n / 256 == 1

pub is_annexb-be32 : (n : ℕ) (s : List ℕ) → n < 2 ^ 32 → is_annexb (be32 n ++ s) ≡ sniffed n
unfolding is_annexb starts_with
is_annexb-be32 n s fits = ground arith

-- A stream of length-prefixed units whose first length is neither 1 nor 256 to 511, with less than a
-- whole unit behind it, comes out as those units, each behind a start code of four bytes.
pub avcc_to_annexb-stream :
    (nal : List ℕ) (nals : List (List ℕ)) (tail : List ℕ)
    → All (λ u. length u < 2 ^ 32) (nal ∷ nals)
    → sniffed (length nal) ≡ false
    → has_unit tail ≡ false
    → avcc_to_annexb (avcc_stream (nal ∷ nals) ++ tail)
      ≡ some (map (λ u. start_code ++ u) (nal ∷ nals))
unfolding avcc_stream avcc_to_annexb
avcc_to_annexb-stream nal nals tail (fits, small) apart ends =
    let buf = avcc_stream (nal ∷ nals) ++ tail in
    let known = is_annexb-be32 (length nal) ((nal ++ avcc_stream nals) ++ tail) fits ∙ apart in
    let enough = avcc_stream-le (nal ∷ nals) tail in
    rw (known) (
      avcc_loop-stream (nal ∷ nals) tail buf (suc (length buf)) 0 (fits, small) ends refl
        (omega arith))
