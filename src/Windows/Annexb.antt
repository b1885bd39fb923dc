-- ===== src/Windows/Annexb.antt =====
-- crates/win-capturer/src/encoder.rs, `avcc_to_annexb` and below: an access unit of the encoder cut
-- into NAL units. `none` stands for a loop that is not done when its fuel is: a round goes at least
-- one byte on, so one round more than there are bytes is enough (Windows/Annexb/Coded.antt).
pub mod Units
pub mod Split
pub mod Avcc
pub mod Parse
pub mod Clean
pub mod Coded
use xyzen_relay.Prelude.{
  ℕ, zero, suc, ◌+◌, ◌-◌, ◌*◌, ◌/◌, ◌%◌, ◌^◌, Bool, ◌&&◌, ◌||◌, Option, none, some, List, [], ◌∷◌,
  ◌++◌, map, leb, ltb, ◌==◌, if◌then◌else◌, length, take, drop, get_or,
}
use xyzen_relay.Stream.Nal.{starts_with}

abbrev pub start_code : List ℕ
start_code = 0 ∷ 0 ∷ 0 ∷ 1 ∷ []

-- `&buf[begin..end]`.
abbrev pub slice : List ℕ → ℕ → ℕ → List ℕ
slice buf begin end = take (end - begin) (drop begin buf)

unfoldable pub is_annexb : List ℕ → Bool
is_annexb buf = starts_with buf (0 ∷ 0 ∷ 0 ∷ 1 ∷ []) || starts_with buf (0 ∷ 0 ∷ 1 ∷ [])

abbrev pub push {ℓ} : {A : Type ℓ} → A → Option (List A) → Option (List A)
push a none = none
push a (some as') = some (a ∷ as')

-- `u32::from_be_bytes` of the four bytes at `off`.
unfoldable pub from_be_bytes : List ℕ → ℕ → ℕ
from_be_bytes buf off =
    ((get_or buf off 0 * 256 + get_or buf (off + 1) 0) * 256 + get_or buf (off + 2) 0) * 256
    + get_or buf (off + 3) 0

-- The loop over the length-prefixed units, from `off`.
unfoldable pub avcc_loop : ℕ → ℕ → List ℕ → Option (List (List ℕ))
avcc_loop zero off avcc = none
avcc_loop (suc fuel) off avcc =
    let n = from_be_bytes avcc off in
    let rest =
      push (start_code ++ slice avcc (off + 4) (off + 4 + n)) (avcc_loop fuel (off + 4 + n) avcc) in
    if leb (off + 4) (length avcc)
    then if ltb (length avcc) (off + 4 + n) then some [] else rest
    else some []

-- How long the start code at `i` is, 0 if there is none. Three bytes are there to be read.
unfoldable pub start_code_at : ℕ → List ℕ → ℕ
start_code_at i buf =
    if get_or buf i 0 == 0 && get_or buf (i + 1) 0 == 0
    then if leb (i + 4) (length buf) && (get_or buf (i + 2) 0 == 0 && get_or buf (i + 3) 0 == 1)
      then 4
      else if get_or buf (i + 2) 0 == 1
      then 3
      else 0
    else 0

-- The first loop of `annexb_split`: where each unit begins, and the length of its start code.
unfoldable pub find_starts : ℕ → ℕ → List ℕ → Option (List (ℕ × ℕ))
find_starts zero i buf = none
find_starts (suc fuel) i buf =
    let k = start_code_at i buf in
    let rest = find_starts fuel (if k == 0 then i + 1 else i + k) buf in
    if leb (i + 3) (length buf) then if k == 0 then rest else push (i + k, k) rest else some []

-- One round of the second loop: a unit with no bytes is passed over.
abbrev pub framed : List ℕ → ℕ → ℕ → List (List ℕ) → List (List ℕ)
framed buf begin end out = if leb end begin then out else (start_code ++ slice buf begin end) ∷ out

-- `starts[idx + 1].0 - starts[idx + 1].1`, or the end of the buffer.
abbrev pub end_before : List ℕ → List (ℕ × ℕ) → ℕ
end_before buf [] = length buf
end_before buf ((begin, len) ∷ starts) = begin - len

unfoldable pub cut_units : List ℕ → List (ℕ × ℕ) → List (List ℕ)
cut_units buf [] = []
cut_units buf ((begin, len) ∷ starts) =
    framed buf begin (end_before buf starts) (cut_units buf starts)

unfoldable pub annexb_split : List ℕ → Option (List (List ℕ))
annexb_split buf = elim (find_starts (suc (length buf)) 0 buf) [
  | none ↦ none
  | some starts ↦ some (cut_units buf starts)
]

unfoldable pub avcc_to_annexb : List ℕ → Option (List (List ℕ))
avcc_to_annexb avcc =
    if is_annexb avcc then annexb_split avcc else avcc_loop (suc (length avcc)) 0 avcc
