-- ===== src/Windows/Annexb/Parse.antt =====
-- Every buffer of bytes is a stream of length-prefixed units with less than a unit behind it.
use xyzen_relay.Prelude.{
  ℕ, zero, suc, ◌+◌, ◌*◌, ◌/◌, ◌%◌, ◌^◌, ◌≤◌, ◌<◌, ◌≡◌, refl, sym, ap, ◌∙◌, true, false, Bool-cases,
  inl, inr, some, List, [], ◌∷◌, ◌++◌, map, append_assoc, arith, length, take, drop, All, All-drop,
  length-drop, length-take_of_le, take-append-drop,
}
use xyzen_relay.Windows.Annexb.{start_code, is_annexb, from_be_bytes, avcc_to_annexb}
use xyzen_relay.Windows.Annexb.Avcc.{be32, avcc_stream, has_unit, avcc_stream-le, avcc_loop-stream}

-- The whole unit at the front of a text of bytes, and what is behind it.
be32-from_be_bytes :
    (a b c d : ℕ)
    → a < 256
    → b < 256
    → c < 256
    → d < 256
    → be32 (((a * 256 + b) * 256 + c) * 256 + d) ≡ a ∷ b ∷ c ∷ d ∷ []
be32-from_be_bytes a b c d ha hb hc hd =
    let n = ((a * 256 + b) * 256 + c) * 256 + d in
    let first : (n / 16777216) % 256 ≡ a = omega arith in
    let second : (n / 65536) % 256 ≡ b = omega arith in
    let third : (n / 256) % 256 ≡ c = omega arith in
    let fourth : n % 256 ≡ d = omega arith in rw (first, second, third, fourth) refl

front-unit :
    (s : List ℕ)
    → All (λ b. b < 256) s
    → has_unit s ≡ true
    → (nal : List ℕ) × ((rest : List ℕ) × ((s ≡ be32 (length nal) ++ (nal ++ rest))
          × ((length nal < 2 ^ 32) × (All (λ b. b < 256) rest × (length rest < length s)))))
unfolding has_unit from_be_bytes
front-unit [] bytes h = absurd (ground arith)
front-unit (a ∷ []) bytes h = absurd (ground arith)
front-unit (a ∷ b ∷ []) bytes h = absurd (ground arith)
front-unit (a ∷ b ∷ c ∷ []) bytes h = absurd (ground arith)
front-unit (a ∷ b ∷ c ∷ d ∷ s) (ba, (bb, (bc, (bd, bytes)))) h =
    let n = ((a * 256 + b) * 256 + c) * 256 + d in
    let long : n ≤ length s = ground arith in
    let size : length (take n s) ≡ n = length-take_of_le n s long in
    let code : be32 (length (take n s)) ≡ a ∷ b ∷ c ∷ d ∷ [] =
      ap be32 size ∙ be32-from_be_bytes a b c d ba bb bc bd in
    (
      take n s,
      (
        drop n s,
        (
          sym (
              ap (λ p. p ++ (take n s ++ drop n s)) code
              ∙ ap (λ t. a ∷ b ∷ c ∷ d ∷ t) (take-append-drop n s)),
          (omega arith, (All-drop (λ b. b < 256) n s bytes, omega (arith, length-drop n s))),
        ),
      ),
    )

-- What the loop makes of a buffer: it is a stream of whole units with less than one behind them, and
-- the units are what comes out.
abbrev Parsed : List ℕ → Type 0
Parsed s =
    (nals : List (List ℕ)) × ((tail : List ℕ) × ((s ≡ avcc_stream nals ++ tail)
        × (All (λ u. length u < 2 ^ 32) nals × (has_unit tail ≡ false))))

Parsed-unit :
    (nal rest s : List ℕ)
    → length nal < 2 ^ 32
    → s ≡ be32 (length nal) ++ (nal ++ rest)
    → Parsed rest
    → Parsed s
unfolding avcc_stream
Parsed-unit nal rest s fits front (nals, (tail, (e, (small, ends)))) =
    let joined = ap (λ t. be32 (length nal) ++ (nal ++ t)) e in
    let regroup =
      ap (λ t. be32 (length nal) ++ t) (sym (append_assoc nal (avcc_stream nals) tail)) in
    (nal ∷ nals, (tail, (front ∙ joined ∙ regroup, ((fits, small), ends))))

parsed : (fuel : ℕ) (s : List ℕ) → All (λ b. b < 256) s → length s < fuel → Parsed s
unfolding avcc_stream
parsed zero s bytes enough = absurd (omega arith)
parsed (suc fuel) s bytes enough = elim (Bool-cases (has_unit s)) [
  | inr ends ↦ ([], (s, (refl, (tt, ends))))
  | inl whole ↦
      let (nal, (rest, (front, (fits, (rest_bytes, shorter))))) = front-unit s bytes whole in
      Parsed-unit nal rest s fits front (parsed fuel rest rest_bytes (omega arith))
]

-- On every buffer of bytes that is not taken for Annex-B the loop ends: the buffer is a stream of
-- length-prefixed units with less than a whole unit behind it, and the units come out in order, each
-- behind a start code of four bytes.
pub avcc_to_annexb-total :
    (s : List ℕ)
    → All (λ b. b < 256) s
    → is_annexb s ≡ false
    → (nals : List (List ℕ)) × ((tail : List ℕ) × ((s ≡ avcc_stream nals ++ tail)
          × ((has_unit tail ≡ false)
              × (avcc_to_annexb s ≡ some (map (λ u. start_code ++ u) nals)))))
unfolding avcc_to_annexb
avcc_to_annexb-total s bytes apart =
    let (nals, (tail, (e, (small, ends)))) = parsed (suc (length s)) s bytes (omega arith) in
    let count = avcc_stream-le nals tail in
    let enough : length nals < suc (length s) = omega (arith, ap (length {A = ℕ}) e) in
    (
      nals,
      (
        tail,
        (
          e,
          (ends, rw (apart) (avcc_loop-stream nals tail s (suc (length s)) 0 small ends e enough)),
        ),
      ),
    )
