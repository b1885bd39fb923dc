-- ===== src/Windows/Annexb/Units.antt =====
-- A plain reading of an Annex-B stream, from the front and with no positions, which
-- `annexb_split` is compared with.
use xyzen_relay.Prelude.{
  ℕ, zero, suc, ◌-◌, ◌≤◌, ◌<◌, ◌≡◌, refl, ap, false, ℕ-cases, inl, inr, List, [], ◌∷◌, ◌++◌, arith,
  is_empty, leb, ◌==◌, if◌then◌else◌, length, take, drop, length-drop, get_or-drop,
}
use xyzen_relay.Stream.Nal.{starts_with}
use xyzen_relay.Windows.Annexb.{start_code, start_code_at}

-- The length of the start code that a text of bytes begins with, 0 if it begins with none.
unfoldable pub code_len : List ℕ → ℕ
unfolding starts_with
code_len s =
    if starts_with s (0 ∷ 0 ∷ 0 ∷ 1 ∷ [])
    then 4
    else if starts_with s (0 ∷ 0 ∷ 1 ∷ [])
    then 3
    else 0

-- What stands before the first start code, and what stands behind each. The number is how many bytes
-- of a start code are left to be passed over.
unfoldable pub units : ℕ → List ℕ → List ℕ × List (List ℕ)
units skip [] = ([], [])
units (suc skip) (x ∷ s) = units skip s
units zero (x ∷ s) =
    let k = code_len (x ∷ s) in
    let rest = units (k - 1) s in if k == 0 then (x ∷ rest.0, rest.1) else ([], rest.0 ∷ rest.1)

-- Every unit with bytes in it, behind a start code of four bytes.
unfoldable pub with_codes : List (List ℕ) → List (List ℕ)
with_codes [] = []
with_codes (unit ∷ rest) =
    if is_empty unit then with_codes rest else (start_code ++ unit) ∷ with_codes rest

units-skip : (k : ℕ) (s : List ℕ) → units k s ≡ units 0 (drop k s)
unfolding units
units-skip zero s = refl
units-skip (suc k) [] = refl
units-skip (suc k) (x ∷ s) = units-skip k s

pub code_len-le : (s : List ℕ) → code_len s ≤ length s
unfolding code_len
code_len-le [] = ground arith
code_len-le (a ∷ []) = ground arith
code_len-le (a ∷ b ∷ []) = ground arith
code_len-le (a ∷ b ∷ c ∷ []) = ground arith
code_len-le (a ∷ b ∷ c ∷ d ∷ s) = ground arith

pub start_code_at-front :
    (s : List ℕ) → start_code_at 0 s ≡ (if leb 3 (length s) then code_len s else 0)
unfolding start_code_at code_len
start_code_at-front [] = ground arith
start_code_at-front (a ∷ []) = ground arith
start_code_at-front (a ∷ b ∷ []) = ground arith
start_code_at-front (a ∷ b ∷ c ∷ []) = ground arith
start_code_at-front (a ∷ b ∷ c ∷ d ∷ s) = ground arith

pub start_code_at-drop : (i : ℕ) (buf : List ℕ) → start_code_at i buf ≡ start_code_at 0 (drop i buf)
unfolding start_code_at
start_code_at-drop i buf = ground (
  arith,
  get_or-drop i 0 buf 0,
  get_or-drop i 1 buf 0,
  get_or-drop i 2 buf 0,
  get_or-drop i 3 buf 0,
  length-drop i buf,
)

pub units-plain :
    (x : ℕ) (s : List ℕ)
    → code_len (x ∷ s) ≡ 0
    → units 0 (x ∷ s) ≡ (x ∷ (units 0 s).0, (units 0 s).1)
unfolding units
units-plain x s e = rw (e, units) refl

pub units-code :
    (k x : ℕ) (s : List ℕ)
    → code_len (x ∷ s) ≡ suc k
    → units 0 (x ∷ s) ≡ ([], (units 0 (drop k s)).0 ∷ (units 0 (drop k s)).1)
unfolding units
units-code k x s e =
    let small : suc k - 1 ≡ k = omega arith in
    let apart : (suc k == 0) ≡ false = ground arith in
    rw (e, small, apart) (ap (λ (u : List ℕ × List (List ℕ)). ([], u.0 ∷ u.1)) (units-skip k s))

pub units-short : (s : List ℕ) → length s < 3 → units 0 s ≡ (s, [])
unfolding units code_len
units-short [] h = refl
units-short (a ∷ []) h = ground arith
units-short (a ∷ b ∷ []) h = ground arith
units-short (a ∷ b ∷ c ∷ s) h = absurd (omega arith)

-- What stands before the first start code is a beginning of the bytes.
pub units-front : (s : List ℕ) → (units 0 s).0 ≡ take (length (units 0 s).0) s
units-front [] = unfold units in refl
units-front (x ∷ s) = elim (ℕ-cases (code_len (x ∷ s))) [
  | inl e ↦ rw (units-plain x s e) (ap (◌∷◌ x) (units-front s))
  | inr (k, e) ↦ rw (units-code k x s e) refl
]
