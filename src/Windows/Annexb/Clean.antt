-- ===== src/Windows/Annexb/Clean.antt =====
-- Annex-B streams of units with no start code inside: that they come out as they are, and what
-- becomes of one unit of 257 to 511 bytes in the length-prefixed form.
use xyzen_relay.Prelude.{
  ℕ, ◌/◌, ◌%◌, ◌<◌, ◌≡◌, refl, ap, ◌∙◌, Bool, true, false, not, ◌&&◌, some, List, [], ◌∷◌, ◌++◌,
  map, append-nil, arith, ◌==◌, length, All,
}
use xyzen_relay.Stream.Nal.{starts_with}
use xyzen_relay.Windows.Annexb.{start_code, is_annexb, avcc_to_annexb}
use xyzen_relay.Windows.Annexb.Units.{code_len, units, with_codes, units-plain, units-code}
use xyzen_relay.Windows.Annexb.Split.{annexb_split-units}
use xyzen_relay.Windows.Annexb.Avcc.{be32, is_annexb-be32}

-- No start code begins anywhere in the bytes.
unfoldable pub no_code : List ℕ → Bool
unfolding code_len
no_code [] = true
no_code (x ∷ s) = code_len (x ∷ s) == 0 && no_code s

-- There is a last byte and it is not 0.
unfoldable pub ends_nonzero : List ℕ → Bool
ends_nonzero [] = false
ends_nonzero (x ∷ []) = not (x == 0)
ends_nonzero (x ∷ y ∷ s) = ends_nonzero (y ∷ s)

units-no_code : (s : List ℕ) → no_code s ≡ true → units 0 s ≡ (s, [])
unfolding no_code
units-no_code [] h = unfold units in refl
units-no_code (x ∷ s) h =
    let e : code_len (x ∷ s) ≡ 0 = ground arith in
    let rest : no_code s ≡ true = ground arith in
    units-plain x s e ∙ ap (λ (u : List ℕ × List (List ℕ)). (x ∷ u.0, u.1)) (units-no_code s rest)

-- A start code is not made by what follows such a unit.
code_len-append :
    (x : ℕ) (nal s : List ℕ)
    → code_len (x ∷ nal) ≡ 0
    → ends_nonzero (x ∷ nal) ≡ true
    → code_len (x ∷ (nal ++ s)) ≡ 0
unfolding code_len ends_nonzero
code_len-append x [] s e h = ground arith
code_len-append x (a ∷ []) s e h = ground arith
code_len-append x (a ∷ b ∷ []) s e h = ground arith
code_len-append x (a ∷ b ∷ c ∷ nal) s e h = ground arith

units-append :
    (nal s : List ℕ)
    → no_code nal ≡ true
    → ends_nonzero nal ≡ true
    → units 0 (nal ++ s) ≡ (nal ++ (units 0 s).0, (units 0 s).1)
unfolding no_code ends_nonzero
units-append [] s clean ends = absurd (ground arith)
units-append (x ∷ []) s clean ends = units-plain x s (code_len-append x [] s (ground arith) ends)
units-append (x ∷ y ∷ nal) s clean ends =
    let e : code_len (x ∷ y ∷ nal) ≡ 0 = ground arith in
    let rest : no_code (y ∷ nal) ≡ true = ground arith in
    units-plain x (y ∷ (nal ++ s)) (code_len-append x (y ∷ nal) s e ends)
    ∙ ap (λ (u : List ℕ × List (List ℕ)). (x ∷ u.0, u.1)) (units-append (y ∷ nal) s rest ends)

-- Units, each behind a start code of four bytes or of three.
abbrev pub code : Bool → List ℕ
code true = 0 ∷ 0 ∷ 0 ∷ 1 ∷ []
code false = 0 ∷ 0 ∷ 1 ∷ []

unfoldable pub annexb_stream : List (Bool × List ℕ) → List ℕ
annexb_stream [] = []
annexb_stream ((long, nal) ∷ nals) = code long ++ (nal ++ annexb_stream nals)

units-coded :
    (long : Bool) (s : List ℕ) → units 0 (code long ++ s) ≡ ([], (units 0 s).0 ∷ (units 0 s).1)
unfolding code_len
units-coded true s = units-code 3 0 (0 ∷ 0 ∷ 1 ∷ s) refl
units-coded false s = units-code 2 0 (0 ∷ 1 ∷ s) refl

abbrev pub Whole : Bool × List ℕ → Type 0
Whole (long, nal) = (no_code nal ≡ true) × (ends_nonzero nal ≡ true)

units-annexb_stream :
    (nals : List (Bool × List ℕ))
    → All Whole nals
    → units 0 (annexb_stream nals) ≡ ([], map (λ (u : Bool × List ℕ). u.1) nals)
unfolding annexb_stream
units-annexb_stream [] whole = unfold units in refl
units-annexb_stream ((long, nal) ∷ nals) ((clean, ends), whole) =
    let ih = units-annexb_stream nals whole in
    units-coded long (nal ++ annexb_stream nals)
    ∙ ap (λ (u : List ℕ × List (List ℕ)). ([], u.0 ∷ u.1))
        (units-append nal (annexb_stream nals) clean ends)
    ∙ ap (λ (u : List ℕ × List (List ℕ)). ([], (nal ++ u.0) ∷ u.1)) ih
    ∙ ap (λ u. ([], u ∷ map (λ (u : Bool × List ℕ). u.1) nals)) (append-nil nal)

with_codes-Whole :
    (nals : List (Bool × List ℕ))
    → All Whole nals
    → with_codes (map (λ (u : Bool × List ℕ). u.1) nals)
      ≡ map (λ (u : Bool × List ℕ). start_code ++ u.1) nals
unfolding with_codes ends_nonzero
with_codes-Whole [] whole = refl
with_codes-Whole ((long, []) ∷ nals) ((clean, ends), whole) = absurd (ground arith)
with_codes-Whole ((long, x ∷ nal) ∷ nals) ((clean, ends), whole) =
    ap (λ out. (start_code ++ (x ∷ nal)) ∷ out) (with_codes-Whole nals whole)

is_annexb-stream : (long : Bool) (s : List ℕ) → is_annexb (code long ++ s) ≡ true
unfolding is_annexb starts_with
is_annexb-stream true s = refl
is_annexb-stream false s = refl

-- An Annex-B stream of units, each behind a start code of three bytes or of four, none with a start
-- code in it and none that is empty or ends in 0, comes out as those units, each behind four bytes.
pub avcc_to_annexb-annexb_stream :
    (long : Bool) (nal : List ℕ) (nals : List (Bool × List ℕ))
    → All Whole ((long, nal) ∷ nals)
    → avcc_to_annexb (annexb_stream ((long, nal) ∷ nals))
      ≡ some (map (λ (u : Bool × List ℕ). start_code ++ u.1) ((long, nal) ∷ nals))
unfolding avcc_to_annexb annexb_stream
avcc_to_annexb-annexb_stream long nal nals whole =
    let all = (long, nal) ∷ nals in
    rw (is_annexb-stream long (nal ++ annexb_stream nals)) (
      annexb_split-units (annexb_stream all)
      ∙ ap (λ (u : List ℕ × List (List ℕ)). some (with_codes u.1)) (units-annexb_stream all whole)
      ∙ ap some (with_codes-Whole all whole))

no_code-cons : (x : ℕ) (s : List ℕ) → 0 < x → no_code s ≡ true → no_code (x ∷ s) ≡ true
unfolding no_code code_len
no_code-cons x [] h clean = ground arith
no_code-cons x (a ∷ s) h clean = ground arith

-- One length-prefixed unit of 257 to 511 bytes with no start code in it is taken for Annex-B: out
-- comes the unit behind the last byte of its length, which the decoder then reads as the unit's type.
pub avcc_to_annexb-sniffed :
    (nal : List ℕ)
    → 256 < length nal
    → length nal < 512
    → no_code nal ≡ true
    → avcc_to_annexb (be32 (length nal) ++ nal)
      ≡ some ((start_code ++ (length nal % 256 ∷ nal)) ∷ [])
unfolding avcc_to_annexb code_len with_codes
avcc_to_annexb-sniffed nal low high clean =
    let n = length nal in
    let first : (n / 16777216) % 256 ≡ 0 = omega arith in
    let second : (n / 65536) % 256 ≡ 0 = omega arith in
    let third : (n / 256) % 256 ≡ 1 = omega arith in
    let known : is_annexb (be32 n ++ nal) ≡ true =
      is_annexb-be32 n nal (omega arith) ∙ ground arith in
    let body = n % 256 ∷ nal in
    let inside : no_code body ≡ true = no_code-cons (n % 256) nal (omega arith) clean in
    let split : units 0 (be32 n ++ nal) ≡ ([], body ∷ []) =
      rw (first, second, third)
        (units-coded false body
          ∙ ap (λ (u : List ℕ × List (List ℕ)). ([], u.0 ∷ u.1)) (units-no_code body inside)) in
    rw (known) (
      annexb_split-units (be32 n ++ nal)
      ∙ ap (λ (u : List ℕ × List (List ℕ)). some (with_codes u.1)) split)
