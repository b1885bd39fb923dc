-- ===== src/Windows/Annexb/Split.antt =====
-- That `annexb_split` reads the units of Windows/Annexb/Units.antt.
use xyzen_relay.Prelude.{
  ℕ, zero, suc, ◌+◌, ◌-◌, ◌≤◌, ◌<◌, ◌≡◌, refl, sym, ap, subst, ◌∙◌, true, false, Bool-cases,
  ℕ-cases, inl, inr, some, List, [], ◌∷◌, ◌++◌, arith, is_empty, leb, ◌==◌, if◌then◌else◌, length,
  take, drop, get_or, length-drop, drop-drop, drop-eq-cons,
}
use xyzen_relay.Windows.Annexb.{
  start_code, slice, push, start_code_at, find_starts, framed, end_before, cut_units, annexb_split,
}
use xyzen_relay.Windows.Annexb.Units.{
  code_len, units, with_codes, code_len-le, start_code_at-front, start_code_at-drop, units-plain,
  units-code, units-short, units-front,
}

-- The positions that the first loop finds, from `i`, cut the rest of the buffer into its units.
record Finds (i : ℕ) (buf : List ℕ) (starts : List (ℕ × ℕ)) (u : List ℕ × List (List ℕ))
    : Type 0 where
  front_end : end_before buf starts ≡ i + length u.0
  cut : cut_units buf starts ≡ with_codes u.1

framed-unit :
    (buf : List ℕ) (begin end : ℕ) (unit : List ℕ) (rest : List (List ℕ))
    → slice buf begin end ≡ unit
    → end ≡ begin + length unit
    → framed buf begin end rest ≡ (if is_empty unit then rest else (start_code ++ unit) ∷ rest)
framed-unit buf begin end [] rest bytes e =
    let none_left : leb end begin ≡ true = ground arith in rw (none_left) refl
framed-unit buf begin end (x ∷ unit) rest bytes e =
    let some_left : leb end begin ≡ false = ground arith in rw (some_left, bytes) refl

Finds-push :
    (i k : ℕ) (buf : List ℕ) (starts : List (ℕ × ℕ)) (s : List ℕ)
    → drop (i + suc k) buf ≡ s
    → Finds (i + suc k) buf starts (units 0 s)
    → Finds i buf ((i + suc k, suc k) ∷ starts) ([], (units 0 s).0 ∷ (units 0 s).1)
unfolding cut_units with_codes
Finds-push i k buf starts s e f =
    let begin = i + suc k in
    let unit = (units 0 s).0 in
    let long : end_before buf starts - begin ≡ length unit = omega (arith, f.front_end) in
    let bytes : slice buf begin (end_before buf starts) ≡ unit =
      ap (λ (n : ℕ). take n (drop begin buf)) long
      ∙ ap (take (length unit)) e
      ∙ sym (units-front s) in
    record {
      front_end = omega arith;
      cut =
          framed-unit buf begin (end_before buf starts) unit (cut_units buf starts) bytes
            f.front_end
          ∙ ap (λ (r : List (List ℕ)). if is_empty unit then r else (start_code ++ unit) ∷ r) f.cut;
    }

-- The first loop ends, with the right positions, on fuel for each byte left and one round more.
abbrev Found : ℕ → ℕ → List ℕ → Type 0
Found fuel i buf =
    (starts : List (ℕ × ℕ)) × ((find_starts fuel i buf ≡ some starts)
      × Finds i buf starts (units 0 (drop i buf)))

start_code_at-code_len :
    (i : ℕ) (buf : List ℕ)
    → leb (i + 3) (length buf) ≡ true
    → start_code_at i buf ≡ code_len (drop i buf)
start_code_at-code_len i buf here =
    let enough : leb 3 (length (drop i buf)) ≡ true = ground (arith, length-drop i buf) in
    start_code_at-drop i buf ∙ start_code_at-front (drop i buf) ∙ rw (enough) refl

-- A round at a byte that begins no start code, and one at a start code.
Found-plain :
    (fuel i : ℕ) (buf : List ℕ)
    → leb (i + 3) (length buf) ≡ true
    → code_len (drop i buf) ≡ 0
    → Found fuel (i + 1) buf
    → Found (suc fuel) i buf
unfolding find_starts
Found-plain fuel i buf here e (starts, (found, f)) =
    let at = start_code_at-code_len i buf here ∙ e in
    let next : suc i ≡ i + 1 = omega arith in
    let front = drop-eq-cons i buf 0 (ground arith) ∙ ap (λ n. get_or buf i 0 ∷ drop n buf) next in
    let split =
      ap (units 0) front
      ∙ units-plain (get_or buf i 0) (drop (i + 1) buf) (ap code_len (sym front) ∙ e) in
    (
      starts,
      (
        rw (here, at) found,
        record {
          front_end =
              omega (arith, f.front_end, ap (λ (u : List ℕ × List (List ℕ)). length u.0) split);
          cut = f.cut ∙ ap (λ (u : List ℕ × List (List ℕ)). with_codes u.1) (sym split);
        },
      ),
    )

Found-code :
    (fuel i k : ℕ) (buf : List ℕ)
    → leb (i + 3) (length buf) ≡ true
    → code_len (drop i buf) ≡ suc k
    → Found fuel (i + suc k) buf
    → Found (suc fuel) i buf
unfolding find_starts
Found-code fuel i k buf here e (starts, (found, f)) =
    let at = start_code_at-code_len i buf here ∙ e in
    let front = drop-eq-cons i buf 0 (ground arith) in
    let behind : drop k (drop (suc i) buf) ≡ drop (i + suc k) buf =
      drop-drop (suc i) k buf ∙ ap (λ n. drop n buf) (omega arith) in
    let split =
      ap (units 0) front
      ∙ units-code k (get_or buf i 0) (drop (suc i) buf) (ap code_len (sym front) ∙ e) in
    let apart : (suc k == 0) ≡ false = ground arith in
    (
      (i + suc k, suc k) ∷ starts,
      (
        rw (here, at, apart) (ap (push (i + suc k, suc k)) found),
        subst (Finds i buf ((i + suc k, suc k) ∷ starts))
            (ap (λ s. ([], (units 0 s).0 ∷ (units 0 s).1)) (sym behind) ∙ sym split)
            (Finds-push i k buf starts (drop (i + suc k) buf) refl f),
      ),
    )

Found-over :
    (fuel i : ℕ) (buf : List ℕ)
    → leb (i + 3) (length buf) ≡ false
    → i ≤ length buf
    → Found (suc fuel) i buf
unfolding find_starts cut_units with_codes
Found-over fuel i buf over inside =
    let left : length (drop i buf) < 3 = ground (arith, length-drop i buf) in
    let split = units-short (drop i buf) left in
    (
      [],
      (
        rw (over) refl,
        record {
          front_end =
              omega
                (arith, length-drop i buf, ap (λ (u : List ℕ × List (List ℕ)). length u.0) split);
          cut = ap (λ (u : List ℕ × List (List ℕ)). with_codes u.1) (sym split);
        },
      ),
    )

find_starts-Finds :
    (fuel i : ℕ) (buf : List ℕ) → length buf < i + fuel → i ≤ length buf → Found fuel i buf
unfolding find_starts
find_starts-Finds zero i buf enough inside = absurd (omega arith)
find_starts-Finds (suc fuel) i buf enough inside = elim (Bool-cases (leb (i + 3) (length buf))) [
  | inr over ↦ Found-over fuel i buf over inside
  | inl here ↦ elim (ℕ-cases (code_len (drop i buf))) [
    | inl e ↦
        Found-plain fuel i buf here e
          (find_starts-Finds fuel (i + 1) buf (omega arith) (ground arith))
    | inr (k, e) ↦ Found-code fuel i k buf here e (
        find_starts-Finds fuel (i + suc k) buf (omega arith)
          (ground (arith, length-drop i buf, code_len-le (drop i buf))))
  ]
]

-- `annexb_split` ends on every buffer, with the units that the plain reading has, those with no bytes
-- left out, each behind a start code of four bytes.
pub annexb_split-units : (buf : List ℕ) → annexb_split buf ≡ some (with_codes (units 0 buf).1)
unfolding annexb_split
annexb_split-units buf =
    let (starts, (found, f)) =
      find_starts-Finds (suc (length buf)) 0 buf (omega arith) (omega arith) in
    rw (annexb_split, found) (ap some f.cut)
