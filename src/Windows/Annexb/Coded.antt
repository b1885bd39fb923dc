-- ===== src/Windows/Annexb/Coded.antt =====
-- `avcc_to_annexb` ends on every buffer, and each of its units begins with a start code of four bytes.
use xyzen_relay.Prelude.{
  ℕ, zero, suc, ◌+◌, ◌≤◌, ◌<◌, ◌≡◌, refl, ap, ◌∙◌, Bool-cases, inl, inr, Option, some, List, [],
  ◌∷◌, ◌++◌, arith, length, drop, All, length-drop,
}
use xyzen_relay.Windows.Annexb.{
  start_code, slice, is_annexb, push, from_be_bytes, avcc_loop, avcc_to_annexb,
}
use xyzen_relay.Windows.Annexb.Units.{units, with_codes}
use xyzen_relay.Windows.Annexb.Split.{annexb_split-units}
use xyzen_relay.Windows.Annexb.Avcc.{has_unit, from_be_bytes-drop, avcc_loop-end, avcc_loop-unit}

abbrev pub Coded : List ℕ → Type 0
Coded u = (unit : List ℕ) × (u ≡ start_code ++ unit)

with_codes-Coded : (us : List (List ℕ)) → All Coded (with_codes us)
unfolding with_codes
with_codes-Coded [] = tt
with_codes-Coded ([] ∷ us) = with_codes-Coded us
with_codes-Coded ((x ∷ u) ∷ us) = ((x ∷ u, refl), with_codes-Coded us)

abbrev EndsCoded : Option (List (List ℕ)) → Type 0
EndsCoded r = (us : List (List ℕ)) × ((r ≡ some us) × All Coded us)

EndsCoded-push :
    (unit : List ℕ) (r : Option (List (List ℕ)))
    → EndsCoded r
    → EndsCoded (push (start_code ++ unit) r)
EndsCoded-push unit r (us, (e, coded)) =
    ((start_code ++ unit) ∷ us, (ap (push (start_code ++ unit)) e, ((unit, refl), coded)))

avcc_loop-EndsCoded :
    (fuel off : ℕ) (buf : List ℕ)
    → length buf < off + fuel
    → off ≤ length buf
    → EndsCoded (avcc_loop fuel off buf)
unfolding has_unit
avcc_loop-EndsCoded zero off buf enough inside = absurd (omega arith)
avcc_loop-EndsCoded (suc fuel) off buf enough inside = elim (Bool-cases (has_unit (drop off buf))) [
  | inr ends ↦ ([], (avcc_loop-end fuel off buf ends, tt))
  | inl whole ↦
      let n = from_be_bytes buf off in
      let (us, (e, coded)) =
        EndsCoded-push (slice buf (off + 4) (off + 4 + n)) (avcc_loop fuel (off + 4 + n) buf) (
          avcc_loop-EndsCoded fuel (off + 4 + n) buf (omega arith)
            (ground (arith, from_be_bytes-drop off buf, length-drop off buf))) in
      (us, (avcc_loop-unit fuel off buf whole ∙ e, coded))
]

pub avcc_to_annexb-Coded :
    (buf : List ℕ) → (us : List (List ℕ)) × ((avcc_to_annexb buf ≡ some us) × All Coded us)
unfolding avcc_to_annexb
avcc_to_annexb-Coded buf = elim (Bool-cases (is_annexb buf)) [
  | inl annexb ↦ (
    with_codes (units 0 buf).1,
    (rw (annexb) (annexb_split-units buf), with_codes-Coded (units 0 buf).1),
  )
  | inr avcc ↦
      let (us, (e, coded)) =
        avcc_loop-EndsCoded (suc (length buf)) 0 buf (omega arith) (omega arith) in
      (us, (rw (avcc) e, coded))
]
