-- ===== src/Control/Auth/Gate.antt =====
-- Which requests pass the bearer check.
use Prim.Native.String.{String}
use xyzen_relay.Prelude.{
  ℕ, ◌≡◌, refl, sym, ap, subst, ◌∙◌, ◌↔◌, ◌⊎◌, ◌≢◌, inl, inr, true, Bool-cases, Option, none, some,
  Option-cases, List, [], ◌∷◌, ◌++◌, length, ◌==◌, ==_iff, arith, bit_or, bit_xor, if◌then◌else◌,
}
use xyzen_relay.Prelude.Bits.{bit_or-eq-zero_iff, bit_xor-eq-zero_iff}
use xyzen_relay.Control.Errors.{Text, Result, ok, err, ◌>>=◌, or_fail, unauthorized}
use xyzen_relay.Control.Auth.{
  ct_diff, ct_eq, strip_prefix, bearer_prefix, header_text, require_token,
}

ct_diff-eq-zero :
    (d : ℕ) (a b : List ℕ) → length a ≡ length b → (ct_diff d a b ≡ 0) ↔ ((d ≡ 0) × (a ≡ b))
unfolding ct_diff
ct_diff-eq-zero d [] [] l = (λ e. (e, refl), λ e. e.0)
ct_diff-eq-zero d [] (y ∷ ys) l = absurd (omega arith)
ct_diff-eq-zero d (x ∷ xs) [] l = absurd (omega arith)
ct_diff-eq-zero d (x ∷ xs) (y ∷ ys) l =
    let rest = ct_diff-eq-zero (bit_or d (bit_xor x y)) xs ys (omega arith) in
    let both = bit_or-eq-zero_iff d (bit_xor x y) in
    let here = bit_xor-eq-zero_iff x y in
    (
      λ e.
          let (joined, same) = rest.0 e in
          let (before, differ) = both.0 joined in (before, cc (here.0 differ)),
      λ e. rest.1 (both.1 (e.0, here.1 (cc)), cc),
    )

ct_eq-eq-true : (a b : List ℕ) → ct_eq a b ≡ true → a ≡ b
unfolding ct_eq
ct_eq-eq-true a b e = elim (Bool-cases (length a == length b)) [
  | inl l ↦ ((ct_diff-eq-zero 0 a b ((==_iff (length a) (length b)).0 l)).0 (ground arith)).1
  | inr l ↦ cc
]

-- The comparison that does not stop early is equality.
pub ct_eq_iff : (a b : List ℕ) → (ct_eq a b ≡ true) ↔ (a ≡ b)
ct_eq_iff a b = (ct_eq-eq-true a b, λ e. subst (λ x. ct_eq a x ≡ true) e (ct_eq_refl a))
  where
    ct_eq_refl : (a : List ℕ) → ct_eq a a ≡ true
    ct_eq_refl a =
        unfold ct_eq in
        rw ((==_iff (length a) (length a)).1 refl)
          (rw ((ct_diff-eq-zero 0 a a refl).1 (refl, refl)))

strip_prefix-append : (p r : Text) → strip_prefix (p ++ r) p ≡ some r
unfolding strip_prefix
strip_prefix-append [] [] = refl
strip_prefix-append [] (c ∷ r) = refl
strip_prefix-append (c ∷ p) r = rw ((==_iff c c).1 refl) (strip_prefix-append p r)

strip_prefix-eq-some : (s p r : Text) → strip_prefix s p ≡ some r → s ≡ p ++ r
unfolding strip_prefix
strip_prefix-eq-some [] [] r e = cc
strip_prefix-eq-some (c ∷ s) [] r e = cc
strip_prefix-eq-some [] (q ∷ p) r e = cc
strip_prefix-eq-some (c ∷ s) (q ∷ p) r e = ground (arith, strip_prefix-eq-some s p r)

abbrev pub IsUnauthorized : Result (Unit {0}) → Type 0
IsUnauthorized r = (m : String) × (r ≡ err (unauthorized m))

module _ (to_str : List ℕ → Option Text) (as_bytes : Text → List ℕ)
    (injective : (s t : Text) → as_bytes s ≡ as_bytes t → s ≡ t) where
  -- What `require_token` does with the text of the header.
  check : Option Text → Text → Result (Unit {0})
  check header expected = do
    v ← or_fail header (unauthorized "missing Authorization")
    bearer ← or_fail (strip_prefix v bearer_prefix) (unauthorized "expected Bearer token")
    if ct_eq (as_bytes bearer) (as_bytes expected)
        then ok tt
        else err (unauthorized "invalid token")

  check_cases :
      (header : Option Text) (expected : Text)
      → ((header ≡ some (bearer_prefix ++ expected)) × (check header expected ≡ ok tt))
        ⊎ ((header ≢ some (bearer_prefix ++ expected)) × IsUnauthorized (check header expected))
  check_cases none expected = inr (λ e. cc, ("missing Authorization", unfold check in refl))
  check_cases (some v) expected = elim (Option-cases (strip_prefix v bearer_prefix)) [
    | inl e ↦ inr (λ p. cc (e, prefix_of v p), ("expected Bearer token", unfold check in rw e))
    | inr (bearer, e) ↦ elim (Bool-cases (ct_eq (as_bytes bearer) (as_bytes expected))) [
      | inl same ↦
          let eq = injective bearer expected ((ct_eq_iff _ _).0 same) in
          inl (
            ap some (strip_prefix-eq-some v bearer_prefix bearer e ∙ ap (◌++◌ bearer_prefix) eq),
            unfold check in rw (e, same),
          )
      | inr other ↦ inr (
        λ p.
            let eq : bearer ≡ expected = cc (e, prefix_of v p) in
            cc (other, (ct_eq_iff _ _).1 (ap as_bytes eq)),
        ("invalid token", unfold check in rw (e, other)),
      )
    ]
  ]
    where
      prefix_of :
          (v : Text)
          → some v ≡ some (bearer_prefix ++ expected)
          → strip_prefix v bearer_prefix ≡ some expected
      prefix_of v p =
          let same : v ≡ bearer_prefix ++ expected = cc p in
          subst (λ t. strip_prefix t bearer_prefix ≡ some expected) (sym same)
            (strip_prefix-append bearer_prefix expected)

  -- A request is let through exactly when its Authorization header reads as "Bearer " followed by the
  -- expected token; any other request, with or without a header, is refused with the status 401.
  -- `as_bytes` is the UTF-8 encoding, of which it is used that different texts differ.
  pub require_token_cases :
      (authorization : Option (List ℕ)) (expected : Text)
      → ((header_text to_str authorization ≡ some (bearer_prefix ++ expected))
          × (require_token to_str as_bytes authorization expected ≡ ok tt))
        ⊎ ((header_text to_str authorization ≢ some (bearer_prefix ++ expected))
            × IsUnauthorized (require_token to_str as_bytes authorization expected))
  unfolding require_token
  require_token_cases authorization expected =
      unfold check in check_cases (header_text to_str authorization) expected
