-- ===== src/Control/Auth.antt =====
-- crates/control/src/http.rs, `require_token` and `ct_eq`: the bearer token of a request.
pub mod Gate
use xyzen_relay.Prelude.{
  ℕ, ◌≡◌, Bool, true, false, Option, none, some, List, [], ◌∷◌, bit_or, bit_xor, ◌==◌,
  if◌then◌else◌, length,
}
use xyzen_relay.Control.Errors.{Text, Result, ok, err, ◌>>=◌, or_fail, unauthorized}

-- The loop over `a.iter().zip(b.iter())`.
unfoldable pub ct_diff : ℕ → List ℕ → List ℕ → ℕ
ct_diff diff [] ys = diff
ct_diff diff (a ∷ xs) [] = diff
ct_diff diff (a ∷ xs) (b ∷ ys) = ct_diff (bit_or diff (bit_xor a b)) xs ys

unfoldable pub ct_eq : List ℕ → List ℕ → Bool
ct_eq a b = if length a == length b then ct_diff 0 a b == 0 else false

-- `str::strip_prefix`.
unfoldable pub strip_prefix : Text → Text → Option Text
strip_prefix s [] = some s
strip_prefix [] (p ∷ ps) = none
strip_prefix (c ∷ s) (p ∷ ps) = if c == p then strip_prefix s ps else none

-- "Bearer ", with its space.
abbrev pub bearer_prefix : Text
bearer_prefix = 0x42 ∷ 0x65 ∷ 0x61 ∷ 0x72 ∷ 0x65 ∷ 0x72 ∷ 0x20 ∷ []

-- `to_str` reads a header's value as text, and `as_bytes` is the UTF-8 of a text.
module _ (to_str : List ℕ → Option Text) where
  abbrev pub header_text : Option (List ℕ) → Option Text
  header_text none = none
  header_text (some v) = to_str v

module _ (to_str : List ℕ → Option Text) (as_bytes : Text → List ℕ) where
  unfoldable pub require_token : Option (List ℕ) → Text → Result (Unit {0})
  require_token authorization expected = do
    v ← or_fail (header_text to_str authorization) (unauthorized "missing Authorization")
    bearer ← or_fail (strip_prefix v bearer_prefix) (unauthorized "expected Bearer token")
    if ct_eq (as_bytes bearer) (as_bytes expected)
        then ok tt
        else err (unauthorized "invalid token")
