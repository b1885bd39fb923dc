-- ===== src/Control/Ids/Digits.antt =====
-- The shape of the ids that crates/control/src/ids.rs draws.
use xyzen_relay.Prelude.{
  ℕ, zero, suc, ◌+◌, ◌/◌, ◌%◌, ◌^◌, ◌≤◌, ◌<◌, ◌≡◌, [], ◌∷◌, length, length-append, All, All-append,
  Bool-cases, true, inl, inr, arith, ltb,
}
use xyzen_relay.Control.Ids.{span, base, digit, decimal, random_id}

abbrev pub IsDigit : ℕ → Type 0
IsDigit c = (0x30 ≤ c) × (c ≤ 0x39)

length-decimal :
    (k fuel n : ℕ) → 10 ^ k ≤ n → n < 10 ^ suc k → k < fuel → length (decimal fuel n) ≡ suc k
unfolding decimal
length-decimal zero (suc fuel) n low high more = ground arith
length-decimal (suc k) (suc fuel) n low high more =
    let rest = length-decimal k fuel (n / 10) (omega arith) (omega arith) (omega arith) in
    let enough : 10 ≤ n = omega arith in
    ground (arith, length-append (decimal fuel (n / 10)) (digit (n % 10) ∷ []))
length-decimal k zero n low high more = absurd (omega arith)

decimal-IsDigit : (fuel n : ℕ) → All IsDigit (decimal fuel n)
unfolding decimal
decimal-IsDigit zero n = tt
decimal-IsDigit (suc fuel) n = elim (Bool-cases (ltb n 10)) [
  | inl small ↦ rw small ((omega arith, digit_le small), tt)
  | inr large ↦ rw large (
      All-append IsDigit (decimal fuel (n / 10)) (digit (n % 10) ∷ [])
        (decimal-IsDigit fuel (n / 10)) ((omega arith, omega arith), tt))
]
  where
    digit_le : ltb n 10 ≡ true → 0x30 + n ≤ 0x39
    digit_le small = ground arith

-- An id that is drawn has nine characters, and each is a decimal digit.
pub random_id-nine_digits :
    (word : ℕ) → (length (random_id word) ≡ 9) × All IsDigit (random_id word)
unfolding random_id
random_id-nine_digits word = (
  length-decimal 8 20 (word % span + base) (omega arith) (omega arith) (omega arith),
  decimal-IsDigit 20 (word % span + base),
)
