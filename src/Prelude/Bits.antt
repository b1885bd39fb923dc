-- ===== src/Prelude/Bits.antt =====
-- Bit operations as arithmetic: a shifted field joined with low bits, and masks over one byte.
use Prim.Native.Nat.{
  ℕ, zero, suc, ◌+◌, ◌*◌, ◌/◌, ◌%◌, ◌^◌, ◌≤◌, ◌<◌, min, max, digits, differ, bit_and, bit_or,
  bit_xor, bit_and-bitwise, bit_or-bitwise, bit_xor-bitwise,
}
use native.Mathlib.Nat.{pow-suc}
use mathlib.Core.Path.{◌≡◌, refl, ap}
use mathlib.Core.Logic.{◌↔◌}
use mathlib.Core.Bool.{Bool, true, ◌&&◌}
use native.Mathlib.Omega.{arith}

-- Every value of a small range, by evaluation.
unfoldable pub all_below : ℕ → (ℕ → Bool) → Bool
all_below zero p = true
all_below (suc n) p = p n && all_below n p

pub all_below_sound :
    (bound : ℕ) (test : ℕ → Bool) (k : ℕ) → all_below bound test ≡ true → k < bound → test k ≡ true
unfolding all_below
all_below_sound zero test k all small = absurd (omega arith)
all_below_sound (suc bound) test k all small = ground (arith, all_below_sound bound test k)

-- The recursion that the bit operations stand for, one binary digit for each unit of fuel.
-- Once the fuel covers the first number, more makes no difference.
module _ (z : ℕ → ℕ) (f : ℕ → ℕ → ℕ) where
  fuel_irrelevant : (n m a b : ℕ) → a ≤ n → a ≤ m → digits z f n a b ≡ digits z f m a b
  fuel_irrelevant zero zero a b h k = refl
  fuel_irrelevant zero (suc m) zero b h k = refl
  fuel_irrelevant (suc n) zero zero b h k = refl
  fuel_irrelevant (suc n) (suc m) zero b h k = refl
  fuel_irrelevant zero (suc m) (suc a) b h k = absurd (omega arith)
  fuel_irrelevant (suc n) zero (suc a) b h k = absurd (omega arith)
  fuel_irrelevant (suc n) (suc m) (suc a) b h k =
      rw (fuel_irrelevant n m (suc a / 2) (b / 2) (omega arith) (omega arith))

bit_or_digit : (a b : ℕ) → bit_or a b ≡ bit_or (a / 2) (b / 2) * 2 + max (a % 2) (b % 2)
bit_or_digit zero b = omega (arith, bit_or-bitwise 0 b, bit_or-bitwise 0 (b / 2))
bit_or_digit (suc a) b = omega (
  arith,
  bit_or-bitwise (suc a) b,
  bit_or-bitwise (suc a / 2) (b / 2),
  fuel_irrelevant (λ y. y) max a (suc a / 2) (suc a / 2) (b / 2) (omega arith) (omega arith),
)

bit_and_digit : (a b : ℕ) → bit_and a b ≡ bit_and (a / 2) (b / 2) * 2 + min (a % 2) (b % 2)
bit_and_digit zero b = omega (arith, bit_and-bitwise 0 b, bit_and-bitwise 0 (b / 2))
bit_and_digit (suc a) b = omega (
  arith,
  bit_and-bitwise (suc a) b,
  bit_and-bitwise (suc a / 2) (b / 2),
  fuel_irrelevant (λ y. 0) min a (suc a / 2) (suc a / 2) (b / 2) (omega arith) (omega arith),
)

bit_and-zero_below : (n a : ℕ) → a ≤ n → bit_and a 0 ≡ 0
bit_and-zero_below n zero h = refl
bit_and-zero_below zero (suc a) h = absurd (omega arith)
bit_and-zero_below (suc n) (suc a) h =
    omega (arith, bit_and_digit (suc a) 0, bit_and-zero_below n (suc a / 2) (omega arith))

-- Masks of ones, each from the one with a digit less.
bit_and-one : (a : ℕ) → bit_and a 1 ≡ a % 2
bit_and-one a = omega (arith, bit_and_digit a 1, bit_and-zero_below (a / 2) (a / 2) (omega arith))

pub bit_and-three : (a : ℕ) → bit_and a 3 ≡ a % 4
bit_and-three a = omega (arith, bit_and_digit a 3, bit_and-one (a / 2))

bit_and-nibble : (a : ℕ) → bit_and a 15 ≡ a % 16
bit_and-nibble a =
    omega (arith, bit_and_digit a 15, bit_and_digit (a / 2) 7, bit_and-three (a / 2 / 2))

pub bit_and-five_bits : (a : ℕ) → bit_and a 0x1f ≡ a % 32
bit_and-five_bits a = omega (arith, bit_and_digit a 0x1f, bit_and-nibble (a / 2))

pub bit_and-six_bits : (a : ℕ) → bit_and a 0x3f ≡ a % 64
bit_and-six_bits a = omega (arith, bit_and_digit a 0x3f, bit_and-five_bits (a / 2))

pub bit_and-byte : (a : ℕ) → bit_and a 0xff ≡ a % 256
bit_and-byte a =
    omega (arith, bit_and_digit a 0xff, bit_and_digit (a / 2) 0x7f, bit_and-six_bits (a / 2 / 2))

bit_and-eleven_bits : (a : ℕ) → bit_and a 0x7ff ≡ a % 2048
bit_and-eleven_bits a = omega (
  arith,
  bit_and_digit a 0x7ff,
  bit_and_digit (a / 2) 0x3ff,
  bit_and_digit (a / 2 / 2) 0x1ff,
  bit_and-byte (a / 2 / 2 / 2),
)

bit_and-fourteen_bits : (a : ℕ) → bit_and a 0x3fff ≡ a % 16384
bit_and-fourteen_bits a = omega (
  arith,
  bit_and_digit a 0x3fff,
  bit_and_digit (a / 2) 0x1fff,
  bit_and_digit (a / 2 / 2) 0xfff,
  bit_and-eleven_bits (a / 2 / 2 / 2),
)

pub bit_and-two_bytes : (a : ℕ) → bit_and a 0xffff ≡ a % 65536
bit_and-two_bytes a =
    omega (
      arith,
      bit_and_digit a 0xffff,
      bit_and_digit (a / 2) 0x7fff,
      bit_and-fourteen_bits (a / 2 / 2),
    )

bit_or-zero_below : (n a : ℕ) → a ≤ n → bit_or a 0 ≡ a
bit_or-zero_below n zero h = refl
bit_or-zero_below zero (suc a) h = absurd (omega arith)
bit_or-zero_below (suc n) (suc a) h =
    omega (arith, bit_or_digit (suc a) 0, bit_or-zero_below n (suc a / 2) (omega arith))

double_field : (q k : ℕ) → q * 2 ^ suc k ≡ 2 * (q * 2 ^ k)
double_field q k = omega (arith, ap (λ (t : ℕ). q * t) (pow-suc 2 k))

-- `(q << k) | r` is a sum when `r` fits in `k` bits.
pub bit_or-shifted : (k q r : ℕ) → r < 2 ^ k → bit_or (q * 2 ^ k) r ≡ q * 2 ^ k + r
bit_or-shifted zero q r fits = ground (arith, bit_or-zero_below q q)
bit_or-shifted (suc k) q r fits = ground (
  arith,
  bit_or_digit (q * 2 ^ suc k) r,
  double_field q k,
  bit_or-shifted k q (r / 2) (omega arith),
)

bit_or_comm_below : (n a b : ℕ) → a ≤ n → b ≤ n → bit_or a b ≡ bit_or b a
bit_or_comm_below zero zero zero h k = refl
bit_or_comm_below zero (suc a) b h k = absurd (omega arith)
bit_or_comm_below zero zero (suc b) h k = absurd (omega arith)
bit_or_comm_below (suc n) a b h k = omega (
  arith,
  bit_or_digit a b,
  bit_or_digit b a,
  bit_or_comm_below n (a / 2) (b / 2) (omega arith) (omega arith),
)

pub bit_or_comm : (a b : ℕ) → bit_or a b ≡ bit_or b a
bit_or_comm a b = bit_or_comm_below (a + b) a b (omega arith) (omega arith)

-- `r | (q << k)`, in the order in which the source joins header bytes.
pub bit_or-low : (k q r : ℕ) → r < 2 ^ k → bit_or r (q * 2 ^ k) ≡ r + q * 2 ^ k
bit_or-low k q r fits = omega (arith, bit_or_comm r (q * 2 ^ k), bit_or-shifted k q r fits)

-- An `or` is 0 exactly when both sides are; a `xor` is 0 exactly when they are equal.
bit_or-eq-zero_below : (n a b : ℕ) → a ≤ n → b ≤ n → bit_or a b ≡ 0 → (a ≡ 0) × (b ≡ 0)
bit_or-eq-zero_below zero a b h k e = omega arith
bit_or-eq-zero_below (suc n) a b h k e =
    let digit = bit_or_digit a b in
    let halves = bit_or-eq-zero_below n (a / 2) (b / 2) (omega arith) (omega arith) (omega arith) in
    omega (arith, halves.0, halves.1)

pub bit_or-eq-zero_iff : (a b : ℕ) → (bit_or a b ≡ 0) ↔ ((a ≡ 0) × (b ≡ 0))
bit_or-eq-zero_iff a b =
    (bit_or-eq-zero_below (a + b) a b (omega arith) (omega arith), λ e. rw (e.0, e.1))

bit_xor_digit : (a b : ℕ) → bit_xor a b ≡ bit_xor (a / 2) (b / 2) * 2 + differ (a % 2) (b % 2)
bit_xor_digit zero b = omega (arith, bit_xor-bitwise 0 b, bit_xor-bitwise 0 (b / 2))
bit_xor_digit (suc a) b = omega (
  arith,
  bit_xor-bitwise (suc a) b,
  bit_xor-bitwise (suc a / 2) (b / 2),
  fuel_irrelevant (λ y. y) differ a (suc a / 2) (suc a / 2) (b / 2) (omega arith) (omega arith),
)

differ-eq-zero_iff : (x y : ℕ) → (differ x y ≡ 0) ↔ (x ≡ y)
differ-eq-zero_iff zero y = (λ e. omega arith, λ e. omega arith)
differ-eq-zero_iff (suc x) zero = (λ e. omega arith, λ e. omega arith)
differ-eq-zero_iff (suc x) (suc y) =
    let ih = differ-eq-zero_iff x y in (λ e. omega (arith, ih.0 e), λ e. ih.1 (omega arith))

bit_xor-eq-zero_below : (n a b : ℕ) → a ≤ n → b ≤ n → (bit_xor a b ≡ 0) ↔ (a ≡ b)
bit_xor-eq-zero_below zero zero zero h k = (λ e. refl, λ e. refl)
bit_xor-eq-zero_below zero zero (suc b) h k = absurd (omega arith)
bit_xor-eq-zero_below zero (suc a) b h k = absurd (omega arith)
bit_xor-eq-zero_below (suc n) a b h k =
    let digit = bit_xor_digit a b in
    let halves = bit_xor-eq-zero_below n (a / 2) (b / 2) (omega arith) (omega arith) in
    let low = differ-eq-zero_iff (a % 2) (b % 2) in
    (
      λ e. omega (arith, halves.0 (omega arith), low.0 (omega arith)),
      λ e. omega (arith, halves.1 (omega arith), low.1 (omega arith)),
    )

pub bit_xor-eq-zero_iff : (a b : ℕ) → (bit_xor a b ≡ 0) ↔ (a ≡ b)
bit_xor-eq-zero_iff a b = bit_xor-eq-zero_below (a + b) a b (omega arith) (omega arith)
