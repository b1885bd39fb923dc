-- ===== src/Codec/Header.antt =====
-- The header as arithmetic: what `encode` writes for a length, and what `decode` reads from the bytes.
use xyzen_relay.Prelude.{
  ℕ, ◌+◌, ◌-◌, ◌*◌, ◌/◌, ◌%◌, ◌^◌, ◌≤◌, ◌<◌, ◌≡◌, refl, ◌⊎◌, inl, inr, List, ◌∷◌, ◌++◌, length,
  drop, arith, bit_and,
}
use xyzen_relay.Prelude.Bits.{bit_and-three, bit_and-byte, bit_or-shifted, bit_or-low}
use xyzen_relay.Codec.{header_size, header_word, head_len_for, header_for, header_bytes}

-- A length below 2 ^ 30, shifted past the two bits that hold the header's length.
header_for_lem : (n : ℕ) → n < 2 ^ 30 → header_for n ≡ n * 4 + (head_len_for n - 1)
unfolding header_for
header_for_lem n h = ground (arith, bit_or-shifted 2 n (head_len_for n - 1))

byte_of : (h i : ℕ) → bit_and (h / 2 ^ (i * 8)) 0xff ≡ h / 2 ^ (i * 8) % 256
byte_of h i = bit_and-byte (h / 2 ^ (i * 8))

-- Header bytes in little-endian order, joined.
header_word_two :
    (b0 b1 : ℕ) (rest : List ℕ) → b0 < 256 → header_word 2 (b0 ∷ b1 ∷ rest) ≡ b0 + b1 * 256
unfolding header_word
header_word_two b0 b1 rest h = ground (arith, bit_or-low 8 b1 b0)

header_word_three :
    (b0 b1 b2 : ℕ) (rest : List ℕ)
    → b0 < 256
    → b1 < 256
    → header_word 3 (b0 ∷ b1 ∷ b2 ∷ rest) ≡ b0 + b1 * 256 + b2 * 65536
unfolding header_word
header_word_three b0 b1 b2 rest h k =
    ground (arith, bit_or-low 8 b1 b0, bit_or-low 16 b2 (b0 + b1 * 256))

header_word_four :
    (b0 b1 b2 b3 : ℕ) (rest : List ℕ)
    → b0 < 256
    → b1 < 256
    → b2 < 256
    → header_word 4 (b0 ∷ b1 ∷ b2 ∷ b3 ∷ rest) ≡ b0 + b1 * 256 + b2 * 65536 + b3 * 16777216
unfolding header_word
header_word_four b0 b1 b2 b3 rest h k l = ground (
  arith,
  bit_or-low 8 b1 b0,
  bit_or-low 16 b2 (b0 + b1 * 256),
  bit_or-low 24 b3 (b0 + b1 * 256 + b2 * 65536),
)

-- What a header of `k` bytes gives back, in front of any bytes.
pub record Reads (k h : ℕ) (rest : List ℕ) : Type 0 where
  pub size : header_size (header_bytes k 0 h ++ rest) ≡ h % 4 + 1
  pub word : header_word k (header_bytes k 0 h ++ rest) ≡ h
  pub tail : drop k (header_bytes k 0 h ++ rest) ≡ rest
  pub length_eq : length (header_bytes k 0 h ++ rest) ≡ k + length rest

module _ (h : ℕ) (rest : List ℕ) where
  first_byte : bit_and (bit_and (h / 2 ^ (0 * 8)) 0xff) 3 + 1 ≡ h % 4 + 1
  first_byte = omega (arith, byte_of h 0, bit_and-three (bit_and (h / 2 ^ (0 * 8)) 0xff))

  Reads-one : h < 2 ^ 8 → Reads 1 h rest
  unfolding header_bytes header_size header_word
  Reads-one lt = record {
    size = first_byte;
    word = omega (arith, byte_of h 0);
    tail = refl;
    length_eq = omega arith;
  }

  Reads-two : h < 2 ^ 16 → Reads 2 h rest
  unfolding header_bytes header_size
  Reads-two lt = record {
    size = first_byte;
    word =
        rw (byte_of h 0, byte_of h 1)
          (omega (arith, header_word_two (h / 2 ^ 0 % 256) (h / 2 ^ 8 % 256) rest (omega arith)));
    tail = refl;
    length_eq = omega arith;
  }

  Reads-three : h < 2 ^ 24 → Reads 3 h rest
  unfolding header_bytes header_size
  Reads-three lt = record {
    size = first_byte;
    word =
        rw (byte_of h 0, byte_of h 1, byte_of h 2)
          (omega
            (arith, header_word_three (h / 2 ^ 0 % 256) (h / 2 ^ 8 % 256) (h / 2 ^ 16 % 256) rest));
    tail = refl;
    length_eq = omega arith;
  }

  Reads-four : h < 2 ^ 32 → Reads 4 h rest
  unfolding header_bytes header_size
  Reads-four lt = record {
    size = first_byte;
    word =
        rw (byte_of h 0, byte_of h 1, byte_of h 2, byte_of h 3)
          (omega (
            arith,
            header_word_four (h / 2 ^ 0 % 256) (h / 2 ^ 8 % 256) (h / 2 ^ 16 % 256)
                (h / 2 ^ 24 % 256) rest,
          ));
    tail = refl;
    length_eq = omega arith;
  }

abbrev HeadLen : ℕ → ℕ → ℕ → Type 0
HeadLen n k bits = (head_len_for n ≡ k) × (n < 2 ^ bits)

HeadLen-cases :
    (n : ℕ) → n < 2 ^ 30 → HeadLen n 1 6 ⊎ (HeadLen n 2 14 ⊎ (HeadLen n 3 22 ⊎ HeadLen n 4 30))
unfolding head_len_for
HeadLen-cases n h = ground arith

-- The header that `encode` writes for a length is read back by `decode`.
pub header_for-Reads :
    (n : ℕ) (rest : List ℕ) → n < 2 ^ 30 → Reads (head_len_for n) (header_for n) rest
header_for-Reads n rest lt = elim (HeadLen-cases n lt) [
  | inl (e, b) ↦ rw e (Reads-one _ rest (omega (arith, header_for_lem n lt)))
  | inr (inl (e, b)) ↦ rw e (Reads-two _ rest (omega (arith, header_for_lem n lt)))
  | inr (inr (inl (e, b))) ↦ rw e (Reads-three _ rest (omega (arith, header_for_lem n lt)))
  | inr (inr (inr (e, b))) ↦ rw e (Reads-four _ rest (omega (arith, header_for_lem n lt)))
]

-- Its low two bits and the bits above them are the header's length and the payload's.
pub header_for_fields :
    (n : ℕ)
    → n < 2 ^ 30
    → (header_for n % 4 + 1 ≡ head_len_for n) × (header_for n / 4 ≡ n) × (1 ≤ head_len_for n)
header_for_fields n lt = elim (HeadLen-cases n lt) [
  | inl (e, b) ↦ rw e (omega (arith, header_for_lem n lt))
  | inr (inl (e, b)) ↦ omega (arith, header_for_lem n lt)
  | inr (inr (inl (e, b))) ↦ omega (arith, header_for_lem n lt)
  | inr (inr (inr (e, b))) ↦ omega (arith, header_for_lem n lt)
]
