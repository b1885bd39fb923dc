-- ===== src/Codec/Steps.antt =====
-- The decoder step by step: what each state does with a buffer, and what bytes behind the buffer change.
use xyzen_relay.Prelude.{
  ℕ, zero, suc, ◌/◌, ◌^◌, ◌≤◌, ◌<◌, ◌≡◌, refl, ap, ◌⊎◌, inl, inr, false, List, [], ◌∷◌, ◌++◌,
  length, drop, arith,
}
use xyzen_relay.Codec.{
  head, body, RustDeskCodec, incomplete, too_long, byte_at, decode_body, decode_head, decode,
  header_size, header_word,
}

pub decode-head :
    (c : RustDeskCodec) (src : List ℕ)
    → c.raw ≡ false
    → c.state ≡ head
    → decode c src ≡ decode_head c src
unfolding decode
decode-head c src r s = ground arith

pub decode-body :
    (c : RustDeskCodec) (n : ℕ) (src : List ℕ)
    → c.raw ≡ false
    → c.state ≡ body n
    → decode c src ≡ decode_body c n src
unfolding decode
decode-body c n src r s = ground arith

-- A complete header hands over to the body.
pub decode_head_complete :
    (c : RustDeskCodec) (src payload : List ℕ) (k n : ℕ)
    → header_size src ≡ k
    → header_word k src / 2 ^ 2 ≡ n
    → drop k src ≡ payload
    → 1 ≤ k
    → k ≤ length src
    → n ≤ c.max
    → decode_head c src ≡ decode_body (record c { state = body n }) n payload
unfolding decode_head
decode_head_complete c [] payload k n hs hw hd hk hl hm = absurd (omega arith)
decode_head_complete c (b ∷ bs) payload k n hs hw hd hk hl hm = rw (hs, hw, hd) (ground arith)

-- The payload's length as the header states it.
abbrev pub payload_len : List ℕ → ℕ
payload_len src = header_word (header_size src) src / 2 ^ 2

pub header_size-pos : (src : List ℕ) → 1 ≤ header_size src
unfolding header_size
header_size-pos src = omega arith

-- The header is cut short, or it announces too much, or the body is next.
pub decode_head_cases :
    (c : RustDeskCodec) (src : List ℕ)
    → ((length src < header_size src) × (decode_head c src ≡ (incomplete, c, src)))
      ⊎ (((header_size src ≤ length src)
            × (c.max < payload_len src)
            × (decode_head c src ≡ (too_long, c, src)))
          ⊎ ((header_size src ≤ length src) × (payload_len src ≤ c.max)))
unfolding decode_head
decode_head_cases c [] = inl (header_size-pos [], refl)
decode_head_cases c (b ∷ bs) = ground arith

pub decode_head-too_long :
    (c : RustDeskCodec) (src : List ℕ)
    → header_size src ≤ length src
    → c.max < payload_len src
    → decode_head c src ≡ (too_long, c, src)
decode_head-too_long c src h m = elim (decode_head_cases c src) [
  | inl (short, _) ↦ absurd (omega arith)
  | inr (inl (_, _, e)) ↦ e
  | inr (inr (_, fits)) ↦ absurd (omega arith)
]

byte_at-append : (xs ys : List ℕ) (i : ℕ) → i < length xs → byte_at (xs ++ ys) i ≡ byte_at xs i
byte_at-append [] ys i h = absurd (omega arith)
byte_at-append (x ∷ xs) ys zero h = refl
byte_at-append (x ∷ xs) ys (suc i) h = byte_at-append xs ys i (omega arith)

header_word-append :
    (k : ℕ) (xs ys : List ℕ)
    → 1 ≤ length xs
    → k ≤ length xs
    → header_word k (xs ++ ys) ≡ header_word k xs
unfolding header_word
header_word-append k xs ys l h = ground (
  arith,
  byte_at-append xs ys 0 l,
  byte_at-append xs ys 1,
  byte_at-append xs ys 2,
  byte_at-append xs ys 3,
)

-- A complete header reads the same with more bytes behind it.
pub header-append :
    (src more : List ℕ)
    → header_size src ≤ length src
    → (header_size (src ++ more) ≡ header_size src)
      × (header_word (header_size src) (src ++ more) / 2 ^ 2 ≡ payload_len src)
header-append [] more h = absurd (omega (arith, header_size-pos []))
header-append (b ∷ bs) more h = (
  unfold header_size in refl,
  ap (λ w. w / 2 ^ 2) (header_word-append (header_size (b ∷ bs)) (b ∷ bs) more (omega arith) h),
)
