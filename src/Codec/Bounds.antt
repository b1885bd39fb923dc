-- ===== src/Codec/Bounds.antt =====
-- What every call of the decoder keeps within bounds.
use xyzen_relay.Prelude.{
  ℕ, ◌≤◌, ◌≡◌, refl, inl, inr, false, List, length, drop, arith, ltb, Bool-cases, length-drop,
  length-take_of_le,
}
use xyzen_relay.Codec.{
  State, head, body, RustDeskCodec, Decoded, frame, incomplete, too_long, Decoding, decode_body,
  decode_head, decode, header_size,
}
use xyzen_relay.Codec.Steps.{
  decode-head, decode-body, decode_head_complete, decode_head_cases, header_size-pos, payload_len,
}

-- The length that is waited for is within the limit.
abbrev pub InLimit : State → ℕ → Type 0
InLimit head max = Unit {0}
InLimit (body n) max = n ≤ max

abbrev FrameLen : Decoded → ℕ → Type 0
FrameLen (frame f) max = length f ≤ max
FrameLen too_long max = Unit {0}
FrameLen incomplete max = Unit {0}

-- After a call on `src` with the limit `max`.
pub record Bounded (max : ℕ) (src : List ℕ) (d : Decoding) : Type 0 where
  pub waits : InLimit d.1.state max
  pub limit : d.1.max ≡ max
  pub framed : d.1.raw ≡ false
  pub short : FrameLen d.0 max
  pub shrinks : length d.2 ≤ length src

decode_body-Bounded :
    (c : RustDeskCodec) (n : ℕ) (src : List ℕ)
    → c.raw ≡ false
    → c.state ≡ body n
    → n ≤ c.max
    → Bounded c.max src (decode_body c n src)
unfolding decode_body
decode_body-Bounded c n src r s h = elim (Bool-cases (ltb (length src) n)) [
  | inl short ↦
      rw short
        (record { waits = rw s h; limit = refl; framed = r; short = tt; shrinks = omega arith })
  | inr enough ↦ rw enough (record {
    waits = tt;
    limit = refl;
    framed = r;
    short = ground (arith, length-take_of_le n src);
    shrinks = omega (arith, length-drop n src);
  })
]

decode_head-Bounded :
    (c : RustDeskCodec) (src : List ℕ)
    → c.raw ≡ false
    → c.state ≡ head
    → Bounded c.max src (decode_head c src)
decode_head-Bounded c src r s = elim (decode_head_cases c src) [
  | inl (_, e) ↦ rw e (stays incomplete tt)
  | inr (inl (_, _, e)) ↦ rw e (stays too_long tt)
  | inr (inr (h, m)) ↦
      let b =
        decode_body-Bounded (record c { state = body (payload_len src) }) (payload_len src)
          (drop (header_size src) src) r refl m in
      rw
        (decode_head_complete c src _ (header_size src) (payload_len src) refl refl refl
          (header_size-pos src) h m)
        (record {
          waits = b.waits;
          limit = b.limit;
          framed = b.framed;
          short = b.short;
          shrinks = omega (arith, b.shrinks, length-drop (header_size src) src);
        })
]
  where
    stays : (d : Decoded) → FrameLen d c.max → Bounded c.max src (d, c, src)
    stays d f = record {
      waits = rw s tt;
      limit = refl;
      framed = r;
      short = f;
      shrinks = omega arith;
    }

decode_framed-Bounded :
    (c : RustDeskCodec) (s : State) (src : List ℕ)
    → c.raw ≡ false
    → c.state ≡ s
    → InLimit s c.max
    → Bounded c.max src (decode c src)
decode_framed-Bounded c head src r e h = rw (decode-head c src r e) (decode_head-Bounded c src r e)
decode_framed-Bounded c (body n) src r e h =
    rw (decode-body c n src r e) (decode_body-Bounded c n src r e h)

-- A framed decoder whose state waits for no more than its limit stays so after any buffer, keeps its
-- limit and its mode, returns no frame longer than the limit, and never lengthens the buffer.
pub decode-Bounded :
    (c : RustDeskCodec) (src : List ℕ)
    → c.raw ≡ false
    → InLimit c.state c.max
    → Bounded c.max src (decode c src)
decode-Bounded c src r h = decode_framed-Bounded c c.state src r refl h
