-- ===== src/Codec/Resume.antt =====
-- The decoder on a stream that arrives in pieces.
use xyzen_relay.Prelude.{
  ℕ, ◌≤◌, ◌≡◌, refl, ap, sym, ◌∙◌, inl, inr, true, false, List, [], ◌∷◌, ◌++◌, length, drop, arith,
  Bool-cases, drop-append_of_le, length-append,
}
use xyzen_relay.Codec.{
  State, head, body, RustDeskCodec, incomplete, too_long, decode_body, decode_head, decode,
  header_size,
}
use xyzen_relay.Codec.Steps.{
  decode-head, decode-body, decode_head_complete, decode_head-too_long, decode_head_cases,
  header-append, header_size-pos, payload_len,
}

decode_body-incomplete :
    (c c' : RustDeskCodec) (n : ℕ) (src src' : List ℕ)
    → decode_body c n src ≡ (incomplete, c', src')
    → (c ≡ c') × (src ≡ src')
unfolding decode_body
decode_body-incomplete c c' n src src' e = ground arith

not_too_long :
    (c c' : RustDeskCodec) (n : ℕ) (src src' : List ℕ)
    → ¬ (decode_body c n src ≡ (too_long, c', src'))
unfolding decode_body
not_too_long c c' n src src' e = ground arith

-- A complete, acceptable header, with whatever stands behind the buffer.
decode_head-announced :
    (c : RustDeskCodec) (src more : List ℕ)
    → header_size src ≤ length src
    → payload_len src ≤ c.max
    → decode_head c (src ++ more)
      ≡ decode_body
          (record c { state = body (payload_len src) })
          (payload_len src)
          (drop (header_size src) src ++ more)
decode_head-announced c src more h m =
    let (hs, hw) = header-append src more h in
    decode_head_complete c (src ++ more) _ (header_size src) (payload_len src) hs hw
      (drop-append_of_le (header_size src) src more h) (header_size-pos src)
      (omega (arith, length-append src more)) m

-- At the start of a frame: what is read so far is either kept in the buffer or in the state.
resume_head :
    (c c' : RustDeskCodec) (src src' more : List ℕ)
    → c.raw ≡ false
    → c.state ≡ head
    → decode_head c src ≡ (incomplete, c', src')
    → decode c' (src' ++ more) ≡ decode_head c (src ++ more)
resume_head c c' src src' more r s e = elim (decode_head_cases c src) [
  | inl (_, short) ↦
      let q = sym short ∙ e in
      rw (← ap (λ t. t.1) q, ← ap (λ t. t.2) q) (decode-head c (src ++ more) r s)
  | inr (inl (_, _, long)) ↦ cc
  | inr (inr (h, m)) ↦
      let whole =
        decode_head_complete c src _ (header_size src) (payload_len src) refl refl refl
          (header_size-pos src) h m in
      let (ec, es) = decode_body-incomplete _ c' _ _ src' (sym whole ∙ e) in
      rw (← ec, ← es)
        (decode-body _ (payload_len src) _ r refl ∙ sym (decode_head-announced c src more h m))
]

resume_body :
    (c c' : RustDeskCodec) (n : ℕ) (src src' more : List ℕ)
    → c.raw ≡ false
    → c.state ≡ body n
    → decode_body c n src ≡ (incomplete, c', src')
    → decode c' (src' ++ more) ≡ decode_body c n (src ++ more)
resume_body c c' n src src' more r s e =
    let (ec, es) = decode_body-incomplete c c' n src src' e in
    rw (← ec, ← es) (decode-body c n (src ++ more) r s)

resume_framed :
    (c c' : RustDeskCodec) (s : State) (src src' more : List ℕ)
    → c.raw ≡ false
    → c.state ≡ s
    → decode c src ≡ (incomplete, c', src')
    → decode c' (src' ++ more) ≡ decode c (src ++ more)
resume_framed c c' head src src' more r s e =
    resume_head c c' src src' more r s (sym (decode-head c src r s) ∙ e)
    ∙ sym (decode-head c (src ++ more) r s)
resume_framed c c' (body n) src src' more r s e =
    resume_body c c' n src src' more r s (sym (decode-body c n src r s) ∙ e)
    ∙ sym (decode-body c n (src ++ more) r s)

resume_raw :
    (c c' : RustDeskCodec) (src src' more : List ℕ)
    → c.raw ≡ true
    → decode c src ≡ (incomplete, c', src')
    → decode c' (src' ++ more) ≡ decode c (src ++ more)
unfolding decode
resume_raw c c' [] src' more r e = ground arith
resume_raw c c' (b ∷ bs) src' more r e = ground arith

-- A decoder that asks for more bytes and then gets them gives the result, the state and the rest of
-- the buffer that it would have given had all the bytes been there at once. It holds in every state,
-- framed and raw, wherever the stream was cut.
pub decode_resumes :
    (c c' : RustDeskCodec) (src src' more : List ℕ)
    → decode c src ≡ (incomplete, c', src')
    → decode c' (src' ++ more) ≡ decode c (src ++ more)
decode_resumes c c' src src' more e = elim (Bool-cases c.raw) [
  | inl r ↦ resume_raw c c' src src' more r e
  | inr r ↦ resume_framed c c' c.state src src' more r refl e
]

too_long_head :
    (c c' : RustDeskCodec) (src src' more : List ℕ)
    → decode_head c src ≡ (too_long, c', src')
    → (c' ≡ c) × (src' ≡ src) × (decode_head c (src ++ more) ≡ (too_long, c, src ++ more))
too_long_head c c' src src' more e = elim (decode_head_cases c src) [
  | inl (_, short) ↦ cc
  | inr (inl (h, m, long)) ↦
      let q = sym e ∙ long in
      let (hs, hw) = header-append src more h in
      let hw' : payload_len (src ++ more) ≡ payload_len src = rw hs hw in
      (
        ap (λ t. t.1) q,
        ap (λ t. t.2) q,
        decode_head-too_long c (src ++ more) (omega (arith, hs, length-append src more))
            (omega (arith, hw')),
      )
  | inr (inr (h, m)) ↦ absurd (not_too_long _ _ _ _ _ (sym (whole h m) ∙ e))
]
  where
    whole :
        header_size src ≤ length src
        → payload_len src ≤ c.max
        → decode_head c src
          ≡ decode_body
              (record c { state = body (payload_len src) })
              (payload_len src)
              (drop (header_size src) src)
    whole h m =
        decode_head_complete c src _ (header_size src) (payload_len src) refl refl refl
          (header_size-pos src) h m

too_long_framed :
    (c c' : RustDeskCodec) (s : State) (src src' more : List ℕ)
    → c.raw ≡ false
    → c.state ≡ s
    → decode c src ≡ (too_long, c', src')
    → (c' ≡ c) × (src' ≡ src) × (decode c (src ++ more) ≡ (too_long, c, src ++ more))
too_long_framed c c' head src src' more r s e =
    rw (decode-head c (src ++ more) r s)
      (too_long_head c c' src src' more (sym (decode-head c src r s) ∙ e))
too_long_framed c c' (body n) src src' more r s e =
    absurd (not_too_long c c' n src src' (sym (decode-body c n src r s) ∙ e))

raw_never_too_long :
    (c c' : RustDeskCodec) (src src' : List ℕ)
    → c.raw ≡ true
    → ¬ (decode c src ≡ (too_long, c', src'))
unfolding decode
raw_never_too_long c c' [] src' r e = ground arith
raw_never_too_long c c' (b ∷ bs) src' r e = ground arith

-- An announced length beyond the limit is refused in place: the codec and the buffer stay as they
-- were, and no bytes that follow change the answer.
pub decode-too_long_persists :
    (c c' : RustDeskCodec) (src src' more : List ℕ)
    → decode c src ≡ (too_long, c', src')
    → (c' ≡ c) × (src' ≡ src) × (decode c (src ++ more) ≡ (too_long, c, src ++ more))
decode-too_long_persists c c' src src' more e = elim (Bool-cases c.raw) [
  | inl r ↦ absurd (raw_never_too_long c c' src src' r e)
  | inr r ↦ too_long_framed c c' c.state src src' more r refl e
]
