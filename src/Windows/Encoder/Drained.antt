-- ===== src/Windows/Encoder/Drained.antt =====
-- What `drain` hands over once the platform runs dry: every unit of every sample, in order.
use xyzen_relay.Prelude.{
  ℕ, zero, suc, ◌+◌, ◌-◌, ◌≤◌, ◌≡◌, refl, sym, ap, subst, ◌∙◌, max, bit_and, true, false, not,
  Option, none, some, List, [], ◌++◌, append-nil, append_assoc, arith, ◌==◌, if◌then◌else◌, get_or,
  All, All-append,
}
use xyzen_relay.Windows.Encoder.{
  Result, mf, not_configured, Call, clock, create_buffer, create_sample, add_buffer,
  output_stream_info, process_output, Reply, failed, done, H264Encoder, Nal, Machine, Mf, ◌>>=◌,
  pure, fail, read, mf_e_transform_need_more_input, micros, ask, note,
}
use xyzen_relay.Windows.Encoder.Feed.{
  sample_to_annexb, epoch_now_us, allocate, produced, drain_result, drain_round, drain_loop, drain,
}
use xyzen_relay.Windows.Encoder.Samples.{
  Framed, outputs, is_lock, units_read, bodies, bodies-append, Still, Drew, Drew-logged, Handed,
  sample_to_annexb-Post,
}
use xyzen_relay.Windows.Encoder.Post.{
  Post, logged, Keeps, Keeps-bind, Keeps-read, Keeps-pure, Keeps-if, Keeps-ask_at, Keeps-note_at,
  after-Post, bind-Post,
}

module _ (host : List Call → Call → Reply) (e : H264Encoder) (k : ℕ) (acc : List (List ℕ)) where
  Keeps-noted : (c : Call) → is_lock c ≡ false → Keeps (Drew host e k acc) (note host c)
  Keeps-noted c apart = Keeps-note_at host c (Drew-logged host e k acc c apart)

  Keeps-asked : (c : Call) → is_lock c ≡ false → Keeps (Drew host e k acc) (ask host c)
  Keeps-asked c apart = Keeps-ask_at host c (Drew-logged host e k acc c apart)

  Keeps-epoch_now_us : Keeps (Drew host e k acc) (epoch_now_us host)
  unfolding epoch_now_us
  Keeps-epoch_now_us =
      Keeps-bind Keeps-read
        (λ e'. Keeps-bind (Keeps-noted clock refl) (λ now. Keeps-pure (micros now - e'.epoch)))

  Keeps-allocate : (info : List ℕ) → Keeps (Drew host e k acc) (allocate host info)
  unfolding allocate
  Keeps-allocate info = Keeps-if (not (bit_and (get_or info 0 0) 0x300 == 0)) (Keeps-pure []) (
      Keeps-bind (Keeps-asked (create_buffer (max (get_or info 1 0) 1)) refl) (λ buffer.
        Keeps-bind (Keeps-asked create_sample refl) (λ sample. Keeps-asked add_buffer refl)))

  produced-Post :
      (sample : List ℕ) (m : Machine)
      → Drew host e k acc m
      → Post (Handed host e k acc) (Still host e) (produced host sample m)
  unfolding produced pure
  produced-Post sample m h =
      elim (get_or sample 0 0 == 0)
        as (λ b.
          Post (Handed host e k acc) (Still host e)
            ((if b then pure [] else (epoch_now_us host >>= sample_to_annexb host)) m)) [
              | true ↦ (tt, (h.0, (h.1.0, h.1.1 ∙ sym (append-nil acc))))
              | false ↦
                  bind-Post (Drew host e k acc) (Handed host e k acc) (Still host e) _ m
                    (λ m' d. d.0) Keeps-epoch_now_us h
                    (λ now m' h'. sample_to_annexb-Post host e k acc now m' h')
            ]

-- What the whole loop gives, from the units read before it.
abbrev Drained :
    (List Call → Call → Reply) → H264Encoder → List (List ℕ) → List Nal → Machine → Type 0
Drained host e acc nals m =
    All Framed nals × ((m.encoder ≡ e) × (units_read host m.log ≡ acc ++ bodies nals))

module _ (host : List Call → Call → Reply) (e : H264Encoder) (acc : List (List ℕ)) where
  abbrev Goal : Result (List Nal) × Machine → Type 0
  Goal = Post (Drained host e acc) (Still host e)

  -- The state in the loop, with the frames so far.
  abbrev Looping : ℕ → List Nal → Machine → Type 0
  Looping k out m = All Framed out × Drew host e k (acc ++ bodies out) m

  abbrev Rest : ℕ → (List Nal → Mf (List Nal)) → Type 0
  Rest k again = (out : List Nal) (m : Machine) → Looping k out m → Goal (again out m)

  -- A refused call of `process_output`: the loop is over.
  refused-Post :
      (k code : ℕ) (again : List Nal → Mf (List Nal)) (out : List Nal) (m : Machine)
      → Looping k out m
      → Goal (drain_result host again out (failed code) m)
  unfolding drain_result pure fail
  refused-Post k code again out m (framed, h) =
      elim (code == mf_e_transform_need_more_input)
        as (λ b. Goal ((if b then pure out else fail (mf code)) m)) [
          | true ↦ (framed, (h.0, h.1.1))
          | false ↦ h.0
        ]

  -- A sample, and the rest of the loop.
  sample-Post :
      (k : ℕ) (sample : List ℕ) (again : List Nal → Mf (List Nal)) (out : List Nal) (m : Machine)
      → Rest k again
      → Looping k out m
      → Goal (drain_result host again out (done sample) m)
  unfolding drain_result ◌>>=◌
  sample-Post k sample again out m rest (framed, h) =
      let acc' = acc ++ bodies out in
      after-Post (Handed host e k acc') (Drained host e acc) (Still host e) (produced host sample m)
        (λ nals. again (out ++ nals)) (produced-Post host e k acc' sample m h)
        (λ nals m' handed.
          let joined : acc' ++ bodies nals ≡ acc ++ bodies (out ++ nals) =
            append_assoc acc (bodies out) (bodies nals)
            ∙ ap (λ b. acc ++ b) (sym (bodies-append out nals)) in
          let (same, (drew, read)) = handed.1 in
          rest (out ++ nals) m'
            (All-append Framed out nals framed handed.0, (same, (drew, read ∙ joined))))

  reply-Post :
      (k : ℕ) (r : Reply) (again : List Nal → Mf (List Nal)) (out : List Nal) (m : Machine)
      → Rest k again
      → Looping k out m
      → Goal (drain_result host again out r m)
  reply-Post k (failed c) again out m rest h = refused-Post k c again out m h
  reply-Post k (done sample) again out m rest h = sample-Post k sample again out m rest h

  round-Post :
      (k stream : ℕ) (again : List Nal → Mf (List Nal)) (out : List Nal) (m : Machine)
      → Looping k out m
      → ((m' : Machine)
          → Looping k out m'
          → Goal (
              drain_result host again out
                (host m'.log (process_output stream))
                (logged (process_output stream) m')))
      → Goal (drain_round host again stream out m)
  unfolding drain_round note ◌>>=◌
  round-Post k stream again out m (framed, h) rest =
      let I = Drew host e k (acc ++ bodies out) in
      bind-Post I (Drained host e acc) (Still host e) _ m (λ m' d. d.0)
        (Keeps-asked host e k (acc ++ bodies out) (output_stream_info stream) refl) h
        (λ info m1 h1.
          bind-Post I (Drained host e acc) (Still host e) _ m1 (λ m' d. d.0)
            (Keeps-allocate host e k (acc ++ bodies out) info) h1
            (λ allocated m2 h2. rest m2 (framed, h2)))

  -- After `n` calls of `process_output` the platform has no more.
  module _ (n : ℕ) (code : ℕ → ℕ)
      (dry : (log : List Call) (s : ℕ)
        → n ≤ outputs log
        → host log (process_output s) ≡ failed (code s)) where
    drain_loop-Post :
        (fuel k stream : ℕ) (out : List Nal) (m : Machine)
        → n ≤ fuel + k
        → Looping k out m
        → Goal (drain_loop host (suc fuel) stream out m)
    unfolding drain_loop
    drain_loop-Post zero k stream out m enough h =
        round-Post k stream (drain_loop host 0 stream) out m h (λ m' h'.
          rw (dry m'.log stream (omega arith)) (
            refused-Post k (code stream) (drain_loop host 0 stream) out _
              (h'.0, (h'.1.0, (omega arith, h'.1.1.1)))))
    drain_loop-Post (suc fuel) k stream out m enough h =
        round-Post k stream (drain_loop host (suc fuel) stream) out m h (λ m' h'.
          reply-Post (suc k) (host m'.log (process_output stream))
            (drain_loop host (suc fuel) stream) out _
            (λ out m'' h''. drain_loop-Post fuel (suc k) stream out m'' (omega arith) h'')
            (h'.0, (h'.1.0, (omega arith, h'.1.1.1))))

-- A platform that, after `n` calls of `process_output`, fails each further one: `drain` on a configured
-- encoder ends within `n` rounds and one more, and leaves the encoder's state alone. With a value, the
-- frames are the units of every sample that was read, in order, each a start code of four bytes and the
-- unit, behind eight bytes of time.
pub drain-Post :
    (host : List Call → Call → Reply) (n : ℕ) (code : ℕ → ℕ)
    (dry : (log : List Call) (s : ℕ)
      → n ≤ outputs log
      → host log (process_output s) ≡ failed (code s))
    (m : Machine) (t : ℕ)
    → m.encoder.transform ≡ some t
    → Post
        (λ nals m'.
          All Framed nals
          × ((m'.encoder ≡ m.encoder)
              × (units_read host m'.log ≡ units_read host m.log ++ bodies nals)))
        (λ m'. m'.encoder ≡ m.encoder)
        (drain host (suc n) m)
unfolding drain ◌>>=◌ read
drain-Post host n code dry m t ready =
    let before = units_read host m.log in
    let started =
      ap
        (λ (o : Option ℕ).
          (elim o as (λ p. Mf (List Nal)) [
            | none ↦ fail not_configured
            | some x ↦ drain_loop host (suc n) m.encoder.output_stream_id []
          ])
            m)
        ready in
    subst (Post (Drained host m.encoder before) (Still host m.encoder)) (sym started) (
      drain_loop-Post host m.encoder before n code dry n 0 m.encoder.output_stream_id [] m
        (omega arith) (tt, (refl, (omega arith, sym (append-nil before)))))
