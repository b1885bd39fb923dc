-- ===== src/Windows/Encoder/Submitted.antt =====
-- What `submit_frame` does with one picture: the calls it makes, and the time of the next.
use xyzen_relay.Prelude.{
  zeros, ℕ, zero, suc, ◌+◌, ◌*◌, ◌/◌, ◌%◌, ◌^◌, ◌≤◌, ◌≡◌, refl, sym, ap, subst, ◌∙◌, ◌⊎◌, inl, inr,
  false, Option, none, some, List, [], ◌∷◌, ◌++◌, append-nil, arith, ltb, if◌then◌else◌, length,
  drop,
}
use xyzen_relay.Windows.Nv12.{bgra_to_nv12}
use xyzen_relay.Windows.Nv12.Picture.{nv12, bgra_to_nv12-nv12}
use xyzen_relay.Windows.Encoder.{
  not_configured, input_buffer_size, Call, create_buffer, set_current_length, set_sample_time,
  set_sample_duration, process_input, lock_buffer, unlock_buffer, create_sample, add_buffer, write,
  Reply, H264Encoder, Machine, Mf, ◌>>=◌, fail, read, put, saturating_add, ask, note,
}
use xyzen_relay.Windows.Encoder.Feed.{fill_buffer, stamp_sample, submit_configured, submit_frame}
use xyzen_relay.Windows.Encoder.Post.{Post, after-Post, logged, ask-bind, ask-Post}

length-zeros : (n : ℕ) → length (zeros n) ≡ n
length-zeros zero = refl
length-zeros (suc n) = omega (arith, length-zeros n)

drop-all {ℓ} : {A : Type ℓ} (n : ℕ) (xs : List A) → length xs ≡ n → drop n xs ≡ []
drop-all zero [] e = refl
drop-all zero (x ∷ xs) e = absurd (omega arith)
drop-all (suc n) [] e = refl
drop-all (suc n) (x ∷ xs) e = drop-all n xs (omega arith)

-- The picture fills its buffer.
bgra_to_nv12-zeros :
    (a b : ℕ) (bgra : List ℕ)
    → 2 * a * (2 * b) * 4 ≤ length bgra
    → bgra_to_nv12 bgra (2 * a) (2 * b) (zeros (2 * a * (2 * b) + 2 * a * (2 * b) / 2))
      ≡ some (nv12 bgra a b)
bgra_to_nv12-zeros a b bgra long =
    let size = 2 * a * (2 * b) + 2 * a * (2 * b) / 2 in
    let (e, full) =
      bgra_to_nv12-nv12 a b bgra (zeros size) long (omega (arith, length-zeros size)) in
    let left : drop (length (nv12 bgra a b)) (zeros size) ≡ [] =
      drop-all (length (nv12 bgra a b)) (zeros size) (length-zeros size ∙ sym full) in
    e ∙ ap (λ t. some (nv12 bgra a b ++ t)) left ∙ ap some (append-nil (nv12 bgra a b))

abbrev pub picture_size : ℕ → ℕ → ℕ
picture_size a b = 2 * a * (2 * b) + 2 * a * (2 * b) / 2

-- The calls for one picture, the newest first.
abbrev pub filled : ℕ → ℕ → List ℕ → Machine → Machine
filled a b bgra m = record m {
  log =
      unlock_buffer
      ∷ set_current_length (picture_size a b % 2 ^ 32)
      ∷ write (nv12 bgra a b)
      ∷ lock_buffer
      ∷ create_buffer (picture_size a b % 2 ^ 32)
      ∷ m.log;
}

abbrev pub advanced : H264Encoder → H264Encoder
advanced e = record e { next_pts_100ns = saturating_add e.next_pts_100ns e.frame_duration_100ns }

abbrev pub stamped : Machine → Machine
stamped m = record {
  encoder = advanced m.encoder;
  log =
      set_sample_duration m.encoder.frame_duration_100ns
      ∷ set_sample_time m.encoder.next_pts_100ns
      ∷ add_buffer
      ∷ create_sample
      ∷ m.log;
}

module _ (host : List Call → Call → Reply) where
  fill_buffer-Post :
      (a b : ℕ) (bgra : List ℕ) (m : Machine) (R : Machine → Type 0)
      → ((m' : Machine) → m'.encoder ≡ m.encoder → R m')
      → 2 * a * (2 * b) * 4 ≤ length bgra
      → Post (λ v m'. m' ≡ filled a b bgra m) R (fill_buffer host (2 * a) (2 * b) bgra m)
  unfolding fill_buffer ◌>>=◌ note
  fill_buffer-Post a b bgra m R keep long =
      let Q = λ (v : List ℕ) (m' : Machine). m' ≡ filled a b bgra m in
      ask-bind host Q R _ _ m
        (λ created.
          ask-bind host Q R _ _ _
            (λ locked. rw (bgra_to_nv12-zeros a b bgra long) (
              ask-bind host Q R _ _ _ (λ sized. ask-Post host Q R _ _ (λ v. refl) (keep _ refl))
                (keep _ refl)))
            (keep _ refl))
        (keep _ refl)

  stamp_sample-Post :
      (m : Machine) (R : Machine → Type 0)
      → ((m' : Machine) → m'.encoder ≡ m.encoder → R m')
      → Post (λ v m'. m' ≡ stamped m) R (stamp_sample host m)
  unfolding stamp_sample ◌>>=◌ read put
  stamp_sample-Post m R keep =
      let Q = λ (v : Unit {0}) (m' : Machine). m' ≡ stamped m in
      ask-bind host Q R _ _ m
        (λ sample.
          ask-bind host Q R _ _ _
            (λ added.
              ask-bind host Q R _ _ _
                (λ time. ask-bind host Q R _ _ _ (λ duration. refl) (keep _ refl)) (keep _ refl))
            (keep _ refl))
        (keep _ refl)

  -- For a configured encoder of even size and a picture that is long enough, `submit_frame` ends and
  -- does not panic. With a value the converted picture was written, stamped with the encoder's time and
  -- given to the encoder, and the time has moved on by one frame; with an error the time has moved on or
  -- not, and the rest of the encoder is as it was.
  pub submit_frame-Post :
      (a b t : ℕ) (bgra : List ℕ) (m : Machine)
      → m.encoder.transform ≡ some t
      → m.encoder.width ≡ 2 * a
      → m.encoder.height ≡ 2 * b
      → 2 * a * (2 * b) * 4 ≤ length bgra
      → Post
          (λ v m'.
            m' ≡ logged (process_input m.encoder.input_stream_id) (stamped (filled a b bgra m)))
          (λ m'. (m'.encoder ≡ m.encoder) ⊎ (m'.encoder ≡ advanced m.encoder))
          (submit_frame host bgra m)
  unfolding submit_frame submit_configured ◌>>=◌ read
  submit_frame-Post a b t bgra m ready wide high long =
      let Q = λ (v : List ℕ) (m' : Machine).
        m' ≡ logged (process_input m.encoder.input_stream_id) (stamped (filled a b bgra m)) in
      let R = λ (m' : Machine). (m'.encoder ≡ m.encoder) ⊎ (m'.encoder ≡ advanced m.encoder) in
      let enough : ltb (length bgra) (2 * a * (2 * b) * 4) ≡ false = ground arith in
      let give = λ (s : Unit {0}). ask host (process_input m.encoder.input_stream_id) in
      let full = filled a b bgra m in
      let given : Post Q R (ask host (process_input m.encoder.input_stream_id) (stamped full)) =
        ask-Post host Q R _ (stamped full) (λ v. refl) (inr refl) in
      let stamp : Post Q R ((stamp_sample host >>= give) full) =
        after-Post (λ s m'. m' ≡ stamped full) Q R (stamp_sample host full) give
          (stamp_sample-Post full R (λ m' e. inl e))
          (λ s m' e. subst (λ k. Post Q R (give s k)) (sym e) given) in
      let whole : Post Q R
          ((fill_buffer host (2 * a) (2 * b) bgra >>= (λ v. stamp_sample host >>= give)) m) =
        after-Post (λ v m'. m' ≡ full) Q R (fill_buffer host (2 * a) (2 * b) bgra m)
          (λ v. stamp_sample host >>= give) (fill_buffer-Post a b bgra m R (λ m' e. inl e) long)
          (λ v m' e. subst (λ k. Post Q R ((stamp_sample host >>= give) k)) (sym e) stamp) in
      let body = λ (w h : ℕ).
        if ltb (length bgra) (w * h * 4)
        then fail (input_buffer_size (length bgra) (w * h * 4))
        else (fill_buffer host w h bgra >>= (λ v. stamp_sample host >>= give)) in
      let start : submit_frame host bgra m ≡ body m.encoder.width m.encoder.height m =
        ap
          (λ (o : Option ℕ).
            (elim o as (λ p. Mf (List ℕ)) [
              | none ↦ fail not_configured
              | some x ↦ body m.encoder.width m.encoder.height
            ])
              m)
          ready in
      let sized : body m.encoder.width m.encoder.height m ≡ body (2 * a) (2 * b) m =
        ap (λ w. body w m.encoder.height m) wide ∙ ap (λ h. body (2 * a) h m) high in
      subst (Post Q R) (sym (start ∙ sized)) (rw (enough) whole)
