-- ===== src/Windows/Encoder/Calls.antt =====
-- The calls that `configure` makes once it has a transform: the output type first, then the input type.
use xyzen_relay.Prelude.{ℕ, ◌≡◌, refl, sym, subst, List, ◌∷◌}
use xyzen_relay.Windows.Encoder.{
  Side, input, output, Call, create_media_type, set_major_type, set_subtype, set_interlace,
  set_frame_size, set_frame_rate, set_pixel_aspect, set_type, set_avg_bitrate, set_profile, Reply,
  Machine, Mf, ◌>>=◌, mf_set_size, ask,
}
use xyzen_relay.Windows.Encoder.Setup.{set_sizes, set_output_type, set_input_type}
use xyzen_relay.Windows.Encoder.Post.{Post, after-Post, ask-bind, ask-Post}

-- The newest first.
abbrev pub size_calls : Side → ℕ → ℕ → ℕ → List Call → List Call
size_calls side w h fps log =
    set_pixel_aspect side (mf_set_size 1 1)
    ∷ set_frame_rate side (mf_set_size fps 1)
    ∷ set_frame_size side (mf_set_size w h)
    ∷ log

abbrev pub output_calls : ℕ → ℕ → ℕ → ℕ → ℕ → List Call → List Call
output_calls id w h fps bps log =
    set_type output id
    ∷ set_profile
    ∷ size_calls output w h fps (
        set_interlace output
        ∷ set_avg_bitrate bps
        ∷ set_subtype output
        ∷ set_major_type output
        ∷ create_media_type output
        ∷ log)

abbrev pub input_calls : ℕ → ℕ → ℕ → ℕ → List Call → List Call
input_calls id w h fps log =
    set_type input id
    ∷ size_calls input w h fps (
        set_interlace input
        ∷ set_subtype input
        ∷ set_major_type input
        ∷ create_media_type input
        ∷ log)

abbrev pub with_log : Machine → List Call → Machine
with_log m log = record m { log = log }

module _ (host : List Call → Call → Reply) (R : Machine → Type 0) (m : Machine)
    (keep : (log : List Call) → R (with_log m log)) where
  set_sizes-Post :
      (side : Side) (w h fps : ℕ) (log : List Call)
      → Post
          (λ v m'. m' ≡ with_log m (size_calls side w h fps log))
          R
          (set_sizes host side w h fps (with_log m log))
  unfolding set_sizes
  set_sizes-Post side w h fps log =
      let Q = λ (v : List ℕ) (m' : Machine). m' ≡ with_log m (size_calls side w h fps log) in
      ask-bind host Q R _ _ _
        (λ size.
          ask-bind host Q R _ _ _ (λ rate. ask-Post host Q R _ _ (λ v. refl) (keep _)) (keep _))
        (keep _)

  pub set_output_type-Post :
      (id w h fps bps : ℕ) (log : List Call)
      → Post
          (λ v m'. m' ≡ with_log m (output_calls id w h fps bps log))
          R
          (set_output_type host id w h fps bps (with_log m log))
  unfolding set_output_type ◌>>=◌
  set_output_type-Post id w h fps bps log =
      let Q = λ (v : List ℕ) (m' : Machine). m' ≡ with_log m (output_calls id w h fps bps log) in
      let begun =
        set_interlace output
        ∷ set_avg_bitrate bps
        ∷ set_subtype output
        ∷ set_major_type output
        ∷ create_media_type output
        ∷ log in
      let rest : Mf (List ℕ) =
        ask host set_profile >>= (λ profile. ask host (set_type output id)) in
      ask-bind host Q R _ _ _
        (λ created.
          ask-bind host Q R _ _ _
            (λ major.
              ask-bind host Q R _ _ _
                (λ subtype.
                  ask-bind host Q R _ _ _
                    (λ bitrate.
                      ask-bind host Q R _ _ _
                        (λ interlace.
                          after-Post (λ v m'. m' ≡ with_log m (size_calls output w h fps begun)) Q R
                            _ (λ sizes. rest) (set_sizes-Post output w h fps begun)
                            (λ v m' e.
                              subst (λ k. Post Q R (rest k)) (sym e)
                                (ask-bind host Q R _ _ _
                                  (λ profile. ask-Post host Q R _ _ (λ v. refl) (keep _))
                                  (keep _))))
                        (keep _))
                    (keep _))
                (keep _))
            (keep _))
        (keep _)

  pub set_input_type-Post :
      (id w h fps : ℕ) (log : List Call)
      → Post
          (λ v m'. m' ≡ with_log m (input_calls id w h fps log))
          R
          (set_input_type host id w h fps (with_log m log))
  unfolding set_input_type ◌>>=◌
  set_input_type-Post id w h fps log =
      let Q = λ (v : List ℕ) (m' : Machine). m' ≡ with_log m (input_calls id w h fps log) in
      let begun =
        set_interlace input
        ∷ set_subtype input
        ∷ set_major_type input
        ∷ create_media_type input
        ∷ log in
      let rest : Mf (List ℕ) = ask host (set_type input id) in
      ask-bind host Q R _ _ _
        (λ created.
          ask-bind host Q R _ _ _
            (λ major.
              ask-bind host Q R _ _ _
                (λ subtype.
                  ask-bind host Q R _ _ _
                    (λ interlace.
                      after-Post (λ v m'. m' ≡ with_log m (size_calls input w h fps begun)) Q R _
                        (λ sizes. rest) (set_sizes-Post input w h fps begun)
                        (λ v m' e.
                          subst (λ k. Post Q R (rest k)) (sym e)
                            (ask-Post host Q R _ _ (λ v. refl) (keep _))))
                    (keep _))
                (keep _))
            (keep _))
        (keep _)
