-- ===== src/Windows/Encoder/Odd.antt =====
-- A display with an odd number of columns: the encoder is set up for one more, and the pictures that
-- the capture hands over are too short for it.
use xyzen_relay.Prelude.{
  ℕ, ◌+◌, ◌*◌, ◌%◌, ◌^◌, ◌≤◌, ◌<◌, ◌≡◌, ap, ◌∙◌, Bool, true, Option, none, some, List, arith, ltb,
  if◌then◌else◌, length,
}
use xyzen_relay.Windows.Encoder.{
  not_configured, input_buffer_size, err, Call, Reply, H264Encoder, Machine, Mf, ◌>>=◌, read, fail,
  process_input, ask, round_even,
}
use xyzen_relay.Windows.Encoder.Setup.{configure}
use xyzen_relay.Windows.Encoder.Feed.{fill_buffer, stamp_sample, submit_configured, submit_frame}
use xyzen_relay.Windows.Encoder.Post.{Post, Post-map}
use xyzen_relay.Windows.Encoder.Configured.{configure-Configured}

-- A picture that is too short is refused before any call.
pub submit_frame-short :
    (host : List Call → Call → Reply) (bgra : List ℕ) (m : Machine) (t : ℕ)
    → m.encoder.transform ≡ some t
    → length bgra < m.encoder.width * m.encoder.height * 4
    → submit_frame host bgra m
      ≡ (err (input_buffer_size (length bgra) (m.encoder.width * m.encoder.height * 4)), m)
unfolding submit_frame submit_configured ◌>>=◌ read fail
submit_frame-short host bgra m t ready short =
    let e = m.encoder in
    let small : ltb (length bgra) (e.width * e.height * 4) ≡ true = ground arith in
    ap
      (λ (o : Option ℕ).
        (elim o as (λ p. Mf (List ℕ)) [
          | none ↦ fail not_configured
          | some x ↦ submit_configured host e bgra
        ])
          m)
      ready
    ∙ ap
        (λ (b : Bool).
          (if b then fail (input_buffer_size (length bgra) (e.width * e.height * 4)) else rest e) m)
        small
  where
    rest : H264Encoder → Mf (List ℕ)
    rest e = do
      filled ← fill_buffer host e.width e.height bgra
      stamped ← stamp_sample host
      ask host (process_input e.input_stream_id)

round_even-odd : (w : ℕ) → w % 2 ≡ 1 → w + 1 < 2 ^ 32 → round_even w ≡ w + 1
unfolding round_even
round_even-odd w odd small = omega arith

round_even-le : (h : ℕ) → h + 1 < 2 ^ 32 → h ≤ round_even h
unfolding round_even
round_even-le h small = omega arith

-- `configure` for an odd width, and then a picture of exactly that width and height: whatever the
-- platform answers, either `configure` fails or `submit_frame` refuses the picture.
pub configure-submit_frame-odd :
    (host : List Call → Call → Reply) (w h fps bps : ℕ) (m : Machine) (bgra : List ℕ)
    → w % 2 ≡ 1
    → w + 1 < 2 ^ 32
    → 0 < h
    → h + 1 < 2 ^ 32
    → length bgra ≡ w * h * 4
    → Post
        (λ a m'.
          submit_frame host bgra m'
          ≡ (err (input_buffer_size (w * h * 4) ((w + 1) * round_even h * 4)), m'))
        (λ m'. m'.encoder ≡ m.encoder)
        (configure host w h fps bps m)
configure-submit_frame-odd host w h fps bps m bgra odd wide tall high long =
    Post-map _ _ _ (configure host w h fps bps m)
      (λ a m' (c, calls).
        let size : m'.encoder.width * m'.encoder.height * 4 ≡ (w + 1) * round_even h * 4 =
          ap (λ x. x * m'.encoder.height * 4) (c.width ∙ round_even-odd w odd wide)
          ∙ ap (λ y. (w + 1) * y * 4) c.height in
        let more : w * h * 4 < (w + 1) * round_even h * 4 = grind (arith, round_even-le h high) in
        submit_frame-short host bgra m' c.transform.0 c.transform.1 (omega arith)
        ∙ ap (λ n. (err (input_buffer_size n (m'.encoder.width * m'.encoder.height * 4)), m')) long
        ∙ ap (λ n. (err (input_buffer_size (w * h * 4) n), m')) size)
      (configure-Configured host w h fps bps m)
