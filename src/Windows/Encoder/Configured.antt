-- ===== src/Windows/Encoder/Configured.antt =====
-- What `configure` does to the encoder: all of it or, when a call fails, nothing; and its last calls.
use xyzen_relay.Prelude.{
  ℕ, ◌/◌, ◌≡◌, refl, sym, ap, subst, max, some, List, [], ◌∷◌, ◌==◌, ◌||◌, get_or,
}
use xyzen_relay.Windows.Encoder.{
  mf, no_encoder_found, Call, enum_sync, enum_hardware, activate_first, unlock_async,
  get_stream_ids, begin_streaming, start_of_stream, clock, Reply, failed, done, H264Encoder,
  Machine, Mf, ◌>>=◌, put, e_notimpl, round_even, micros, ask, note,
}
use xyzen_relay.Windows.Encoder.Setup.{
  enumerate, find_h264_encoder, stream_ids, lookup_stream_ids, set_output_type, set_input_type,
  configure,
}
use xyzen_relay.Windows.Encoder.Calls.{
  with_log, input_calls, output_calls, set_output_type-Post, set_input_type-Post,
}
use xyzen_relay.Windows.Encoder.Post.{
  after-Post, ask-bind, Post, Logs-Same, Same, Keeps, Ends, Ends-bind, Keeps-bind, Keeps-pure,
  Keeps-fail, Keeps-if, Keeps-ask, Keeps-note,
}

module _ (host : List Call → Call → Reply) (e : H264Encoder) where
  Keeps-enumerate : Keeps (Same e) (enumerate host)
  unfolding enumerate
  Keeps-enumerate = Keeps-bind (Keeps-ask host (Logs-Same e) enum_sync) (λ sync.
      Keeps-if (get_or sync 0 0 == 0) (Keeps-ask host (Logs-Same e) enum_hardware)
        (Keeps-pure sync))

  Keeps-find_h264_encoder : Keeps (Same e) (find_h264_encoder host)
  unfolding find_h264_encoder
  Keeps-find_h264_encoder = Keeps-bind Keeps-enumerate (λ found.
      Keeps-if (get_or found 0 0 == 0 || get_or found 1 0 == 0) (Keeps-fail no_encoder_found) (
        Keeps-bind (Keeps-ask host (Logs-Same e) activate_first) (λ transform.
          Keeps-bind (Keeps-note host (Logs-Same e) unlock_async)
            (λ ignored. Keeps-pure (get_or transform 0 0)))))

  Keeps-stream_ids : (r : Reply) → Keeps (Same e) (stream_ids host r)
  Keeps-stream_ids (done ids) = Keeps-pure (get_or ids 0 0, get_or ids 1 0)
  Keeps-stream_ids (failed code) =
      Keeps-if (code == e_notimpl) (Keeps-pure (0, 0)) (Keeps-fail (mf code))

  Keeps-lookup_stream_ids : Keeps (Same e) (lookup_stream_ids host)
  unfolding lookup_stream_ids
  Keeps-lookup_stream_ids =
      Keeps-bind (Keeps-note host (Logs-Same e) get_stream_ids) Keeps-stream_ids

-- The encoder's state for pictures of this size, rate and time, from the identifiers it was given.
pub record Configured (w h fps : ℕ) (e : H264Encoder) : Type 0 where
  pub transform : (t : ℕ) × (e.transform ≡ some t)
  pub width : e.width ≡ round_even w
  pub height : e.height ≡ round_even h
  pub duration : e.frame_duration_100ns ≡ 10000000 / max fps 1
  pub restarted : e.next_pts_100ns ≡ 0

-- The calls behind the search for a transform and its streams, the newest first.
abbrev pub configure_calls : ℕ → ℕ → ℕ → ℕ → H264Encoder → List Call → List Call
configure_calls w h fps bps e log =
    clock
    ∷ start_of_stream
    ∷ begin_streaming
    ∷ input_calls e.input_stream_id (round_even w) (round_even h) fps
        (output_calls e.output_stream_id (round_even w) (round_even h) fps bps log)

abbrev Set : ℕ → ℕ → ℕ → ℕ → Unit {0} → Machine → Type 0
Set w h fps bps a m =
    Configured w h fps m.encoder
    × ((log : List Call) × (m.log ≡ configure_calls w h fps bps m.encoder log))

module _ (host : List Call → Call → Reply) (w h fps bps : ℕ) (e : H264Encoder) (transform : ℕ)
    (ids : ℕ × ℕ) where
  -- The rest of `configure`, behind the output type, and behind both types.
  abbrev streaming : List ℕ → Mf (Unit {0})
  streaming a = do
    begun ← ask host begin_streaming
    started ← ask host start_of_stream
    now ← note host clock
    put (record {
      transform = some transform;
      input_stream_id = ids.0;
      output_stream_id = ids.1;
      width = round_even w;
      height = round_even h;
      frame_duration_100ns = 10000000 / max fps 1;
      next_pts_100ns = 0;
      epoch = micros now;
    })

  abbrev both_types : Mf (Unit {0})
  both_types = do
    output_set ← set_output_type host ids.1 (round_even w) (round_even h) fps bps
    input_set ← set_input_type host ids.0 (round_even w) (round_even h) fps
    streaming input_set

  streaming-Post :
      (v : List ℕ) (m : Machine) (log : List Call)
      → m
        ≡ with_log
            (record { encoder = e; log = [] })
            (input_calls ids.0
              (round_even w)
              (round_even h)
              fps
              (output_calls ids.1 (round_even w) (round_even h) fps bps log))
      → Post (Set w h fps bps) (Same e) (streaming v m)
  unfolding ◌>>=◌ note put
  streaming-Post v m log at =
      subst (λ k. Post (Set w h fps bps) (Same e) (streaming v k)) (sym at)
        (ask-bind host (Set w h fps bps) (Same e) _ _ _
          (λ begun.
            ask-bind host (Set w h fps bps) (Same e) _ _ _
              (λ started. (
                record {
                  transform = (transform, refl);
                  width = refl;
                  height = refl;
                  duration = refl;
                  restarted = refl;
                },
                (log, refl),
              ))
              refl)
          refl)

  both_types-Ends : Ends (Same e) (Set w h fps bps) both_types
  unfolding ◌>>=◌
  both_types-Ends = record {
    run = λ m same.
        let w' = round_even w in
        let h' = round_even h in
        let base : Machine = record { encoder = e; log = [] } in
        let out = output_calls ids.1 w' h' fps bps m.log in
        let rest : Mf (Unit {0}) = set_input_type host ids.0 w' h' fps >>= streaming in
        let at : m ≡ with_log base m.log = ap (λ e'. record { encoder = e'; log = m.log }) same in
        subst (λ k. Post (Set w h fps bps) (Same e) (both_types k)) (sym at)
          (after-Post (λ v m'. m' ≡ with_log base out) (Set w h fps bps) (Same e) _ (λ v. rest)
            (set_output_type-Post host (Same e) base (λ log. refl) ids.1 w' h' fps bps m.log)
            (λ v m' e'.
              subst (λ k. Post (Set w h fps bps) (Same e) (rest k)) (sym e')
                (after-Post (λ v m'. m' ≡ with_log base (input_calls ids.0 w' h' fps out))
                  (Set w h fps bps) (Same e) _ streaming
                  (set_input_type-Post host (Same e) base (λ log. refl) ids.0 w' h' fps out)
                  (λ v m' e''. streaming-Post v m' m.log e''))));
  }

-- Whatever the platform answers, `configure` ends. With a value the encoder has a transform, the size
-- rounded up to even, the time of one frame, and counts from 0; the last calls are those that set the
-- output type and then the input type, with that size, and start the stream. With an error the encoder
-- is as it was.
pub configure-Configured :
    (host : List Call → Call → Reply) (w h fps bps : ℕ) (m : Machine)
    → Post
        (λ a m'.
          Configured w h fps m'.encoder
          × ((log : List Call) × (m'.log ≡ configure_calls w h fps bps m'.encoder log)))
        (λ m'. m'.encoder ≡ m.encoder)
        (configure host w h fps bps m)
unfolding configure
configure-Configured host w h fps bps m =
    let e = m.encoder in
    let ends : Ends (Same e) (Set w h fps bps) (configure host w h fps bps) =
      Ends-bind (Keeps-find_h264_encoder host e) (λ transform.
        Ends-bind (Keeps-lookup_stream_ids host e)
          (λ ids. both_types-Ends host w h fps bps e transform ids)) in
    ends.run m refl
