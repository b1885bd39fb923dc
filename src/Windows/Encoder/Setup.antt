-- ===== src/Windows/Encoder/Setup.antt =====
-- `find_h264_encoder`, `lookup_stream_ids` and `configure`. The answer to an enumeration is how many
-- transforms it found and, for the first, its handle (0 for none) behind it; the answer to
-- `get_stream_ids` is the two identifiers.
use xyzen_relay.Prelude.{ℕ, ◌/◌, max, some, List, ◌==◌, ◌||◌, if◌then◌else◌, get_or}
use xyzen_relay.Windows.Encoder.{
  mf, no_encoder_found, Side, input, output, Call, enum_sync, enum_hardware, activate_first,
  unlock_async, get_stream_ids, create_media_type, set_major_type, set_subtype, set_interlace,
  set_frame_size, set_frame_rate, set_pixel_aspect, set_type, set_avg_bitrate, set_profile,
  begin_streaming, start_of_stream, clock, Reply, failed, done, Mf, ◌>>=◌, pure, fail, put,
  e_notimpl, mf_set_size, round_even, micros, ask, note,
}

module _ (host : List Call → Call → Reply) where
  -- The second enumeration, for a platform with no synchronous encoder.
  unfoldable pub enumerate : Mf (List ℕ)
  enumerate = do
    sync ← ask host enum_sync
    (if get_or sync 0 0 == 0 then ask host enum_hardware else pure sync)

  unfoldable pub find_h264_encoder : Mf ℕ
  unfolding enumerate
  find_h264_encoder = do
    found ← enumerate
    (if get_or found 0 0 == 0 || get_or found 1 0 == 0 then fail no_encoder_found else do
      transform ← ask host activate_first
      ignored ← note host unlock_async
      pure (get_or transform 0 0))

  abbrev pub stream_ids : Reply → Mf (ℕ × ℕ)
  stream_ids (done ids) = pure (get_or ids 0 0, get_or ids 1 0)
  stream_ids (failed code) = if code == e_notimpl then pure (0, 0) else fail (mf code)

  unfoldable pub lookup_stream_ids : Mf (ℕ × ℕ)
  lookup_stream_ids = do reply ← note host get_stream_ids; stream_ids reply

  -- The three sizes that both media types get.
  unfoldable pub set_sizes : Side → ℕ → ℕ → ℕ → Mf (List ℕ)
  set_sizes side width height fps = do
    size ← ask host (set_frame_size side (mf_set_size width height))
    rate ← ask host (set_frame_rate side (mf_set_size fps 1))
    ask host (set_pixel_aspect side (mf_set_size 1 1))

  unfoldable pub set_output_type : ℕ → ℕ → ℕ → ℕ → ℕ → Mf (List ℕ)
  unfolding set_sizes
  set_output_type output_id width height fps bitrate_bps = do
    created ← ask host (create_media_type output)
    major ← ask host (set_major_type output)
    subtype ← ask host (set_subtype output)
    bitrate ← ask host (set_avg_bitrate bitrate_bps)
    interlace ← ask host (set_interlace output)
    sizes ← set_sizes output width height fps
    profile ← ask host set_profile
    ask host (set_type output output_id)

  unfoldable pub set_input_type : ℕ → ℕ → ℕ → ℕ → Mf (List ℕ)
  unfolding set_sizes
  set_input_type input_id width height fps = do
    created ← ask host (create_media_type input)
    major ← ask host (set_major_type input)
    subtype ← ask host (set_subtype input)
    interlace ← ask host (set_interlace input)
    sizes ← set_sizes input width height fps
    ask host (set_type input input_id)

  unfoldable pub configure : ℕ → ℕ → ℕ → ℕ → Mf (Unit {0})
  unfolding find_h264_encoder lookup_stream_ids set_output_type set_input_type
  configure width height fps bitrate_bps = do
    let w = round_even width
    let h = round_even height
    transform ← find_h264_encoder
    ids ← lookup_stream_ids
    output_set ← set_output_type ids.1 w h fps bitrate_bps
    input_set ← set_input_type ids.0 w h fps
    begun ← ask host begin_streaming
    started ← ask host start_of_stream
    now ← note host clock
    put (record {
      transform = some transform;
      input_stream_id = ids.0;
      output_stream_id = ids.1;
      width = w;
      height = h;
      frame_duration_100ns = 10000000 / max fps 1;
      next_pts_100ns = 0;
      epoch = micros now;
    })
