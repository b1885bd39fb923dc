-- ===== src/Windows/Encoder/Feed.antt =====
-- `submit_frame`, `sample_to_annexb` and `drain`.
use xyzen_relay.Prelude.{
  ℕ, zero, suc, ◌+◌, ◌-◌, ◌*◌, ◌/◌, ◌%◌, ◌^◌, max, bit_and, Option, none, some, List, [], ◌++◌, map,
  ltb, ◌==◌, not, zeros, if◌then◌else◌, length, get_or,
}
use xyzen_relay.Windows.Annexb.{avcc_to_annexb}
use xyzen_relay.Windows.Nv12.{bgra_to_nv12}
use xyzen_relay.Windows.Encoder.{
  mf, not_configured, input_buffer_size, ok, panic, unfinished, Call, clock, create_buffer,
  set_current_length, set_sample_time, set_sample_duration, process_input, lock_buffer,
  unlock_buffer, create_sample, add_buffer, write, output_stream_info, process_output,
  convert_to_contiguous, Reply, failed, done, H264Encoder, Nal, Mf, ◌>>=◌, pure, fail, read, put,
  mf_e_transform_need_more_input, saturating_add, micros, to_be_bytes, ask, note,
}

-- `none` is a panic, of a loop that runs out of range.
abbrev pub or_panic {ℓ} : {A : Type ℓ} → Option A → Mf A
or_panic (some a) m = (ok a, m)
or_panic none m = (panic, m)

abbrev pub or_unfinished {ℓ} : {A : Type ℓ} → Option A → Mf A
or_unfinished (some a) m = (ok a, m)
or_unfinished none m = (unfinished, m)

module _ (host : List Call → Call → Reply) where
  -- The converted picture, in a buffer of `nv12_len` bytes whatever they were.
  unfoldable pub fill_buffer : ℕ → ℕ → List ℕ → Mf (List ℕ)
  fill_buffer width height bgra = do
    let y_size = width * height
    let nv12_len = y_size + y_size / 2
    created ← ask host (create_buffer (nv12_len % 2 ^ 32))
    locked ← ask host lock_buffer
    picture ← or_panic (bgra_to_nv12 bgra width height (zeros nv12_len))
    written ← note host (write picture)
    sized ← ask host (set_current_length (nv12_len % 2 ^ 32))
    ask host unlock_buffer

  unfoldable pub stamp_sample : Mf (Unit {0})
  stamp_sample = do
    e ← read
    sample ← ask host create_sample
    added ← ask host add_buffer
    time ← ask host (set_sample_time e.next_pts_100ns)
    duration ← ask host (set_sample_duration e.frame_duration_100ns)
    put (record e { next_pts_100ns = saturating_add e.next_pts_100ns e.frame_duration_100ns })

  unfoldable pub submit_configured : H264Encoder → List ℕ → Mf (List ℕ)
  unfolding fill_buffer stamp_sample
  submit_configured e bgra = do
    let expected = e.width * e.height * 4
    (if ltb (length bgra) expected then fail (input_buffer_size (length bgra) expected) else do
      filled ← fill_buffer e.width e.height bgra
      stamped ← stamp_sample
      ask host (process_input e.input_stream_id))

  unfoldable pub submit_frame : List ℕ → Mf (List ℕ)
  unfolding submit_configured
  submit_frame bgra = do
    e ← read
    elim e.transform [ none ↦ fail not_configured | some transform ↦ submit_configured e bgra ]

  abbrev pub prefixed : List ℕ → ℕ → List ℕ → Nal
  prefixed prefix pts_us annexb = record { data_bytes = prefix ++ annexb; pts_us = pts_us }

  -- Locking gives the bytes of the sample.
  unfoldable pub sample_to_annexb : ℕ → Mf (List Nal)
  sample_to_annexb pts_us = do
    wall ← note host clock
    buffer ← ask host convert_to_contiguous
    bytes ← ask host lock_buffer
    unlocked ← ask host unlock_buffer
    units ← or_unfinished (avcc_to_annexb bytes)
    pure (map (prefixed (to_be_bytes (micros wall)) pts_us) units)

  -- Since `configure`; 0 when the clock went back.
  unfoldable pub epoch_now_us : Mf ℕ
  epoch_now_us = do e ← read; now ← note host clock; pure (micros now - e.epoch)

  -- A sample to write into, when the encoder does not bring its own. The answer to
  -- `output_stream_info` is the flags and the size.
  unfoldable pub allocate : List ℕ → Mf (List ℕ)
  allocate info = if not (bit_and (get_or info 0 0) 0x300 == 0) then pure [] else do
    buffer ← ask host (create_buffer (max (get_or info 1 0) 1))
    sample ← ask host create_sample
    ask host add_buffer

  -- The answer to `process_output` is whether there is a sample, 0 or not.
  unfoldable pub produced : List ℕ → Mf (List Nal)
  unfolding epoch_now_us sample_to_annexb
  produced sample =
      if get_or sample 0 0 == 0 then pure [] else do pts_us ← epoch_now_us; sample_to_annexb pts_us

  -- What comes after `process_output`; `again` is the rest of the loop.
  unfoldable pub drain_result : (List Nal → Mf (List Nal)) → List Nal → Reply → Mf (List Nal)
  drain_result again out_nals (done sample) = do nals ← produced sample; again (out_nals ++ nals)
  drain_result again out_nals (failed code) =
      if code == mf_e_transform_need_more_input then pure out_nals else fail (mf code)

  unfoldable pub drain_round : (List Nal → Mf (List Nal)) → ℕ → List Nal → Mf (List Nal)
  drain_round again stream out_nals = do
    info ← ask host (output_stream_info stream)
    allocated ← allocate info
    result ← note host (process_output stream)
    drain_result again out_nals result

  unfoldable pub drain_loop : ℕ → ℕ → List Nal → Mf (List Nal)
  drain_loop zero stream out_nals m = (unfinished, m)
  drain_loop (suc fuel) stream out_nals m = drain_round (drain_loop fuel stream) stream out_nals m

  unfoldable pub drain : ℕ → Mf (List Nal)
  drain fuel = do
    e ← read
    elim e.transform [
      | none ↦ fail not_configured
      | some transform ↦ drain_loop fuel e.output_stream_id []
    ]
