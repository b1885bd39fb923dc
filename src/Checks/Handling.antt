-- ===== src/Checks/Handling.antt =====
-- The callback of the Windows publisher with the encoder in it.
use xyzen_relay.Prelude.{ℕ, ◌≡◌, refl, true, false, none, some, [], length}
use xyzen_relay.Windows.Encoder.{
  mf_e_transform_need_more_input, ◌>>=◌, read, ask, pure, note, put, round_even, fail, mf_set_size,
  saturating_add,
}
use xyzen_relay.Windows.Nv12.{
  bgra_to_nv12, luma_rows, luma_row, write_luma, chroma_rows, chroma_row, write_chroma, block_sums,
  add_pixel, chroma_u, chroma_v, luma,
}
use xyzen_relay.Windows.Annexb.{
  annexb_split, avcc_loop, avcc_to_annexb, cut_units, find_starts, from_be_bytes, is_annexb,
  start_code_at,
}
use xyzen_relay.Stream.Nal.{starts_with}
use xyzen_relay.Windows.Encoder.Setup.{
  configure, enumerate, find_h264_encoder, lookup_stream_ids, set_input_type, set_output_type,
  set_sizes,
}
use xyzen_relay.Windows.Encoder.Feed.{
  submit_frame, drain, drain_loop, drain_round, allocate, drain_result, epoch_now_us, fill_buffer,
  produced, sample_to_annexb, stamp_sample, submit_configured,
}
use xyzen_relay.Windows.Publisher.{State, Shared, snapshot_of}
use xyzen_relay.Windows.Publisher.Callback.{on_frame_arrived, send_nals}
use xyzen_relay.Windows.Publisher.Handler.{
  Picture, Handled, handle_dims, after_configure, feed, after_submit, after_drain, IsStep, handle,
  frame_for, handle-IsStep,
}
use xyzen_relay.Windows.Publisher.Handler.Sent.{StillFramed, handle-StillFramed}
use xyzen_relay.Checks.Encoding.{platform, platform-dry, black, started}

abbrev running : State
running = record {
  width = 0;
  height = 0;
  fps = 30;
  bitrate_kbps = 8000;
  display_id = 0;
  running = true;
  needs_rebuild = false;
}

abbrev shared : Shared
shared = record { state = running; shutdown = false; sender = some 0; channels = 1; sent = [] }

-- The first picture of a session, of two columns and two rows.
abbrev picture : Picture
picture = record { width = 2; height = 2; bgra = some black; taken = 5 }

handle-IsStep_example :
    IsStep platform 2
      (on_frame_arrived
        (snapshot_of running)
        none
        (frame_for platform 2 (snapshot_of running) none picture started)
        shared)
      (handle platform 2 (snapshot_of running) none picture shared started)
handle-IsStep_example = handle-IsStep platform 2 (snapshot_of running) none picture shared started

handle-StillFramed_example :
    StillFramed (handle platform 2 (snapshot_of running) none picture shared started)
handle-StillFramed_example =
    handle-StillFramed platform 1 (λ s. mf_e_transform_need_more_input) platform-dry
      (snapshot_of running) none picture shared started tt

sent_by : Handled → ℕ
sent_by none = 0
sent_by (some (st, m)) = length st.0.sent

-- The platform brings one sample of one unit, which goes into the channel.
one_sent : sent_by (handle platform 2 (snapshot_of running) none picture shared started) ≡ 1
unfolding sent_by handle handle_dims after_configure feed after_submit after_drain send_nals
    bgra_to_nv12 luma_rows luma_row write_luma chroma_rows chroma_row write_chroma block_sums
    add_pixel chroma_u chroma_v luma ◌>>=◌ read ask pure note put round_even fail mf_set_size
    saturating_add annexb_split avcc_loop avcc_to_annexb cut_units find_starts from_be_bytes
    is_annexb start_code_at submit_frame drain drain_loop drain_round allocate drain_result
    epoch_now_us fill_buffer produced sample_to_annexb stamp_sample submit_configured configure
    enumerate find_h264_encoder lookup_stream_ids set_input_type set_output_type set_sizes
    starts_with
one_sent = refl
