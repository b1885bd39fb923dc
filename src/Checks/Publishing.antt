-- ===== src/Checks/Publishing.antt =====
-- Concrete interleavings of the Windows publisher.
use xyzen_relay.Windows.Encoder.{Nal}
use xyzen_relay.Prelude.{ℕ, some, ◌≡◌, refl, arith, true, false, none, List, [], ◌∷◌, length, map}
use xyzen_relay.Windows.Publisher.{
  Publisher, CaptureThread, Frame, arrived, capturing, taking_sender, encode, claim,
  set_bitrate_kbps, thread_step, run_threads, Answer, went_well, failed,
}
use xyzen_relay.Windows.Publisher.Events.{
  Event, start_called, start_step, capture_step, stop_called, bitrate_set, starter_step,
  run_starters, step, run, initial,
}
use xyzen_relay.Windows.Publisher.Single.{AtMostOne, run-AtMostOne}
use xyzen_relay.Windows.Publisher.Stopping.{Gone, stop-Gone}
use xyzen_relay.Windows.Publisher.Settings.{AllUpToDate}
use xyzen_relay.Windows.Publisher.Quiet.{all_quiet, run-AllUpToDate}

-- `start` is called, and called again before it is through; the first call goes on to its end.
abbrev starts : List Event
starts =
    start_called 0 0 30 8000 1
    ∷ start_called 0 0 60 4000 2
    ∷ start_step 0 true
    ∷ start_step 0 true
    ∷ start_step 0 true
    ∷ []

run-AtMostOne_example : AtMostOne (run starts initial)
run-AtMostOne_example = run-AtMostOne starts initial (omega arith)

-- The thread up to the session.
abbrev up_to_session : List Event
up_to_session =
    capture_step 0 went_well
    ∷ capture_step 0 went_well
    ∷ capture_step 0 went_well
    ∷ capture_step 0 went_well
    ∷ capture_step 0 went_well
    ∷ []

abbrev in_session : Publisher
in_session = run up_to_session (run starts initial)

in_session-one :
    in_session.threads
    ≡ capturing
        (record { width = 0; height = 0; fps = 30; bitrate_kbps = 8000; display_id = 1 })
        none
      ∷ []
unfolding run step claim starter_step run_starters thread_step run_threads
in_session-one = refl

-- Two NALs of a picture, of which the receiver takes one; the thread stands before the sender's lock.
abbrev nal : ℕ → Nal
nal n = record { data_bytes = n ∷ []; pts_us = 0 }

abbrev picture : Frame
picture = record {
  width = 2;
  height = 2;
  configured = true;
  buffered = true;
  submitted = true;
  drained = some (nal 1 ∷ nal 2 ∷ []);
  taken = 1;
}

abbrev in_callback : Publisher
in_callback =
    run
      (capture_step 0 (arrived picture) ∷ capture_step 0 went_well ∷ capture_step 0 went_well ∷ [])
      in_session

abbrev with_nals : CaptureThread
with_nals =
    taking_sender (record { width = 0; height = 0; fps = 30; bitrate_kbps = 8000; display_id = 1 })
      (some (2, 2)) 1 (nal 1 ∷ nal 2 ∷ [])

in_callback-one : in_callback.threads ≡ with_nals ∷ []
unfolding run step claim starter_step run_starters thread_step run_threads encode
in_callback-one = refl

abbrev answers : List Answer
answers =
    went_well
    ∷ failed
    ∷ went_well
    ∷ arrived picture
    ∷ went_well
    ∷ failed
    ∷ went_well
    ∷ went_well
    ∷ failed
    ∷ went_well
    ∷ went_well
    ∷ []

-- `stop` inside of a callback: the first NAL is still sent.
sent_after_stop :
    (run (stop_called ∷ map (capture_step 0) answers) in_callback).shared.sent ≡ (0, nal 1) ∷ []
unfolding run step claim starter_step run_starters thread_step run_threads encode
sent_after_stop = refl

stop-Gone_example :
    Gone with_nals in_callback.shared.sent
      (run (stop_called ∷ map (capture_step 0) answers) in_callback)
stop-Gone_example = stop-Gone in_callback with_nals answers in_callback-one (omega arith)

quiet_events : all_quiet (up_to_session) (run starts initial) ≡ true
unfolding all_quiet run step claim starter_step run_starters thread_step run_threads
quiet_events = refl

started-AtMostOne : AtMostOne (run starts initial)
unfolding run step claim starter_step run_starters
started-AtMostOne = omega arith

started-AllUpToDate : AllUpToDate (run starts initial)
unfolding run step claim starter_step run_starters
started-AllUpToDate = (tt, tt)

run-AllUpToDate_example : AllUpToDate in_session
run-AllUpToDate_example =
    run-AllUpToDate up_to_session (run starts initial) started-AtMostOne quiet_events
      started-AllUpToDate

-- A rate that is set between the two locks of the thread is lost: the session runs with the old one and
-- no rebuild is due.
abbrev set_between : List Event
set_between =
    capture_step 0 went_well
    ∷ capture_step 0 went_well
    ∷ capture_step 0 went_well
    ∷ bitrate_set 500
    ∷ capture_step 0 went_well
    ∷ capture_step 0 went_well
    ∷ []

abbrev lost : Publisher
lost = run set_between (run starts initial)

set_between-lost :
    (lost.threads
      ≡ capturing
          (record { width = 0; height = 0; fps = 30; bitrate_kbps = 8000; display_id = 1 })
          none
        ∷ [])
    × ((lost.shared.state.bitrate_kbps ≡ 500) × (lost.shared.state.needs_rebuild ≡ false))
unfolding run step claim set_bitrate_kbps starter_step run_starters thread_step run_threads
set_between-lost = (refl, (refl, refl))

-- `stop` between the first block of `start` and the store behind it is lost.
abbrev stopped_early : Publisher
stopped_early =
    run
      (start_called 0 0 30 8000 1
        ∷ stop_called
        ∷ start_step 0 true
        ∷ start_step 0 true
        ∷ start_step 0 true
        ∷ [])
      initial

stop-lost : (stopped_early.shared.shutdown ≡ false) × (length stopped_early.threads ≡ 1)
unfolding run step claim starter_step run_starters
stop-lost = (refl, refl)

-- When the thread cannot be made, every later `start` is refused.
abbrev no_thread : Publisher
no_thread =
    run
      (start_called 0 0 30 8000 1 ∷ start_step 0 true ∷ start_step 0 true ∷ start_step 0 false ∷ [])
      initial

no_thread-refused :
    (length no_thread.threads ≡ 0) × (claim 0 0 30 8000 1 no_thread.shared.state ≡ none)
unfolding run step claim starter_step run_starters
no_thread-refused = (refl, refl)
