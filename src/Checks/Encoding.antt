-- ===== src/Checks/Encoding.antt =====
-- Concrete runs of the Windows encoder on a platform that is written out.
use xyzen_relay.Prelude.{
  ℕ, ◌+◌, ◌*◌, ◌≤◌, ◌≡◌, refl, arith, ◌⊎◌, true, some, List, [], ◌∷◌, ◌++◌, leb, if◌then◌else◌, All,
}
use xyzen_relay.Windows.Encoder.{
  err, input_buffer_size, Call, enum_sync, activate_first, get_stream_ids, process_output,
  process_input, lock_buffer, Reply, failed, done, H264Encoder, new, Machine,
  mf_e_transform_need_more_input, round_even,
}
use xyzen_relay.Windows.Encoder.Setup.{configure}
use xyzen_relay.Windows.Encoder.Feed.{submit_frame, drain}
use xyzen_relay.Windows.Encoder.Post.{Post, logged}
use xyzen_relay.Windows.Encoder.Configured.{Configured, configure_calls, configure-Configured}
use xyzen_relay.Windows.Encoder.Submitted.{advanced, stamped, filled, submit_frame-Post}
use xyzen_relay.Windows.Encoder.Odd.{configure-submit_frame-odd}
use xyzen_relay.Windows.Encoder.Samples.{Framed, outputs, units_read, bodies}
use xyzen_relay.Windows.Encoder.Drained.{drain-Post}

-- Answers to a call that does not depend on the calls before it: one encoder, with the handle 7, and
-- samples of one unit of two bytes.
abbrev answer : Call → Reply
answer c = elim c [
  | enum_sync ↦ done (1 ∷ 1 ∷ [])
  | activate_first ↦ done (7 ∷ [])
  | get_stream_ids ↦ failed 0x80004001
  | lock_buffer ↦ done (0 ∷ 0 ∷ 0 ∷ 2 ∷ 101 ∷ 9 ∷ [])
  | process_output s ↦ done (1 ∷ [])
  | _ ↦ done []
]

-- One sample of output, and then a call for more input.
abbrev pub platform : List Call → Call → Reply
platform log (process_output s) =
    if leb 1 (outputs log) then failed mf_e_transform_need_more_input else done (1 ∷ [])
platform log c = answer c

abbrev pub started : Machine
started = record { encoder = new; log = [] }

configure-Configured_example :
    Post
      (λ a m'.
        Configured 3 2 30 m'.encoder
        × ((log : List Call) × (m'.log ≡ configure_calls 3 2 30 8000 m'.encoder log)))
      (λ m'. m'.encoder ≡ new)
      (configure platform 3 2 30 8000 started)
configure-Configured_example = configure-Configured platform 3 2 30 8000 started

abbrev small : H264Encoder
small = record new { transform = some 7; width = 2; height = 2; frame_duration_100ns = 333333 }

abbrev set_up : Machine
set_up = record { encoder = small; log = [] }

abbrev pub black : List ℕ
black = 0 ∷ 0 ∷ 0 ∷ 0 ∷ 0 ∷ 0 ∷ 0 ∷ 0 ∷ 0 ∷ 0 ∷ 0 ∷ 0 ∷ 0 ∷ 0 ∷ 0 ∷ 0 ∷ []

submit_frame-Post_example :
    Post
      (λ v m'. m' ≡ logged (process_input 0) (stamped (filled 1 1 black set_up)))
      (λ m'. (m'.encoder ≡ small) ⊎ (m'.encoder ≡ advanced small))
      (submit_frame platform black set_up)
submit_frame-Post_example =
    submit_frame-Post platform 1 1 7 black set_up refl refl refl (omega arith)

-- A display of one column and two rows.
configure-submit_frame-odd_example :
    Post
      (λ a m'.
        submit_frame platform (1 ∷ 2 ∷ 3 ∷ 4 ∷ 5 ∷ 6 ∷ 7 ∷ 8 ∷ []) m'
        ≡ (err (input_buffer_size 8 ((1 + 1) * round_even 2 * 4)), m'))
      (λ m'. m'.encoder ≡ new)
      (configure platform 1 2 30 8000 started)
configure-submit_frame-odd_example =
    configure-submit_frame-odd platform 1 2 30 8000 started (1 ∷ 2 ∷ 3 ∷ 4 ∷ 5 ∷ 6 ∷ 7 ∷ 8 ∷ [])
      refl (omega arith) (omega arith) (omega arith) refl

pub platform-dry :
    (log : List Call) (s : ℕ)
    → 1 ≤ outputs log
    → platform log (process_output s) ≡ failed mf_e_transform_need_more_input
platform-dry log s h = let over : leb 1 (outputs log) ≡ true = ground arith in rw (over) refl

drain-Post_example :
    Post
      (λ nals m'.
        All Framed nals
        × ((m'.encoder ≡ small)
            × (units_read platform m'.log ≡ units_read platform [] ++ bodies nals)))
      (λ m'. m'.encoder ≡ small)
      (drain platform 2 set_up)
drain-Post_example =
    drain-Post platform 1 (λ s. mf_e_transform_need_more_input) platform-dry set_up 7 refl
