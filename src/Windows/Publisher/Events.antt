-- ===== src/Windows/Publisher/Events.antt =====
-- The calls of the public interface and the steps of the threads, as events.
use xyzen_relay.Prelude.{
  ℕ, zero, suc, Bool, true, false, Option, none, some, List, [], ◌∷◌, ◌++◌, if◌then◌else◌,
}
use xyzen_relay.Windows.Publisher.{
  State, default, Shared, CaptureThread, starting, Starter, resetting_shutdown, storing_sender,
  spawning, Publisher, claim, select_display, set_bitrate_kbps, set_fps, set_resolution, Answer,
  put_back, run_threads,
}

-- `start_called`: the first block of `start`. `start_step i spawned`: the next step of the `i`th call of
-- it that is under way; `spawned` is whether the thread could be made. `capture_step i a`: the next step
-- of the `i`th capture thread.
pub data Event : Type 0 where
  start_called : ℕ → ℕ → ℕ → ℕ → ℕ → Event
  start_step : ℕ → Bool → Event
  capture_step : ℕ → Answer → Event
  stop_called : Event
  display_selected bitrate_set fps_set : ℕ → Event
  resolution_set : ℕ → ℕ → Event

-- The next step of a call of `start`: what is shared, the call if it goes on, the threads it made.
unfoldable pub starter_step : Bool → Starter → Shared → Shared × Option Starter × List CaptureThread
starter_step spawned resetting_shutdown sh =
    (record sh { shutdown = false }, some storing_sender, [])
starter_step spawned storing_sender sh =
    (record sh { sender = some sh.channels; channels = suc sh.channels }, some spawning, [])
starter_step spawned spawning sh = (sh, none, if spawned then starting ∷ [] else [])

unfoldable pub run_starters :
    ℕ → Bool → List Starter → Shared → Shared × List Starter × List CaptureThread
run_starters i spawned [] sh = (sh, [], [])
run_starters zero spawned (c ∷ cs) sh =
    let (sh', c', made) = starter_step spawned c sh in (sh', put_back c' cs, made)
run_starters (suc i) spawned (c ∷ cs) sh =
    let (sh', cs', made) = run_starters i spawned cs sh in (sh', c ∷ cs', made)

-- A call that gives `Err` changes nothing.
abbrev pub with_state : Publisher → Option State → Publisher
with_state p none = p
with_state p (some s) = record p { shared = record p.shared { state = s } }

abbrev pub claimed : Publisher → Option State → Publisher
claimed p none = p
claimed p (some s) = record {
  shared = record p.shared { state = s };
  threads = p.threads;
  starters = p.starters ++ (resetting_shutdown ∷ []);
}

unfoldable pub step : Event → Publisher → Publisher
step (start_called w h fps kbps id) p = claimed p (claim w h fps kbps id p.shared.state)
step (start_step i spawned) p =
    let (sh, starters, made) = run_starters i spawned p.starters p.shared in
    record { shared = sh; threads = p.threads ++ made; starters = starters }
step (capture_step i a) p =
    let (sh, threads) = run_threads i a p.threads p.shared in
    record p { shared = sh; threads = threads }
step stop_called p = record p { shared = record p.shared { shutdown = true } }
step (display_selected id) p = with_state p (select_display id p.shared.state)
step (bitrate_set kbps) p = with_state p (set_bitrate_kbps kbps p.shared.state)
step (fps_set fps) p = with_state p (set_fps fps p.shared.state)
step (resolution_set w h) p = with_state p (set_resolution w h p.shared.state)

unfoldable pub run : List Event → Publisher → Publisher
run [] p = p
run (e ∷ es) p = run es (step e p)

abbrev pub initial : Publisher
initial = record {
  shared = record { state = default; shutdown = false; sender = none; channels = 0; sent = [] };
  threads = [];
  starters = [];
}
