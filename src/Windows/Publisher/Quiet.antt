-- ===== src/Windows/Publisher/Quiet.antt =====
-- Runs in which no setter comes between the two locks of the capture thread.
use xyzen_relay.Prelude.{
  ℕ, zero, suc, ◌+◌, ◌≤◌, ◌≡◌, refl, sym, subst, Bool, true, false, not, ◌&&◌, none, some, List, [],
  ◌∷◌, ◌++◌, arith, ◌==◌, if◌then◌else◌, length, All, All-append, inl, inr,
}
use xyzen_relay.Windows.Publisher.{
  State, Shared, CaptureThread, Starter, resetting_shutdown, storing_sender, spawning, Publisher,
  claim, select_display, set_bitrate_kbps, set_fps, set_resolution,
}
use xyzen_relay.Windows.Publisher.Events.{
  Event, start_called, start_step, capture_step, stop_called, display_selected, bitrate_set,
  fps_set, resolution_set, starter_step, run_starters, claimed, step, run,
}
use xyzen_relay.Windows.Publisher.Single.{AtMostOne, run_starters-running, step-AtMostOne}
use xyzen_relay.Windows.Publisher.Settings.{
  UpToDate, AllUpToDate, run_threads-All, any_clearing, is_setter, Asks-if, with_state-All,
}

-- The event is no setter, or no thread has read the settings without having cleared the flag.
abbrev pub quiet : Event → Publisher → Bool
quiet e p = not (is_setter e && any_clearing p.threads)

unfoldable pub all_quiet : List Event → Publisher → Bool
all_quiet [] p = true
all_quiet (e ∷ es) p = quiet e p && all_quiet es (step e p)

claimed-All :
    (p : Publisher) (b : Bool) (s : State)
    → p.shared.state.running ≡ b
    → AtMostOne p
    → AllUpToDate p
    → AllUpToDate (claimed p (if b then none else some s))
claimed-All p true s e one all = all
claimed-All p false s e one all = no_threads p.threads (ground arith)
  where
    no_threads : (ts : List CaptureThread) → length ts ≤ 0 → All (UpToDate s) ts
    no_threads [] h = tt
    no_threads (t ∷ ts) h = absurd (omega arith)

made-All :
    (st : State) (i : ℕ) (spawned : Bool) (cs : List Starter) (sh : Shared)
    → All (UpToDate st) (run_starters i spawned cs sh).2
unfolding run_starters starter_step
made-All st i spawned [] sh = tt
made-All st zero spawned (resetting_shutdown ∷ cs) sh = tt
made-All st zero spawned (storing_sender ∷ cs) sh = tt
made-All st zero true (spawning ∷ cs) sh = (tt, tt)
made-All st zero false (spawning ∷ cs) sh = tt
made-All st (suc i) spawned (c ∷ cs) sh = made-All st i spawned cs sh

one-le : (n k : ℕ) (b : Bool) → n + k ≤ (if b then 1 else 0) → n ≤ 1
one-le n k true h = omega arith
one-le n k false h = omega arith

step-AllUpToDate :
    (e : Event) (p : Publisher)
    → AtMostOne p
    → quiet e p ≡ true
    → AllUpToDate p
    → AllUpToDate (step e p)
unfolding step claim select_display set_bitrate_kbps set_fps set_resolution
step-AllUpToDate (start_called w h fps kbps id) p one calm all =
    claimed-All p p.shared.state.running _ refl one all
step-AllUpToDate (start_step i spawned) p one calm all =
    let (sh, cs, made) = run_starters i spawned p.starters p.shared in
    subst (λ st. All (UpToDate st) (p.threads ++ made))
      (sym (run_starters-running i spawned p.starters p.shared))
      (All-append (UpToDate p.shared.state) p.threads made all
        (made-All p.shared.state i spawned p.starters p.shared))
step-AllUpToDate (capture_step i a) p one calm all =
    run_threads-All i a p.threads p.shared
      (one-le (length p.threads) (length p.starters) p.shared.state.running one) all
step-AllUpToDate stop_called p one calm all = all
step-AllUpToDate (display_selected id) p one calm all =
    let s = p.shared.state in
    with_state-All p (select_display id s)
      (Asks-if s (not s.running) _ _ tt (Asks-if s (s.display_id == id) _ _ (inr refl) (inl refl)))
      (ground arith) all
step-AllUpToDate (bitrate_set kbps) p one calm all =
    let s = p.shared.state in
    with_state-All p (set_bitrate_kbps kbps s) (Asks-if s (not s.running) _ _ tt (inl refl))
      (ground arith) all
step-AllUpToDate (fps_set fps) p one calm all =
    let s = p.shared.state in
    with_state-All p (set_fps fps s) (Asks-if s (not s.running) _ _ tt (inl refl)) (ground arith)
      all
step-AllUpToDate (resolution_set w h) p one calm all =
    let s = p.shared.state in
    with_state-All p (set_resolution w h s) (Asks-if s (not s.running) _ _ tt (inl refl))
      (ground arith) all

-- A run from a state with at most one call of `start` or capture thread, in which no setter comes
-- between the two locks of the thread: if every snapshot in use was of the state's settings, or a rebuild
-- was due, it is so after the run.
pub run-AllUpToDate :
    (es : List Event) (p : Publisher)
    → AtMostOne p
    → all_quiet es p ≡ true
    → AllUpToDate p
    → AllUpToDate (run es p)
unfolding run all_quiet
run-AllUpToDate [] p one calm all = all
run-AllUpToDate (e ∷ es) p one calm all =
    run-AllUpToDate es (step e p) (step-AtMostOne e p one) (ground arith)
      (step-AllUpToDate e p one (ground arith) all)
