-- ===== src/Windows/Publisher/Stopping.antt =====
-- That the capture thread ends once `stop` was called, and what it still sends.
use xyzen_relay.Prelude.{
  ℕ, suc, ◌+◌, ◌≤◌, ◌≡◌, refl, sym, subst, inl, true, false, Option, none, some, List, [], ◌∷◌, map,
  arith, length,
}
use xyzen_relay.Windows.Encoder.{Nal}
use xyzen_relay.Windows.Publisher.{
  Shared, CaptureThread, Starter, Publisher, Answer, thread_step, put_back, run_threads,
}
use xyzen_relay.Windows.Publisher.InHand.{in_hand, Sent, steps_left, steps_left-le}
use xyzen_relay.Windows.Publisher.Nearer.{Told, Nearer, thread_step-Nearer}
use xyzen_relay.Windows.Publisher.Events.{capture_step, stop_called, step, run}

-- Gone, with what it had in hand sent in part.
abbrev pub Gone : CaptureThread → List (ℕ × Nal) → Publisher → Type 0
Gone t before p =
    (p.threads ≡ []) × ((p.shared.state.running ≡ false) × Sent t before p.shared.sent)

abbrev with_threads : List Starter → Shared → List CaptureThread → Publisher
with_threads cs sh ts = record { shared = sh; threads = ts; starters = cs }

module _ (cs : List Starter) where
  run-none :
      (as' : List Answer) (sh : Shared)
      → run (map (capture_step 0) as') (with_threads cs sh []) ≡ with_threads cs sh []
  unfolding run step run_threads
  run-none [] sh = refl
  run-none (a ∷ as') sh = run-none as' sh

  -- From the state behind a step, given the rest of the run.
  run-Nearer :
      (as' : List Answer) (t : CaptureThread) (sh : Shared) (r : Shared × Option CaptureThread)
      → Nearer t sh r
      → steps_left t ≤ suc (length as')
      → ((t' : CaptureThread) (sh' : Shared)
          → Told t' sh'
          → steps_left t' ≤ length as'
          → Gone t' sh'.sent (run (map (capture_step 0) as') (with_threads cs sh' (t' ∷ []))))
      → Gone t sh.sent (run (map (capture_step 0) as') (with_threads cs r.0 (put_back r.1 [])))
  run-Nearer as' t sh (sh', none) (ended, same) enough rest =
      subst (Gone t sh.sent) (sym (run-none as' sh')) (refl, (ended, same))
  run-Nearer as' t sh (sh', some t') (nearer, (told, same)) enough rest =
      let (gone, (ended, sent)) = rest t' sh' told (omega arith) in (gone, (ended, same _ sent))

  run-Gone :
      (as' : List Answer) (t : CaptureThread) (sh : Shared)
      → Told t sh
      → steps_left t ≤ length as'
      → Gone t sh.sent (run (map (capture_step 0) as') (with_threads cs sh (t ∷ [])))
  unfolding run step run_threads
  run-Gone [] t sh told enough = absurd (omega (arith, (steps_left-le t).0))
  run-Gone (a ∷ as') t sh told enough =
      run-Nearer as' t sh (thread_step a t sh) (thread_step-Nearer a t sh told) enough
        (λ t' sh' told' enough'. run-Gone as' t' sh' told' enough')

-- `stop` is called while there is one capture thread, wherever it is, inside of a callback too, and no
-- other call follows. After nine steps of it, and one more for each NAL of the picture it has in hand,
-- whatever the platform answers, the thread is gone and the publisher does not run. What was sent after
-- the call is a beginning of the NALs of that picture, in order and into one channel, the one the thread
-- had already taken if it had; without a picture in hand it is nothing.
pub stop-Gone :
    (p : Publisher) (t : CaptureThread) (as' : List Answer)
    → p.threads ≡ t ∷ []
    → 9 + length (in_hand t) ≤ length as'
    → Gone t p.shared.sent (run (stop_called ∷ map (capture_step 0) as') p)
unfolding run step
stop-Gone p t as' one enough =
    let told = record p.shared { shutdown = true } in
    subst
      (λ ts.
        Gone t p.shared.sent (run (map (capture_step 0) as') (with_threads p.starters told ts)))
      (sym one) (run-Gone p.starters as' t told (inl refl) (omega (arith, (steps_left-le t).1)))
