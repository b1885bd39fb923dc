-- ===== src/Windows/Publisher/Single.antt =====
-- At most one capture thread, whatever the interleaving.
use xyzen_relay.Prelude.{
  ℕ, zero, suc, ◌+◌, ◌≤◌, ◌≡◌, refl, ap, Bool, true, false, not, Option, none, some, List, [], ◌∷◌,
  arith, ◌==◌, if◌then◌else◌, length, length-append,
}
use xyzen_relay.Windows.Publisher.{
  State, CaptureSnapshot, Shared, CaptureThread, starting, loop_top, snapshotting, clearing,
  resolving, capturing, checking, encoding, taking_sender, sending, giving_up, session_over,
  resetting, dropping_sender, finishing, Starter, resetting_shutdown, storing_sender, spawning,
  Publisher, claim, select_display, set_bitrate_kbps, set_fps, set_resolution, Answer, session,
  encode, send_next, thread_step, put_back, run_threads, Step,
}
use xyzen_relay.Windows.Publisher.Sessions.{
  Outcome, over, gives_up, goes_on, session-Outcome, encode-Outcome, send_next-Outcome,
}
use xyzen_relay.Windows.Publisher.Events.{
  Event, start_called, start_step, capture_step, stop_called, display_selected, bitrate_set,
  fps_set, resolution_set, starter_step, run_starters, with_state, claimed, step, run,
}

-- Calls of `start` under way and capture threads, together, are at most one, and none unless the state
-- says that it runs.
abbrev pub AtMostOne : Publisher → Type 0
AtMostOne p = length p.threads + length p.starters ≤ (if p.shared.state.running then 1 else 0)

-- The thread goes on and the state still runs or not, or it is gone and the state runs no more.
abbrev Stepped : Shared → Shared × Option CaptureThread → Type 0
Stepped sh (sh', none) = sh'.state.running ≡ false
Stepped sh (sh', some t) = sh'.state.running ≡ sh.state.running

session-Stepped :
    (s : CaptureSnapshot) (sh : Shared) (r : Step) → Outcome s sh r → Stepped sh (r.0, some r.1)
session-Stepped s sh r (over sh' e) = e
session-Stepped s sh r gives_up = refl
session-Stepped s sh r (goes_on sh' t i e) = ap (λ (st : State). st.running) e

thread_step-Stepped :
    (a : Answer) (t : CaptureThread) (sh : Shared) → Stepped sh (thread_step a t sh)
unfolding thread_step
thread_step-Stepped a starting sh = refl
thread_step-Stepped a loop_top sh = refl
thread_step-Stepped a snapshotting sh = refl
thread_step-Stepped a (clearing s) sh = refl
thread_step-Stepped a (resolving s) sh = refl
thread_step-Stepped a (capturing s dims) sh =
    session-Stepped s sh (session s dims sh a) (session-Outcome s sh dims a)
thread_step-Stepped a (checking s dims f) sh = refl
thread_step-Stepped a (encoding s dims f) sh =
    session-Stepped s sh (encode s f sh dims) (encode-Outcome s sh f dims)
thread_step-Stepped a (taking_sender s dims taken nals) sh = refl
thread_step-Stepped a (sending s dims tx taken nals) sh =
    session-Stepped s sh (send_next s dims tx taken nals sh)
      (send_next-Outcome s sh dims tx taken nals)
thread_step-Stepped a giving_up sh = refl
thread_step-Stepped a session_over sh = refl
thread_step-Stepped a resetting sh = refl
thread_step-Stepped a dropping_sender sh = refl
thread_step-Stepped a finishing sh = refl

-- The same for a list of threads, with the number `k` of calls of `start`.
abbrev Fits : ℕ → ℕ → Shared → Type 0
Fits n k sh = n + k ≤ (if sh.state.running then 1 else 0)

Fits-step :
    (k n : ℕ) (ts : List CaptureThread) (sh : Shared) (r : Shared × Option CaptureThread)
    → Stepped sh r
    → Fits (suc (n + length ts)) k sh
    → Fits (n + length (put_back r.1 ts)) k r.0
Fits-step k n ts sh (sh', none) e fits = ground arith
Fits-step k n ts sh (sh', some t) e fits = ground arith

-- `n` threads stand before those of the list.
run_threads-Fits :
    (i : ℕ) (a : Answer) (ts : List CaptureThread) (sh : Shared) (k n : ℕ)
    → Fits (n + length ts) k sh
    → Fits (n + length (run_threads i a ts sh).1) k (run_threads i a ts sh).0
unfolding run_threads
run_threads-Fits i a [] sh k n fits = fits
run_threads-Fits zero a (t ∷ ts) sh k n fits =
    Fits-step k n ts sh (thread_step a t sh) (thread_step-Stepped a t sh) (ground arith)
run_threads-Fits (suc i) a (t ∷ ts) sh k n fits =
    let ih = run_threads-Fits i a ts sh k (suc n) (ground arith) in ground (arith, ih)

-- A step of a call of `start` passes its place on to the thread it makes.
run_starters-le :
    (i : ℕ) (spawned : Bool) (cs : List Starter) (sh : Shared)
    → length (run_starters i spawned cs sh).2 + length (run_starters i spawned cs sh).1 ≤ length cs
unfolding run_starters starter_step
run_starters-le i spawned [] sh = omega arith
run_starters-le zero spawned (resetting_shutdown ∷ cs) sh = omega arith
run_starters-le zero spawned (storing_sender ∷ cs) sh = omega arith
run_starters-le zero true (spawning ∷ cs) sh = omega arith
run_starters-le zero false (spawning ∷ cs) sh = omega arith
run_starters-le (suc i) spawned (c ∷ cs) sh = omega (arith, run_starters-le i spawned cs sh)

pub run_starters-running :
    (i : ℕ) (spawned : Bool) (cs : List Starter) (sh : Shared)
    → (run_starters i spawned cs sh).0.state ≡ sh.state
unfolding run_starters starter_step
run_starters-running i spawned [] sh = refl
run_starters-running zero spawned (resetting_shutdown ∷ cs) sh = refl
run_starters-running zero spawned (storing_sender ∷ cs) sh = refl
run_starters-running zero spawned (spawning ∷ cs) sh = refl
run_starters-running (suc i) spawned (c ∷ cs) sh = run_starters-running i spawned cs sh

-- A setter does not change whether the state runs.
abbrev SameRunning : State → Option State → Type 0
SameRunning s none = Unit {0}
SameRunning s (some s') = s'.running ≡ s.running

SameRunning-if :
    (s : State) (b : Bool) (x y : Option State)
    → SameRunning s x
    → SameRunning s y
    → SameRunning s (if b then x else y)
SameRunning-if s true x y hx hy = hx
SameRunning-if s false x y hx hy = hy

with_state-AtMostOne :
    (p : Publisher) (o : Option State)
    → SameRunning p.shared.state o
    → AtMostOne p
    → AtMostOne (with_state p o)
with_state-AtMostOne p none same one = one
with_state-AtMostOne p (some s) same one = ground arith

claimed-AtMostOne :
    (p : Publisher) (b : Bool) (s : State)
    → p.shared.state.running ≡ b
    → s.running ≡ true
    → AtMostOne p
    → AtMostOne (claimed p (if b then none else some s))
claimed-AtMostOne p true s e running one = one
claimed-AtMostOne p false s e running one =
    ground (arith, length-append p.starters (resetting_shutdown ∷ []))

pub step-AtMostOne : (e : Event) (p : Publisher) → AtMostOne p → AtMostOne (step e p)
unfolding step claim select_display set_bitrate_kbps set_fps set_resolution
step-AtMostOne (start_called w h fps kbps id) p one =
    claimed-AtMostOne p p.shared.state.running _ refl refl one
step-AtMostOne (start_step i spawned) p one =
    let places = run_starters-le i spawned p.starters p.shared in
    let same = ap (λ (s : State). s.running) (run_starters-running i spawned p.starters p.shared) in
    ground (arith, length-append p.threads (run_starters i spawned p.starters p.shared).2)
step-AtMostOne (capture_step i a) p one =
    ground (arith, run_threads-Fits i a p.threads p.shared (length p.starters) 0 (ground arith))
step-AtMostOne stop_called p one = one
step-AtMostOne (display_selected id) p one =
    let s = p.shared.state in
    with_state-AtMostOne p (select_display id s)
      (SameRunning-if s (not s.running) _ _ tt
        (SameRunning-if s (s.display_id == id) _ _ refl refl))
      one
step-AtMostOne (bitrate_set kbps) p one =
    let s = p.shared.state in
    with_state-AtMostOne p (set_bitrate_kbps kbps s) (SameRunning-if s (not s.running) _ _ tt refl)
      one
step-AtMostOne (fps_set fps) p one =
    let s = p.shared.state in
    with_state-AtMostOne p (set_fps fps s) (SameRunning-if s (not s.running) _ _ tt refl) one
step-AtMostOne (resolution_set w h) p one =
    let s = p.shared.state in
    with_state-AtMostOne p (set_resolution w h s) (SameRunning-if s (not s.running) _ _ tt refl) one

-- From a state in which the calls of `start` under way and the capture threads are together at most one,
-- and none unless the state says that the publisher runs, as when the program starts: any events, in any
-- order, lead to such a state.
pub run-AtMostOne : (es : List Event) (p : Publisher) → AtMostOne p → AtMostOne (run es p)
unfolding run
run-AtMostOne [] p one = one
run-AtMostOne (e ∷ es) p one = run-AtMostOne es (step e p) (step-AtMostOne e p one)
