-- ===== src/Windows/Publisher/Settings.antt =====
-- That the settings of a running session are those of the state, or a rebuild is due.
use xyzen_relay.Prelude.{
  ℕ, zero, suc, ◌≤◌, ◌≡◌, refl, sym, subst, ◌⊎◌, inl, inr, Bool, true, false, ◌||◌, Option, none,
  some, List, [], ◌∷◌, arith, if◌then◌else◌, length, All,
}
use xyzen_relay.Windows.Publisher.{
  State, CaptureSnapshot, Shared, CaptureThread, starting, loop_top, snapshotting, clearing,
  resolving, capturing, checking, encoding, taking_sender, sending, giving_up, session_over,
  resetting, dropping_sender, finishing, Publisher, snapshot_of, Answer, went_well, failed, arrived,
  session, encode, with_sender, send_next, thread_step, put_back, run_threads, Step,
}
use xyzen_relay.Windows.Publisher.Sessions.{
  InSession, waits, checks, encodes, takes, sends, Outcome, over, gives_up, goes_on,
  session-Outcome, checking-Outcome, encode-Outcome, with_sender-Outcome, send_next-Outcome,
}
use xyzen_relay.Windows.Publisher.Events.{
  Event, display_selected, bitrate_set, fps_set, resolution_set, with_state,
}

-- The snapshot a thread works with is of the settings as they are, or a rebuild is due. Between the two
-- locks, at `clearing`, the flag is about to be cleared, so there it has to be of the settings.
abbrev pub UpToDate : State → CaptureThread → Type 0
UpToDate st starting = Unit {0}
UpToDate st loop_top = Unit {0}
UpToDate st snapshotting = Unit {0}
UpToDate st (clearing s) = s ≡ snapshot_of st
UpToDate st (resolving s) = (st.needs_rebuild ≡ true) ⊎ (s ≡ snapshot_of st)
UpToDate st (capturing s dims) = (st.needs_rebuild ≡ true) ⊎ (s ≡ snapshot_of st)
UpToDate st (checking s dims f) = (st.needs_rebuild ≡ true) ⊎ (s ≡ snapshot_of st)
UpToDate st (encoding s dims f) = (st.needs_rebuild ≡ true) ⊎ (s ≡ snapshot_of st)
UpToDate st (taking_sender s dims taken nals) = (st.needs_rebuild ≡ true) ⊎ (s ≡ snapshot_of st)
UpToDate st (sending s dims tx taken nals) = (st.needs_rebuild ≡ true) ⊎ (s ≡ snapshot_of st)
UpToDate st giving_up = Unit {0}
UpToDate st session_over = Unit {0}
UpToDate st resetting = Unit {0}
UpToDate st dropping_sender = Unit {0}
UpToDate st finishing = Unit {0}

abbrev pub AllUpToDate : Publisher → Type 0
AllUpToDate p = All (UpToDate p.shared.state) p.threads

abbrev Then : Shared × Option CaptureThread → Type 0
Then (sh, none) = Unit {0}
Then (sh, some t) = UpToDate sh.state t

InSession-UpToDate :
    (s : CaptureSnapshot) (st : State) (t : CaptureThread)
    → InSession s t
    → (st.needs_rebuild ≡ true) ⊎ (s ≡ snapshot_of st)
    → UpToDate st t
InSession-UpToDate s st t (waits dims) h = h
InSession-UpToDate s st t (checks dims f) h = h
InSession-UpToDate s st t (encodes dims f) h = h
InSession-UpToDate s st t (takes dims taken nals) h = h
InSession-UpToDate s st t (sends dims tx taken nals) h = h

session-Then :
    (s : CaptureSnapshot) (sh : Shared) (r : Step)
    → Outcome s sh r
    → (sh.state.needs_rebuild ≡ true) ⊎ (s ≡ snapshot_of sh.state)
    → Then (r.0, some r.1)
session-Then s sh r (over sh' e) h = tt
session-Then s sh r gives_up h = tt
session-Then s sh r (goes_on sh' t i e) h =
    subst (λ st. UpToDate st t) (sym e) (InSession-UpToDate s sh.state t i h)

thread_step-Then :
    (a : Answer) (t : CaptureThread) (sh : Shared) → UpToDate sh.state t → Then (thread_step a t sh)
unfolding thread_step
thread_step-Then went_well starting sh h = tt
thread_step-Then failed starting sh h = tt
thread_step-Then (arrived f) starting sh h = tt
thread_step-Then a loop_top sh h =
    elim sh.shutdown as (λ b. UpToDate sh.state (if b then resetting else snapshotting)) [
      | true ↦ tt
      | false ↦ tt
    ]
thread_step-Then a snapshotting sh h = refl
thread_step-Then a (clearing s) sh h = inr h
thread_step-Then went_well (resolving s) sh h = h
thread_step-Then failed (resolving s) sh h = tt
thread_step-Then (arrived f) (resolving s) sh h = h
thread_step-Then a (capturing s dims) sh h =
    session-Then s sh (session s dims sh a) (session-Outcome s sh dims a) h
thread_step-Then a (checking s dims f) sh h = session-Then s sh _ (checking-Outcome s sh dims f) h
thread_step-Then a (encoding s dims f) sh h =
    session-Then s sh (encode s f sh dims) (encode-Outcome s sh f dims) h
thread_step-Then a (taking_sender s dims taken nals) sh h =
    session-Then s sh (sh, with_sender s dims taken nals sh.sender)
      (with_sender-Outcome s sh dims taken nals sh.sender) h
thread_step-Then a (sending s dims tx taken nals) sh h =
    session-Then s sh (send_next s dims tx taken nals sh)
      (send_next-Outcome s sh dims tx taken nals) h
thread_step-Then a giving_up sh h = tt
thread_step-Then a session_over sh h =
    elim sh.shutdown as (λ b. UpToDate sh.state (if b then resetting else loop_top)) [
      | true ↦ tt
      | false ↦ tt
    ]
thread_step-Then a resetting sh h = tt
thread_step-Then a dropping_sender sh h = tt
thread_step-Then a finishing sh h = tt

put_back-All :
    (r : Shared × Option CaptureThread) → Then r → All (UpToDate r.0.state) (put_back r.1 [])
put_back-All (sh, none) h = tt
put_back-All (sh, some t) h = (h, tt)

pub run_threads-All :
    (i : ℕ) (a : Answer) (ts : List CaptureThread) (sh : Shared)
    → length ts ≤ 1
    → All (UpToDate sh.state) ts
    → All (UpToDate (run_threads i a ts sh).0.state) (run_threads i a ts sh).1
unfolding run_threads
run_threads-All i a [] sh one all = tt
run_threads-All zero a (t ∷ []) sh one (h, all) =
    put_back-All (thread_step a t sh) (thread_step-Then a t sh h)
run_threads-All (suc i) a (t ∷ []) sh one all = all
run_threads-All i a (t ∷ t' ∷ ts) sh one all = absurd (omega arith)

abbrev pub is_clearing : CaptureThread → Bool
is_clearing t = elim t [ clearing s ↦ true | _ ↦ false ]

abbrev pub any_clearing : List CaptureThread → Bool
any_clearing [] = false
any_clearing (t ∷ ts) = is_clearing t || any_clearing ts

abbrev pub is_setter : Event → Bool
is_setter e = elim e [
  | display_selected id ↦ true
  | bitrate_set kbps ↦ true
  | fps_set fps ↦ true
  | resolution_set w h ↦ true
  | _ ↦ false
]

-- A setter changes nothing, or asks for a rebuild.
abbrev pub Asks : State → Option State → Type 0
Asks st none = Unit {0}
Asks st (some st') = (st'.needs_rebuild ≡ true) ⊎ (st' ≡ st)

pub Asks-if :
    (st : State) (b : Bool) (x y : Option State)
    → Asks st x
    → Asks st y
    → Asks st (if b then x else y)
Asks-if st true x y hx hy = hx
Asks-if st false x y hx hy = hy

UpToDate-due :
    (st : State) (t : CaptureThread)
    → st.needs_rebuild ≡ true
    → is_clearing t ≡ false
    → UpToDate st t
UpToDate-due st starting due apart = tt
UpToDate-due st loop_top due apart = tt
UpToDate-due st snapshotting due apart = tt
UpToDate-due st (clearing s) due apart = absurd (cc)
UpToDate-due st (resolving s) due apart = inl due
UpToDate-due st (capturing s dims) due apart = inl due
UpToDate-due st (checking s dims f) due apart = inl due
UpToDate-due st (encoding s dims f) due apart = inl due
UpToDate-due st (taking_sender s dims taken nals) due apart = inl due
UpToDate-due st (sending s dims tx taken nals) due apart = inl due
UpToDate-due st giving_up due apart = tt
UpToDate-due st session_over due apart = tt
UpToDate-due st resetting due apart = tt
UpToDate-due st dropping_sender due apart = tt
UpToDate-due st finishing due apart = tt

All-due :
    (st : State) (ts : List CaptureThread)
    → st.needs_rebuild ≡ true
    → any_clearing ts ≡ false
    → All (UpToDate st) ts
All-due st [] due apart = tt
All-due st (t ∷ ts) due apart =
    (UpToDate-due st t due (ground arith), All-due st ts due (ground arith))

pub with_state-All :
    (p : Publisher) (o : Option State)
    → Asks p.shared.state o
    → any_clearing p.threads ≡ false
    → AllUpToDate p
    → AllUpToDate (with_state p o)
with_state-All p none asks apart all = all
with_state-All p (some st) (inl due) apart all = All-due st p.threads due apart
with_state-All p (some st) (inr same) apart all =
    subst (λ st. All (UpToDate st) p.threads) (sym same) all
