-- ===== src/Windows/Publisher/Nearer.antt =====
-- One step of a capture thread that is told to end.
use xyzen_relay.Prelude.{
  ℕ, zero, suc, ◌≤◌, ◌≡◌, refl, sym, subst, ◌⊎◌, inl, inr, Bool, true, false, not, ◌||◌, Option,
  none, some, List, [], ◌∷◌, arith, ◌==◌, if◌then◌else◌,
}
use xyzen_relay.Windows.Encoder.{Nal}
use xyzen_relay.Windows.Publisher.{
  CaptureSnapshot, Shared, CaptureThread, starting, loop_top, snapshotting, clearing, resolving,
  capturing, checking, encoding, taking_sender, sending, giving_up, session_over, resetting,
  dropping_sender, finishing, Frame, snapshot_of, Answer, went_well, failed, arrived, handed,
  encoded, encode, with_sender, session, thread_step, Step,
}
use xyzen_relay.Windows.Publisher.InHand.{
  in_hand, SendsInto, Sent, Sent-idle, Sent-stays, Sent-one, steps_left,
}

-- It was told to, or is past the last look at the flag.
abbrev pub Told : CaptureThread → Shared → Type 0
Told t sh = (sh.shutdown ≡ true) ⊎ (steps_left t ≤ 2)

-- One step nearer to the end, and what is sent from there on, with the step, is what was in hand.
abbrev pub Nearer : CaptureThread → Shared → Shared × Option CaptureThread → Type 0
Nearer t sh (sh', none) = (sh'.state.running ≡ false) × Sent t sh.sent sh'.sent
Nearer t sh (sh', some t') =
    (suc (steps_left t') ≤ steps_left t)
    × (Told t' sh' × ((sent : List (ℕ × Nal)) → Sent t' sh'.sent sent → Sent t sh.sent sent))

Told-early : (t : CaptureThread) (sh : Shared) → 3 ≤ steps_left t → Told t sh → sh.shutdown ≡ true
Told-early t sh early (inl h) = h
Told-early t sh early (inr late) = absurd (omega arith)

abbrev NearerStep : CaptureThread → Shared → Step → Type 0
NearerStep t sh (sh', t') = Nearer t sh (sh', some t')

-- A step in which nothing is sent, from a thread with no channel to one with nothing in hand.
quiet-Nearer :
    (t t' : CaptureThread) (sh sh' : Shared)
    → suc (steps_left t') ≤ steps_left t
    → Told t' sh'
    → sh'.sent ≡ sh.sent
    → ((tx : ℕ) × SendsInto t tx)
    → in_hand t' ≡ []
    → Nearer t sh (sh', some t')
quiet-Nearer t t' sh sh' near told same (tx, into) none_left = (
  near,
  (
    told,
    λ sent h.
        Sent-stays t t' tx sh.sent sent into none_left
          (subst (λ before. Sent t' before sent) same h),
  ),
)

Nearer-if :
    (t : CaptureThread) (sh : Shared) (b : Bool) (x y : CaptureThread)
    → Nearer t sh (sh, some x)
    → Nearer t sh (sh, some y)
    → Nearer t sh (sh, some (if b then x else y))
Nearer-if t sh true x y hx hy = hx
Nearer-if t sh false x y hx hy = hy

module _ (s : CaptureSnapshot) (sh : Shared) (told : sh.shutdown ≡ true) where
  session-Nearer :
      (dims : Option (ℕ × ℕ)) (a : Answer)
      → Nearer (capturing s dims) sh ((session s dims sh a).0, some (session s dims sh a).1)
  session-Nearer dims went_well =
      quiet-Nearer (capturing s dims) session_over sh sh (omega arith) (inl told) refl (0, tt) refl
  session-Nearer dims failed =
      quiet-Nearer (capturing s dims) session_over sh sh (omega arith) (inl told) refl (0, tt) refl
  session-Nearer dims (arrived f) =
      subst
        (λ (b : Bool).
          Nearer (capturing s dims) sh (sh, some (if b then session_over else checking s dims f)))
        (sym told)
        (quiet-Nearer (capturing s dims) session_over sh sh (omega arith) (inl told) refl (0, tt)
          refl)

  handed-Nearer :
      (dims dims' : Option (ℕ × ℕ)) (f : Frame) (nals : Option (List Nal))
      → Nearer
          (encoding s dims (record f { drained = nals }))
          sh
          (sh, some (handed s dims' f.taken nals))
  handed-Nearer dims dims' f none =
      quiet-Nearer (encoding s dims (record f { drained = none })) (capturing s dims') sh sh
        (omega arith) (inl told) refl (0, tt) refl
  handed-Nearer dims dims' f (some nals) = (omega arith, (inl told, λ sent h. h))

  encoded-Nearer :
      (dims dims' : Option (ℕ × ℕ)) (f : Frame)
      → Nearer (encoding s dims f) sh (sh, some (encoded s dims' f))
  encoded-Nearer dims dims' f =
      let t = encoding s dims f in
      Nearer-if t sh (not f.buffered) _ _
        (quiet-Nearer t session_over sh sh (omega arith) (inl told) refl (0, tt) refl)
        (Nearer-if t sh (not f.submitted) _ _
          (quiet-Nearer t (capturing s dims') sh sh (omega arith) (inl told) refl (0, tt) refl)
          (handed-Nearer dims dims' f f.drained))

  encode-Nearer :
      (f : Frame) (dims : Option (ℕ × ℕ))
      → Nearer (encoding s dims f) sh ((encode s f sh dims).0, some (encode s f sh dims).1)
  unfolding encode
  encode-Nearer f none =
      Nearer-if (encoding s none f) sh f.configured _ _ (encoded-Nearer none _ f) (
        quiet-Nearer (encoding s none f) session_over sh sh (omega arith) (inl told) refl (0, tt)
          refl)
  encode-Nearer f (some (cw, ch)) =
      elim (not (f.width == cw) || not (f.height == ch))
        as (λ b. NearerStep (encoding s (some (cw, ch)) f) sh (
          if b
          then (record sh { state = record sh.state { needs_rebuild = true } }, session_over)
          else (sh, encoded s (some (cw, ch)) f))) [
            | true ↦
                quiet-Nearer (encoding s (some (cw, ch)) f) session_over sh
                  (record sh { state = record sh.state { needs_rebuild = true } }) (omega arith)
                  (inl told) refl (0, tt) refl
            | false ↦ encoded-Nearer (some (cw, ch)) (some (cw, ch)) f
          ]

  with_sender-Nearer :
      (dims : Option (ℕ × ℕ)) (taken : ℕ) (nals : List Nal) (tx : Option ℕ)
      → Nearer (taking_sender s dims taken nals) sh (sh, some (with_sender s dims taken nals tx))
  with_sender-Nearer dims taken nals none =
      quiet-Nearer (taking_sender s dims taken nals) (capturing s dims) sh sh (omega arith)
        (inl told) refl (0, tt) refl
  with_sender-Nearer dims taken nals (some tx) =
      (omega arith, (inl told, λ sent (tx', (into, rest)). (tx', (tt, rest))))

pub thread_step-Nearer :
    (a : Answer) (t : CaptureThread) (sh : Shared) → Told t sh → Nearer t sh (thread_step a t sh)
unfolding thread_step
thread_step-Nearer went_well starting sh told =
    quiet-Nearer starting loop_top sh sh (omega arith)
      (inl (Told-early starting sh (omega arith) told)) refl (0, tt) refl
thread_step-Nearer failed starting sh told =
    quiet-Nearer starting resetting sh sh (omega arith)
      (inl (Told-early starting sh (omega arith) told)) refl (0, tt) refl
thread_step-Nearer (arrived f) starting sh told =
    quiet-Nearer starting loop_top sh sh (omega arith)
      (inl (Told-early starting sh (omega arith) told)) refl (0, tt) refl
thread_step-Nearer a loop_top sh told =
    let h = Told-early loop_top sh (omega arith) told in
    subst (λ (b : Bool). Nearer loop_top sh (sh, some (if b then resetting else snapshotting)))
      (sym h) (quiet-Nearer loop_top resetting sh sh (omega arith) (inl h) refl (0, tt) refl)
thread_step-Nearer a snapshotting sh told =
    quiet-Nearer snapshotting (clearing (snapshot_of sh.state)) sh sh (omega arith)
      (inl (Told-early snapshotting sh (omega arith) told)) refl (0, tt) refl
thread_step-Nearer a (clearing s) sh told =
    quiet-Nearer (clearing s) (resolving s) sh
      (record sh { state = record sh.state { needs_rebuild = false } }) (omega arith)
      (inl (Told-early (clearing s) sh (omega arith) told)) refl (0, tt) refl
thread_step-Nearer went_well (resolving s) sh told =
    quiet-Nearer (resolving s) (capturing s none) sh sh (omega arith)
      (inl (Told-early (resolving s) sh (omega arith) told)) refl (0, tt) refl
thread_step-Nearer failed (resolving s) sh told =
    quiet-Nearer (resolving s) resetting sh sh (omega arith)
      (inl (Told-early (resolving s) sh (omega arith) told)) refl (0, tt) refl
thread_step-Nearer (arrived f) (resolving s) sh told =
    quiet-Nearer (resolving s) (capturing s none) sh sh (omega arith)
      (inl (Told-early (resolving s) sh (omega arith) told)) refl (0, tt) refl
thread_step-Nearer a (capturing s dims) sh told =
    session-Nearer s sh (Told-early (capturing s dims) sh (omega arith) told) dims a
thread_step-Nearer a (checking s dims f) sh told =
    let h = Told-early (checking s dims f) sh (omega arith) told in
    Nearer-if (checking s dims f) sh sh.state.needs_rebuild session_over (encoding s dims f)
      (quiet-Nearer (checking s dims f) session_over sh sh (omega arith) (inl h) refl (0, tt) refl)
      (omega arith, (inl h, λ sent x. x))
thread_step-Nearer a (encoding s dims f) sh told =
    encode-Nearer s sh (Told-early (encoding s dims f) sh (omega arith) told) f dims
thread_step-Nearer a (taking_sender s dims taken nals) sh told =
    with_sender-Nearer s sh (Told-early (taking_sender s dims taken nals) sh (omega arith) told)
      dims taken nals sh.sender
thread_step-Nearer a (sending s dims tx taken []) sh told =
    let t = sending s dims tx taken [] in
    quiet-Nearer t (capturing s dims) sh sh (omega arith) (inl (Told-early t sh (omega arith) told))
      refl (tx, refl) refl
thread_step-Nearer a (sending s dims tx zero (nal ∷ nals)) sh told =
    let t = sending s dims tx 0 (nal ∷ nals) in
    quiet-Nearer t giving_up sh sh (omega arith) (inl (Told-early t sh (omega arith) told)) refl
      (tx, refl) refl
thread_step-Nearer a (sending s dims tx (suc taken) (nal ∷ nals)) sh told =
    let t = sending s dims tx (suc taken) (nal ∷ nals) in
    (
      omega arith,
      (
        inl (Told-early t sh (omega arith) told),
        λ sent h. Sent-one s dims tx taken nal nals sh.sent sent h,
      ),
    )
thread_step-Nearer a giving_up sh told =
    quiet-Nearer giving_up session_over sh (record sh { shutdown = true }) (omega arith) (inl refl)
      refl (0, tt) refl
thread_step-Nearer a session_over sh told =
    let h = Told-early session_over sh (omega arith) told in
    subst (λ (b : Bool). Nearer session_over sh (sh, some (if b then resetting else loop_top)))
      (sym h) (quiet-Nearer session_over resetting sh sh (omega arith) (inl h) refl (0, tt) refl)
thread_step-Nearer a resetting sh told =
    quiet-Nearer resetting dropping_sender sh (record sh { shutdown = false }) (omega arith)
      (inr (omega arith)) refl (0, tt) refl
thread_step-Nearer a dropping_sender sh told =
    quiet-Nearer dropping_sender finishing sh (record sh { sender = none }) (omega arith)
      (inr (omega arith)) refl (0, tt) refl
thread_step-Nearer a finishing sh told = (refl, Sent-idle finishing 0 sh.sent tt)
