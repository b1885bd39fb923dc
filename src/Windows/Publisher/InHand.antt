-- ===== src/Windows/Publisher/InHand.antt =====
-- What the capture thread has in hand, and how far it is from its end.
use xyzen_relay.Prelude.{
  ℕ, suc, ◌+◌, ◌≤◌, ◌≡◌, refl, sym, ap, subst, ◌∙◌, Option, none, some, List, [], ◌∷◌, ◌++◌, map,
  arith, length, append-nil, append_assoc,
}
use xyzen_relay.Windows.Encoder.{Nal}
use xyzen_relay.Windows.Publisher.{
  CaptureSnapshot, CaptureThread, starting, loop_top, snapshotting, clearing, resolving, capturing,
  checking, encoding, taking_sender, sending, giving_up, session_over, resetting, dropping_sender,
  finishing,
}

abbrev pub in_picture : Option (List Nal) → List Nal
in_picture none = []
in_picture (some nals) = nals

-- The NALs of the picture that the thread has in hand: those that are not sent yet, or that `drain` is
-- going to give.
abbrev pub in_hand : CaptureThread → List Nal
in_hand t = elim t [
  | checking s dims f ↦ in_picture f.drained
  | encoding s dims f ↦ in_picture f.drained
  | taking_sender s dims taken nals ↦ nals
  | sending s dims tx taken nals ↦ nals
  | _ ↦ []
]

-- A thread that has its sender sends into that channel.
abbrev pub SendsInto : CaptureThread → ℕ → Type 0
SendsInto t tx = elim t [ sending s dims tx' taken nals ↦ tx ≡ tx' | _ ↦ Unit {0} ]

abbrev pub tagged : ℕ → List Nal → List (ℕ × Nal)
tagged tx nals = map (λ nal. (tx, nal)) nals

-- What was sent on top of `before` is the beginning of what the thread had in hand, into one channel.
abbrev pub Sent : CaptureThread → List (ℕ × Nal) → List (ℕ × Nal) → Type 0
Sent t before sent =
    (tx : ℕ) × (SendsInto t tx
      × ((now : List Nal) × ((later : List Nal) × ((now ++ later ≡ in_hand t)
              × (sent ≡ before ++ tagged tx now)))))

pub Sent-idle :
    (t : CaptureThread) (tx : ℕ) (before : List (ℕ × Nal)) → SendsInto t tx → Sent t before before
Sent-idle t tx before into = (tx, (into, ([], (in_hand t, (refl, sym (append-nil before))))))

Sent-nothing :
    (t : CaptureThread) (before sent : List (ℕ × Nal))
    → in_hand t ≡ []
    → Sent t before sent
    → sent ≡ before
Sent-nothing t before sent none_left (tx, (into, ([], (later, (split, e))))) = e ∙ append-nil before
Sent-nothing t before sent none_left (tx, (into, (nal ∷ now, (later, (split, e))))) =
    absurd (let end = split ∙ none_left in cc)

-- Behind a step to `t'`, from which nothing more is sent, `t` has sent what it did in the step: nothing.
pub Sent-stays :
    (t t' : CaptureThread) (tx : ℕ) (before sent : List (ℕ × Nal))
    → SendsInto t tx
    → in_hand t' ≡ []
    → Sent t' before sent
    → Sent t before sent
Sent-stays t t' tx before sent into none_left h =
    subst (Sent t before) (sym (Sent-nothing t' before sent none_left h))
      (Sent-idle t tx before into)

pub Sent-one :
    (s : CaptureSnapshot) (dims : Option (ℕ × ℕ)) (tx taken : ℕ) (nal : Nal) (nals : List Nal)
    (before sent : List (ℕ × Nal))
    → Sent (sending s dims tx taken nals) (before ++ ((tx, nal) ∷ [])) sent
    → Sent (sending s dims tx (suc taken) (nal ∷ nals)) before sent
Sent-one s dims tx taken nal nals before sent (tx', (into, (now, (later, (split, e))))) = (
  tx,
  (
    refl,
    (
      nal ∷ now,
      (
        later,
        (
          ap (λ l. nal ∷ l) split,
          e
              ∙ append_assoc before ((tx, nal) ∷ []) (tagged tx' now)
              ∙ ap (λ x. before ++ (tx, nal) ∷ tagged x now) into,
        ),
      ),
    ),
  ),
)

-- How many steps are left once the thread is told to end.
abbrev pub steps_left : CaptureThread → ℕ
steps_left finishing = 1
steps_left dropping_sender = 2
steps_left resetting = 3
steps_left session_over = 4
steps_left loop_top = 4
steps_left starting = 5
steps_left giving_up = 5
steps_left (capturing s dims) = 5
steps_left (resolving s) = 6
steps_left (clearing s) = 7
steps_left snapshotting = 8
steps_left (sending s dims tx taken nals) = 6 + length nals
steps_left (taking_sender s dims taken nals) = 7 + length nals
steps_left (encoding s dims f) = 8 + length (in_picture f.drained)
steps_left (checking s dims f) = 9 + length (in_picture f.drained)

pub steps_left-le :
    (t : CaptureThread) → (1 ≤ steps_left t) × (steps_left t ≤ 9 + length (in_hand t))
steps_left-le starting = omega arith
steps_left-le loop_top = omega arith
steps_left-le snapshotting = omega arith
steps_left-le (clearing s) = omega arith
steps_left-le (resolving s) = omega arith
steps_left-le (capturing s dims) = omega arith
steps_left-le (checking s dims f) = omega arith
steps_left-le (encoding s dims f) = omega arith
steps_left-le (taking_sender s dims taken nals) = omega arith
steps_left-le (sending s dims tx taken nals) = omega arith
steps_left-le giving_up = omega arith
steps_left-le session_over = omega arith
steps_left-le resetting = omega arith
steps_left-le dropping_sender = omega arith
steps_left-le finishing = omega arith
