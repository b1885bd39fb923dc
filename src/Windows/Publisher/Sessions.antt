-- ===== src/Windows/Publisher/Sessions.antt =====
-- What the steps of a session do to the state.
use xyzen_relay.Prelude.{
  ℕ, zero, suc, ◌≡◌, refl, Bool, true, false, not, ◌||◌, Option, none, some, List, [], ◌∷◌, ◌==◌,
  if◌then◌else◌,
}
use xyzen_relay.Windows.Encoder.{Nal}
use xyzen_relay.Windows.Publisher.{
  CaptureSnapshot, Shared, CaptureThread, capturing, checking, encoding, taking_sender, sending,
  giving_up, session_over, Frame, Answer, went_well, failed, arrived, handed, encoded, encode,
  with_sender, send_next, session, Step,
}

-- The thread is in a session with the snapshot `s`.
pub data InSession (s : CaptureSnapshot) : CaptureThread → Type 0 where
  waits : (dims : Option (ℕ × ℕ)) → InSession s (capturing s dims)
  checks : (dims : Option (ℕ × ℕ)) (f : Frame) → InSession s (checking s dims f)
  encodes : (dims : Option (ℕ × ℕ)) (f : Frame) → InSession s (encoding s dims f)
  takes :
      (dims : Option (ℕ × ℕ)) (taken : ℕ) (nals : List Nal)
      → InSession s (taking_sender s dims taken nals)
  sends :
      (dims : Option (ℕ × ℕ)) (tx taken : ℕ) (nals : List Nal)
      → InSession s (sending s dims tx taken nals)

-- The session is over, or is to be, and the state still runs or not; or the state is as it was and the
-- session goes on with its snapshot.
pub data Outcome (s : CaptureSnapshot) (sh : Shared) : Step → Type 0 where
  over : (sh' : Shared) → sh'.state.running ≡ sh.state.running → Outcome s sh (sh', session_over)
  gives_up : Outcome s sh (sh, giving_up)
  goes_on :
      (sh' : Shared) (t : CaptureThread)
      → InSession s t
      → sh'.state ≡ sh.state
      → Outcome s sh (sh', t)

module _ (s : CaptureSnapshot) (sh : Shared) where
  Outcome-if :
      (b : Bool) (x y : CaptureThread)
      → Outcome s sh (sh, x)
      → Outcome s sh (sh, y)
      → Outcome s sh (sh, if b then x else y)
  Outcome-if true x y hx hy = hx
  Outcome-if false x y hx hy = hy

  pub session-Outcome : (dims : Option (ℕ × ℕ)) (a : Answer) → Outcome s sh (session s dims sh a)
  session-Outcome dims went_well = over sh refl
  session-Outcome dims failed = over sh refl
  session-Outcome dims (arrived f) =
      Outcome-if sh.shutdown _ _ (over sh refl) (goes_on sh _ (checks dims f) refl)

  pub checking-Outcome :
      (dims : Option (ℕ × ℕ)) (f : Frame)
      → Outcome s sh (sh, if sh.state.needs_rebuild then session_over else encoding s dims f)
  checking-Outcome dims f =
      Outcome-if sh.state.needs_rebuild _ _ (over sh refl) (goes_on sh _ (encodes dims f) refl)

  handed-Outcome :
      (dims : Option (ℕ × ℕ)) (taken : ℕ) (nals : Option (List Nal))
      → Outcome s sh (sh, handed s dims taken nals)
  handed-Outcome dims taken none = goes_on sh _ (waits dims) refl
  handed-Outcome dims taken (some nals) = goes_on sh _ (takes dims taken nals) refl

  encoded-Outcome : (dims : Option (ℕ × ℕ)) (f : Frame) → Outcome s sh (sh, encoded s dims f)
  encoded-Outcome dims f = Outcome-if (not f.buffered) _ _ (over sh refl) (
      Outcome-if (not f.submitted) _ _ (goes_on sh _ (waits dims) refl)
        (handed-Outcome dims f.taken f.drained))

  Outcome-sized :
      (b : Bool) (x y : Step) → Outcome s sh x → Outcome s sh y → Outcome s sh (if b then x else y)
  Outcome-sized true x y hx hy = hx
  Outcome-sized false x y hx hy = hy

  pub encode-Outcome : (f : Frame) (dims : Option (ℕ × ℕ)) → Outcome s sh (encode s f sh dims)
  unfolding encode
  encode-Outcome f none =
      Outcome-if f.configured _ _ (encoded-Outcome (some (f.width, f.height)) f) (over sh refl)
  encode-Outcome f (some (cw, ch)) =
      Outcome-sized (not (f.width == cw) || not (f.height == ch)) _ _ (over _ refl)
        (encoded-Outcome (some (cw, ch)) f)

  pub with_sender-Outcome :
      (dims : Option (ℕ × ℕ)) (taken : ℕ) (nals : List Nal) (tx : Option ℕ)
      → Outcome s sh (sh, with_sender s dims taken nals tx)
  with_sender-Outcome dims taken nals none = goes_on sh _ (waits dims) refl
  with_sender-Outcome dims taken nals (some tx) = goes_on sh _ (sends dims tx taken nals) refl

  pub send_next-Outcome :
      (dims : Option (ℕ × ℕ)) (tx taken : ℕ) (nals : List Nal)
      → Outcome s sh (send_next s dims tx taken nals sh)
  send_next-Outcome dims tx taken [] = goes_on sh _ (waits dims) refl
  send_next-Outcome dims tx zero (nal ∷ nals) = gives_up
  send_next-Outcome dims tx (suc taken) (nal ∷ nals) = goes_on _ _ (sends dims tx taken nals) refl
