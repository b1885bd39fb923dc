-- ===== src/Windows/Publisher/Callback.antt =====
-- crates/win-capturer/src/publisher.rs, `on_frame_arrived` as one function, with nothing of the other
-- threads in between.
use xyzen_relay.Prelude.{
  ℕ, zero, suc, ◌≡◌, refl, Bool, true, false, not, ◌||◌, Option, none, some, List, [], ◌∷◌, ◌++◌,
  ◌==◌, if◌then◌else◌,
}
use xyzen_relay.Windows.Encoder.{Nal}
use xyzen_relay.Windows.Publisher.{
  CaptureSnapshot, Shared, CaptureThread, capturing, encoding, sending, giving_up, session_over,
  Frame, went_well, arrived, Step, session, encode, encoded, handed, with_sender, thread_step,
}

-- The loop over the NALs: what was sent, and whether all of them were.
unfoldable pub send_nals : ℕ → ℕ → List Nal → List (ℕ × Nal) → List (ℕ × Nal) × Bool
send_nals tx taken [] sent = (sent, true)
send_nals tx zero (nal ∷ nals) sent = (sent, false)
send_nals tx (suc taken) (nal ∷ nals) sent = send_nals tx taken nals (sent ++ ((tx, nal) ∷ []))

abbrev pub hand_over : CaptureThread → Shared → Option ℕ → ℕ → List Nal → Step
hand_over here sh none taken nals = (sh, here)
hand_over here sh (some tx) taken nals =
    let (sent, all) = send_nals tx taken nals sh.sent in
    if all
    then (record sh { sent = sent }, here)
    else (record sh { sent = sent; shutdown = true }, session_over)

abbrev pub drained_to : CaptureThread → Shared → Frame → Option (List Nal) → Step
drained_to here sh f none = (sh, here)
drained_to here sh f (some nals) = hand_over here sh sh.sender f.taken nals

-- `on_frame_arrived` behind the check of the size.
unfoldable pub encode_frame : CaptureThread → Frame → Shared → Step
encode_frame here f sh =
    if not f.buffered
    then (sh, session_over)
    else if not f.submitted
    then (sh, here)
    else drained_to here sh f f.drained

unfoldable pub with_dims : CaptureSnapshot → Frame → Shared → Option (ℕ × ℕ) → Step
unfolding encode_frame
with_dims snapshot f sh none =
    if f.configured
    then encode_frame (capturing snapshot (some (f.width, f.height))) f sh
    else (sh, session_over)
with_dims snapshot f sh (some (cw, ch)) =
    if not (f.width == cw) || not (f.height == ch)
    then (record sh { state = record sh.state { needs_rebuild = true } }, session_over)
    else encode_frame (capturing snapshot (some (cw, ch))) f sh

unfoldable pub on_frame_arrived : CaptureSnapshot → Option (ℕ × ℕ) → Frame → Shared → Step
unfolding with_dims
on_frame_arrived snapshot dims f sh =
    if sh.shutdown
    then (sh, session_over)
    else if sh.state.needs_rebuild
    then (sh, session_over)
    else with_dims snapshot f sh dims

-- Steps of the thread one after another, with nothing of the other threads in between.
data Leads : Step → Step → Type 0 where
  here : (r : Step) → Leads r r
  next :
      (t t' : CaptureThread) (sh sh' : Shared) (r : Step)
      → thread_step went_well t sh ≡ (sh', some t')
      → Leads (sh', t') r
      → Leads (sh, t) r

Leads-if :
    (b : Bool) (sh : Shared) (x y : CaptureThread) (x' y' : Step)
    → Leads (sh, x) x'
    → Leads (sh, y) y'
    → Leads (sh, if b then x else y) (if b then x' else y')
Leads-if true sh x y x' y' hx hy = hx
Leads-if false sh x y x' y' hx hy = hy

module _ (s : CaptureSnapshot) where
  sending-Leads :
      (dims : Option (ℕ × ℕ)) (tx taken : ℕ) (nals : List Nal) (sh : Shared)
      → Leads
          (sh, sending s dims tx taken nals)
          (hand_over (capturing s dims) sh (some tx) taken nals)
  unfolding send_nals thread_step
  sending-Leads dims tx taken [] sh = next _ (capturing s dims) sh sh _ refl (here _)
  sending-Leads dims tx zero (nal ∷ nals) sh =
      next _ giving_up sh sh _ refl (next _ session_over sh _ _ refl (here _))
  sending-Leads dims tx (suc taken) (nal ∷ nals) sh =
      let sh' = record sh { sent = sh.sent ++ ((tx, nal) ∷ []) } in
      next _ (sending s dims tx taken nals) sh sh' _ refl (sending-Leads dims tx taken nals sh')

  with_sender-Leads :
      (dims : Option (ℕ × ℕ)) (taken : ℕ) (nals : List Nal) (sh : Shared) (tx : Option ℕ)
      → Leads (sh, with_sender s dims taken nals tx) (hand_over (capturing s dims) sh tx taken nals)
  with_sender-Leads dims taken nals sh none = here _
  with_sender-Leads dims taken nals sh (some tx) = sending-Leads dims tx taken nals sh

  handed-Leads :
      (dims : Option (ℕ × ℕ)) (f : Frame) (sh : Shared) (nals : Option (List Nal))
      → Leads (sh, handed s dims f.taken nals) (drained_to (capturing s dims) sh f nals)
  unfolding thread_step
  handed-Leads dims f sh none = here _
  handed-Leads dims f sh (some nals) =
      next _ (with_sender s dims f.taken nals sh.sender) sh sh _ refl
        (with_sender-Leads dims f.taken nals sh sh.sender)

  encoded-Leads :
      (dims : Option (ℕ × ℕ)) (f : Frame) (sh : Shared)
      → Leads (sh, encoded s dims f) (encode_frame (capturing s dims) f sh)
  unfolding encode_frame
  encoded-Leads dims f sh =
      Leads-if (not f.buffered) sh _ _ _ _ (here _)
        (Leads-if (not f.submitted) sh _ _ _ _ (here _) (handed-Leads dims f sh f.drained))

  encode-Leads :
      (f : Frame) (sh : Shared) (dims : Option (ℕ × ℕ))
      → Leads (encode s f sh dims) (with_dims s f sh dims)
  unfolding encode with_dims
  encode-Leads f sh none =
      Leads-if f.configured sh _ _ _ _ (encoded-Leads (some (f.width, f.height)) f sh) (here _)
  encode-Leads f sh (some (cw, ch)) =
      elim (not (f.width == cw) || not (f.height == ch))
        as (λ b.
          let rebuild : Step =
            (record sh { state = record sh.state { needs_rebuild = true } }, session_over) in
          Leads (if b then rebuild else (sh, encoded s (some (cw, ch)) f))
            (if b then rebuild else encode_frame (capturing s (some (cw, ch))) f sh)) [
              | true ↦ here _
              | false ↦ encoded-Leads (some (cw, ch)) f sh
            ]

  -- The steps of a callback, when no other thread comes in between, do what it does as one function.
  session-on_frame_arrived :
      (dims : Option (ℕ × ℕ)) (f : Frame) (sh : Shared)
      → Leads (session s dims sh (arrived f)) (on_frame_arrived s dims f sh)
  unfolding on_frame_arrived thread_step
  session-on_frame_arrived dims f sh = Leads-if sh.shutdown sh _ _ _ _ (here _) (
      next _ (if sh.state.needs_rebuild then session_over else encoding s dims f) sh sh _ refl (
        Leads-if sh.state.needs_rebuild sh _ _ _ _ (here _) (
          next _ (encode s f sh dims).1 sh (encode s f sh dims).0 _ refl (encode-Leads f sh dims))))
