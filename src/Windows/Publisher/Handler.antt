-- ===== src/Windows/Publisher/Handler.antt =====
-- crates/win-capturer/src/publisher.rs, `on_frame_arrived` with the encoder of Windows/Encoder.antt in
-- it: the picture is its bytes, and what the encoder answers is computed from what the platform does.
pub mod Sent
use xyzen_relay.Prelude.{
  Bool-cases, inl, inr, ℕ, suc, ◌+◌, ◌-◌, ◌*◌, ◌^◌, ◌≡◌, refl, min, Bool, true, false, not, ◌||◌,
  Option, none, some, List, ◌==◌, if◌then◌else◌,
}
use xyzen_relay.Windows.Encoder.{Result, ok, err, panic, unfinished, Call, Reply, Nal, Machine}
use xyzen_relay.Windows.Encoder.Setup.{configure}
use xyzen_relay.Windows.Encoder.Feed.{submit_frame, drain}
use xyzen_relay.Windows.Publisher.{
  CaptureSnapshot, Shared, CaptureThread, capturing, session_over, Frame, Step,
}
use xyzen_relay.Windows.Publisher.Callback.{drained_to, encode_frame, with_dims, on_frame_arrived}

-- What the capture hands over: `bgra` is none where the buffer cannot be read, and the receiver takes
-- `taken` more NALs.
pub record Picture : Type 0 where
  pub width : ℕ
  pub height : ℕ
  pub bgra : Option (List ℕ)
  pub taken : ℕ

abbrev pub frame_with : Picture → Bool → Bool → Bool → Option (List Nal) → Frame
frame_with p configured buffered submitted drained = record {
  width = p.width;
  height = p.height;
  configured = configured;
  buffered = buffered;
  submitted = submitted;
  drained = drained;
  taken = p.taken;
}

abbrev pub readable : Option (List ℕ) → Bool
readable none = false
readable (some bgra) = true

-- What the encoder's results are to the event model.
abbrev pub is_ok {ℓ} : {A : Type ℓ} → Result A × Machine → Bool
is_ok (ok v, m) = true
is_ok (err e, m) = false
is_ok (panic, m) = false
is_ok (unfinished, m) = false

abbrev pub nals_of : Result (List Nal) × Machine → Option (List Nal)
nals_of (ok nals, m) = some nals
nals_of (err e, m) = none
nals_of (panic, m) = none
nals_of (unfinished, m) = none

-- What the thread does next, with the encoder behind it; `none` is a panic, or a loop of `drain` that
-- is not over within its fuel.
abbrev pub Handled : Type 0
Handled = Option (Step × Machine)

module _ (host : List Call → Call → Reply) (fuel : ℕ) where
  unfoldable pub after_drain :
      CaptureThread → Shared → Picture → Result (List Nal) × Machine → Handled
  after_drain here sh p (ok nals, m) =
      some (drained_to here sh (frame_with p true true true (some nals)) (some nals), m)
  after_drain here sh p (err e, m) = some ((sh, here), m)
  after_drain here sh p (panic, m) = none
  after_drain here sh p (unfinished, m) = none

  unfoldable pub after_submit :
      CaptureThread → Shared → Picture → Result (List ℕ) × Machine → Handled
  after_submit here sh p (ok v, m) = after_drain here sh p (drain host fuel m)
  after_submit here sh p (err e, m) = some ((sh, here), m)
  after_submit here sh p (panic, m) = none
  after_submit here sh p (unfinished, m) = none

  unfoldable pub feed : CaptureThread → Shared → Picture → Option (List ℕ) → Machine → Handled
  feed here sh p none m = some ((sh, session_over), m)
  feed here sh p (some bgra) m = after_submit here sh p (submit_frame host bgra m)

  unfoldable pub after_configure :
      CaptureSnapshot → Shared → Picture → Result (Unit {0}) × Machine → Handled
  after_configure snapshot sh p (ok done, m) =
      feed (capturing snapshot (some (p.width, p.height))) sh p p.bgra m
  after_configure snapshot sh p (err e, m) = some ((sh, session_over), m)
  after_configure snapshot sh p (panic, m) = none
  after_configure snapshot sh p (unfinished, m) = none

  -- The rate is `saturating_mul(1000)` of a `u32`.
  unfoldable pub handle_dims :
      CaptureSnapshot → Shared → Picture → Option (ℕ × ℕ) → Machine → Handled
  handle_dims snapshot sh p none m = after_configure snapshot sh p (
      configure host p.width p.height snapshot.fps (min (snapshot.bitrate_kbps * 1000) (2 ^ 32 - 1))
        m)
  handle_dims snapshot sh p (some (cw, ch)) m =
      if not (p.width == cw) || not (p.height == ch)
      then some ((record sh { state = record sh.state { needs_rebuild = true } }, session_over), m)
      else feed (capturing snapshot (some (cw, ch))) sh p p.bgra m

  unfoldable pub handle : CaptureSnapshot → Option (ℕ × ℕ) → Picture → Shared → Machine → Handled
  handle snapshot dims p sh m =
      if sh.shutdown
      then some ((sh, session_over), m)
      else if sh.state.needs_rebuild
      then some ((sh, session_over), m)
      else handle_dims snapshot sh p dims m

  abbrev submitted_by : Option (List ℕ) → Machine → Bool
  submitted_by none m = false
  submitted_by (some bgra) m = is_ok (submit_frame host bgra m)

  abbrev drained_by : Option (List ℕ) → Machine → Option (List Nal)
  drained_by none m = none
  drained_by (some bgra) m = nals_of (drain host fuel (submit_frame host bgra m).1)

  -- The picture as a frame of the event model, with an encoder that stands at `m` after `configure`.
  abbrev frame_of : Bool → Picture → Machine → Frame
  frame_of configured p m =
      frame_with p configured (readable p.bgra) (submitted_by p.bgra m) (drained_by p.bgra m)

  -- The same where `configure` is still to be called, on a session that has no size yet.
  abbrev pub frame_for : CaptureSnapshot → Option (ℕ × ℕ) → Picture → Machine → Frame
  frame_for snapshot none p m =
      let r =
        configure host p.width p.height snapshot.fps
          (min (snapshot.bitrate_kbps * 1000) (2 ^ 32 - 1)) m in
      frame_of (is_ok r) p r.1
  frame_for snapshot (some dims) p m = frame_of true p m

  -- It panics or runs out of fuel, or the step is this one.
  abbrev pub IsStep : Step → Handled → Type 0
  IsStep expected none = Unit {0}
  IsStep expected (some (st, m)) = st ≡ expected

  module _ (here : CaptureThread) (sh : Shared) (p : Picture) (c : Bool) where
    after_drain-IsStep :
        (r : Result (List Nal) × Machine)
        → IsStep
            (encode_frame here (frame_with p c true true (nals_of r)) sh)
            (after_drain here sh p r)
    unfolding after_drain encode_frame
    after_drain-IsStep (ok nals, m) = refl
    after_drain-IsStep (err e, m) = refl
    after_drain-IsStep (panic, m) = tt
    after_drain-IsStep (unfinished, m) = tt

    after_submit-IsStep :
        (r : Result (List ℕ) × Machine)
        → IsStep
            (encode_frame here (frame_with p c true (is_ok r) (nals_of (drain host fuel r.1))) sh)
            (after_submit here sh p r)
    unfolding after_submit encode_frame
    after_submit-IsStep (ok v, m) = after_drain-IsStep (drain host fuel m)
    after_submit-IsStep (err e, m) = refl
    after_submit-IsStep (panic, m) = tt
    after_submit-IsStep (unfinished, m) = tt

    feed-IsStep :
        (o : Option (List ℕ)) (m : Machine)
        → IsStep
            (encode_frame here (frame_with p c (readable o) (submitted_by o m) (drained_by o m)) sh)
            (feed here sh p o m)
    unfolding feed encode_frame
    feed-IsStep none m = refl
    feed-IsStep (some bgra) m = after_submit-IsStep (submit_frame host bgra m)

  after_configure-IsStep :
      (snapshot : CaptureSnapshot) (sh : Shared) (p : Picture) (r : Result (Unit {0}) × Machine)
      → IsStep
          (with_dims snapshot (frame_of (is_ok r) p r.1) sh none)
          (after_configure snapshot sh p r)
  unfolding after_configure with_dims
  after_configure-IsStep snapshot sh p (ok done, m) = feed-IsStep _ sh p true p.bgra m
  after_configure-IsStep snapshot sh p (err e, m) = refl
  after_configure-IsStep snapshot sh p (panic, m) = tt
  after_configure-IsStep snapshot sh p (unfinished, m) = tt

  handle_dims-IsStep :
      (snapshot : CaptureSnapshot) (sh : Shared) (p : Picture) (dims : Option (ℕ × ℕ)) (m : Machine)
      → IsStep
          (with_dims snapshot (frame_for snapshot dims p m) sh dims)
          (handle_dims snapshot sh p dims m)
  unfolding handle_dims with_dims
  handle_dims-IsStep snapshot sh p none m = after_configure-IsStep snapshot sh p _
  handle_dims-IsStep snapshot sh p (some (cw, ch)) m =
      elim (Bool-cases (not (p.width == cw) || not (p.height == ch))) [
        | inl changed ↦ rw changed refl
        | inr same ↦ rw same (feed-IsStep _ sh p true p.bgra m)
      ]

  -- The callback with the encoder in it refines the one of the event model: for every picture and
  -- platform, where it does not panic and the loop of `drain` is over within its fuel, it does to the
  -- shared state and the thread what `on_frame_arrived` does with the frame of that picture: its size,
  -- whether it has a buffer, its receiver, and what `configure`, `submit_frame` and `drain` answer one
  -- after another.
  pub handle-IsStep :
      (snapshot : CaptureSnapshot) (dims : Option (ℕ × ℕ)) (p : Picture) (sh : Shared) (m : Machine)
      → IsStep
          (on_frame_arrived snapshot dims (frame_for snapshot dims p m) sh)
          (handle snapshot dims p sh m)
  unfolding handle on_frame_arrived
  handle-IsStep snapshot dims p sh m =
      let f = frame_for snapshot dims p m in
      elim sh.shutdown
        as (λ b.
          IsStep
            (if b
              then (sh, session_over)
              else if sh.state.needs_rebuild
              then (sh, session_over)
              else with_dims snapshot f sh dims)
            (if b
              then some ((sh, session_over), m)
              else if sh.state.needs_rebuild
              then some ((sh, session_over), m)
              else handle_dims snapshot sh p dims m)) [
                | true ↦ refl
                | false ↦
                    elim sh.state.needs_rebuild
                      as (λ b.
                        IsStep (if b then (sh, session_over) else with_dims snapshot f sh dims) (
                          if b
                          then some ((sh, session_over), m)
                          else handle_dims snapshot sh p dims m)) [
                            | true ↦ refl
                            | false ↦ handle_dims-IsStep snapshot sh p dims m
                          ]
              ]
