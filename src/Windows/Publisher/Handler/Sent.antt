-- ===== src/Windows/Publisher/Handler/Sent.antt =====
-- What the callback sends to the relay, with the encoder in it.
use xyzen_relay.Prelude.{
  ℕ, zero, suc, ◌≤◌, ◌≡◌, sym, ap, subst, Bool, true, false, not, ◌||◌, inl, inr, Option, none,
  some, Option-cases, List, [], ◌∷◌, ◌++◌, All, All-append, ◌==◌, if◌then◌else◌,
}
use xyzen_relay.Windows.Encoder.{
  Result, ok, err, panic, unfinished, not_configured, Call, process_output, Reply, failed, Nal,
  Machine, Mf, ◌>>=◌, read, fail,
}
use xyzen_relay.Windows.Encoder.Feed.{submit_frame, drain, drain_loop}
use xyzen_relay.Windows.Encoder.Samples.{Framed, outputs}
use xyzen_relay.Windows.Encoder.Post.{Post}
use xyzen_relay.Windows.Encoder.Drained.{drain-Post}
use xyzen_relay.Windows.Publisher.{CaptureSnapshot, Shared, CaptureThread, Step}
use xyzen_relay.Windows.Publisher.Callback.{send_nals, hand_over}
use xyzen_relay.Windows.Publisher.Handler.{
  Picture, Handled, after_drain, after_submit, feed, after_configure, handle_dims, handle,
}

-- Every NAL that went into a channel is eight bytes of time, a start code and a unit.
abbrev pub SentFramed : Shared → Type 0
SentFramed sh = All (λ (x : ℕ × Nal). Framed x.1) sh.sent

abbrev pub StillFramed : Handled → Type 0
StillFramed none = Unit {0}
StillFramed (some (st, m)) = SentFramed st.0

abbrev OkFramed : Result (List Nal) × Machine → Type 0
OkFramed (ok nals, m) = All Framed nals
OkFramed (err e, m) = Unit {0}
OkFramed (panic, m) = Unit {0}
OkFramed (unfinished, m) = Unit {0}

send_nals-Framed :
    (tx taken : ℕ) (nals : List Nal) (sent : List (ℕ × Nal))
    → All Framed nals
    → All (λ (x : ℕ × Nal). Framed x.1) sent
    → All (λ (x : ℕ × Nal). Framed x.1) (send_nals tx taken nals sent).0
unfolding send_nals
send_nals-Framed tx taken [] sent new old = old
send_nals-Framed tx zero (nal ∷ nals) sent new old = old
send_nals-Framed tx (suc taken) (nal ∷ nals) sent (this, new) old =
    send_nals-Framed tx taken nals (sent ++ (tx, nal) ∷ []) new
      (All-append _ sent ((tx, nal) ∷ []) old (this, tt))

SentFramed-if :
    (b : Bool) (x y : Step) → SentFramed x.0 → SentFramed y.0 → SentFramed (if b then x else y).0
SentFramed-if true x y hx hy = hx
SentFramed-if false x y hx hy = hy

-- Whatever flag it ends with, the shared state has what was sent.
hand_over-Framed :
    (here : CaptureThread) (sh : Shared) (o : Option ℕ) (taken : ℕ) (nals : List Nal)
    → All Framed nals
    → SentFramed sh
    → SentFramed (hand_over here sh o taken nals).0
hand_over-Framed here sh none taken nals new old = old
hand_over-Framed here sh (some tx) taken nals new old =
    let sent = send_nals-Framed tx taken nals sh.sent new old in
    SentFramed-if (send_nals tx taken nals sh.sent).1 _ _ sent sent

module _ (host : List Call → Call → Reply) (n : ℕ) (code : ℕ → ℕ)
    (dry : (log : List Call) (s : ℕ)
      → n ≤ outputs log
      → host log (process_output s) ≡ failed (code s)) where
  Post-Framed :
      (Q : List Nal → Machine → Type 0) (R : Machine → Type 0) (r : Result (List Nal) × Machine)
      → ((nals : List Nal) (m : Machine) → Q nals m → All Framed nals)
      → Post Q R r
      → OkFramed r
  Post-Framed Q R (ok nals, m) take h = take nals m h
  Post-Framed Q R (err e, m) take h = tt
  Post-Framed Q R (panic, m) take h = tt
  Post-Framed Q R (unfinished, m) take h = tt

  drain-Framed : (m : Machine) → OkFramed (drain host (suc n) m)
  unfolding drain ◌>>=◌ read fail
  drain-Framed m = elim (Option-cases m.encoder.transform) [
    | inl e ↦
        let started =
          ap
            (λ (o : Option ℕ).
              (elim o as (λ p. Mf (List Nal)) [
                | none ↦ fail not_configured
                | some x ↦ drain_loop host (suc n) m.encoder.output_stream_id []
              ])
                m)
            e in
        subst OkFramed (sym started) tt
    | inr (t, e) ↦
        Post-Framed _ _ (drain host (suc n) m) (λ nals m' h. h.0) (drain-Post host n code dry m t e)
  ]

  after_drain-Framed :
      (here : CaptureThread) (sh : Shared) (p : Picture) (r : Result (List Nal) × Machine)
      → OkFramed r
      → SentFramed sh
      → StillFramed (after_drain host (suc n) here sh p r)
  unfolding after_drain
  after_drain-Framed here sh p (ok nals, m) new old =
      hand_over-Framed here sh sh.sender p.taken nals new old
  after_drain-Framed here sh p (err e, m) new old = old
  after_drain-Framed here sh p (panic, m) new old = tt
  after_drain-Framed here sh p (unfinished, m) new old = tt

  after_submit-Framed :
      (here : CaptureThread) (sh : Shared) (p : Picture) (r : Result (List ℕ) × Machine)
      → SentFramed sh
      → StillFramed (after_submit host (suc n) here sh p r)
  unfolding after_submit
  after_submit-Framed here sh p (ok v, m) old =
      after_drain-Framed here sh p (drain host (suc n) m) (drain-Framed m) old
  after_submit-Framed here sh p (err e, m) old = old
  after_submit-Framed here sh p (panic, m) old = tt
  after_submit-Framed here sh p (unfinished, m) old = tt

  feed-Framed :
      (here : CaptureThread) (sh : Shared) (p : Picture) (o : Option (List ℕ)) (m : Machine)
      → SentFramed sh
      → StillFramed (feed host (suc n) here sh p o m)
  unfolding feed
  feed-Framed here sh p none m old = old
  feed-Framed here sh p (some bgra) m old =
      after_submit-Framed here sh p (submit_frame host bgra m) old

  after_configure-Framed :
      (snapshot : CaptureSnapshot) (sh : Shared) (p : Picture) (r : Result (Unit {0}) × Machine)
      → SentFramed sh
      → StillFramed (after_configure host (suc n) snapshot sh p r)
  unfolding after_configure
  after_configure-Framed snapshot sh p (ok done, m) old = feed-Framed _ sh p p.bgra m old
  after_configure-Framed snapshot sh p (err e, m) old = old
  after_configure-Framed snapshot sh p (panic, m) old = tt
  after_configure-Framed snapshot sh p (unfinished, m) old = tt

  StillFramed-if :
      (b : Bool) (x y : Handled) → StillFramed x → StillFramed y → StillFramed (if b then x else y)
  StillFramed-if true x y hx hy = hx
  StillFramed-if false x y hx hy = hy

  handle_dims-Framed :
      (snapshot : CaptureSnapshot) (sh : Shared) (p : Picture) (dims : Option (ℕ × ℕ)) (m : Machine)
      → SentFramed sh
      → StillFramed (handle_dims host (suc n) snapshot sh p dims m)
  unfolding handle_dims
  handle_dims-Framed snapshot sh p none m old = after_configure-Framed snapshot sh p _ old
  handle_dims-Framed snapshot sh p (some (cw, ch)) m old =
      StillFramed-if (not (p.width == cw) || not (p.height == ch)) _ _ old
        (feed-Framed _ sh p p.bgra m old)

  -- On a platform that, after `n` calls for output, fails each further one: if every NAL that was sent so
  -- far is eight bytes of time, a start code and a unit, so is every one behind the callback, whatever the
  -- picture and the platform's other answers.
  pub handle-StillFramed :
      (snapshot : CaptureSnapshot) (dims : Option (ℕ × ℕ)) (p : Picture) (sh : Shared) (m : Machine)
      → SentFramed sh
      → StillFramed (handle host (suc n) snapshot dims p sh m)
  unfolding handle
  handle-StillFramed snapshot dims p sh m old =
      StillFramed-if sh.shutdown _ _ old (
        StillFramed-if sh.state.needs_rebuild _ _ old (handle_dims-Framed snapshot sh p dims m old))
