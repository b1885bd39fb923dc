-- ===== src/Relay/Pump/Joined.antt =====
-- crates/relay/src/main.rs, `pump_ws_ws`: the two directions under one `try_join`, in any interleaving.
use xyzen_relay.Prelude.{
  ◌≡◌, refl, ap, subst, ◌∙◌, Bool, true, false, Bool-cases, inl, inr, Option, none, some,
  Option-cases, List, [], ◌∷◌, ◌++◌, append_assoc, if◌then◌else◌,
}
use xyzen_relay.Relay.Pump.{WsMessage, close, WsItem, received, failed, Outcome, done, broken}

-- One direction: how its loop has ended, if it has, and what it has sent, the first message first.
pub record Direction : Type 0 where
  pub ended : Option Outcome
  pub sent : List WsMessage

-- `true` is `f1`, from `a` to `b`, and `false` is `f2`.
abbrev pub Pair : Type 0
Pair = Bool → Direction

abbrev pub fresh : Pair
fresh direction = record { ended = none; sent = [] }

-- An item comes up on one of the two streams; `takes` says whether the other socket takes a send. The
-- end of a stream does what a close does, and is written as one.
pub record Arrival : Type 0 where
  pub direction : Bool
  pub takes : Bool
  pub item : WsItem

unfoldable pub forward : Bool → WsItem → Direction → Direction
forward takes failed d = record d { ended = some broken }
forward takes (received close) d = record d { ended = some done }
forward true (received m) d = record d { sent = d.sent ++ m ∷ [] }
forward false (received m) d = record d { ended = some broken }

-- A loop that has ended reads no more.
unfoldable pub advance : Bool → WsItem → Direction → Direction
unfolding forward
advance takes item d = elim d.ended [ none ↦ forward takes item d | some o ↦ d ]

abbrev pub same : Bool → Bool → Bool
same true d = d
same false true = false
same false false = true

-- `try_join` is library code: `joined` says, of how the two loops have ended, whether it returns.
module _ (joined : Option Outcome → Option Outcome → Bool) where
  unfoldable pub step : Arrival → Pair → Pair
  unfolding advance
  step x s d =
      if joined (s true).ended (s false).ended
      then s d
      else if same x.direction d
      then advance x.takes x.item (s d)
      else s d

  unfoldable pub run : List Arrival → Pair → Pair
  run [] s = s
  run (x ∷ xs) s = run xs (step x s)

-- The messages that come up on a stream before it closes or fails.
abbrev pub before_end : WsItem → List WsMessage → List WsMessage
before_end failed ms = []
before_end (received close) ms = []
before_end (received m) ms = m ∷ ms

unfoldable pub messages : Bool → List Arrival → List WsMessage
messages d [] = []
messages d (x ∷ xs) =
    let rest = messages d xs in if same x.direction d then before_end x.item rest else rest

-- `d'` has sent a beginning of what `d` had sent and `ms`; nothing more where `d` had ended.
record Behind (d d' : Direction) (ms : List WsMessage) : Type 0 where
  left : List WsMessage
  prefix : d'.sent ++ left ≡ d.sent ++ ms
  over : (o : Outcome) → d.ended ≡ some o → d'.sent ≡ d.sent

-- A direction that has ended has only to keep what it has sent.
ended-Behind : (d d' : Direction) (ms : List WsMessage) → d'.sent ≡ d.sent → Behind d d' ms
ended-Behind d d' ms e = record { left = ms; prefix = ap (λ l. l ++ ms) e; over = λ o f. e }

forward-Behind :
    (takes : Bool) (item : WsItem) (d d' : Direction) (ms : List WsMessage)
    → d.ended ≡ none
    → Behind (forward takes item d) d' ms
    → Behind d d' (before_end item ms)
unfolding forward
forward-Behind takes failed d d' ms open_ h = ended-Behind d d' _ (h.over broken refl)
forward-Behind takes (received close) d d' ms open_ h = ended-Behind d d' _ (h.over done refl)
forward-Behind true (received m) d d' ms open_ h = record {
  left = h.left;
  prefix = h.prefix ∙ append_assoc d.sent (m ∷ []) ms;
  over = λ o f. absurd cc;
}
forward-Behind false (received m) d d' ms open_ h = ended-Behind d d' _ (h.over broken refl)

abbrev advanced : Option Outcome → Bool → WsItem → Direction → Direction
advanced o takes item d = elim o [ none ↦ forward takes item d | some o ↦ d ]

advance-Behind :
    (takes : Bool) (item : WsItem) (d d' : Direction) (ms : List WsMessage)
    → Behind (advance takes item d) d' ms
    → Behind d d' (before_end item ms)
unfolding advance
advance-Behind takes item d d' ms h = elim (Option-cases d.ended) [
  | inl e ↦
      forward-Behind takes item d d' ms e
        (subst (λ x. Behind x d' ms) (ap (λ o. advanced o takes item d) e) h)
  | inr (o, e) ↦
      let kept : Behind d d' ms =
        subst (λ x. Behind x d' ms) (ap (λ o. advanced o takes item d) e) h in
      ended-Behind d d' _ (kept.over o e)
]

module _ (joined : Option Outcome → Option Outcome → Bool) where
  -- A pump that is over does nothing more.
  over_run :
      (xs : List Arrival) (s : Pair) (d : Bool)
      → joined (s true).ended (s false).ended ≡ true
      → (run joined xs s d).sent ≡ (s d).sent
  unfolding run step
  over_run [] s d e = refl
  over_run (x ∷ xs) s d e = over_run xs (step joined x s) d (rw e e) ∙ rw e refl

  step-Behind :
      (d : Bool) (x : Arrival) (s : Pair) (d' : Direction) (ms : List WsMessage)
      → Behind (step joined x s d) d' ms
      → (joined (s true).ended (s false).ended ≡ true → d'.sent ≡ (s d).sent)
      → Behind (s d) d' (if same x.direction d then before_end x.item ms else ms)
  unfolding step
  step-Behind d x s d' ms h stopped = elim (Bool-cases (joined (s true).ended (s false).ended)) [
    | inl e ↦ ended-Behind (s d) d' _ (stopped e)
    | inr e ↦ elim (Bool-cases (same x.direction d)) [
      | inl mine ↦ rw mine (
          advance-Behind x.takes x.item (s d) d' ms
            (subst (λ y. Behind y d' ms) (stepped e mine) h))
      | inr other ↦ rw other (subst (λ y. Behind y d' ms) (passed e other) h)
    ]
  ]
    where
      stepped :
          joined (s true).ended (s false).ended ≡ false
          → same x.direction d ≡ true
          → step joined x s d ≡ advance x.takes x.item (s d)
      stepped e mine = rw (e, mine) refl

      passed :
          joined (s true).ended (s false).ended ≡ false
          → same x.direction d ≡ false
          → step joined x s d ≡ s d
      passed e other = rw (e, other) refl

  run-Behind :
      (d : Bool) (xs : List Arrival) (s : Pair) → Behind (s d) (run joined xs s d) (messages d xs)
  unfolding run messages
  run-Behind d [] s = record { left = []; prefix = refl; over = λ o e. refl }
  run-Behind d (x ∷ xs) s =
      step-Behind d x s _ _ (run-Behind d xs (step joined x s)) (over_run (x ∷ xs) s d)

  -- In any interleaving of the two directions, whatever the sockets take and whenever the two are over: what one peer has been
  -- sent is a beginning of what the other has said before it closed or failed, in order.
  pub run-prefix :
      (d : Bool) (xs : List Arrival)
      → (left : List WsMessage) × ((run joined xs fresh d).sent ++ left ≡ messages d xs)
  run-prefix d xs = let h = run-Behind d xs fresh in (h.left, h.prefix)
