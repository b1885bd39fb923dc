-- ===== src/Rendezvous/Interleaved/Safe.antt =====
-- What holds however the handlers interleave.
use Prim.Native.String.{String}
use xyzen_relay.Prelude.{
  ◌+◌, ◌≤◌, ◌≡◌, refl, sym, ap, subst, ◌∙◌, inl, inr, Bool-cases, Option, none, some, Option-cases,
  List, ◌∷◌, ◌++◌, length, length-append, All, All-take, arith,
}
use xyzen_relay.Prelude.Assoc.{lookup, remove, string_eq, lookup-insert, lookup-remove}
use xyzen_relay.Rendezvous.Message.{
  request_relay, relay_response, request_relay_to, relay_response_to, RendezvousMessage,
}
use xyzen_relay.Rendezvous.Audit.{Post}
use xyzen_relay.Rendezvous.Registry.{Outbox, Reachable, PeerRegistry}
use xyzen_relay.Rendezvous.Server.{
  Pending, push, Config, message, did, audited, deliver, dispatch_relay_ack, ack_key,
}
use xyzen_relay.Rendezvous.Accounting.{
  requests, responses, is_response, is_request, length-insert-le, length-remove-lt,
}
use xyzen_relay.Rendezvous.Interleaved.{
  Punch, Running, asks, enters, Step, looking, asking, entering, acknowledging, registering,
  closing, auditing, replying_peer, replying_pk, Reached, begin, later,
}
use xyzen_relay.Rendezvous.Interleaved.Inv.{
  Answered, Inv, looks_up-Inv, deliver_counts, deliver-Answered,
}

asks-Inv :
    (c : Config) (before after : List (Punch × Reachable)) (p : Punch) (reach : Reachable)
    (s : Running)
    → s.found ≡ before ++ (p, reach) ∷ after
    → Inv s
    → Inv (asks c before after p reach s)
unfolding asks
asks-Inv c before after p reach s e inv =
    let request = message (request_relay (request_relay_to c.relay_addr)) in
    let (mine, rest) = All-take _ before (p, reach) after (subst (All _) e inv.ahead) in
    record {
      counted = omega (arith, deliver_counts reach request s.world.log, inv.counted);
      waiting = inv.waiting;
      behind = (mine, inv.behind);
      ahead = rest;
      answered = deliver-Answered reach request s.callers s.world.log refl inv.answered;
    }

enters-Inv :
    (before after : List Punch) (p : Punch) (s : Running)
    → s.asked ≡ before ++ p ∷ after
    → Inv s
    → Inv (enters before after p s)
unfolding enters
enters-Inv before after p s e inv =
    let (mine, rest) = All-take _ before p after (subst (All _) e inv.behind) in
    record {
      counted = omega (
        arith,
        inv.counted,
        ap length e,
        length-append before (p ∷ after),
        length-append before after,
        length-insert-le p.target p.requester s.world.pending,
      );
      waiting = λ k tx f. elim (Bool-cases (string_eq.beq p.target k)) [
        | inl same ↦ ground (arith, mine, lookup-insert p.target k p.requester s.world.pending)
        | inr other ↦
            inv.waiting k tx
              (sym (lookup-insert p.target k p.requester s.world.pending ∙ rw other refl) ∙ f)
      ];
      behind = rest;
      ahead = inv.ahead;
      answered = inv.answered;
    }

remove-found :
    (k j : String) (t : Outbox) (m : Pending) → lookup j (remove k m) ≡ some t → lookup j m ≡ some t
remove-found k j t m e = elim (Bool-cases (string_eq.beq k j)) [
  | inl same ↦ absurd (ground (arith, lookup-remove k j m))
  | inr other ↦ ground (arith, lookup-remove k j m)
]

response_sent-Inv :
    (c : Config) (k : String) (tx : Outbox) (s : Running)
    → lookup k s.world.pending ≡ some tx
    → Inv s
    → Inv (record s {
      world =
          did
            (push tx (message (relay_response (relay_response_to c.relay_addr))))
            (record (s.world) { pending = remove k s.world.pending });
    })
unfolding Answered requests responses
response_sent-Inv c k tx s e inv = record {
  counted = omega (arith, inv.counted, length-remove-lt k tx s.world.pending e);
  waiting = λ j t f. inv.waiting j t (remove-found k j t s.world.pending f);
  behind = inv.behind;
  ahead = inv.ahead;
  answered = (λ one. inv.waiting k tx e, inv.answered);
}

ack_key-Inv :
    (c : Config) (k : Option String) (s : Running)
    → Inv s
    → Inv (record s { world = ack_key c k s.world })
unfolding ack_key
ack_key-Inv c none s inv = inv
ack_key-Inv c (some k) s inv = elim (Option-cases (lookup k s.world.pending)) [
  | inl e ↦ rw (e, ack_key) inv
  | inr (tx, e) ↦ rw (e, ack_key) (response_sent-Inv c k tx s e inv)
]

-- A reply of another kind, and a request to the audit service.
replied-Inv :
    (reach : Reachable) (msg : RendezvousMessage) (s : Running)
    → is_request msg ≡ 0
    → is_response msg ≡ 0
    → Inv s
    → Inv (record s { world = did (deliver reach msg) s.world })
replied-Inv reach msg s q r inv = record {
  counted = omega (arith, deliver_counts reach msg s.world.log, inv.counted);
  waiting = inv.waiting;
  behind = inv.behind;
  ahead = inv.ahead;
  answered = deliver-Answered reach msg s.callers s.world.log r inv.answered;
}

audited-Inv : (p : Option Post) (s : Running) → Inv s → Inv (record s { world = audited p s.world })
unfolding Answered requests responses
audited-Inv none s inv = inv
audited-Inv (some p) s inv = record {
  counted = inv.counted;
  waiting = inv.waiting;
  behind = inv.behind;
  ahead = inv.ahead;
  answered = inv.answered;
}

registry-Inv :
    (r : PeerRegistry) (s : Running)
    → Inv s
    → Inv (record s { world = record (s.world) { registry = r } })
registry-Inv r s inv = record {
  counted = inv.counted;
  waiting = inv.waiting;
  behind = inv.behind;
  ahead = inv.ahead;
  answered = inv.answered;
}

module _ (next_key : Pending → Option String) (c : Config) where
  Step-Inv : {s t : Running} → Step next_key c s t → Inv s → Inv t
  unfolding dispatch_relay_ack
  Step-Inv {s} (looking p) inv = looks_up-Inv p s inv
  Step-Inv {s} (asking before after p reach e) inv = asks-Inv c before after p reach s e inv
  Step-Inv {s} (entering before after p e) inv = enters-Inv before after p s e inv
  Step-Inv {s} acknowledging inv = ack_key-Inv c (next_key s.world.pending) s inv
  Step-Inv {s} (registering id reach now) inv = registry-Inv _ s inv
  Step-Inv {s} (closing id tx) inv = registry-Inv _ s inv
  Step-Inv {s} (replying_peer reach) inv = replied-Inv reach _ s refl refl inv
  Step-Inv {s} (replying_pk reach) inv = replied-Inv reach _ s refl refl inv
  Step-Inv {s} (auditing p) inv = audited-Inv p s inv

  Reached-Inv : {s : Running} → Reached next_key c s → Inv s
  unfolding Answered lookup requests responses
  Reached-Inv begin = record {
    counted = omega arith;
    waiting = λ k tx e. absurd cc;
    behind = tt;
    ahead = tt;
    answered = tt;
  }
  Reached-Inv (later r st) = Step-Inv st (Reached-Inv r)

  -- However the handlers interleave: the responses that were sent, the punches that are pending and
  -- those that are about to be come to no more than the requests that peers were sent.
  pub interleaved_accounting :
      {s : Running}
      → Reached next_key c s
      → responses s.world.log + length s.world.pending + length s.asked ≤ requests s.world.log
  interleaved_accounting r = (Reached-Inv r).counted

  -- However the handlers interleave: each relay response that was sent went to the channel of a
  -- handler that had called for a punch.
  pub responses-Answered : {s : Running} → Reached next_key c s → Answered s.callers s.world.log
  responses-Answered r = (Reached-Inv r).answered
