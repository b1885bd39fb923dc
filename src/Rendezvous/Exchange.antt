-- ===== src/Rendezvous/Exchange.antt =====
-- The punch-hole exchange: a request to an online peer, and the relay acknowledgement that ends it.
use Prim.Native.String.{String}
use text.Mathlib.TextEquality.{eq_iff}
use xyzen_relay.Prelude.{
  ◌≡◌, refl, sym, ap, subst, ◌∙◌, inl, inr, Option, none, some, Option-cases, [], ◌∷◌, arith,
}
use xyzen_relay.Prelude.Assoc.{lookup, insert, remove, string_eq, beq_refl}
use xyzen_relay.Rendezvous.Message.{
  request_relay, relay_response, request_relay_to, relay_response_to,
}
use xyzen_relay.Rendezvous.Registry.{Outbox, Reachable, get}
use xyzen_relay.Rendezvous.Server.{
  Pending, World, Config, message, did, deliver, push, dispatch_punch, dispatch_relay_ack, ack_key,
}

-- `keys().next()`: nothing of an empty map, a key of any other.
abbrev pub FirstOf : Pending → Option String → Type 0
FirstOf m none = m ≡ []
FirstOf m (some k) = (tx : Outbox) × (lookup k m ≡ some tx)

abbrev pub KeyOrder : (Pending → Option String) → Type 0
KeyOrder next_key = (m : Pending) → FirstOf m (next_key m)

abbrev response : Config → Outbox → World → World
response c tx w = did (push tx (message (relay_response (relay_response_to c.relay_addr)))) w

dispatch_punch-online :
    (c : Config) (target : String) (tx : Outbox) (w : World) (reach : Reachable)
    → get w.registry target ≡ some reach
    → dispatch_punch c target tx w ≡ record w {
      pending = insert target tx w.pending;
      log = deliver reach (message (request_relay (request_relay_to c.relay_addr))) ∷ w.log;
    }
unfolding dispatch_punch
dispatch_punch-online c target tx w reach e = rw (e, dispatch_punch)

-- A punch request for a peer that is not registered has no effect at all: nothing is sent, and the
-- requester is not remembered.
pub dispatch_punch-offline :
    (c : Config) (target : String) (tx : Outbox) (w : World)
    → get w.registry target ≡ none
    → dispatch_punch c target tx w ≡ w
unfolding dispatch_punch
dispatch_punch-offline c target tx w e = rw (e, dispatch_punch)

ack_key-some :
    (c : Config) (k : String) (w : World) (tx : Outbox)
    → lookup k w.pending ≡ some tx
    → ack_key c (some k) w ≡ response c tx (record w { pending = remove k w.pending })
unfolding ack_key
ack_key-some c k w tx e = rw (e, ack_key)

FirstOf-one :
    (k : String) (tx : Outbox) (found : Option String)
    → FirstOf ((k, tx) ∷ []) found
    → found ≡ some k
unfolding lookup
FirstOf-one k tx none f = absurd (cc)
FirstOf-one k tx (some j) f = ground (arith, eq_iff k j)

remove_only : (k : String) (tx : Outbox) → remove k ((k, tx) ∷ []) ≡ []
unfolding remove
remove_only k tx = rw (beq_refl k)

-- With no other punch under way, a request for a registered peer and the next acknowledgement
-- exchange exactly two messages: the peer is told the relay's address, and then the requester is told
-- the same address. The registry is as before, and no punch is left pending. It holds whatever
-- order the hash map iterates in.
pub punch_then_ack :
    (next_key : Pending → Option String) (c : Config) (target : String) (tx : Outbox) (w : World)
    (reach : Reachable)
    → KeyOrder next_key
    → w.pending ≡ []
    → get w.registry target ≡ some reach
    → dispatch_relay_ack next_key c (dispatch_punch c target tx w) ≡ record w {
      log =
          push tx (message (relay_response (relay_response_to c.relay_addr)))
          ∷ deliver reach (message (request_relay (request_relay_to c.relay_addr)))
          ∷ w.log;
    }
unfolding dispatch_relay_ack insert
punch_then_ack next_key c target tx w reach order e online =
    rw (dispatch_punch-online c target tx w reach online, ap (insert target tx) e)
      (ap (λ k. ack_key c k asked)
          (FirstOf-one target tx (next_key ((target, tx) ∷ [])) (order ((target, tx) ∷ [])))
        ∙ ack_key-some c target asked tx (unfold lookup in rw (beq_refl target))
        ∙ ap (λ m. response c tx (record asked { pending = m })) (remove_only target tx ∙ sym e))
  where
    asked : World
    asked = record w {
      pending = (target, tx) ∷ [];
      log = deliver reach (message (request_relay (request_relay_to c.relay_addr))) ∷ w.log;
    }

-- An iteration order that comes to `k` first where `k` is pending.
prefer : String → Pending → Option String
prefer k m = elim (lookup k m) [
  | some tx ↦ some k
  | none ↦ elim m [ [] ↦ none | (j, tx) ∷ rest ↦ some j ]
]

prefer-some : (k : String) (m : Pending) (tx : Outbox) → lookup k m ≡ some tx → prefer k m ≡ some k
unfolding prefer
prefer-some k m tx e = ground arith

prefer-FirstOf : (k : String) (m : Pending) → FirstOf m (prefer k m)
unfolding prefer lookup
prefer-FirstOf k [] = refl
prefer-FirstOf k ((j, tx) ∷ rest) = elim (Option-cases (lookup k ((j, tx) ∷ rest))) [
  | inl e ↦
      let first : prefer k ((j, tx) ∷ rest) ≡ some j = ground arith in
      subst (FirstOf ((j, tx) ∷ rest)) (sym first) (tx, rw (beq_refl j) refl)
  | inr (v, e) ↦ subst (FirstOf ((j, tx) ∷ rest)) (sym (prefer-some k ((j, tx) ∷ rest) v e)) (v, e)
]

-- An acknowledgement names no punch, so it may end any of those that are pending: for each of them
-- there is an iteration order of the map under which it is that one's requester who is answered, and
-- that one which is forgotten. The acknowledging peer plays no part in the choice.
pub ack_answers_any :
    (c : Config) (w : World) (k : String) (tx : Outbox)
    → lookup k w.pending ≡ some tx
    → (next_key : Pending → Option String) × KeyOrder next_key
      × (dispatch_relay_ack next_key c w
          ≡ response c tx (record w { pending = remove k w.pending }))
unfolding dispatch_relay_ack
ack_answers_any c w k tx e = (
  prefer k,
  prefer-FirstOf k,
  ap (λ found. ack_key c found w) (prefer-some k w.pending tx e) ∙ ack_key-some c k w tx e,
)
