-- ===== src/Rendezvous/Interleaved/Order.antt =====
-- A call of `dispatch_punch` that nothing comes between, and an acknowledgement that comes between.
use xyzen_relay.Prelude.{◌≡◌, refl, ap, ◌∙◌, Option, none, some, List, [], ◌∷◌}
use xyzen_relay.Prelude.Assoc.{lookup, insert, string_eq}
use Prim.Native.String.{String}
use xyzen_relay.Rendezvous.Registry.{Outbox, Reachable, get}
use xyzen_relay.Rendezvous.Server.{
  Pending, World, Config, dispatch_punch, dispatch_relay_ack, ack_key,
}
use xyzen_relay.Rendezvous.Exchange.{FirstOf, KeyOrder}
use xyzen_relay.Rendezvous.Interleaved.{Punch, Running, looks_up, asks, enters, on_world}

looks_up-found :
    (p : Punch) (reach : Reachable) (s : Running)
    → get s.world.registry p.target ≡ some reach
    → looks_up p s ≡ record s { callers = p.requester ∷ s.callers; found = (p, reach) ∷ s.found }
unfolding looks_up
looks_up-found p reach s e = rw (e, looks_up) refl

-- The three steps of a call in a row are the handler of the model without interleaving.
dispatch_punch-steps :
    (c : Config) (p : Punch) (reach : Reachable) (s : Running)
    → get s.world.registry p.target ≡ some reach
    → (enters [] s.asked p (asks c [] s.found p reach (looks_up p s))).world
      ≡ dispatch_punch c p.target p.requester s.world
unfolding asks enters dispatch_punch
dispatch_punch-steps c p reach s e =
    ap (λ t. (enters [] s.asked p (asks c [] s.found p reach t)).world) (looks_up-found p reach s e)
    ∙ rw (e, dispatch_punch) refl

nothing_found : (k : String) (tx : Outbox) (m : Pending) → m ≡ [] → lookup k m ≡ some tx → ⊥
unfolding lookup
nothing_found k tx [] e f = absurd cc
nothing_found k tx (x ∷ m) e f = absurd cc

none_first :
    (c : Config) (found : Option String) (w : World)
    → w.pending ≡ []
    → FirstOf w.pending found
    → ack_key c found w ≡ w
unfolding ack_key
none_first c none w e f = refl
none_first c (some k) w e (tx, f) = absurd (nothing_found k tx w.pending e f)

-- The peer acknowledges before the call that asked it has entered its requester, and no other punch
-- is pending: nobody is answered, and the requester is entered behind the acknowledgement.
pub ack_overtakes :
    (next_key : Pending → Option String) (c : Config) (before after : List Punch) (p : Punch)
    (s : Running)
    → KeyOrder next_key
    → s.world.pending ≡ []
    → (enters before after p (on_world (dispatch_relay_ack next_key c s.world) s)).world
      ≡ record (s.world) { pending = (p.target, p.requester) ∷ [] }
unfolding enters dispatch_relay_ack insert
ack_overtakes next_key c before after p s order e =
    ap (λ (w : World). record w { pending = insert p.target p.requester w.pending })
      (none_first c (next_key s.world.pending) s.world e (order s.world.pending))
    ∙ ap (λ m. record (s.world) { pending = insert p.target p.requester m }) e
