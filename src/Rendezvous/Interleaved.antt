-- ===== src/Rendezvous/Interleaved.antt =====
-- crates/rendezvous/src/server.rs: handlers that run at the same time. `dispatch_punch` reads the
-- registry, sends, and then waits for the lock of `pending`: other handlers come in between. All
-- other operations are one step each, under their lock.
pub mod Inv
pub mod Safe
pub mod Order
use Prim.Native.String.{String}
use xyzen_relay.Prelude.{ℕ, ◌≡◌, false, ◌+◌, Option, none, some, List, [], ◌∷◌, ◌++◌}
use xyzen_relay.Prelude.Assoc.{insert, string_eq}
use xyzen_relay.Rendezvous.Message.{
  request_relay, request_relay_to, register_peer_response, register_pk_response, RendezvousMessage,
}
use xyzen_relay.Rendezvous.Audit.{Post}
use xyzen_relay.Rendezvous.Registry.{Outbox, Reachable, get, upsert, remove_if_ws}
use xyzen_relay.Rendezvous.Server.{
  Pending, Effect, push, World, Config, message, did, audited, deliver, dispatch_punch,
  dispatch_relay_ack,
}
use xyzen_relay.Rendezvous.Accounting.{start}

-- A call of `dispatch_punch`.
pub record Punch : Type 0 where
  pub target : String
  pub requester : Outbox

-- The shared state, the calls that have found their target, the calls that have sent the request and
-- not entered the requester yet, and the requesters of all calls so far.
pub record Running : Type 0 where
  pub world : World
  pub found : List (Punch × Reachable)
  pub asked : List Punch
  pub callers : List Outbox

abbrev pub idle : Running
idle = record { world = start; found = []; asked = []; callers = [] }

-- `registry.get(target_id)`.
unfoldable pub looks_up : Punch → Running → Running
looks_up p s =
    let called = record s { callers = p.requester ∷ s.callers } in
    elim (get s.world.registry p.target) [
      | none ↦ called
      | some reach ↦ record called { found = (p, reach) ∷ s.found }
    ]

-- The send, by a call whose place among the others is between the two lists.
unfoldable pub asks :
    Config
    → List (Punch × Reachable)
    → List (Punch × Reachable)
    → Punch
    → Reachable
    → Running
    → Running
asks c before after p reach s = record s {
  world = did (deliver reach (message (request_relay (request_relay_to c.relay_addr)))) s.world;
  found = before ++ after;
  asked = p ∷ s.asked;
}

-- `pending.lock().await.insert(..)`.
unfoldable pub enters : List Punch → List Punch → Punch → Running → Running
enters before after p s = record s {
  world = record (s.world) { pending = insert p.target p.requester s.world.pending };
  asked = before ++ after;
}

abbrev pub on_world : World → Running → Running
on_world w s = record s { world = w }

module _ (next_key : Pending → Option String) (c : Config) where
  pub data Step (s : Running) : Running → Type 0 where
    looking : (p : Punch) → Step s (looks_up p s)
    asking :
        (before after : List (Punch × Reachable)) (p : Punch) (reach : Reachable)
        → s.found ≡ before ++ (p, reach) ∷ after
        → Step s (asks c before after p reach s)
    entering :
        (before after : List Punch) (p : Punch)
        → s.asked ≡ before ++ p ∷ after
        → Step s (enters before after p s)
    acknowledging : Step s (on_world (dispatch_relay_ack next_key c s.world) s)
    registering :
        (id : String) (reach : Reachable) (now : ℕ)
        → Step s (on_world (record (s.world) { registry = upsert s.world.registry id reach now }) s)
    closing :
        (id : String) (tx : Outbox)
        → Step s (on_world (record (s.world) { registry = remove_if_ws s.world.registry id tx }) s)
    replying_peer :
        (reach : Reachable)
        → Step s (
            on_world
              (did
                (deliver reach (message (register_peer_response (record { request_pk = false }))))
                s.world)
              s)
    replying_pk :
        (reach : Reachable)
        → Step s (
            on_world
              (did
                (deliver reach
                  (message (register_pk_response (record { result = 0; keep_alive = 0 }))))
                s.world)
              s)
    auditing : (post : Option Post) → Step s (on_world (audited post s.world) s)

  pub data Reached : Running → Type 0 where
    begin : Reached idle
    later : {s t : Running} → Reached s → Step s t → Reached t
