-- ===== src/Rendezvous/Ws.antt =====
-- crates/rendezvous/src/server.rs, `handle_ws`: the long-lived connection of a browser client.
use Prim.Native.String.{String}
use package.text.Mathlib.Text.{◌==◌ as str_eq}
use xyzen_relay.Prelude.{ℕ, false, Option, none, some, List, [], ◌∷◌, if◌then◌else◌}
use xyzen_relay.Rendezvous.Message.{
  Union, register_peer, register_peer_response, register_pk, register_pk_response,
  punch_hole_request, relay_response, RendezvousMessage,
}
use xyzen_relay.Rendezvous.Audit.{emit}
use xyzen_relay.Rendezvous.Registry.{SocketAddr, Outbox, ws_push, upsert, remove_if_ws}
use xyzen_relay.Rendezvous.Server.{
  Pending, World, Config, message, did, push, audited, event, dispatch_punch, dispatch_relay_ack,
}

-- What the socket's stream yields.
pub data WsItem : Type 0 where
  binary : List ℕ → WsItem
  text ping pong raw_frame close error : WsItem

-- The connection's loop variable `my_id`, with the shared state.
pub record Session : Type 0 where
  pub my_id : Option String
  pub world : World

-- `upsert` under this connection's channel, and `my_id = Some(id)`.
registered : Outbox → String → ℕ → Session → Session
registered tx id now s = record s {
  my_id = some id;
  world = record s.world { registry = upsert s.world.registry id (ws_push tx) now };
}

replied : Outbox → Union → Session → Session
replied tx u s = record s { world = did (push tx (message u)) s.world }

module _ (next_key : Pending → Option String) where
  unfoldable pub ws_message : Config → Outbox → SocketAddr → ℕ → Option Union → Session → Session
  unfolding registered replied
  ws_message c tx peer_addr now (some (register_peer rp)) s =
      let noted = audited (emit c.auditor (event "register" (some rp.id) peer_addr "ws")) s.world in
      replied tx (register_peer_response (record { request_pk = false }))
        (registered tx rp.id now (record s { world = noted }))
  ws_message c tx peer_addr now (some (register_pk rk)) s =
      replied tx (register_pk_response (record { result = 0; keep_alive = 0 }))
        (if str_eq rk.id "" then s else registered tx rk.id now s)
  ws_message c tx peer_addr now (some (punch_hole_request ph)) s =
      let noted =
        audited (emit c.auditor (event "punch_request" (some ph.id) peer_addr "ws")) s.world in
      record s { world = dispatch_punch c ph.id tx noted }
  ws_message c tx peer_addr now (some (relay_response rr)) s =
      let noted = audited (emit c.auditor (event "relay_ack" none peer_addr "ws")) s.world in
      record s { world = dispatch_relay_ack next_key c noted }
  ws_message c tx peer_addr now other s = s

  unfoldable pub ws_binary :
      Config → Outbox → SocketAddr → ℕ → Option RendezvousMessage → Session → Session
  unfolding ws_message
  ws_binary c tx peer_addr now none s = s
  ws_binary c tx peer_addr now (some msg) s = ws_message c tx peer_addr now msg.union s

-- After the loop: `remove_if_ws` for the last id that was registered here.
unfoldable pub ws_closed : Outbox → Session → World
ws_closed tx s = elim s.my_id [
  | none ↦ s.world
  | some id ↦ record (s.world) { registry = remove_if_ws s.world.registry id tx }
]

module _ (decode : List ℕ → Option RendezvousMessage) (next_key : Pending → Option String) where
  -- The loop on the items that arrive, each with its time, and the clean-up behind it.
  unfoldable pub handle_ws : Config → Outbox → SocketAddr → List (ℕ × WsItem) → Session → World
  handle_ws c tx peer_addr [] s = ws_closed tx s
  handle_ws c tx peer_addr ((now, binary bytes) ∷ items) s =
      handle_ws c tx peer_addr items (ws_binary next_key c tx peer_addr now (decode bytes) s)
  handle_ws c tx peer_addr ((now, close) ∷ items) s = ws_closed tx s
  handle_ws c tx peer_addr ((now, error) ∷ items) s = ws_closed tx s
  handle_ws c tx peer_addr ((now, skipped) ∷ items) s = handle_ws c tx peer_addr items s
