-- ===== src/Rendezvous/Server.antt =====
-- crates/rendezvous/src/server.rs: the dispatch behind the three transports.
-- What a handler sends is recorded in `log`, newest first, as the message before it is encoded
-- (encoding into a growing `Vec` does not fail). `decode` is the generated protobuf decoder, and
-- `next_key` is the key that `HashMap::keys().next()` comes to: neither is code of the repository.
use Prim.Native.String.{String}
use xyzen_relay.Prelude.{ℕ, false, Option, none, some, List, [], ◌∷◌}
use xyzen_relay.Prelude.Assoc.{lookup, insert, remove, string_eq}
use xyzen_relay.Rendezvous.Message.{
  Union, register_peer, register_peer_response, register_pk, register_pk_response, request_relay,
  relay_response, request_relay_to, relay_response_to, RendezvousMessage,
}
use xyzen_relay.Rendezvous.Audit.{Auditor, Event, Post, emit}
use xyzen_relay.Rendezvous.Registry.{
  SocketAddr, Outbox, Reachable, udp, ws_push, PeerRegistry, upsert, get,
}

-- target_id -> requester's outbox
abbrev pub Pending : Type 0
Pending = List (String × Outbox)

pub data Effect : Type 0 where
  datagram : SocketAddr → RendezvousMessage → Effect
  push : Outbox → RendezvousMessage → Effect
  post : Post → Effect

pub record World : Type 0 where
  pub registry : PeerRegistry
  pub pending : Pending
  pub log : List Effect

-- What does not change while the server runs.
pub record Config : Type 0 where
  pub relay_addr : String
  pub auditor : Auditor

abbrev pub message : Union → RendezvousMessage
message u = record { union = some u }

abbrev pub did : Effect → World → World
did e w = record w { log = e ∷ w.log }

abbrev pub audited : Option Post → World → World
audited none w = w
audited (some p) w = did (post p) w

abbrev pub event : String → Option String → SocketAddr → String → Event
event kind peer_id addr transport = record {
  kind = kind;
  peer_id = peer_id;
  controller_peer_id = none;
  addr = some addr;
  meta = some (("transport", transport) ∷ []);
}

-- `send_udp`, or a push into the target's channel.
abbrev pub deliver : Reachable → RendezvousMessage → Effect
deliver (udp addr) msg = datagram addr msg
deliver (ws_push tx) msg = push tx msg

unfoldable pub dispatch_punch : Config → String → Outbox → World → World
dispatch_punch c target_id requester_tx w = elim (get w.registry target_id) [
  | none ↦ w
  | some reach ↦
      let sent = did (deliver reach (message (request_relay (request_relay_to c.relay_addr)))) w in
      record sent { pending = insert target_id requester_tx w.pending }
]

-- `map.remove(&k)` for the key that iteration comes to first.
unfoldable pub ack_key : Config → Option String → World → World
ack_key c none w = w
ack_key c (some k) w = elim (lookup k w.pending) [
  | none ↦ w
  | some requester ↦
      did (push requester (message (relay_response (relay_response_to c.relay_addr))))
        (record w { pending = remove k w.pending })
]

module _ (next_key : Pending → Option String) where
  unfoldable pub dispatch_relay_ack : Config → World → World
  unfolding ack_key
  dispatch_relay_ack c w = ack_key c (next_key w.pending) w

-- UDP: one datagram, already decoded.
unfoldable pub udp_message : Config → SocketAddr → ℕ → Option Union → World → World
udp_message c addr now (some (register_peer rp)) w =
    let noted = audited (emit c.auditor (event "register" (some rp.id) addr "udp")) w in
    let known = record noted { registry = upsert noted.registry rp.id (udp addr) now } in
    did (datagram addr (message (register_peer_response (record { request_pk = false })))) known
udp_message c addr now (some (register_pk rk)) w =
    did (datagram addr (message (register_pk_response (record { result = 0; keep_alive = 0 })))) w
udp_message c addr now other w = w

-- One round of `udp_loop` on the bytes of a datagram.
unfoldable pub udp_datagram :
    (List ℕ → Option RendezvousMessage) → Config → SocketAddr → ℕ → List ℕ → World → World
unfolding udp_message
udp_datagram decode c addr now bytes w = elim (decode bytes) [
  | none ↦ w
  | some msg ↦ udp_message c addr now msg.union w
]
