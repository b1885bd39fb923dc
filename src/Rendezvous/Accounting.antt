-- ===== src/Rendezvous/Accounting.antt =====
-- No peer is told of a relay that it did not ask for: responses against requests, over any run.
pub mod Runs
use Prim.Native.String.{String}
use xyzen_relay.Prelude.{
  ℕ, ◌+◌, ◌≤◌, ◌<◌, ◌≡◌, refl, inl, inr, Bool-cases, Option, none, some, Option-cases, List, [],
  ◌∷◌, length, arith,
}
use xyzen_relay.Prelude.Assoc.{lookup, insert, remove, string_eq}
use xyzen_relay.Rendezvous.Message.{
  Union, register_peer, register_pk, punch_hole_request, request_relay, relay_response,
  RendezvousMessage, request_relay_to,
}
use xyzen_relay.Rendezvous.Audit.{Post, emit}
use xyzen_relay.Rendezvous.Registry.{SocketAddr, Outbox, Reachable, udp, ws_push, get}
use xyzen_relay.Rendezvous.Server.{
  Pending, Effect, datagram, push, post, World, Config, message, did, deliver, audited, event,
  dispatch_punch, dispatch_relay_ack, ack_key, udp_message, udp_datagram,
}
use xyzen_relay.Rendezvous.Tcp.{
  FirstFrame, timeout, broken, closed, frame, tcp_message, tcp_frame, handle_tcp,
}
use xyzen_relay.Rendezvous.Ws.{Session, ws_message, ws_binary, ws_closed}

-- One thing that happens to the server, on any of its transports. A WebSocket event carries the
-- connection's `my_id`, of which nothing is assumed here.
pub data Event : Type 0 where
  datagram_in : SocketAddr → ℕ → List ℕ → Event
  tcp_in : Outbox → SocketAddr → FirstFrame → Event
  ws_in : Outbox → SocketAddr → ℕ → List ℕ → Option String → Event
  ws_end : Outbox → Option String → Event

module _ (decode : List ℕ → Option RendezvousMessage) (next_key : Pending → Option String)
    (c : Config) where
  unfoldable pub serve : World → Event → World
  serve w (datagram_in addr now bytes) = udp_datagram decode c addr now bytes w
  serve w (tcp_in tx addr first) = (handle_tcp decode next_key c tx addr first w).1
  serve w (ws_in tx addr now bytes my_id) =
      (ws_binary next_key c tx addr now (decode bytes) (record { my_id = my_id; world = w })).world
  serve w (ws_end tx my_id) = ws_closed tx (record { my_id = my_id; world = w })

  -- Events in the order in which they happen.
  unfoldable pub serve_all : World → List Event → World
  serve_all w [] = w
  serve_all w (e ∷ es) = serve_all (serve w e) es

abbrev pub start : World
start = record { registry = []; pending = []; log = [] }

abbrev pub is_request : RendezvousMessage → ℕ
is_request msg = elim msg.union [ some (request_relay r) ↦ 1 | _ ↦ 0 ]

abbrev pub is_response : RendezvousMessage → ℕ
is_response msg = elim msg.union [ some (relay_response r) ↦ 1 | _ ↦ 0 ]

-- How often the server has asked a peer to come to the relay, and sent a requester there.
unfoldable pub requests : List Effect → ℕ
requests [] = 0
requests (datagram addr msg ∷ es) = is_request msg + requests es
requests (push tx msg ∷ es) = is_request msg + requests es
requests (post p ∷ es) = requests es

unfoldable pub responses : List Effect → ℕ
responses [] = 0
responses (datagram addr msg ∷ es) = is_response msg + responses es
responses (push tx msg ∷ es) = is_response msg + responses es
responses (post p ∷ es) = responses es

abbrev pub Balanced : World → Type 0
Balanced w = responses w.log + length w.pending ≤ requests w.log

pub audited-Balanced : (p : Option Post) (w : World) → Balanced w → Balanced (audited p w)
unfolding requests responses
audited-Balanced none w b = b
audited-Balanced (some p) w b = b

-- A message of another kind leaves the balance alone.
pub push-Balanced :
    (tx : Outbox) (msg : RendezvousMessage) (w : World)
    → is_request msg ≡ 0
    → is_response msg ≡ 0
    → Balanced w
    → Balanced (did (push tx msg) w)
unfolding requests responses
push-Balanced tx msg w q r b = omega arith

pub datagram-Balanced :
    (addr : SocketAddr) (msg : RendezvousMessage) (w : World)
    → is_request msg ≡ 0
    → is_response msg ≡ 0
    → Balanced w
    → Balanced (did (datagram addr msg) w)
unfolding requests responses
datagram-Balanced addr msg w q r b = omega arith

pub length-insert-le :
    (k : String) (v : Outbox) (m : Pending) → length (insert k v m) ≤ length m + 1
unfolding insert
length-insert-le k v [] = omega arith
length-insert-le k v ((j, u) ∷ m) = ground (arith, length-insert-le k v m)

length-remove-le : (k : String) (m : Pending) → length (remove k m) ≤ length m
unfolding remove
length-remove-le k [] = omega arith
length-remove-le k ((j, u) ∷ m) = ground (arith, length-remove-le k m)

pub length-remove-lt :
    (k : String) (v : Outbox) (m : Pending) → lookup k m ≡ some v → length (remove k m) < length m
unfolding lookup remove
length-remove-lt k v [] e = cc
length-remove-lt k v ((j, u) ∷ m) e = ground (arith, length-remove-le k m, length-remove-lt k v m)

pub punch_sent-Balanced :
    (reach : Reachable) (relay_addr target : String) (tx : Outbox) (w : World)
    → Balanced w
    → Balanced (record w {
      pending = insert target tx w.pending;
      log = deliver reach (message (request_relay (request_relay_to relay_addr))) ∷ w.log;
    })
unfolding requests responses
punch_sent-Balanced (udp addr) relay_addr target tx w b =
    omega (arith, length-insert-le target tx w.pending)
punch_sent-Balanced (ws_push t) relay_addr target tx w b =
    omega (arith, length-insert-le target tx w.pending)

pub dispatch_punch-Balanced :
    (c : Config) (target : String) (tx : Outbox) (w : World)
    → Balanced w
    → Balanced (dispatch_punch c target tx w)
unfolding dispatch_punch
dispatch_punch-Balanced c target tx w b = elim (Option-cases (get w.registry target)) [
  | inl e ↦ rw (e, dispatch_punch) b
  | inr (reach, e) ↦ rw (e, dispatch_punch) (punch_sent-Balanced reach c.relay_addr target tx w b)
]

pub ack_key-Balanced :
    (c : Config) (k : Option String) (w : World) → Balanced w → Balanced (ack_key c k w)
unfolding ack_key requests responses
ack_key-Balanced c none w b = b
ack_key-Balanced c (some k) w b = elim (Option-cases (lookup k w.pending)) [
  | inl e ↦ rw (e, ack_key) b
  | inr (tx, e) ↦ rw (e, ack_key) (omega (arith, length-remove-lt k tx w.pending e))
]
