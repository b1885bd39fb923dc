-- ===== src/Rendezvous/Cleanup/Leak.antt =====
-- What a WebSocket connection with two ids leaves in the registry.
use Prim.Native.String.{String}
use package.text.Mathlib.TextEquality.{eq_iff}
use xyzen_relay.Prelude.{ℕ, ◌≡◌, ◌≢◌, ap, ◌∙◌, Option, some, List, [], ◌∷◌, arith}
use xyzen_relay.Prelude.Assoc.{string_eq}
use xyzen_relay.Rendezvous.Message.{RegisterPeer, register_peer, RendezvousMessage}
use xyzen_relay.Rendezvous.Registry.{
  SocketAddr, Outbox, Reachable, ws_push, PeerRegistry, upsert, get, remove_if_ws,
}
use xyzen_relay.Rendezvous.Server.{Pending, Config, message, audited}
use xyzen_relay.Rendezvous.Ws.{binary, Session, ws_message, ws_binary, ws_closed, handle_ws}
use xyzen_relay.Rendezvous.Laws.{get-upsert, get-remove_if_ws}
use xyzen_relay.Rendezvous.Cleanup.{audited-registry}

get-upsert_self :
    (r : PeerRegistry) (id : String) (reach : Reachable) (now : ℕ)
    → get (upsert r id reach now) id ≡ some reach
get-upsert_self r id reach now = ground (arith, get-upsert r id id reach now, eq_iff id id)

stays_registered :
    (r : PeerRegistry) (a b : String) (tx : Outbox) (now : ℕ)
    → a ≢ b
    → get r a ≡ some (ws_push tx)
    → get (remove_if_ws (upsert r b (ws_push tx) now) b tx) a ≡ some (ws_push tx)
stays_registered r a b tx now ne held = ground (
  arith,
  eq_iff b a,
  get-remove_if_ws (upsert r b (ws_push tx) now) b a tx,
  get-upsert r b a (ws_push tx) now,
)

-- A connection that registers first `a` and then another id `b`, and ends, leaves `a` registered
-- under its channel, so that punches for `a` go on being pushed into it.
pub handle_ws_two_ids_leak :
    (decode : List ℕ → Option RendezvousMessage) (next_key : Pending → Option String) (c : Config)
    (tx : Outbox) (peer_addr : SocketAddr) (a b : RegisterPeer) (now later : ℕ)
    (bytes_a bytes_b : List ℕ) (s : Session)
    → decode bytes_a ≡ some (message (register_peer a))
    → decode bytes_b ≡ some (message (register_peer b))
    → a.id ≢ b.id
    → get
        (handle_ws decode next_key c tx peer_addr
          ((now, binary bytes_a) ∷ (later, binary bytes_b) ∷ [])
          s).registry
        a.id
      ≡ some (ws_push tx)
unfolding handle_ws ws_binary ws_message ws_closed
handle_ws_two_ids_leak decode next_key c tx peer_addr a b now later bytes_a bytes_b s ea eb ne =
    rw (ea, eb)
      (stays_registered _ a.id b.id tx later ne (
        ap (λ r. get r a.id) (audited-registry _ _)
        ∙ get-upsert_self (audited _ s.world).registry a.id (ws_push tx) now))
