-- ===== src/Rendezvous/Tcp.antt =====
-- crates/rendezvous/src/server.rs, `handle_tcp`: the single-shot handshake of a native client.
use Prim.Native.String.{String}
use xyzen_relay.Prelude.{ℕ, Option, none, some, List, [], ◌∷◌}
use xyzen_relay.Rendezvous.Message.{Union, punch_hole_request, relay_response, RendezvousMessage}
use xyzen_relay.Rendezvous.Audit.{emit}
use xyzen_relay.Rendezvous.Registry.{SocketAddr, Outbox}
use xyzen_relay.Rendezvous.Server.{
  Pending, World, Config, audited, event, dispatch_punch, dispatch_relay_ack,
}

-- What the framed socket yields first, within the timeout or not.
pub data FirstFrame : Type 0 where
  timeout broken closed : FirstFrame
  frame : List ℕ → FirstFrame

-- The handler has returned `Err`, has returned `Ok`, or waits for a push into its own channel.
pub data Outcome : Type 0 where
  failed finished awaiting : Outcome

module _ (decode : List ℕ → Option RendezvousMessage) (next_key : Pending → Option String) where
  unfoldable pub tcp_message : Config → Outbox → SocketAddr → Option Union → World → Outcome × World
  tcp_message c tx peer_addr (some (punch_hole_request ph)) w =
      let noted = audited (emit c.auditor (event "punch_request" (some ph.id) peer_addr "tcp")) w in
      (awaiting, dispatch_punch c ph.id tx noted)
  tcp_message c tx peer_addr (some (relay_response rr)) w =
      let noted = audited (emit c.auditor (event "relay_ack" none peer_addr "tcp")) w in
      (finished, dispatch_relay_ack next_key c noted)
  tcp_message c tx peer_addr other w = (finished, w)

  unfoldable pub tcp_frame :
      Config → Outbox → SocketAddr → Option RendezvousMessage → World → Outcome × World
  tcp_frame c tx peer_addr none w = (failed, w)
  tcp_frame c tx peer_addr (some msg) w = tcp_message c tx peer_addr msg.union w

  -- Up to the wait. `tx` is the handler's own channel.
  unfoldable pub handle_tcp : Config → Outbox → SocketAddr → FirstFrame → World → Outcome × World
  unfolding tcp_message tcp_frame
  handle_tcp c tx peer_addr timeout w = (failed, w)
  handle_tcp c tx peer_addr broken w = (failed, w)
  handle_tcp c tx peer_addr closed w = (finished, w)
  handle_tcp c tx peer_addr (frame bytes) w = tcp_frame c tx peer_addr (decode bytes) w

-- The wait: one push is forwarded on the socket, then the handler returns; without a push it waits on.
unfoldable pub tcp_receive : Outcome → RendezvousMessage → Outcome × List RendezvousMessage
tcp_receive failed msg = (failed, [])
tcp_receive finished msg = (finished, [])
tcp_receive awaiting msg = (finished, msg ∷ [])
