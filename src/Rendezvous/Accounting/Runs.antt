-- ===== src/Rendezvous/Accounting/Runs.antt =====
-- The accounts of requests and responses, from event to event.
use Prim.Native.String.{String}
use xyzen_relay.Prelude.{
  ℕ, ◌+◌, ◌≤◌, refl, inl, inr, Bool-cases, Option, none, some, Option-cases, List, [], ◌∷◌, length,
  arith,
}
use xyzen_relay.Prelude.Assoc.{string_eq}
use xyzen_relay.Rendezvous.Message.{
  Union, register_peer, register_pk, punch_hole_request, relay_response, RendezvousMessage,
}
use xyzen_relay.Rendezvous.Audit.{emit}
use xyzen_relay.Rendezvous.Registry.{SocketAddr, Outbox}
use xyzen_relay.Rendezvous.Server.{
  Pending, World, Config, audited, event, dispatch_relay_ack, udp_message, udp_datagram,
}
use xyzen_relay.Rendezvous.Tcp.{timeout, broken, closed, frame, tcp_message, tcp_frame, handle_tcp}
use xyzen_relay.Rendezvous.Ws.{Session, ws_message, ws_binary, ws_closed}
use xyzen_relay.Rendezvous.Accounting.{
  Event, datagram_in, tcp_in, ws_in, ws_end, serve, serve_all, start, requests, responses, Balanced,
  audited-Balanced, push-Balanced, datagram-Balanced, dispatch_punch-Balanced, ack_key-Balanced,
}

module _ (decode : List ℕ → Option RendezvousMessage) (next_key : Pending → Option String)
    (c : Config) where
  dispatch_relay_ack-Balanced :
      (w : World) → Balanced w → Balanced (dispatch_relay_ack next_key c w)
  unfolding dispatch_relay_ack
  dispatch_relay_ack-Balanced w b = ack_key-Balanced c (next_key w.pending) w b

  udp-Balanced :
      (addr : SocketAddr) (now : ℕ) (u : Option Union) (w : World)
      → Balanced w
      → Balanced (udp_message c addr now u w)
  unfolding udp_message
  udp-Balanced addr now (some (register_peer rp)) w b =
      let p = emit c.auditor (event "register" (some rp.id) addr "udp") in
      datagram-Balanced addr _ (audited p w) refl refl (audited-Balanced p w b)
  udp-Balanced addr now (some (register_pk rk)) w b = datagram-Balanced addr _ w refl refl b
  udp-Balanced addr now other w b = b

  ws-Balanced :
      (tx : Outbox) (addr : SocketAddr) (now : ℕ) (u : Option Union) (s : Session)
      → Balanced s.world
      → Balanced (ws_message next_key c tx addr now u s).world
  unfolding ws_message
  ws-Balanced tx addr now (some (register_peer rp)) s b =
      let p = emit c.auditor (event "register" (some rp.id) addr "ws") in
      push-Balanced tx _ (audited p s.world) refl refl (audited-Balanced p s.world b)
  ws-Balanced tx addr now (some (register_pk rk)) s b = elim (Bool-cases (string_eq.beq rk.id "")) [
    | inl blank ↦ rw blank (push-Balanced tx _ s.world refl refl b)
    | inr named ↦ rw named (push-Balanced tx _ s.world refl refl b)
  ]
  ws-Balanced tx addr now (some (punch_hole_request ph)) s b =
      dispatch_punch-Balanced c ph.id tx _ (audited-Balanced _ s.world b)
  ws-Balanced tx addr now (some (relay_response rr)) s b =
      dispatch_relay_ack-Balanced _ (audited-Balanced _ s.world b)
  ws-Balanced tx addr now other s b = b

  tcp-Balanced :
      (tx : Outbox) (addr : SocketAddr) (u : Option Union) (w : World)
      → Balanced w
      → Balanced (tcp_message decode next_key c tx addr u w).1
  unfolding tcp_message
  tcp-Balanced tx addr (some (punch_hole_request ph)) w b =
      dispatch_punch-Balanced c ph.id tx _ (audited-Balanced _ w b)
  tcp-Balanced tx addr (some (relay_response rr)) w b =
      dispatch_relay_ack-Balanced _ (audited-Balanced _ w b)
  tcp-Balanced tx addr other w b = b

  tcp_frame-Balanced :
      (tx : Outbox) (addr : SocketAddr) (found : Option RendezvousMessage) (w : World)
      → Balanced w
      → Balanced (tcp_frame decode next_key c tx addr found w).1
  unfolding tcp_frame
  tcp_frame-Balanced tx addr none w b = b
  tcp_frame-Balanced tx addr (some msg) w b = tcp-Balanced tx addr msg.union w b

  ws_binary-Balanced :
      (tx : Outbox) (addr : SocketAddr) (now : ℕ) (found : Option RendezvousMessage) (s : Session)
      → Balanced s.world
      → Balanced (ws_binary next_key c tx addr now found s).world
  unfolding ws_binary
  ws_binary-Balanced tx addr now none s b = b
  ws_binary-Balanced tx addr now (some msg) s b = ws-Balanced tx addr now msg.union s b

  serve-Balanced : (w : World) (e : Event) → Balanced w → Balanced (serve decode next_key c w e)
  unfolding serve
  serve-Balanced w (datagram_in addr now bytes) b = elim (Option-cases (decode bytes)) [
    | inl e ↦ unfold udp_datagram in rw (e, udp_datagram) b
    | inr (msg, e) ↦
        unfold udp_datagram in rw (e, udp_datagram) (udp-Balanced addr now msg.union w b)
  ]
  serve-Balanced w (tcp_in tx addr timeout) b = unfold handle_tcp in b
  serve-Balanced w (tcp_in tx addr broken) b = unfold handle_tcp in b
  serve-Balanced w (tcp_in tx addr closed) b = unfold handle_tcp in b
  serve-Balanced w (tcp_in tx addr (frame bytes)) b =
      unfold handle_tcp in tcp_frame-Balanced tx addr (decode bytes) w b
  serve-Balanced w (ws_in tx addr now bytes my_id) b =
      ws_binary-Balanced tx addr now (decode bytes) (record { my_id = my_id; world = w }) b
  serve-Balanced w (ws_end tx none) b = unfold ws_closed in b
  serve-Balanced w (ws_end tx (some id)) b = unfold ws_closed in b

  serve_all-Balanced :
      (w : World) (es : List Event) → Balanced w → Balanced (serve_all decode next_key c w es)
  unfolding serve_all
  serve_all-Balanced w [] b = b
  serve_all-Balanced w (e ∷ es) b =
      serve_all-Balanced (serve decode next_key c w e) es (serve-Balanced w e b)

  -- From the empty start, after any events on the three transports in any order: the responses that
  -- were sent and the punches that are pending come to no more than the requests that peers were sent.
  -- So no response is sent twice for one punch, and none without a punch.
  pub serve_all_accounting :
      (es : List Event)
      → responses (serve_all decode next_key c start es).log
          + length (serve_all decode next_key c start es).pending
        ≤ requests (serve_all decode next_key c start es).log
  serve_all_accounting es = serve_all-Balanced start es (unfold requests responses in omega arith)
