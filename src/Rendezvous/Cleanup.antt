-- ===== src/Rendezvous/Cleanup.antt =====
-- What a WebSocket connection leaves in the registry.
pub mod Leak
use Prim.Native.String.{String}
use package.text.Mathlib.Text.{◌==◌ as str_eq}
use package.text.Mathlib.TextEquality.{eq_iff}
use xyzen_relay.Prelude.{
  ℕ, ◌≡◌, ◌≢◌, refl, sym, ap, subst, ◌∙◌, ◌⊎◌, inl, inr, true, false, Bool-cases, ==_iff, Option,
  none, some, Option-cases, List, [], ◌∷◌, All, arith,
}
use xyzen_relay.Prelude.Assoc.{string_eq}
use xyzen_relay.Rendezvous.Message.{
  RegisterPeer, Union, register_peer, register_pk, punch_hole_request, relay_response,
  RendezvousMessage,
}
use xyzen_relay.Rendezvous.Audit.{Post}
use xyzen_relay.Rendezvous.Registry.{
  SocketAddr, Outbox, Reachable, ws_push, PeerRegistry, upsert, get, remove_if_ws, pushes_to,
}
use xyzen_relay.Rendezvous.Server.{
  Pending, World, Config, message, audited, dispatch_punch, dispatch_relay_ack, ack_key,
}
use xyzen_relay.Rendezvous.Ws.{
  WsItem, binary, text, ping, pong, raw_frame, close, error, Session, ws_message, ws_binary,
  ws_closed, handle_ws,
}
use xyzen_relay.Rendezvous.Laws.{get-upsert, get-remove_if_ws}

-- Punches, acknowledgements and audit events leave the registry alone.
pub audited-registry : (p : Option Post) (w : World) → (audited p w).registry ≡ w.registry
audited-registry none w = refl
audited-registry (some p) w = refl

dispatch_punch-registry :
    (c : Config) (target : String) (tx : Outbox) (w : World)
    → (dispatch_punch c target tx w).registry ≡ w.registry
unfolding dispatch_punch
dispatch_punch-registry c target tx w = ground arith

ack_key-registry :
    (c : Config) (k : Option String) (w : World) → (ack_key c k w).registry ≡ w.registry
unfolding ack_key
ack_key-registry c none w = refl
ack_key-registry c (some k) w = ground arith

dispatch_relay_ack-registry :
    (next_key : Pending → Option String) (c : Config) (w : World)
    → (dispatch_relay_ack next_key c w).registry ≡ w.registry
unfolding dispatch_relay_ack
dispatch_relay_ack-registry next_key c w = ack_key-registry c (next_key w.pending) w

named_is : (rk id : String) → str_eq rk "" ≡ false → (rk ≡ "") ⊎ (rk ≡ id) → rk ≡ id
named_is rk id named (inl e) = ground (arith, eq_iff rk "")
named_is rk id named (inr e) = e

-- Every entry that pushes into `tx` is for `id`, and the connection knows that id.
abbrev Owns : Outbox → String → Option String → PeerRegistry → Type 0
Owns tx id my_id r = (j : String) → get r j ≡ some (ws_push tx) → (j ≡ id) × (my_id ≡ some id)

-- The messages register no other id than `id`.
abbrev pub Registers : String → Option Union → Type 0
Registers id (some (register_peer rp)) = rp.id ≡ id
Registers id (some (register_pk rk)) = (rk.id ≡ "") ⊎ (rk.id ≡ id)
Registers id other = Unit {0}

abbrev pub RegistersIn : String → Option RendezvousMessage → Type 0
RegistersIn id none = Unit {0}
RegistersIn id (some msg) = Registers id msg.union

Owns-upsert :
    (tx : Outbox) (id j : String) (my_id : Option String) (r : PeerRegistry) (now : ℕ)
    → j ≡ id
    → Owns tx id my_id r
    → Owns tx id (some j) (upsert r j (ws_push tx) now)
Owns-upsert tx id j my_id r now e h i held =
    ground (arith, get-upsert r j i (ws_push tx) now, eq_iff j i, h i)

Owns-same :
    (tx : Outbox) (id : String) (my_id : Option String) {r r' : PeerRegistry}
    → r' ≡ r
    → Owns tx id my_id r
    → Owns tx id my_id r'
Owns-same tx id my_id e h = subst (Owns tx id my_id) (sym e) h

module _ (next_key : Pending → Option String) (c : Config) (tx : Outbox)
    (peer_addr : SocketAddr) where
  ws_message-Owns :
      (id : String) (now : ℕ) (u : Option Union) (s : Session)
      → Registers id u
      → Owns tx id s.my_id s.world.registry
      → Owns tx id
          (ws_message next_key c tx peer_addr now u s).my_id
          (ws_message next_key c tx peer_addr now u s).world.registry
  unfolding ws_message
  ws_message-Owns id now (some (register_peer rp)) s ok h =
      Owns-upsert tx id rp.id s.my_id _ now ok
        (Owns-same tx id s.my_id (audited-registry _ s.world) h)
  ws_message-Owns id now (some (register_pk rk)) s ok h = elim (Bool-cases (str_eq rk.id "")) [
    | inl blank ↦ rw blank h
    | inr named ↦
        rw named
          (Owns-upsert tx id rk.id s.my_id s.world.registry now (named_is rk.id id named ok) h)
  ]
  ws_message-Owns id now (some (punch_hole_request ph)) s ok h =
      Owns-same tx id s.my_id (dispatch_punch-registry c ph.id tx _ ∙ audited-registry _ s.world) h
  ws_message-Owns id now (some (relay_response rr)) s ok h =
      Owns-same tx id s.my_id
        (dispatch_relay_ack-registry next_key c _ ∙ audited-registry _ s.world) h
  ws_message-Owns id now other s ok h = h

pushes_to_self :
    (o : Option Reachable) (tx : Outbox) → o ≡ some (ws_push tx) → pushes_to o tx ≡ true
pushes_to_self o tx e = rw e ((==_iff tx tx).1 refl)

-- An entry for the channel that survives `remove_if_ws` was there before, under another id.
survives :
    (r : PeerRegistry) (i j : String) (tx : Outbox)
    → get (remove_if_ws r i tx) j ≡ some (ws_push tx)
    → (get r j ≡ some (ws_push tx)) × (i ≢ j)
survives r i j tx held = elim (Bool-cases (str_eq i j)) [
  | inl same ↦ absurd (ground (arith, get-remove_if_ws r i j tx, pushes_to_self (get r i) tx))
  | inr other ↦ (ground (arith, get-remove_if_ws r i j tx), λ e. ground (arith, eq_iff i j))
]

-- The clean-up at the end removes the one entry that is left.
ws_closed-forgets :
    (tx : Outbox) (id : String) (s : Session) (j : String)
    → Owns tx id s.my_id s.world.registry
    → get (ws_closed tx s).registry j ≢ some (ws_push tx)
unfolding ws_closed
ws_closed-forgets tx id s j h held = elim (Option-cases s.my_id) [
  | inl e ↦ ground (arith, h j)
  | inr (i, e) ↦
      let (before, ne) = survives s.world.registry i j tx (ground arith) in
      absurd (ne (ground (arith, h j)))
]

module _ (decode : List ℕ → Option RendezvousMessage) (next_key : Pending → Option String)
    (c : Config) (tx : Outbox) (peer_addr : SocketAddr) (id : String) where
  -- Every message that arrives registers `id` or nothing.
  abbrev ItemRegisters : ℕ × WsItem → Type 0
  ItemRegisters (now, binary bytes) = RegistersIn id (decode bytes)
  ItemRegisters (now, other) = Unit {0}

  ws_binary-Owns :
      (now : ℕ) (found : Option RendezvousMessage) (s : Session)
      → RegistersIn id found
      → Owns tx id s.my_id s.world.registry
      → Owns tx id
          (ws_binary next_key c tx peer_addr now found s).my_id
          (ws_binary next_key c tx peer_addr now found s).world.registry
  unfolding ws_binary
  ws_binary-Owns now none s ok h = h
  ws_binary-Owns now (some msg) s ok h =
      ws_message-Owns next_key c tx peer_addr id now msg.union s ok h

  handle_ws-forgets :
      (items : List (ℕ × WsItem)) (s : Session) (j : String)
      → All ItemRegisters items
      → Owns tx id s.my_id s.world.registry
      → get (handle_ws decode next_key c tx peer_addr items s).registry j ≢ some (ws_push tx)
  unfolding handle_ws
  handle_ws-forgets [] s j ok h = ws_closed-forgets tx id s j h
  handle_ws-forgets ((now, binary bytes) ∷ items) s j ok h =
      handle_ws-forgets items _ j ok.1 (ws_binary-Owns now (decode bytes) s ok.0 h)
  handle_ws-forgets ((now, close) ∷ items) s j ok h = ws_closed-forgets tx id s j h
  handle_ws-forgets ((now, error) ∷ items) s j ok h = ws_closed-forgets tx id s j h
  handle_ws-forgets ((now, text) ∷ items) s j ok h = handle_ws-forgets items s j ok.1 h
  handle_ws-forgets ((now, ping) ∷ items) s j ok h = handle_ws-forgets items s j ok.1 h
  handle_ws-forgets ((now, pong) ∷ items) s j ok h = handle_ws-forgets items s j ok.1 h
  handle_ws-forgets ((now, raw_frame) ∷ items) s j ok h = handle_ws-forgets items s j ok.1 h

-- A connection starts with no id and a channel that no peer is registered under. If all the messages
-- that it sends register one id, or none, then when it has ended no peer of the registry is reached
-- through its channel, whatever else it sent and however it ended.
pub handle_ws-unregisters :
    (decode : List ℕ → Option RendezvousMessage) (next_key : Pending → Option String) (c : Config)
    (tx : Outbox) (peer_addr : SocketAddr) (id : String) (items : List (ℕ × WsItem)) (w : World)
    → ((j : String) → get w.registry j ≢ some (ws_push tx))
    → All (ItemRegisters decode next_key c tx peer_addr id) items
    → (j : String)
    → get
        (handle_ws decode next_key c tx peer_addr items
          (record { my_id = none; world = w })).registry
        j
      ≢ some (ws_push tx)
handle_ws-unregisters decode next_key c tx peer_addr id items w fresh ok j =
    handle_ws-forgets decode next_key c tx peer_addr id items (record { my_id = none; world = w }) j
      ok (λ i held. absurd (fresh i held))
