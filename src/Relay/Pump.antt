-- ===== src/Relay/Pump.antt =====
-- crates/relay/src/main.rs, `pump` and below: the copying in one direction.
pub mod Joined
use xyzen_relay.Prelude.{
  ℕ, zero, suc, ◌≡◌, refl, ap, List, [], ◌∷◌, ◌++◌, arith, append_assoc, map, length, ◌≤◌, ◌∙◌,
}
use xyzen_relay.Relay.{Side, tcp, ws}

-- A WebSocket message, and what the receiving half yields.
pub data WsMessage : Type 0 where
  binary text ping pong : List ℕ → WsMessage
  close : WsMessage

pub data WsItem : Type 0 where
  received : WsMessage → WsItem
  failed : WsItem

-- One `read`: the bytes that it puts in the buffer, none of them at the end of the stream.
pub data Read : Type 0 where
  bytes : List ℕ → Read
  failed : Read

-- How the loop ends. A list of items that ends is a stream that has ended.
pub data Outcome : Type 0 where
  done broken : Outcome

pub data Transport : Type 0 where
  tcp_tcp ws_ws tcp_ws : Transport

unfoldable pub pump : Side → Side → Transport
pump (tcp a) (tcp b) = tcp_tcp
pump (ws a) (ws b) = ws_ws
pump (tcp t) (ws w) = tcp_ws
pump (ws w) (tcp t) = tcp_ws

abbrev sent {ℓ} : {A : Type ℓ} → A → List A × Outcome → List A × Outcome
sent a (as', o) = (a ∷ as', o)

-- `f1` and `f2` of `pump_ws_ws`; `room` is how many more sends the other socket takes before one
-- fails.
unfoldable pub ws_to_ws : ℕ → List WsItem → List WsMessage × Outcome
ws_to_ws room [] = ([], done)
ws_to_ws room (failed ∷ items) = ([], broken)
ws_to_ws room (received close ∷ items) = ([], done)
ws_to_ws zero (received m ∷ items) = ([], broken)
ws_to_ws (suc room) (received m ∷ items) = sent m (ws_to_ws room items)

-- `f1` of `pump_tcp_ws`.
unfoldable pub tcp_to_ws : ℕ → List Read → List WsMessage × Outcome
tcp_to_ws room [] = ([], done)
tcp_to_ws room (failed ∷ reads) = ([], broken)
tcp_to_ws room (bytes [] ∷ reads) = ([], done)
tcp_to_ws zero (bytes (b ∷ buf) ∷ reads) = ([], broken)
tcp_to_ws (suc room) (bytes (b ∷ buf) ∷ reads) = sent (binary (b ∷ buf)) (tcp_to_ws room reads)

-- `f2` of `pump_tcp_ws`: the bytes that are written.
abbrev written : List ℕ → List ℕ × Outcome → List ℕ × Outcome
written b (bs, o) = (b ++ bs, o)

unfoldable pub ws_to_tcp : ℕ → List WsItem → List ℕ × Outcome
ws_to_tcp room [] = ([], done)
ws_to_tcp room (failed ∷ items) = ([], broken)
ws_to_tcp room (received close ∷ items) = ([], done)
ws_to_tcp zero (received (binary b) ∷ items) = ([], broken)
ws_to_tcp (suc room) (received (binary b) ∷ items) = written b (ws_to_tcp room items)
ws_to_tcp room (received other ∷ items) = ws_to_tcp room items

-- The bytes that come in before the end of the stream.
unfoldable pub read_bytes : List Read → List ℕ
read_bytes [] = []
read_bytes (failed ∷ reads) = []
read_bytes (bytes [] ∷ reads) = []
read_bytes (bytes (b ∷ buf) ∷ reads) = (b ∷ buf) ++ read_bytes reads

-- What one relay wraps into WebSocket messages and another unwraps, as long as no send fails, is
-- the bytes that came in, in order, and the second loop ends without an error.
pub ws_to_tcp-tcp_to_ws :
    (reads : List Read) (room room' : ℕ)
    → length reads ≤ room
    → length reads ≤ room'
    → ws_to_tcp room' (map received (tcp_to_ws room reads).0) ≡ (read_bytes reads, done)
unfolding ws_to_tcp tcp_to_ws read_bytes
ws_to_tcp-tcp_to_ws [] room room' h h' = refl
ws_to_tcp-tcp_to_ws (failed ∷ reads) room room' h h' = refl
ws_to_tcp-tcp_to_ws (bytes [] ∷ reads) room room' h h' = refl
ws_to_tcp-tcp_to_ws (bytes (b ∷ buf) ∷ reads) (suc room) (suc room') h h' =
    ap (written (b ∷ buf)) (ws_to_tcp-tcp_to_ws reads room room' (omega arith) (omega arith))
ws_to_tcp-tcp_to_ws (bytes (b ∷ buf) ∷ reads) zero room' h h' = absurd (omega arith)
ws_to_tcp-tcp_to_ws (bytes (b ∷ buf) ∷ reads) (suc room) zero h h' = absurd (omega arith)

-- Whatever the two sockets take, what is written is a beginning of the bytes that came in.
pub tcp_to_ws-prefix :
    (reads : List Read) (room room' : ℕ)
    → (rest : List ℕ) × ((ws_to_tcp room' (map received (tcp_to_ws room reads).0)).0 ++ rest
        ≡ read_bytes reads)
unfolding ws_to_tcp tcp_to_ws read_bytes
tcp_to_ws-prefix [] room room' = ([], refl)
tcp_to_ws-prefix (failed ∷ reads) room room' = ([], refl)
tcp_to_ws-prefix (bytes [] ∷ reads) room room' = ([], refl)
tcp_to_ws-prefix (bytes (b ∷ buf) ∷ reads) zero room' = (_, refl)
tcp_to_ws-prefix (bytes (b ∷ buf) ∷ reads) (suc room) zero = (_, refl)
tcp_to_ws-prefix (bytes (b ∷ buf) ∷ reads) (suc room) (suc room') =
    let (rest, e) = tcp_to_ws-prefix reads room room' in
    (rest, ap (◌∷◌ b) (append_assoc buf _ rest ∙ ap (◌++◌ buf) e))
