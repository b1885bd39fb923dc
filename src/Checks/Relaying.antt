-- ===== src/Checks/Relaying.antt =====
-- Runs of the relay.
use xyzen_relay.Prelude.{
  ℕ, ◌≡◌, refl, Bool, true, false, Option, none, some, List, [], ◌∷◌, ◌++◌, map, arith,
}
use xyzen_relay.Relay.{
  tcp, ws, Relay, started, tcp_accepted, ws_accepted, tcp_replaced, take_partner, replace_slot,
  Reached, none_yet, tcp_takes, tcp_replaces, ws_takes,
}
use xyzen_relay.Relay.Pairing.{placed, Reached-placed, race, pair_all, in_pairs, pair_all-in_pairs}
use xyzen_relay.Relay.Pump.{
  WsMessage, Outcome, broken, binary, text, close, Read, bytes, received, ws_to_tcp, tcp_to_ws,
  read_bytes, done, ws_to_tcp-tcp_to_ws, tcp_to_ws-prefix,
}
use xyzen_relay.Relay.Pump.Joined.{
  Arrival, fresh, forward, advance, step, run, messages, run-prefix,
}

-- A WebSocket connection that finds a TCP connection waiting.
Reached-placed_example : placed (tcp 1) (ws_accepted 2 (tcp_replaced (tcp_accepted 1 started))) ≡ 1
unfolding take_partner replace_slot
Reached-placed_example =
    Reached-placed (tcp 1) (ws 2 ∷ tcp 1 ∷ [])
      (ws_accepted 2 (tcp_replaced (tcp_accepted 1 started)))
      (ws_takes 2 (tcp 1 ∷ []) (tcp_replaced (tcp_accepted 1 started)) refl
        (tcp_replaces (tcp 1 ∷ []) (tcp_accepted 1 started) (tcp_takes 1 [] started refl none_yet)))

pair_all-in_pairs_example :
    ((pair_all (tcp 1 ∷ ws 2 ∷ tcp 3 ∷ []) started).pairs ≡ (ws 2, tcp 1) ∷ [])
    × ((pair_all (tcp 1 ∷ ws 2 ∷ tcp 3 ∷ []) started).thrown_out ≡ [])
unfolding in_pairs
pair_all-in_pairs_example = pair_all-in_pairs (tcp 1 ∷ ws 2 ∷ tcp 3 ∷ []) started refl

abbrev reads : List Read
reads = bytes (1 ∷ 2 ∷ []) ∷ bytes (3 ∷ []) ∷ bytes [] ∷ []

ws_to_tcp-tcp_to_ws_example :
    ws_to_tcp 9 (map received (tcp_to_ws 5 reads).0) ≡ (1 ∷ 2 ∷ 3 ∷ [], done)
unfolding read_bytes
ws_to_tcp-tcp_to_ws_example = ws_to_tcp-tcp_to_ws reads 5 9 (omega arith) (omega arith)

tcp_to_ws-prefix_example :
    (rest : List ℕ) × ((ws_to_tcp 1 (map received (tcp_to_ws 5 reads).0)).0 ++ rest
      ≡ 1 ∷ 2 ∷ 3 ∷ [])
unfolding read_bytes
tcp_to_ws-prefix_example = tcp_to_ws-prefix reads 5 1

race_example :
    (w : Relay) × (Reached (ws 2 ∷ tcp 1 ∷ []) w × (w.pairs ≡ []) × (w.thrown_out ≡ tcp 1 ∷ []))
race_example = race 1 2

-- One side sends a message and closes, the other goes on; both have to end, or one to break.
abbrev try_join : Option Outcome → Option Outcome → Bool
try_join (some broken) o = true
try_join (some done) (some o) = true
try_join (some done) none = false
try_join none (some broken) = true
try_join none (some done) = false
try_join none none = false

abbrev arrivals : List Arrival
arrivals =
    record { direction = true; takes = true; item = received (binary (1 ∷ [])) }
    ∷ record { direction = true; takes = true; item = received close }
    ∷ record { direction = false; takes = true; item = received (text (2 ∷ [])) }
    ∷ []

run-prefix_example :
    (left : List WsMessage) × ((run try_join arrivals fresh true).sent ++ left
      ≡ binary (1 ∷ []) ∷ [])
unfolding messages
run-prefix_example = run-prefix try_join true arrivals

-- The peer of the one that has closed is told nothing of it, and its own messages are still read.
close_untold :
    ((run try_join arrivals fresh true).sent ≡ binary (1 ∷ []) ∷ [])
    × ((run try_join arrivals fresh false).sent ≡ text (2 ∷ []) ∷ [])
unfolding run step advance forward
close_untold = (refl, refl)
