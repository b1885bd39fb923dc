-- ===== src/Relay.antt =====
-- crates/relay/src/main.rs: pairing the connections that come in, and copying between the two of a
-- pair. A socket is its number.
pub mod Pairing
pub mod Pump
use xyzen_relay.Prelude.{ℕ, ◌≡◌, Option, none, some, List, [], ◌∷◌}

pub data Side : Type 0 where
  tcp : ℕ → Side
  ws : ℕ → Side

-- What a listener's task does: it accepts, or it has found the slot empty and is about to put its
-- connection there.
pub data Task : Type 0 where
  accepting : Task
  replacing : Side → Task

-- The slot, the pairs that were handed to `pump`, the connections that `replace` has thrown out of
-- the slot, and the tasks of the two listeners.
pub record Relay : Type 0 where
  pub waiting : Option Side
  pub pairs : List (Side × Side)
  pub thrown_out : List Side
  pub tcp_task : Task
  pub ws_task : Task

abbrev pub started : Relay
started = record {
  waiting = none;
  pairs = [];
  thrown_out = [];
  tcp_task = accepting;
  ws_task = accepting;
}

-- `pair_or_wait` up to the end of the first lock: `take`, and `pump` where there was a partner.
unfoldable pub take_partner : Side → Relay → Task × Relay
take_partner side w = elim w.waiting [
  | some other ↦ (accepting, record w { waiting = none; pairs = (side, other) ∷ w.pairs })
  | none ↦ (replacing side, w)
]

-- The second lock: what `replace` returns is dropped, and so closed.
unfoldable pub replace_slot : Task → Relay → Relay
replace_slot accepting w = w
replace_slot (replacing side) w = elim w.waiting [
  | some other ↦ record w { waiting = some side; thrown_out = other ∷ w.thrown_out }
  | none ↦ record w { waiting = some side }
]

-- The whole of it, where no other task comes in between.
abbrev pub pair_or_wait : Side → Relay → Relay
pair_or_wait side w = let (task, w') = take_partner side w in replace_slot task w'

abbrev pub tcp_accepted : ℕ → Relay → Relay
tcp_accepted n w = let (task, w') = take_partner (tcp n) w in record w' { tcp_task = task }

abbrev pub ws_accepted : ℕ → Relay → Relay
ws_accepted n w = let (task, w') = take_partner (ws n) w in record w' { ws_task = task }

abbrev pub tcp_replaced : Relay → Relay
tcp_replaced w = record (replace_slot w.tcp_task w) { tcp_task = accepting }

abbrev pub ws_replaced : Relay → Relay
ws_replaced w = record (replace_slot w.ws_task w) { ws_task = accepting }

-- The runs of the two listeners in any interleaving of their locks, with the connections that were
-- accepted on the way, the last one first.
pub data Reached : List Side → Relay → Type 0 where
  none_yet : Reached [] started
  tcp_takes :
      (n : ℕ) (sides : List Side) (w : Relay)
      → w.tcp_task ≡ accepting
      → Reached sides w
      → Reached (tcp n ∷ sides) (tcp_accepted n w)
  tcp_replaces : (sides : List Side) (w : Relay) → Reached sides w → Reached sides (tcp_replaced w)
  ws_takes :
      (n : ℕ) (sides : List Side) (w : Relay)
      → w.ws_task ≡ accepting
      → Reached sides w
      → Reached (ws n ∷ sides) (ws_accepted n w)
  ws_replaces : (sides : List Side) (w : Relay) → Reached sides w → Reached sides (ws_replaced w)
