-- ===== src/Rendezvous/Registry.antt =====
-- crates/rendezvous/src/registry.rs: the in-memory peer registry.
-- A `SocketAddr` is its printed form, an `mpsc::UnboundedSender` the number of its channel, an
-- `Instant` a number. The lock makes each operation one step.
use Prim.Native.String.{String}
use xyzen_relay.Prelude.{ℕ, Bool, false, Option, none, some, List, ◌==◌, if◌then◌else◌}
use xyzen_relay.Prelude.Assoc.{lookup, insert, remove, string_eq}

abbrev pub SocketAddr : Type 0
SocketAddr = String

abbrev pub Outbox : Type 0
Outbox = ℕ

pub data Reachable : Type 0 where
  udp : SocketAddr → Reachable
  ws_push : Outbox → Reachable

pub record PeerEntry : Type 0 where
  pub reach : Reachable
  pub last_seen : ℕ

abbrev pub PeerRegistry : Type 0
PeerRegistry = List (String × PeerEntry)

unfoldable pub upsert : PeerRegistry → String → Reachable → ℕ → PeerRegistry
upsert r id reach now = insert id (record { reach = reach; last_seen = now }) r

-- `Option::map(|p| p.reach.clone())`.
abbrev pub reach_of : Option PeerEntry → Option Reachable
reach_of none = none
reach_of (some p) = some p.reach

unfoldable pub get : PeerRegistry → String → Option Reachable
get r id = reach_of (lookup id r)

-- `matches!(map.get(id), Some(e) if matches!(&e.reach, WsPush(s) if s.same_channel(sender)))`.
abbrev pub pushes_to : Option Reachable → Outbox → Bool
pushes_to none sender = false
pushes_to (some (udp addr)) sender = false
pushes_to (some (ws_push s)) sender = s == sender

unfoldable pub remove_if_ws : PeerRegistry → String → Outbox → PeerRegistry
remove_if_ws r id sender = if pushes_to (get r id) sender then remove id r else r
