-- ===== src/Rendezvous/Laws.antt =====
-- The registry and the pending punches: what each operation leaves behind.
use Prim.Native.String.{String}
use text.Mathlib.TextEquality.{eq_iff}
use xyzen_relay.Prelude.{ℕ, ◌≡◌, inl, inr, Bool-cases, none, some, arith, if◌then◌else◌}
use xyzen_relay.Prelude.Assoc.{remove, string_eq, lookup-insert, lookup-remove}
use xyzen_relay.Rendezvous.Registry.{
  Outbox, Reachable, PeerRegistry, upsert, get, remove_if_ws, pushes_to,
}

-- A registered peer is found under its id, and no other peer is moved by it.
pub get-upsert :
    (r : PeerRegistry) (id j : String) (reach : Reachable) (now : ℕ)
    → get (upsert r id reach now) j ≡ (if string_eq.beq id j then some reach else get r j)
unfolding get upsert
get-upsert r id j reach now =
    ground (arith, lookup-insert id j (record { reach = reach; last_seen = now }) r)

-- `remove_if_ws` forgets the peer if its entry is this channel's, and changes nothing else: an entry
-- that a newer connection has taken over stays.
pub get-remove_if_ws :
    (r : PeerRegistry) (id j : String) (tx : Outbox)
    → get (remove_if_ws r id tx) j ≡ (
        if string_eq.beq id j
        then (if pushes_to (get r id) tx then none else get r id)
        else get r j)
unfolding remove_if_ws
get-remove_if_ws r id j tx = elim (Bool-cases (pushes_to (get r id) tx)) [
  | inl mine ↦ rw mine (get-remove id j r)
  | inr other ↦ rw other (same_or_not id j)
]
  where
    get-remove :
        (id j : String) (r : PeerRegistry)
        → get (remove id r) j ≡ (if string_eq.beq id j then none else get r j)
    get-remove id j r = unfold get in ground (arith, lookup-remove id j r)

    same_or_not : (id j : String) → get r j ≡ (if string_eq.beq id j then get r id else get r j)
    same_or_not id j = ground (arith, eq_iff id j)
