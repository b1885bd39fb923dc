-- ===== src/Relay/Pairing.antt =====
-- Where the accepted connections are.
use xyzen_relay.Prelude.{
  ℕ, ◌+◌, ◌≡◌, refl, sym, subst, ap, Option, none, some, Option-cases, inl, inr, List, [], ◌∷◌,
  ◌==◌, arith, if◌then◌else◌,
}
use xyzen_relay.Relay.{
  Side, tcp, ws, Task, accepting, replacing, Relay, started, take_partner, replace_slot,
  pair_or_wait, tcp_accepted, ws_accepted, tcp_replaced, ws_replaced, Reached, none_yet, tcp_takes,
  tcp_replaces, ws_takes, ws_replaces,
}

abbrev pub is_side : Side → Side → ℕ
is_side (tcp n) (tcp m) = if n == m then 1 else 0
is_side (ws n) (ws m) = if n == m then 1 else 0
is_side (tcp n) (ws m) = 0
is_side (ws n) (tcp m) = 0

-- How often a connection is in a list, a pair, the slot, and the hands of a task.
abbrev pub count : Side → List Side → ℕ
count s [] = 0
count s (t ∷ sides) = is_side s t + count s sides

abbrev pub count_pairs : Side → List (Side × Side) → ℕ
count_pairs s [] = 0
count_pairs s ((a, b) ∷ pairs) = is_side s a + is_side s b + count_pairs s pairs

abbrev pub count_slot : Side → Option Side → ℕ
count_slot s none = 0
count_slot s (some t) = is_side s t

abbrev pub count_task : Side → Task → ℕ
count_task s accepting = 0
count_task s (replacing t) = is_side s t

abbrev pub held : Side → Relay → ℕ
held s w = count_pairs s w.pairs + count_slot s w.waiting + count s w.thrown_out

abbrev pub placed : Side → Relay → ℕ
placed s w = held s w + count_task s w.tcp_task + count_task s w.ws_task

held-take_partner :
    (s t : Side) (w : Relay)
    → held s (take_partner t w).1 + count_task s (take_partner t w).0 ≡ held s w + is_side s t
unfolding take_partner
held-take_partner s t w = elim (Option-cases w.waiting) [
  | inl e ↦ rw e (omega arith)
  | inr (other, e) ↦ rw e (omega arith)
]

held-replace_slot :
    (s : Side) (k : Task) (w : Relay) → held s (replace_slot k w) ≡ held s w + count_task s k
unfolding replace_slot
held-replace_slot s accepting w = omega arith
held-replace_slot s (replacing t) w = elim (Option-cases w.waiting) [
  | inl e ↦ rw e (omega arith)
  | inr (other, e) ↦ rw e (omega arith)
]

-- The locks leave the tasks as they are.
take_partner-tasks :
    (t : Side) (w : Relay)
    → ((take_partner t w).1.tcp_task ≡ w.tcp_task) × ((take_partner t w).1.ws_task ≡ w.ws_task)
unfolding take_partner
take_partner-tasks t w = elim (Option-cases w.waiting) [
  | inl e ↦ rw e (refl, refl)
  | inr (other, e) ↦ rw e (refl, refl)
]

replace_slot-tasks :
    (k : Task) (w : Relay)
    → ((replace_slot k w).tcp_task ≡ w.tcp_task) × ((replace_slot k w).ws_task ≡ w.ws_task)
unfolding replace_slot
replace_slot-tasks accepting w = (refl, refl)
replace_slot-tasks (replacing t) w = elim (Option-cases w.waiting) [
  | inl e ↦ rw e (refl, refl)
  | inr (other, e) ↦ rw e (refl, refl)
]

-- In every interleaving of the two listeners, every accepted connection is in exactly as many places
-- as it was accepted: in a pair, in the slot, with a task that is about to fill the slot, or among
-- those that were thrown out of it.
pub Reached-placed :
    (s : Side) (sides : List Side) (w : Relay) → Reached sides w → placed s w ≡ count s sides
Reached-placed s sides w none_yet = refl
Reached-placed s (t ∷ sides) _ (tcp_takes n _ w free r) = omega (
  arith,
  held-take_partner s (tcp n) w,
  ap (count_task s) (take_partner-tasks (tcp n) w).1,
  ap (count_task s) free,
  Reached-placed s sides w r,
)
Reached-placed s sides _ (tcp_replaces _ w r) = omega (
  arith,
  held-replace_slot s w.tcp_task w,
  ap (count_task s) (replace_slot-tasks w.tcp_task w).1,
  Reached-placed s sides w r,
)
Reached-placed s (t ∷ sides) _ (ws_takes n _ w free r) = omega (
  arith,
  held-take_partner s (ws n) w,
  ap (count_task s) (take_partner-tasks (ws n) w).0,
  ap (count_task s) free,
  Reached-placed s sides w r,
)
Reached-placed s sides _ (ws_replaces _ w r) = omega (
  arith,
  held-replace_slot s w.ws_task w,
  ap (count_task s) (replace_slot-tasks w.ws_task w).0,
  Reached-placed s sides w r,
)

-- Two connections on the two ports, both of which find the slot empty: the first that was put there
-- is thrown out, and nobody is paired.
pub race :
    (n m : ℕ)
    → (w : Relay) × (Reached (ws m ∷ tcp n ∷ []) w × (w.pairs ≡ []) × (w.thrown_out ≡ tcp n ∷ []))
unfolding take_partner replace_slot
race n m = (
  ws_replaced (tcp_replaced (ws_accepted m (tcp_accepted n started))),
  (
    ws_replaces _ _ (tcp_replaces _ _ (ws_takes m _ _ refl (tcp_takes n _ _ refl none_yet))),
    refl,
    refl,
  ),
)

-- The connections of `sides` one after the other, the first one first, with no task in between.
unfoldable pub pair_all : List Side → Relay → Relay
pair_all [] w = w
pair_all (t ∷ sides) w = pair_all sides (pair_or_wait t w)

-- Connections in the order they came in, two by two.
unfoldable pub in_pairs : List Side → List (Side × Side)
in_pairs (a ∷ b ∷ sides) = (b, a) ∷ in_pairs sides
in_pairs sides = []

abbrev pub reverse_onto {ℓ} : {A : Type ℓ} → List A → List A → List A
reverse_onto [] ys = ys
reverse_onto (x ∷ xs) ys = reverse_onto xs (x ∷ ys)

two_waits :
    (a b : Side) (w : Relay)
    → w.waiting ≡ none
    → pair_or_wait b (pair_or_wait a w) ≡ record w { waiting = none; pairs = (b, a) ∷ w.pairs }
unfolding take_partner replace_slot
two_waits a b w free = rw free refl

-- Where no two tasks are in `pair_or_wait` at once, the connections are paired in the order in which
-- they come in, each with the next one, and nobody is thrown out of the slot.
pub pair_all-in_pairs :
    (sides : List Side) (w : Relay)
    → w.waiting ≡ none
    → ((pair_all sides w).pairs ≡ reverse_onto (in_pairs sides) w.pairs)
      × ((pair_all sides w).thrown_out ≡ w.thrown_out)
unfolding pair_all in_pairs take_partner replace_slot
pair_all-in_pairs [] w free = (refl, refl)
pair_all-in_pairs (a ∷ []) w free = rw free (refl, refl)
pair_all-in_pairs (a ∷ b ∷ sides) w free =
    subst
      (λ x.
        ((pair_all sides x).pairs ≡ reverse_onto (in_pairs sides) ((b, a) ∷ w.pairs))
        × ((pair_all sides x).thrown_out ≡ w.thrown_out))
      (sym (two_waits a b w free))
      (pair_all-in_pairs sides (record w { waiting = none; pairs = (b, a) ∷ w.pairs }) refl)
