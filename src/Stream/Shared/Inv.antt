-- ===== src/Stream/Shared/Inv.antt =====
-- What holds of the shared rooms however the sessions interleave: the rooms that the map and the
-- sessions name exist, and each receiver is live and belongs to one viewer.
pub mod Steps
use Prim.Native.String.{String}
use xyzen_relay.Prelude.{
  ℕ, suc, ◌<◌, ◌≡◌, ◌≢◌, refl, sym, ap, subst, ◌∙◌, Bool-cases, inl, inr, ◌⊎◌, true, false, Option,
  none, some, List, Option-cases, if◌then◌else◌, ◌==◌, ==_iff, arith,
}
use xyzen_relay.Prelude.Assoc.{
  lookup, insert, remove, string_eq, lookup-insert, lookup-remove, lookup-insert_self,
}
use xyzen_relay.Stream.Rooms.{RoomState, new_room}
use xyzen_relay.Stream.Shared.{
  Channels, Publisher, away, serving, holding, leaving, Viewer, outside, picked, subscribed,
  watching, System, update, room_for, set_publisher, set_viewer, set_room, drop_room,
}

-- The room that a publisher or a viewer holds, and the room and the receiver of a viewer.
unfoldable pub room_of : Publisher → Option ℕ
room_of away = none
room_of (serving p room) = some room
room_of (holding p room f) = some room
room_of (leaving p) = none

module _ {R : Type 0} where
  unfoldable pub handle_of : Viewer R → Option ℕ
  handle_of outside = none
  handle_of (picked p room) = some room
  handle_of (subscribed p room rx) = some room
  handle_of (watching p room rx cached) = some room

  unfoldable pub receiver_of : Viewer R → Option (ℕ × R)
  receiver_of outside = none
  receiver_of (picked p room) = none
  receiver_of (subscribed p room rx) = some (room, rx)
  receiver_of (watching p room rx cached) = some (room, rx)

pub update-cases {ℓ} :
    {A : Type ℓ} (f : ℕ → A) (i : ℕ) (a : A) (j : ℕ)
    → ((j ≡ i) × (update f i a j ≡ a)) ⊎ ((j ≢ i) × (update f i a j ≡ f j))
unfolding update
update-cases f i a j = elim (Bool-cases (j == i)) [
  | inl e ↦ inl ((==_iff j i).0 e, rw e refl)
  | inr e ↦ inr (ground arith, rw e refl)
]

insert-found :
    (p q : String) (v room : ℕ) (rooms : List (String × ℕ))
    → lookup q (insert p v rooms) ≡ some room
    → (room ≡ v) ⊎ (lookup q rooms ≡ some room)
insert-found p q v room rooms e = elim (Bool-cases (string_eq.beq p q)) [
  | inl same ↦ inl (ground (arith, lookup-insert p q v rooms))
  | inr other ↦ inr (ground (arith, lookup-insert p q v rooms))
]

pub remove-found :
    (p q : String) (room : ℕ) (rooms : List (String × ℕ))
    → lookup q (remove p rooms) ≡ some room
    → (string_eq.beq p q ≡ false) × (lookup q rooms ≡ some room)
remove-found p q room rooms e = elim (Bool-cases (string_eq.beq p q)) [
  | inl same ↦ absurd (ground (arith, lookup-remove p q rooms))
  | inr other ↦ (other, ground (arith, lookup-remove p q rooms))
]

module _ {C R : Type 0} (b : Channels C R) where
  pub record Inv (s : System C R) : Type 0 where
    pub mapped : (p : String) (room : ℕ) → lookup p s.rooms ≡ some room → room < s.made
    pub held : (k room : ℕ) → room_of (s.publishers k) ≡ some room → room < s.made
    pub placed : (v room : ℕ) → handle_of (s.viewers v) ≡ some room → room < s.made
    pub alive :
        (v room : ℕ) (rx : R)
        → receiver_of (s.viewers v) ≡ some (room, rx)
        → b.live rx (s.objects room).tx ≡ true
    pub apart :
        (v w room : ℕ) (rx : R)
        → receiver_of (s.viewers v) ≡ some (room, rx)
        → receiver_of (s.viewers w) ≡ some (room, rx)
        → v ≡ w

  pub receiver-handle :
      (w : Viewer R) (room : ℕ) (rx : R) → receiver_of w ≡ some (room, rx) → handle_of w ≡ some room
  unfolding receiver_of handle_of
  receiver-handle outside room rx e = cc
  receiver-handle (picked p r) room rx e = cc
  receiver-handle (subscribed p r q) room rx e = ground arith
  receiver-handle (watching p r q cached) room rx e = ground arith

  pub set_publisher-Inv :
      (k : ℕ) (p : Publisher) (s : System C R)
      → ((room : ℕ) → room_of p ≡ some room → room < s.made)
      → Inv s
      → Inv (set_publisher b k p s)
  unfolding set_publisher
  set_publisher-Inv k p s fits inv = record {
    mapped = inv.mapped;
    held = λ j room e. elim (update-cases s.publishers k p j) [
      | inl (_, u) ↦ fits room (sym (ap room_of u) ∙ e)
      | inr (_, u) ↦ inv.held j room (sym (ap room_of u) ∙ e)
    ];
    placed = inv.placed;
    alive = inv.alive;
    apart = inv.apart;
  }

  pub set_viewer-Inv :
      (v : ℕ) (w : Viewer R) (s : System C R)
      → ((room : ℕ) → handle_of w ≡ some room → room < s.made)
      → ((room : ℕ) (rx : R)
          → receiver_of w ≡ some (room, rx)
          → (b.live rx (s.objects room).tx ≡ true)
            × ((u : ℕ) → receiver_of (s.viewers u) ≡ some (room, rx) → u ≡ v))
      → Inv s
      → Inv (set_viewer b v w s)
  unfolding set_viewer
  set_viewer-Inv v w s fits own inv = record {
    mapped = inv.mapped;
    held = inv.held;
    placed = λ u room e. elim (update-cases s.viewers v w u) [
      | inl (_, f) ↦ fits room (sym (ap handle_of f) ∙ e)
      | inr (_, f) ↦ inv.placed u room (sym (ap handle_of f) ∙ e)
    ];
    alive = λ u room rx e. elim (update-cases s.viewers v w u) [
      | inl (_, f) ↦ (own room rx (sym (ap receiver_of f) ∙ e)).0
      | inr (_, f) ↦ inv.alive u room rx (sym (ap receiver_of f) ∙ e)
    ];
    apart = λ u t room rx e g. elim (update-cases s.viewers v w u) [
      | inl (p, f) ↦ elim (update-cases s.viewers v w t) [
        | inl (q, _) ↦ p ∙ sym q
        | inr (_, h) ↦
            p ∙ sym ((own room rx (sym (ap receiver_of f) ∙ e)).1 t (sym (ap receiver_of h) ∙ g))
      ]
      | inr (_, f) ↦ elim (update-cases s.viewers v w t) [
        | inl (q, h) ↦
            (own room rx (sym (ap receiver_of h) ∙ g)).1 u (sym (ap receiver_of f) ∙ e) ∙ sym q
        | inr (_, h) ↦
            inv.apart u t room rx (sym (ap receiver_of f) ∙ e) (sym (ap receiver_of h) ∙ g)
      ]
    ];
  }

  -- A room may change as long as the receivers of its viewers stay live.
  pub set_room-Inv :
      (room : ℕ) (x : RoomState C) (s : System C R)
      → ((v : ℕ) (rx : R)
          → receiver_of (s.viewers v) ≡ some (room, rx)
          → b.live rx (s.objects room).tx ≡ true
          → b.live rx x.tx ≡ true)
      → Inv s
      → Inv (set_room b room x s)
  unfolding set_room
  set_room-Inv room x s keep inv = record {
    mapped = inv.mapped;
    held = inv.held;
    placed = inv.placed;
    alive = λ v r rx e. elim (update-cases s.objects room x r) [
      | inl (p, f) ↦
          let e' = subst (λ n. receiver_of (s.viewers v) ≡ some (n, rx)) p e in
          subst (λ y. b.live rx y.tx ≡ true) (sym f) (keep v rx e' (inv.alive v room rx e'))
      | inr (_, f) ↦ subst (λ y. b.live rx y.tx ≡ true) (sym f) (inv.alive v r rx e)
    ];
    apart = inv.apart;
  }

  -- The map and the rooms once one more room has been made.
  made-Inv :
      (p : String) (s : System C R)
      → Inv s
      → Inv (record s {
        rooms = insert p s.made s.rooms;
        objects = update s.objects s.made (new_room b.broadcast);
        made = suc s.made;
      })
  made-Inv p s inv = record {
    mapped = λ q room e. elim (insert-found p q s.made room s.rooms e) [
      | inl new ↦ omega arith
      | inr old ↦ omega (arith, inv.mapped q room old)
    ];
    held = λ k room e. omega (arith, inv.held k room e);
    placed = λ v room e. omega (arith, inv.placed v room e);
    alive = λ v room rx e. elim (update-cases s.objects s.made (new_room b.broadcast) room) [
      | inl (q, f) ↦
          absurd (omega (arith, q, inv.placed v room (receiver-handle (s.viewers v) room rx e)))
      | inr (_, f) ↦ subst (λ y. b.live rx y.tx ≡ true) (sym f) (inv.alive v room rx e)
    ];
    apart = inv.apart;
  }

  removed-Inv : (p : String) (s : System C R) → Inv s → Inv (record s { rooms = remove p s.rooms })
  removed-Inv p s inv = record {
    mapped = λ q room e. inv.mapped q room (remove-found p q room s.rooms e).1;
    held = inv.held;
    placed = inv.placed;
    alive = inv.alive;
    apart = inv.apart;
  }

  pub room_for-Inv :
      (p : String) (s : System C R)
      → Inv s
      → Inv (room_for b p s).1
        × ((room_for b p s).0 < (room_for b p s).1.made)
        × (lookup p (room_for b p s).1.rooms ≡ some (room_for b p s).0)
  unfolding room_for
  room_for-Inv p s inv = elim (Option-cases (lookup p s.rooms)) [
    | inl e ↦ rw (e, room_for) (made-Inv p s inv, omega arith, lookup-insert_self p s.made s.rooms)
    | inr (room, e) ↦ rw (e, room_for) (inv, inv.mapped p room e, e)
  ]

  pub drop_room-Inv : (p : String) (s : System C R) → Inv s → Inv (drop_room b p s)
  unfolding drop_room
  drop_room-Inv p s inv = elim (Option-cases (lookup p s.rooms)) [
    | inl e ↦ rw (e, drop_room) inv
    | inr (room, e) ↦ elim (Bool-cases (b.receiver_count (s.objects room).tx == 0)) [
      | inl unused ↦ rw (e, drop_room, unused) (removed-Inv p s inv)
      | inr used ↦ rw (e, drop_room, used) inv
    ]
  ]
