-- ===== src/Stream/Shared/Lost.antt =====
-- When a publisher's end takes a room out of the map, and when it does not.
use Prim.Native.String.{String}
use xyzen_relay.Prelude.{
  ℕ, ◌≡◌, ◌≢◌, refl, ap, ◌∙◌, List, inl, inr, Bool-cases, some, none, true, ◌==◌, ==_iff, arith,
}
use xyzen_relay.Prelude.Assoc.{lookup, remove, string_eq, lookup-remove_self}
use xyzen_relay.Stream.Warmup.{Bytes, snapshot}
use xyzen_relay.Stream.Shared.{
  Channels, leaving, watching, System, update, ends, drops, leaves, drop_room, room_for,
  set_publisher, set_viewer, set_room, Reached, later, ending, dropping, serving,
}
use xyzen_relay.Stream.Shared.Inv.{Inv, room_of, handle_of, receiver_of}
use xyzen_relay.Stream.Shared.Inv.Steps.{Reached-Inv}

module _ {C R : Type 0} (b : Channels C R) where
  drop_room-removed :
      (p : String) (room : ℕ) (s : System C R)
      → lookup p s.rooms ≡ some room
      → (b.receiver_count (s.objects room).tx == 0) ≡ true
      → drop_room b p s ≡ record s { rooms = remove p s.rooms }
  unfolding drop_room
  drop_room-removed p room s e unused = rw (e, drop_room, unused) refl

  room_for-new :
      (p : String) (s : System C R) → lookup p s.rooms ≡ none → (room_for b p s).0 ≡ s.made
  unfolding room_for
  room_for-new p s e = rw (e, room_for) refl

  dropped_lookup :
      (p : String) (k room : ℕ) (s : System C R)
      → lookup p s.rooms ≡ some room
      → (b.receiver_count (s.objects room).tx == 0) ≡ true
      → lookup p (drops b k p s).rooms ≡ none
  unfolding drops set_publisher
  dropped_lookup p k room s e unused =
      ap (λ (t : System C R). lookup p t.rooms) (drop_room-removed p room s e unused)
      ∙ lookup-remove_self p s.rooms

  -- A publisher of `p` ends while the room of `p` has no receiver. The session of `p` that asks
  -- for the room next gets another one than any publisher that still sends, and than any viewer
  -- that has asked for the room and not subscribed yet.
  pub dropped_room-apart :
      (p : String) (k room : ℕ) {s : System C R}
      → Reached b s
      → s.publishers k ≡ leaving p
      → lookup p s.rooms ≡ some room
      → (b.receiver_count (s.objects room).tx == 0) ≡ true
      → ((j r : ℕ)
          → room_of ((drops b k p s).publishers j) ≡ some r
          → (room_for b p (drops b k p s)).0 ≢ r)
        × ((v r : ℕ)
            → handle_of ((drops b k p s).viewers v) ≡ some r
            → (room_for b p (drops b k p s)).0 ≢ r)
  dropped_room-apart p k room {s} reached l e unused =
      let inv = Reached-Inv b (later reached (dropping k p l)) in
      let new = room_for-new p (drops b k p s) (dropped_lookup p k room s e unused) in
      (
        λ j r h g. omega (arith, inv.held j r h, new, g),
        λ v r h g. omega (arith, inv.placed v r h, new, g),
      )

  drop_room-watched :
      (p : String) (v room : ℕ) (rx : R) (s : System C R)
      → Inv b s
      → lookup p s.rooms ≡ some room
      → receiver_of (s.viewers v) ≡ some (room, rx)
      → drop_room b p s ≡ s
  unfolding drop_room
  drop_room-watched p v room rx s inv e w =
      elim (Bool-cases (b.receiver_count (s.objects room).tx == 0)) [
        | inl unused ↦ absurd (b.counted rx (s.objects room).tx (inv.alive v room rx w) unused)
        | inr used ↦ rw (e, drop_room, used) refl
      ]

  room_for-found :
      (p : String) (room : ℕ) (s : System C R)
      → lookup p s.rooms ≡ some room
      → room_for b p s ≡ (room, s)
  unfolding room_for
  room_for-found p room s e = rw (e, room_for) refl

  leaves_warmup :
      (v room : ℕ) (rx : R) (t : System C R)
      → ((leaves b v room rx t).objects room).warmup ≡ (t.objects room).warmup
  unfolding leaves set_room set_viewer update
  leaves_warmup v room rx t = rw ((==_iff room room).1 refl) refl

  -- A publisher of `p` ends while somebody watches, and then the one who watches leaves too: the
  -- next session of `p` is still given the room, with the cache of the publisher that has ended.
  pub watched_room-stale :
      (p : String) (k v room : ℕ) (rx : R) (cached : List Bytes) {s : System C R}
      → Reached b s
      → s.publishers k ≡ serving p room
      → lookup p s.rooms ≡ some room
      → s.viewers v ≡ watching p room rx cached
      → (room_for b p (leaves b v room rx (drops b k p (ends b k p s)))
          ≡ (room, leaves b v room rx (drops b k p (ends b k p s))))
        × (snapshot ((leaves b v room rx (drops b k p (ends b k p s))).objects room).warmup
            ≡ snapshot (s.objects room).warmup)
  unfolding ends drops leaves set_publisher set_viewer set_room receiver_of
  watched_room-stale p k v room rx cached {s} reached h e w =
      let inv = Reached-Inv b (later reached (ending k p room h)) in
      let same = drop_room-watched p v room rx (ends b k p s) inv e (ap receiver_of w) in
      (
        room_for-found p room _ (ap (λ (t : System C R). lookup p t.rooms) same ∙ e),
        ap snapshot (
            leaves_warmup v room rx (drops b k p (ends b k p s))
            ∙ ap (λ (t : System C R). (t.objects room).warmup) same),
      )
