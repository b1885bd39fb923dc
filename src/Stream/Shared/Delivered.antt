-- ===== src/Stream/Shared/Delivered.antt =====
-- What a publisher sends comes to those who watch its id.
use Prim.Native.String.{String}
use xyzen_relay.Prelude.{
  ℕ, ◌<◌, ◌≡◌, refl, sym, ap, subst, ◌∙◌, [], ◌∷◌, ◌++◌, length, Bool-cases, Option-cases, inl, inr,
  some, ◌==◌, ==_iff,
}
use xyzen_relay.Prelude.Assoc.{lookup, string_eq}
use xyzen_relay.Stream.Warmup.{Bytes}
use xyzen_relay.Stream.Rooms.{channel_capacity}
use xyzen_relay.Stream.Shared.{
  Channels, Publisher, leaving, away, serving, holding, System, update, connects, records, sends,
  ends, breaks, drops, picks, subscribes, primes, receives, leaves, Step, connecting, recording,
  sending, ending, breaking, dropping, picking, subscribing, priming, receiving, hanging_up,
  Reached, set_publisher, set_viewer, set_room, drop_room, room_for,
}
use xyzen_relay.Stream.Shared.Inv.{update-cases}
use xyzen_relay.Stream.Shared.Kept.{During, here, next, watched_room-kept}

module _ {C R : Type 0} (b : Channels C R) where
  -- Where a publisher of `p` holds a room, that room is `room`.
  Aligned : String → ℕ → Publisher → Type 0
  Aligned p room away = Unit {0}
  Aligned p room (serving q r) = q ≡ p → r ≡ room
  Aligned p room (holding q r f) = q ≡ p → r ≡ room
  Aligned p room (leaving q) = Unit {0}

  Aligned-update :
      (p : String) (room k j : ℕ) (x : Publisher) (f : ℕ → Publisher)
      → (j ≡ k → Aligned p room x)
      → Aligned p room (f j)
      → Aligned p room (update f k x j)
  Aligned-update p room k j x f new old = elim (update-cases f k x j) [
    | inl (e, u) ↦ subst (Aligned p room) (sym u) (new e)
    | inr (_, u) ↦ subst (Aligned p room) (sym u) old
  ]

  room_for-Aligned :
      (p q : String) (room : ℕ) (s : System C R)
      → lookup p s.rooms ≡ some room
      → q ≡ p
      → (room_for b q s).0 ≡ room
  unfolding room_for
  room_for-Aligned p q room s e eq = elim (Option-cases (lookup q s.rooms)) [
    | inl f ↦ absurd cc
    | inr (r, f) ↦ rw (f, room_for) cc
  ]

  room_for-publishers : (q : String) (s : System C R) → (room_for b q s).1.publishers ≡ s.publishers
  unfolding room_for
  room_for-publishers q s = elim (Option-cases (lookup q s.rooms)) [
    | inl f ↦ rw (f, room_for) refl
    | inr (r, f) ↦ rw (f, room_for) refl
  ]

  drop_room-publishers : (q : String) (s : System C R) → (drop_room b q s).publishers ≡ s.publishers
  unfolding drop_room
  drop_room-publishers q s = elim (Option-cases (lookup q s.rooms)) [
    | inl f ↦ rw (f, drop_room) refl
    | inr (r, f) ↦ elim (Bool-cases (b.receiver_count (s.objects r).tx == 0)) [
      | inl unused ↦ rw (f, drop_room, unused) refl
      | inr used ↦ rw (f, drop_room, used) refl
    ]
  ]

  Step-Aligned :
      {s t : System C R} (p : String) (room j : ℕ)
      → lookup p s.rooms ≡ some room
      → Aligned p room (s.publishers j)
      → Step b s t
      → Aligned p room (t.publishers j)
  unfolding connects records sends ends breaks drops picks subscribes primes receives leaves
      set_publisher set_viewer set_room Aligned
  Step-Aligned {s} p room j e a (connecting k q h) =
      Aligned-update p room k j (serving q (room_for b q s).0) (room_for b q s).1.publishers
        (λ _. room_for-Aligned p q room s e)
        (subst (λ f. Aligned p room (f j)) (sym (room_for-publishers q s)) a)
  Step-Aligned {s} p room j e a (recording k q r f h) =
      Aligned-update p room k j (holding q r f) s.publishers
        (λ eq. subst (Aligned p room) (ap s.publishers eq ∙ h) a) a
  Step-Aligned {s} p room j e a (sending k q r f h) =
      Aligned-update p room k j (serving q r) s.publishers
        (λ eq. subst (Aligned p room) (ap s.publishers eq ∙ h) a) a
  Step-Aligned {s} p room j e a (ending k q r h) =
      Aligned-update p room k j (leaving q) s.publishers (λ _. tt) a
  Step-Aligned {s} p room j e a (breaking k q r h) =
      Aligned-update p room k j away s.publishers (λ _. tt) a
  Step-Aligned {s} p room j e a (dropping k q h) =
      Aligned-update p room k j away (drop_room b q s).publishers (λ _. tt)
        (subst (λ f. Aligned p room (f j)) (sym (drop_room-publishers q s)) a)
  Step-Aligned {s} p room j e a (picking u q h) =
      subst (λ f. Aligned p room (f j)) (sym (room_for-publishers q s)) a
  Step-Aligned p room j e a (subscribing u q r h) = a
  Step-Aligned p room j e a (priming u q r x h) = a
  Step-Aligned p room j e a (receiving u q r x cached h) = a
  Step-Aligned p room j e a (hanging_up u q r x cached h) = a

  During-Aligned :
      (p : String) (v room j : ℕ) (rx : R) {s t : System C R}
      → Reached b s
      → lookup p s.rooms ≡ some room
      → Aligned p room (s.publishers j)
      → During b v room rx s t
      → Aligned p room (t.publishers j)
  During-Aligned p v room j rx r e a here = a
  During-Aligned p v room j rx r e a (next d w st) =
      Step-Aligned p room j (watched_room-kept b p v room rx r e d)
        (During-Aligned p v room j rx r e a d) st

  sends-backlog :
      (p : String) (room j : ℕ) (rx : R) (f : Bytes) (t : System C R)
      → length (b.backlog rx (t.objects room).tx) < channel_capacity
      → b.backlog rx ((sends b j p room f t).objects room).tx
        ≡ b.backlog rx (t.objects room).tx ++ f ∷ []
  unfolding sends set_publisher set_room update
  sends-backlog p room j rx f t few =
      rw ((==_iff room room).1 refl) (b.backlog-send f rx (t.objects room).tx few)

  -- A publisher of the id of a room that somebody watches, which connects while it is watched: each
  -- frame that it sends comes to the end of the backlog of the one who watches, unless that is full.
  pub watched_room-delivered :
      (p : String) (v room j : ℕ) (rx : R) (r : ℕ) (f : Bytes) {s t : System C R}
      → Reached b s
      → lookup p s.rooms ≡ some room
      → s.publishers j ≡ away
      → During b v room rx s t
      → t.publishers j ≡ holding p r f
      → length (b.backlog rx (t.objects room).tx) < channel_capacity
      → b.backlog rx ((sends b j p r f t).objects room).tx
        ≡ b.backlog rx (t.objects room).tx ++ f ∷ []
  unfolding Aligned
  watched_room-delivered p v room j rx r f {s} {t} reached e new d h few =
      let a = During-Aligned p v room j rx reached e (subst (Aligned p room) (sym new) tt) d in
      let same : r ≡ room = subst (Aligned p room) h a refl in
      subst
        (λ n.
          b.backlog rx ((sends b j p n f t).objects room).tx
          ≡ b.backlog rx (t.objects room).tx ++ f ∷ [])
        (sym same) (sends-backlog p room j rx f t few)
