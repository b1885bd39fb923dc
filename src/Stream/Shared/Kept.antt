-- ===== src/Stream/Shared/Kept.antt =====
-- A room that somebody watches stays in the map, so later publishers send to those who watch.
use Prim.Native.String.{String}
use xyzen_relay.Prelude.{
  ℕ, ◌≡◌, subst, ◌∙◌, Bool-cases, Option-cases, inl, inr, some, true, ◌==◌, arith,
}
use xyzen_relay.Prelude.Assoc.{lookup, string_eq, lookup-insert, lookup-remove}
use xyzen_relay.Stream.Shared.{
  Channels, System, connects, records, sends, ends, breaks, drops, picks, subscribes, primes,
  receives, leaves, Step, connecting, recording, sending, ending, breaking, dropping, picking,
  subscribing, priming, receiving, hanging_up, Reached, set_publisher, set_viewer, set_room,
  drop_room, room_for,
}
use xyzen_relay.Stream.Shared.Reached.{later}
use xyzen_relay.Stream.Shared.Inv.{Inv, receiver_of}
use xyzen_relay.Stream.Shared.Inv.Steps.{Reached-Inv}

module _ {C R : Type 0} (b : Channels C R) where
  -- Steps of any sessions, none of them taken by a state in which the viewer `v` does not have the
  -- receiver `rx` of `room`.
  pub data During (v room : ℕ) (rx : R) (s : System C R) : System C R → Type 0 where
    here : During v room rx s s
    next :
        {t u : System C R}
        → During v room rx s t
        → receiver_of (t.viewers v) ≡ some (room, rx)
        → Step b t u
        → During v room rx s u

  room_for-kept :
      (p q : String) (room : ℕ) (s : System C R)
      → lookup p s.rooms ≡ some room
      → lookup p (room_for b q s).1.rooms ≡ some room
  unfolding room_for
  room_for-kept p q room s e = elim (Option-cases (lookup q s.rooms)) [
    | inr (r, f) ↦ rw (f, room_for) e
    | inl f ↦ elim (Bool-cases (string_eq.beq q p)) [
      | inl same ↦ absurd (ground (arith, (string_eq.beq_iff q p).0 same))
      | inr other ↦ rw (f, room_for) (lookup-insert q p s.made s.rooms ∙ rw other e)
    ]
  ]

  drop_room-kept :
      (p q : String) (v room : ℕ) (rx : R) (s : System C R)
      → Inv b s
      → receiver_of (s.viewers v) ≡ some (room, rx)
      → lookup p s.rooms ≡ some room
      → lookup p (drop_room b q s).rooms ≡ some room
  unfolding drop_room
  drop_room-kept p q v room rx s inv w e = elim (Option-cases (lookup q s.rooms)) [
    | inl f ↦ rw (f, drop_room) e
    | inr (r, f) ↦ elim (Bool-cases (b.receiver_count (s.objects r).tx == 0)) [
      | inr used ↦ rw (f, drop_room, used) e
      | inl unused ↦ elim (Bool-cases (string_eq.beq q p)) [
        | inl same ↦
            let eq = (string_eq.beq_iff q p).0 same in
            let found : r ≡ room = cc in
            absurd (
              b.counted rx (s.objects room).tx (inv.alive v room rx w)
                (subst (λ n. (b.receiver_count (s.objects n).tx == 0) ≡ true) found unused))
        | inr other ↦ rw (f, drop_room, unused) (lookup-remove q p s.rooms ∙ rw other e)
      ]
    ]
  ]

  Step-kept :
      {s t : System C R} (p : String) (v room : ℕ) (rx : R)
      → Inv b s
      → receiver_of (s.viewers v) ≡ some (room, rx)
      → lookup p s.rooms ≡ some room
      → Step b s t
      → lookup p t.rooms ≡ some room
  unfolding connects records sends ends breaks drops picks subscribes primes receives leaves
      set_publisher set_viewer set_room
  Step-kept {s} p v room rx inv w e (connecting k q h) = room_for-kept p q room s e
  Step-kept p v room rx inv w e (recording k q r f h) = e
  Step-kept p v room rx inv w e (sending k q r f h) = e
  Step-kept p v room rx inv w e (ending k q r h) = e
  Step-kept p v room rx inv w e (breaking k q r h) = e
  Step-kept {s} p v room rx inv w e (dropping k q h) = drop_room-kept p q v room rx s inv w e
  Step-kept {s} p v room rx inv w e (picking u q h) = room_for-kept p q room s e
  Step-kept p v room rx inv w e (subscribing u q r h) = e
  Step-kept p v room rx inv w e (priming u q r x h) = e
  Step-kept p v room rx inv w e (receiving u q r x cached h) = e
  Step-kept p v room rx inv w e (hanging_up u q r x cached h) = e

  During-Reached :
      (v room : ℕ) (rx : R) {s t : System C R} → Reached b s → During v room rx s t → Reached b t
  During-Reached v room rx r here = r
  During-Reached v room rx r (next d w st) = later (During-Reached v room rx r d) st

  -- The room that the map has for an id stays there as long as some viewer has a receiver of it,
  -- whatever steps the other sessions take: publishers of the same id that come and go included.
  pub watched_room-kept :
      (p : String) (v room : ℕ) (rx : R) {s t : System C R}
      → Reached b s
      → lookup p s.rooms ≡ some room
      → During v room rx s t
      → lookup p t.rooms ≡ some room
  watched_room-kept p v room rx r e here = e
  watched_room-kept p v room rx r e (next d w st) =
      Step-kept p v room rx (Reached-Inv b (During-Reached v room rx r d)) w
        (watched_room-kept p v room rx r e d) st
