-- ===== src/Stream/Shared/Inv/Steps.antt =====
-- Every step of every session keeps the invariant of the shared rooms.
use xyzen_relay.Prelude.{
  ℕ, ◌≡◌, ◌≢◌, refl, sym, ap, subst, ◌∙◌, inl, inr, Option, some, none, true, ==_iff, arith,
}
use xyzen_relay.Prelude.Assoc.{lookup}
use xyzen_relay.Stream.Shared.{
  Channels, update, leaving, away, serving, holding, outside, picked, subscribed, watching, System,
  init, connects, records, sends, ends, breaks, drops, picks, subscribes, primes, receives, leaves,
  Step, connecting, recording, sending, ending, breaking, dropping, picking, subscribing, priming,
  receiving, hanging_up, Reached, start, later, set_viewer, set_room, drop_room, room_for,
}
use xyzen_relay.Stream.Shared.Inv.{
  Inv, update-cases, room_of, handle_of, receiver_of, set_publisher-Inv, set_viewer-Inv,
  set_room-Inv, room_for-Inv, drop_room-Inv,
}

from_some {ℓ} : {A : Type ℓ} → A → Option A → A
from_some a none = a
from_some a (some x) = x

module _ {C R : Type 0} (b : Channels C R) where
  init-Inv : Inv b (init b)
  unfolding init room_of handle_of receiver_of lookup
  init-Inv = record {
    mapped = λ p room e. absurd cc;
    held = λ k room e. absurd cc;
    placed = λ v room e. absurd cc;
    alive = λ v room rx e. absurd cc;
    apart = λ v w room rx e f. absurd cc;
  }

  -- A receiver that is live, and that no viewer but `v` has.
  abbrev Own : ℕ → System C R → ℕ × R → Type 0
  Own v s (room, rx) =
      (b.live rx (s.objects room).tx ≡ true)
      × ((u : ℕ) → receiver_of (s.viewers u) ≡ some (room, rx) → u ≡ v)

  behind : ℕ → System C R → System C R
  behind room s =
      set_room b room (record (s.objects room) { tx = (b.subscribe (s.objects room).tx).1 }) s

  subscribed-Own :
      (v room : ℕ) (s : System C R)
      → Inv b s
      → (x : ℕ × R) → some (room, (b.subscribe (s.objects room).tx).0) ≡ some x
      → Own v (behind room s) x
  unfolding behind from_some set_room update
  subscribed-Own v room s inv x e =
      subst (Own v (behind room s)) (ap (from_some (room, (b.subscribe (s.objects room).tx).0)) e) (
        rw ((==_iff room room).1 refl) (b.live-subscribe (s.objects room).tx),
        λ u h. absurd (b.fresh-subscribe _ _ (inv.alive u room _ h) refl),
      )

  -- Behind the end of a viewer, nobody else has its receiver.
  left-apart :
      (v u room : ℕ) (rx x : R) (s : System C R)
      → Inv b s
      → receiver_of (s.viewers v) ≡ some (room, rx)
      → receiver_of (update s.viewers v outside u) ≡ some (room, x)
      → x ≢ rx
  unfolding receiver_of
  left-apart v u room rx x s inv mine h eq = elim (update-cases s.viewers v outside u) [
    | inl (_, f) ↦ absurd cc
    | inr (ne, f) ↦ ne (
        inv.apart u v room rx
          (sym (ap receiver_of f)
            ∙ subst (λ y. receiver_of (update s.viewers v outside u) ≡ some (room, y)) eq h)
          mine)
  ]

  Step-Inv : {s t : System C R} → Step b s t → Inv b s → Inv b t
  unfolding connects records sends ends breaks drops picks subscribes primes receives leaves room_of
      handle_of receiver_of set_room set_viewer behind
  Step-Inv {s} (connecting k p e) inv =
      let (i, lt, _) = room_for-Inv b p s inv in
      set_publisher-Inv b k (serving p (room_for b p s).0) (room_for b p s).1
        (λ room q. ground arith) i
  Step-Inv {s} (recording k p room f e) inv =
      set_publisher-Inv b k (holding p room f) _ (λ r q. inv.held k r (ap room_of e ∙ q))
        (set_room-Inv b room _ s (λ v rx h l. l) inv)
  Step-Inv {s} (sending k p room f e) inv =
      set_publisher-Inv b k (serving p room) _ (λ r q. inv.held k r (ap room_of e ∙ q))
        (set_room-Inv b room _ s (λ v rx h l. b.keep-send rx f (s.objects room).tx l) inv)
  Step-Inv {s} (ending k p room e) inv = set_publisher-Inv b k (leaving p) s (λ r q. absurd cc) inv
  Step-Inv {s} (breaking k p room e) inv = set_publisher-Inv b k away s (λ r q. absurd cc) inv
  Step-Inv {s} (dropping k p e) inv =
      set_publisher-Inv b k away (drop_room b p s) (λ r q. absurd cc) (drop_room-Inv b p s inv)
  Step-Inv {s} (picking v p e) inv =
      let (i, lt, _) = room_for-Inv b p s inv in
      set_viewer-Inv b v (picked p (room_for b p s).0) (room_for b p s).1 (λ room q. ground arith)
        (λ room rx q. absurd cc) i
  Step-Inv {s} (subscribing v p room e) inv =
      set_viewer-Inv b v (subscribed p room (b.subscribe (s.objects room).tx).0) _
        (λ r q. inv.placed v r (ap handle_of e ∙ q))
        (λ r rx q. subscribed-Own v room s inv (r, rx) q)
        (set_room-Inv b room _ s (λ u rx h l. b.keep-subscribe rx (s.objects room).tx l) inv)
  Step-Inv {s} (priming v p room rx e) inv =
      set_viewer-Inv b v (watching p room rx _) s (λ r q. inv.placed v r (ap handle_of e ∙ q))
        (λ r x q. (
          inv.alive v r x (ap receiver_of e ∙ q),
          λ u h. inv.apart u v r x h (ap receiver_of e ∙ q),
        ))
        inv
  Step-Inv {s} (receiving v p room rx cached e) inv =
      set_room-Inv b room _ s (λ u x h l. b.keep-recv x rx (s.objects room).tx l) inv
  Step-Inv {s} (hanging_up v p room rx cached e) inv =
      set_room-Inv b room _ (set_viewer b v outside s)
        (λ u x h l.
          b.keep-close x rx (s.objects room).tx l
            (left-apart v u room rx x s inv (ap receiver_of e) h))
        (set_viewer-Inv b v outside s (λ r q. absurd cc) (λ r x q. absurd cc) inv)

  pub Reached-Inv : {s : System C R} → Reached b s → Inv b s
  Reached-Inv start = init-Inv
  Reached-Inv (later r st) = Step-Inv st (Reached-Inv r)
