-- ===== src/Stream/Rooms/Joining/Caught.antt =====
-- A joining viewer misses no frame.
use xyzen_relay.Prelude.{
  ◌≤◌, ◌<◌, ◌≡◌, refl, sym, ap, subst, ◌∙◌, none, some, List, [], ◌∷◌, ◌++◌, length, length-append,
  append_assoc, append-nil, arith,
}
use xyzen_relay.Stream.Warmup.{Bytes, WarmupWindow, default, record_frame, record_all, snapshot}
use xyzen_relay.Stream.Rooms.{Broadcast, channel_capacity}
use xyzen_relay.Stream.Rooms.Joining.{
  Viewer, outside, subscribed, primed, Scene, hand, records, sends, subscribes, primes, Reached,
  empty, recording, sending, subscribing, priming,
}

-- The frames behind the subscription are the last ones of the recorded ones.
abbrev Following : List Bytes → List Bytes → Type 0
Following recorded pending = (before : List Bytes) × (recorded ≡ before ++ pending)

-- The snapshot is that of all frames up to some moment, and every later frame is pending.
pub Caught : List Bytes → List Bytes → List Bytes → Type 0
Caught recorded pending cached =
    (seen : List Bytes) × ((later : List Bytes) × ((overlap : List Bytes) × ((recorded
            ≡ seen ++ later)
          × (cached ≡ snapshot (record_all default seen))
          × (pending ≡ overlap ++ later))))

snoc : List Bytes → Bytes → List Bytes
snoc xs f = xs ++ f ∷ []

Following-snoc :
    (f : Bytes) (recorded pending : List Bytes)
    → Following recorded pending
    → Following (snoc recorded f) (snoc pending f)
unfolding snoc
Following-snoc f recorded pending (before, e) =
    (before, ap (λ l. l ++ f ∷ []) e ∙ append_assoc before pending (f ∷ []))

Caught-snoc :
    (f : Bytes) (recorded pending cached : List Bytes)
    → Caught recorded pending cached
    → Caught (snoc recorded f) (snoc pending f) cached
unfolding snoc Caught
Caught-snoc f recorded pending cached (seen, (later, (overlap, (e, c, p)))) = (
  seen,
  (
    later ++ f ∷ [],
    (
      overlap,
      (
        ap (λ l. l ++ f ∷ []) e ∙ append_assoc seen later (f ∷ []),
        c,
        ap (λ l. l ++ f ∷ []) p ∙ append_assoc overlap later (f ∷ []),
      ),
    ),
  ),
)

record_all-snoc :
    (w : WarmupWindow) (fs : List Bytes) (f : Bytes)
    → record_all w (fs ++ f ∷ []) ≡ (record_frame (record_all w fs) f).0
unfolding record_all
record_all-snoc w [] f = refl
record_all-snoc w (g ∷ fs) f = record_all-snoc (record_frame w g).0 fs f

module _ {C R : Type 0} (b : Broadcast C R) where
  pending : R → Scene C R → List Bytes
  pending r s = b.backlog r s.tx ++ hand s.in_hand

  pub Fits : Viewer R → Scene C R → Type 0
  Fits outside s = Unit {0}
  Fits (subscribed r) s = Following s.recorded (pending r s)
  Fits (primed r cached) s =
      Following s.recorded (pending r s) × Caught s.recorded (pending r s) cached

  -- The cache is that of the recorded frames, all of which but the one in hand have been sent.
  abbrev pub Inv : Scene C R → Type 0
  Inv s =
      (s.warmup ≡ record_all default s.recorded)
      × Following s.recorded (hand s.in_hand)
      × Fits s.viewer s

  pending-records :
      (f : Bytes) (r : R) (s : Scene C R)
      → s.in_hand ≡ none
      → pending r (records b f s) ≡ snoc (pending r s) f
  unfolding pending snoc
  pending-records f r s e = rw e (ap (λ l. l ++ f ∷ []) (sym (append-nil (b.backlog r s.tx))))

  pending-sends :
      (f : Bytes) (r : R) (s : Scene C R)
      → s.in_hand ≡ some f
      → length s.recorded ≤ channel_capacity
      → Following s.recorded (pending r s)
      → pending r (sends b f s) ≡ pending r s
  unfolding pending
  pending-sends f r s e few (before, all) =
      append-nil _
      ∙ b.backlog-send f r s.tx (room_left)
      ∙ ap (λ h. b.backlog r s.tx ++ hand h) (sym e)
    where
      room_left : length (b.backlog r s.tx) < channel_capacity
      room_left = omega (
        arith,
        few,
        ap length all,
        length-append before (pending r s),
        length-append (b.backlog r s.tx) (hand s.in_hand),
        ap (λ h. length (hand h)) e,
      )

  Fits-records :
      (f : Bytes) (v : Viewer R) (s : Scene C R)
      → s.in_hand ≡ none
      → Fits v s
      → Fits v (records b f s)
  unfolding Fits snoc
  Fits-records f outside s e h = tt
  Fits-records f (subscribed r) s e h =
      subst (Following (snoc s.recorded f)) (sym (pending-records f r s e))
        (Following-snoc f s.recorded (pending r s) h)
  Fits-records f (primed r cached) s e (h, g) = (
    subst (Following (snoc s.recorded f)) (sym (pending-records f r s e))
        (Following-snoc f s.recorded (pending r s) h),
    subst (λ p. Caught (snoc s.recorded f) p cached) (sym (pending-records f r s e))
        (Caught-snoc f s.recorded (pending r s) cached g),
  )

  Fits-sends :
      (f : Bytes) (v : Viewer R) (s : Scene C R)
      → s.in_hand ≡ some f
      → length s.recorded ≤ channel_capacity
      → Fits v s
      → Fits v (sends b f s)
  unfolding Fits
  Fits-sends f outside s e few h = tt
  Fits-sends f (subscribed r) s e few h =
      subst (Following s.recorded) (sym (pending-sends f r s e few h)) h
  Fits-sends f (primed r cached) s e few (h, g) = (
    subst (Following s.recorded) (sym (pending-sends f r s e few h)) h,
    subst (λ p. Caught s.recorded p cached) (sym (pending-sends f r s e few h)) g,
  )

  Fits-subscribes :
      (s : Scene C R)
      → Following s.recorded (hand s.in_hand)
      → Fits (subscribed (b.subscribe s.tx).0) (subscribes b s)
  unfolding Fits pending
  Fits-subscribes s h = rw (b.backlog-subscribe s.tx) h

  Fits-primes :
      (r : R) (s : Scene C R)
      → s.warmup ≡ record_all default s.recorded
      → Following s.recorded (pending r s)
      → Fits (primed r (snapshot s.warmup)) (primes b r s)
  unfolding Fits Caught pending
  Fits-primes r s w h = (
    h,
    (s.recorded, ([], (pending r s, (sym (append-nil _), ap snapshot w, sym (append-nil _))))),
  )

  subscribed-Following :
      (r : R) (s : Scene C R)
      → s.viewer ≡ subscribed r
      → Fits s.viewer s
      → Following s.recorded (pending r s)
  unfolding Fits
  subscribed-Following r s e h = subst (λ v. Fits v s) e h

  Reached-Inv : (s : Scene C R) → Reached b s → length s.recorded ≤ channel_capacity → Inv s
  unfolding snoc Fits record_all
  Reached-Inv _ empty few = (refl, ([], refl), tt)
  Reached-Inv _ (recording f s e r) few =
      let (w, h, v) = Reached-Inv s r (omega (arith, few, length-append s.recorded (f ∷ []))) in
      (
        ap (λ x. (record_frame x f).0) w ∙ sym (record_all-snoc default s.recorded f),
        (s.recorded, refl),
        Fits-records f s.viewer s e v,
      )
  Reached-Inv _ (sending f s e r) few =
      let (w, h, v) = Reached-Inv s r few in
      (w, (s.recorded, sym (append-nil s.recorded)), Fits-sends f s.viewer s e few v)
  Reached-Inv _ (subscribing s e r) few =
      let (w, h, v) = Reached-Inv s r few in (w, h, Fits-subscribes s h)
  Reached-Inv _ (priming q s e r) few =
      let (w, h, v) = Reached-Inv s r few in
      (w, h, Fits-primes q s w (subscribed-Following q s e v))

  -- However the steps of a publisher and of a joining viewer interleave, as long as the channel has
  -- had no more frames than it holds: the viewer's snapshot is that of all frames recorded up to
  -- some moment, and every frame recorded later is in the viewer's backlog or about to be sent.
  pub primed-Caught :
      (s : Scene C R) (r : R) (cached : List Bytes)
      → Reached b s
      → s.viewer ≡ primed r cached
      → length s.recorded ≤ channel_capacity
      → Caught s.recorded (b.backlog r s.tx ++ hand s.in_hand) cached
  unfolding Fits pending
  primed-Caught s r cached run e few =
      let (w, h, v) = Reached-Inv s run few in
      let fits : Fits (primed r cached) s = subst (λ x. Fits x s) e v in fits.1
