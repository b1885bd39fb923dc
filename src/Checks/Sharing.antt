-- ===== src/Checks/Sharing.antt =====
-- Runs of the sessions that share rooms, with channels that keep the queue of each receiver.
use xyzen_relay.Prelude.{
  ℕ, zero, suc, ◌<◌, ◌≡◌, ◌≢◌, refl, Bool, true, false, ◌&&◌, inl, inr, some, List, [], ◌∷◌, ◌++◌,
  ltb, ◌==◌, ==_iff, if◌then◌else◌, Bool-cases, arith,
}
use xyzen_relay.Prelude.Assoc.{lookup, insert, remove, string_eq}
use xyzen_relay.Stream.Warmup.{Bytes, snapshot}
use xyzen_relay.Stream.Rooms.{Broadcast}
use xyzen_relay.Stream.Shared.{
  Channels, System, update, init, connects, records, sends, ends, drops, picks, subscribes, primes,
  leaves, connecting, recording, sending, ending, picking, subscribing, priming, Reached, start,
  later, room_for, set_viewer, set_room, set_publisher, drop_room, serving,
}
use xyzen_relay.Stream.Shared.Inv.{room_of, handle_of, receiver_of}
use xyzen_relay.Stream.Shared.Kept.{During, here, next, watched_room-kept}
use xyzen_relay.Stream.Shared.Delivered.{watched_room-delivered}
use xyzen_relay.Stream.Shared.Lost.{dropped_room-apart, watched_room-stale}

record Line : Type 0 where
  queue : ℕ → List Bytes
  attached : ℕ → Bool
  count : ℕ

attached_below : ℕ → (ℕ → Bool) → ℕ
attached_below zero f = 0
attached_below (suc n) f = if f n then suc (attached_below n f) else attached_below n f

without_first : List Bytes → List Bytes
without_first [] = []
without_first (f ∷ fs) = fs

some_attached :
    (n : ℕ) (f : ℕ → Bool) (r : ℕ) → r < n → f r ≡ true → (attached_below n f == 0) ≢ true
unfolding attached_below
some_attached zero f r lt e = absurd (omega arith)
some_attached (suc n) f r lt e = elim (Bool-cases (r == n)) [
  | inl eq ↦ let same = (==_iff r n).0 eq in ground arith
  | inr ne ↦ let rest = some_attached n f r in ground arith
]

lines : Broadcast Line ℕ
unfolding update
lines = record {
  channel = record { queue = λ r. []; attached = λ r. false; count = 0 };
  subscribe = λ c. (
    c.count,
    record {
      queue = update c.queue c.count [];
      attached = update c.attached c.count true;
      count = suc c.count;
    },
  );
  send = λ f c. record c { queue = λ r. c.queue r ++ f ∷ [] };
  receiver_count = λ c. attached_below c.count c.attached;
  backlog = λ r c. c.queue r;
  backlog-subscribe = λ c. rw ((==_iff c.count c.count).1 refl) refl;
  backlog-send = λ f r c few. refl;
}

attached_to : ℕ → Line → Bool
attached_to r c = ltb r c.count && c.attached r

channels : Channels Line ℕ
unfolding lines attached_to update
channels = record {
  broadcast = lines;
  recv = λ r c. record c { queue = update c.queue r (without_first (c.queue r)) };
  close = λ r c. record c { attached = update c.attached r false };
  live = attached_to;
  live-subscribe = λ c. ground arith;
  fresh-subscribe = λ r c l e. ground arith;
  keep-subscribe = λ r c l. ground arith;
  keep-send = λ r f c l. l;
  keep-recv = λ r q c l. l;
  keep-close = λ r q c l ne. ground arith;
  counted = λ r c l. some_attached c.count c.attached r (ground arith) (ground arith);
}

abbrev idr : Bytes
idr = 0 ∷ 0 ∷ 0 ∷ 0 ∷ 0 ∷ 0 ∷ 0 ∷ 0 ∷ 0 ∷ 0 ∷ 0 ∷ 1 ∷ 0x26 ∷ []

-- Viewer 0 watches before anybody publishes.
abbrev early : System Line ℕ
early =
    primes channels 0 "7" 0 0 (subscribes channels 0 "7" 0 (picks channels 0 "7" (init channels)))

-- Then publisher 0 connects and records a frame.
abbrev recorded : System Line ℕ
recorded = records channels 0 "7" 0 idr (connects channels 0 "7" early)

early-Reached : Reached channels early
unfolding init room_for set_viewer set_room set_publisher picks subscribes primes connects records
    update lookup insert receiver_of lines channels
early-Reached =
    later (later (later start (picking 0 "7" refl)) (subscribing 0 "7" 0 refl))
      (priming 0 "7" 0 0 refl)

recorded-During : During channels 0 0 0 early recorded
unfolding init room_for set_viewer set_room set_publisher picks subscribes primes connects records
    update lookup insert receiver_of lines channels
recorded-During = next (next here refl (connecting 0 "7" refl)) refl (recording 0 "7" 0 idr refl)

watched_room-kept_example : lookup "7" recorded.rooms ≡ some 0
unfolding init room_for set_viewer set_room set_publisher picks subscribes primes connects records
    update lookup insert receiver_of lines channels
watched_room-kept_example = watched_room-kept channels "7" 0 0 0 early-Reached refl recorded-During

watched_room-delivered_example :
    lines.backlog 0 ((sends channels 0 "7" 0 idr recorded).objects 0).tx ≡ idr ∷ []
unfolding init room_for set_viewer set_room set_publisher picks subscribes primes connects records
    update lookup insert receiver_of lines channels
watched_room-delivered_example =
    watched_room-delivered channels "7" 0 0 0 0 0 idr early-Reached refl refl recorded-During refl
      (omega arith)

-- Two publishers of one id, the first of which is about to visit the map.
abbrev two : System Line ℕ
two = ends channels 0 "7" (connects channels 1 "7" (connects channels 0 "7" (init channels)))

two-Reached : Reached channels two
unfolding init room_for set_viewer set_room set_publisher picks subscribes primes connects records
    sends ends update lookup insert receiver_of lines channels
two-Reached =
    later (later (later start (connecting 0 "7" refl)) (connecting 1 "7" refl))
      (ending 0 "7" 0 refl)

dropped_room-apart_example :
    ((j r : ℕ)
      → room_of ((drops channels 0 "7" two).publishers j) ≡ some r
      → (room_for channels "7" (drops channels 0 "7" two)).0 ≢ r)
    × ((v r : ℕ)
        → handle_of ((drops channels 0 "7" two).viewers v) ≡ some r
        → (room_for channels "7" (drops channels 0 "7" two)).0 ≢ r)
unfolding init room_for set_viewer set_room set_publisher picks subscribes primes connects records
    sends ends update lookup insert receiver_of lines channels attached_below drops drop_room remove
dropped_room-apart_example = dropped_room-apart channels "7" 0 0 two-Reached refl refl refl

-- The publisher that is left sends to a room that nobody can find.
two_apart :
    (r : ℕ) × ((drops channels 0 "7" two).publishers 1 ≡ serving "7" r)
    × ((room_for channels "7" (drops channels 0 "7" two)).0 ≢ r)
unfolding init room_for set_viewer set_room set_publisher picks subscribes primes connects records
    sends ends update lookup insert receiver_of lines channels attached_below drops drop_room remove
two_apart = (0, refl, ground arith)

-- Viewer 0 watches what publisher 0 has sent, and publisher 0 has not ended.
abbrev served : System Line ℕ
served = sends channels 0 "7" 0 idr recorded

served-Reached : Reached channels served
unfolding init room_for set_viewer set_room set_publisher picks subscribes primes connects records
    sends ends update lookup insert receiver_of lines channels
served-Reached =
    later (later (later early-Reached (connecting 0 "7" refl)) (recording 0 "7" 0 idr refl))
      (sending 0 "7" 0 idr refl)

watched_room-stale_example :
    (room_for channels "7"
        (leaves channels 0 0 0 (drops channels 0 "7" (ends channels 0 "7" served)))
      ≡ (0, leaves channels 0 0 0 (drops channels 0 "7" (ends channels 0 "7" served))))
    × (snapshot
          ((leaves channels 0 0 0 (drops channels 0 "7" (ends channels 0 "7" served))).objects
            0).warmup
        ≡ snapshot (served.objects 0).warmup)
unfolding init room_for set_viewer set_room set_publisher picks subscribes primes connects records
    sends ends update lookup insert receiver_of lines channels snapshot
watched_room-stale_example =
    watched_room-stale channels "7" 0 0 0 0 [] served-Reached refl refl refl
