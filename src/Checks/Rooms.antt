-- ===== src/Checks/Rooms.antt =====
-- Runs of the rooms, with a channel that keeps all frames.
use xyzen_relay.Prelude.{
  ℕ, suc, ◌≡◌, refl, none, List, [], ◌∷◌, ◌++◌, ◌==◌, ==_iff, if◌then◌else◌, arith,
}
use xyzen_relay.Prelude.Assoc.{lookup, string_eq}
use xyzen_relay.Stream.Warmup.{Bytes, default, snapshot, record_frame}
use xyzen_relay.Stream.Rooms.{
  Broadcast, binary, close, heartbeat, frame, closed, handle_publisher, handle_viewer, room_for,
  publisher_loop, publish,
}
use xyzen_relay.Stream.Rooms.Sessions.{
  sent_frames, live, handle_publisher-lookup, handle_viewer-live,
}
use xyzen_relay.Stream.Rooms.Joining.{
  Scene, empty_scene, records, sends, subscribes, primes, empty, recording, sending, subscribing,
  priming, hand,
}
use xyzen_relay.Stream.Rooms.Joining.Caught.{Caught, primed-Caught}

-- A channel is the queue of each receiver and the number of receivers so far.
abbrev Channel : Type 0
Channel = (ℕ → List Bytes) × ℕ

queues : Broadcast Channel ℕ
queues = record {
  channel = (λ r. [], 0);
  subscribe = λ c. (c.1, (λ r. if r == c.1 then [] else c.0 r, suc c.1));
  send = λ f c. (λ r. c.0 r ++ f ∷ [], c.1);
  receiver_count = λ c. c.1;
  backlog = λ r c. c.0 r;
  backlog-subscribe = λ c. rw ((==_iff c.1 c.1).1 refl) refl;
  backlog-send = λ f r c few. refl;
}

abbrev vps : Bytes
vps = 0 ∷ 0 ∷ 0 ∷ 0 ∷ 0 ∷ 0 ∷ 0 ∷ 0 ∷ 0 ∷ 0 ∷ 0 ∷ 1 ∷ 0x40 ∷ []

abbrev idr : Bytes
idr = 0 ∷ 0 ∷ 0 ∷ 0 ∷ 0 ∷ 0 ∷ 0 ∷ 0 ∷ 0 ∷ 0 ∷ 0 ∷ 1 ∷ 0x26 ∷ []

-- The viewer subscribes, the publisher records a frame, the viewer takes its snapshot, and the
-- publisher sends the frame.
abbrev joined : Scene Channel ℕ
joined =
    sends queues vps (primes queues 0 (records queues vps (subscribes queues (empty_scene queues))))

primed-Caught_example :
    Caught joined.recorded
      (queues.backlog 0 joined.tx ++ hand joined.in_hand)
      (snapshot (record_frame default vps).0)
unfolding queues
primed-Caught_example =
    primed-Caught queues joined 0 (snapshot (record_frame default vps).0)
      (sending vps _ refl (priming 0 _ refl (recording vps _ refl (subscribing _ refl empty)))) refl
      (omega arith)

handle_viewer-live_example :
    sent_frames
      (handle_viewer queues 3
        (heartbeat ∷ frame idr ∷ closed ∷ [])
        (record { tx = queues.channel; warmup = default })).0
    ≡ idr ∷ []
unfolding live snapshot
handle_viewer-live_example =
    handle_viewer-live queues 3 (heartbeat ∷ frame idr ∷ closed ∷ [])
      (record { tx = queues.channel; warmup = default }) (omega arith)

-- A session that ends, with nobody watching.
handle_publisher-lookup_example :
    lookup "123456789" (handle_publisher queues "123456789" (binary vps ∷ close ∷ []) []) ≡ none
unfolding queues publisher_loop room_for lookup publish
handle_publisher-lookup_example =
    handle_publisher-lookup queues "123456789" "123456789" (binary vps ∷ close ∷ []) []
