-- ===== src/Stream/Rooms.antt =====
-- crates/stream/src/main.rs: the rooms, and the sessions of a publisher and of a viewer.
pub mod Sessions
pub mod Joining
use Prim.Native.String.{String}
use xyzen_relay.Prelude.{
  ℕ, zero, suc, ◌<◌, ◌≡◌, Bool, true, false, Option, none, some, List, [], ◌∷◌, ◌++◌, length,
  if◌then◌else◌, ◌==◌,
}
use xyzen_relay.Prelude.Assoc.{lookup, insert, remove, string_eq}
use xyzen_relay.Stream.Warmup.{Bytes, WarmupWindow, default, record_frame, snapshot}

-- The capacity of the channel of a room.
abbrev pub channel_capacity : ℕ
channel_capacity = 256

-- `tokio::sync::broadcast`: `C` is a channel of `channel_capacity` frames, `R` a receiver, and
-- `backlog` what the receiver has not taken yet.
pub record Broadcast (C R : Type 0) : Type 0 where
  pub channel : C
  pub subscribe : C → R × C
  pub send : Bytes → C → C
  pub receiver_count : C → ℕ
  pub backlog : R → C → List Bytes
  pub backlog-subscribe : (c : C) → backlog (subscribe c).0 (subscribe c).1 ≡ []
  pub backlog-send :
      (b : Bytes) (r : R) (c : C)
      → length (backlog r c) < channel_capacity
      → backlog r (send b c) ≡ backlog r c ++ b ∷ []

pub record RoomState (C : Type 0) : Type 0 where
  pub tx : C
  pub warmup : WarmupWindow

-- What a publisher's socket yields.
pub data PublisherItem : Type 0 where
  binary : Bytes → PublisherItem
  close ignored error : PublisherItem

-- What wakes a viewer's loop: the minute's timer, or the receiver.
pub data Woken : Type 0 where
  heartbeat : Woken
  frame : Bytes → Woken
  lagged : ℕ → Woken
  closed : Woken

pub data Sent : Type 0 where
  binary : Bytes → Sent
  ping : Sent

module _ {C R : Type 0} (b : Broadcast C R) where
  abbrev pub new_room : RoomState C
  new_room = record { tx = b.channel; warmup = default }

  unfoldable pub room_for :
      List (String × RoomState C) → String → RoomState C × List (String × RoomState C)
  room_for rooms peer_id = elim (lookup peer_id rooms) [
    | some room ↦ (room, rooms)
    | none ↦ (new_room, insert peer_id new_room rooms)
  ]

  -- A frame goes to the warm-up cache before it is fanned out.
  unfoldable pub publish : Bytes → RoomState C → RoomState C
  publish bytes room =
      let recorded = record room { warmup = (record_frame room.warmup bytes).0 } in
      record recorded { tx = b.send bytes recorded.tx }

  -- The loop on the socket; `false` where `item?` returned the socket's error.
  unfoldable pub publisher_loop : List PublisherItem → RoomState C → Bool × RoomState C
  publisher_loop [] room = (true, room)
  publisher_loop (binary bytes ∷ items) room = publisher_loop items (publish bytes room)
  publisher_loop (close ∷ items) room = (true, room)
  publisher_loop (ignored ∷ items) room = publisher_loop items room
  publisher_loop (error ∷ items) room = (false, room)

  unfoldable pub drop_room : String → List (String × RoomState C) → List (String × RoomState C)
  drop_room peer_id rooms = elim (lookup peer_id rooms) [
    | none ↦ rooms
    | some room ↦ if b.receiver_count room.tx == 0 then remove peer_id rooms else rooms
  ]

  -- The session is the only one that writes to its room, so the entry of the map is that room.
  unfoldable pub handle_publisher :
      String → List PublisherItem → List (String × RoomState C) → List (String × RoomState C)
  handle_publisher peer_id items rooms =
      let (room, opened) = room_for rooms peer_id in
      let (ended, room') = publisher_loop items room in
      let rooms' = insert peer_id room' opened in if ended then drop_room peer_id rooms' else rooms'

  -- The live part of a viewer's session, for a socket that takes `more` messages.
  unfoldable pub viewer_loop : ℕ → List Woken → List Sent
  viewer_loop more [] = []
  viewer_loop more (closed ∷ woken) = []
  viewer_loop more (lagged n ∷ woken) = viewer_loop more woken
  viewer_loop zero (heartbeat ∷ woken) = []
  viewer_loop zero (frame bytes ∷ woken) = []
  viewer_loop (suc more) (heartbeat ∷ woken) = ping ∷ viewer_loop more woken
  viewer_loop (suc more) (frame bytes ∷ woken) = binary bytes ∷ viewer_loop more woken

  -- The replay of the snapshot, then the live part; the session ends at the first send that fails.
  unfoldable pub replay : ℕ → List Bytes → List Woken → List Sent
  replay more [] woken = viewer_loop more woken
  replay zero (bytes ∷ frames) woken = []
  replay (suc more) (bytes ∷ frames) woken = binary bytes ∷ replay more frames woken

  -- Subscribing comes first, the snapshot second.
  unfoldable pub handle_viewer : ℕ → List Woken → RoomState C → List Sent × RoomState C
  handle_viewer more woken room =
      let (rx, tx') = b.subscribe room.tx in
      (replay more (snapshot room.warmup) woken, record room { tx = tx' })
