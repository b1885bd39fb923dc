-- ===== src/Stream/Rooms/Sessions.antt =====
-- What a session leaves in the map of rooms, and what it sends.
use Prim.Native.String.{String}
use package.text.Mathlib.Text.{◌==◌ as str_eq}
use xyzen_relay.Prelude.{
  ℕ, zero, suc, ◌+◌, ◌≤◌, ◌≡◌, refl, ap, Bool, false, Bool-cases, inl, inr, none, some,
  Option-cases, List, [], ◌∷◌, ◌++◌, length, if◌then◌else◌, ◌==◌, ◌&&◌, arith, ◌∙◌,
}
use xyzen_relay.Prelude.Assoc.{
  lookup, insert, string_eq, lookup-insert, lookup-remove, lookup-insert_self,
}
use xyzen_relay.Stream.Warmup.{Bytes, record_all, snapshot}
use xyzen_relay.Stream.Rooms.{
  Broadcast, RoomState, PublisherItem, new_room, binary, close, ignored, error, Woken, heartbeat,
  frame, lagged, closed, Sent, ping, room_for, publish, publisher_loop, drop_room, handle_publisher,
  viewer_loop, replay, handle_viewer,
}

-- The frames that come in before the session ends.
unfoldable pub frames : List PublisherItem → List Bytes
frames [] = []
frames (binary bytes ∷ items) = bytes ∷ frames items
frames (close ∷ items) = []
frames (ignored ∷ items) = frames items
frames (error ∷ items) = []

-- The frames a viewer is woken for before its channel closes, and those it was sent.
unfoldable pub live : List Woken → List Bytes
live [] = []
live (heartbeat ∷ woken) = live woken
live (frame bytes ∷ woken) = bytes ∷ live woken
live (lagged n ∷ woken) = live woken
live (closed ∷ woken) = []

unfoldable pub sent_frames : List Sent → List Bytes
sent_frames [] = []
sent_frames (binary bytes ∷ sent) = bytes ∷ sent_frames sent
sent_frames (ping ∷ sent) = sent_frames sent

module _ {C R : Type 0} (b : Broadcast C R) where
  -- The cache of the room is that of the frames that came in.
  publisher_loop-warmup :
      (items : List PublisherItem) (room : RoomState C)
      → (publisher_loop b items room).1.warmup ≡ record_all room.warmup (frames items)
  unfolding publisher_loop publish frames record_all
  publisher_loop-warmup [] room = refl
  publisher_loop-warmup (binary bytes ∷ items) room =
      publisher_loop-warmup items (publish b bytes room)
  publisher_loop-warmup (close ∷ items) room = refl
  publisher_loop-warmup (ignored ∷ items) room = publisher_loop-warmup items room
  publisher_loop-warmup (error ∷ items) room = refl

  viewer_loop-live :
      (more : ℕ) (woken : List Woken)
      → length woken ≤ more
      → sent_frames (viewer_loop b more woken) ≡ live woken
  unfolding viewer_loop live sent_frames
  viewer_loop-live more [] h = refl
  viewer_loop-live more (closed ∷ woken) h = refl
  viewer_loop-live more (lagged n ∷ woken) h = viewer_loop-live more woken (omega arith)
  viewer_loop-live zero (heartbeat ∷ woken) h = absurd (omega arith)
  viewer_loop-live zero (frame bytes ∷ woken) h = absurd (omega arith)
  viewer_loop-live (suc more) (heartbeat ∷ woken) h = viewer_loop-live more woken (omega arith)
  viewer_loop-live (suc more) (frame bytes ∷ woken) h =
      ap (◌∷◌ bytes) (viewer_loop-live more woken (omega arith))

  replay-live :
      (more : ℕ) (cached : List Bytes) (woken : List Woken)
      → length cached + length woken ≤ more
      → sent_frames (replay b more cached woken) ≡ cached ++ live woken
  unfolding replay sent_frames
  replay-live more [] woken h = viewer_loop-live more woken (omega arith)
  replay-live zero (bytes ∷ cached) woken h = absurd (omega arith)
  replay-live (suc more) (bytes ∷ cached) woken h =
      ap (◌∷◌ bytes) (replay-live more cached woken (omega arith))

  -- A viewer whose socket takes every message is sent the cached frames and then, in order, every
  -- frame that its receiver yields until the channel closes, heartbeats apart.
  pub handle_viewer-live :
      (more : ℕ) (woken : List Woken) (room : RoomState C)
      → length (snapshot room.warmup) + length woken ≤ more
      → sent_frames (handle_viewer b more woken room).0 ≡ snapshot room.warmup ++ live woken
  unfolding handle_viewer
  handle_viewer-live more woken room h = replay-live more (snapshot room.warmup) woken h

  room_for-lookup :
      (rooms : List (String × RoomState C)) (peer_id other : String)
      → str_eq peer_id other ≡ false
      → lookup other (room_for b rooms peer_id).1 ≡ lookup other rooms
  unfolding room_for
  room_for-lookup rooms peer_id other ne = elim (Option-cases (lookup peer_id rooms)) [
    | inl e ↦ rw (e, room_for) (lookup-insert peer_id other (new_room b) rooms ∙ rw ne refl)
    | inr (room, e) ↦ rw (e, room_for) refl
  ]

  drop_room-lookup :
      (peer_id other : String) (room : RoomState C) (rooms : List (String × RoomState C))
      → lookup peer_id rooms ≡ some room
      → lookup other (drop_room b peer_id rooms) ≡ (
          if b.receiver_count room.tx == 0
          then (if str_eq peer_id other then none else lookup other rooms)
          else lookup other rooms)
  unfolding drop_room
  drop_room-lookup peer_id other room rooms e = elim (Bool-cases (b.receiver_count room.tx == 0)) [
    | inl unused ↦ rw (e, drop_room, unused) (lookup-remove peer_id other rooms)
    | inr used ↦ rw (e, drop_room, used) refl
  ]

  closed_lookup :
      (ended : Bool) (peer_id other : String) (room : RoomState C)
      (rooms opened : List (String × RoomState C))
      → (str_eq peer_id other ≡ false → lookup other opened ≡ lookup other rooms)
      → lookup other (
          if ended
          then drop_room b peer_id (insert peer_id room opened)
          else insert peer_id room opened)
        ≡ (if str_eq peer_id other
            then (if ended && (b.receiver_count room.tx == 0) then none else some room)
            else lookup other rooms)
  closed_lookup ended peer_id other room rooms opened same =
      let dropped =
        drop_room-lookup peer_id other room (insert peer_id room opened)
          (lookup-insert_self peer_id room opened) in
      let inserted = lookup-insert peer_id other room opened in
      elim (Bool-cases (str_eq peer_id other)) [
        | inl eq ↦ ground (arith, dropped, inserted)
        | inr ne ↦ let kept = same ne in ground (arith, dropped, inserted)
      ]

  -- What is in the map behind a publisher's session: nothing for its id if the socket ended without
  -- an error and nobody watches, else the room with the cache of this session on top of what it was
  -- before. All other rooms are as they were.
  pub handle_publisher-lookup :
      (peer_id other : String) (items : List PublisherItem) (rooms : List (String × RoomState C))
      → lookup other (handle_publisher b peer_id items rooms) ≡ (
          if str_eq peer_id other
          then (if (publisher_loop b items (room_for b rooms peer_id).0).0
                && (b.receiver_count (publisher_loop b items (room_for b rooms peer_id).0).1.tx
                    == 0)
              then none
              else some (publisher_loop b items (room_for b rooms peer_id).0).1)
          else lookup other rooms)
  unfolding handle_publisher
  handle_publisher-lookup peer_id other items rooms =
      closed_lookup _ peer_id other _ rooms _ (room_for-lookup rooms peer_id other)
