-- ===== src/Stream/Shared.antt =====
-- crates/stream/src/main.rs: the rooms as objects that the map, the publishers and the viewers
-- share (`Arc<RoomState>`), with any number of sessions at any point of their code.
pub mod Inv
pub mod Kept
pub mod Delivered
pub mod Lost
use Prim.Native.String.{String}
use xyzen_relay.Prelude.{
  ℕ, suc, ◌<◌, ◌≡◌, ◌≢◌, Bool, true, Option, none, some, List, [], ◌∷◌, ◌++◌, if◌then◌else◌, ◌==◌,
}
use xyzen_relay.Prelude.Assoc.{lookup, insert, remove, string_eq}
use xyzen_relay.Stream.Warmup.{Bytes, record_frame, snapshot}
use xyzen_relay.Stream.Rooms.{Broadcast, RoomState, new_room}

-- What else `tokio::sync::broadcast` does: `recv` takes the oldest frame of a receiver, `close` is
-- the drop of a receiver, and `live` says whether a receiver belongs to the channel and has not
-- been dropped.
pub record Channels (C R : Type 0) : Type 0 where
  pub broadcast : Broadcast C R
  pub open broadcast use *
  pub recv : R → C → C
  pub close : R → C → C
  pub live : R → C → Bool
  pub live-subscribe : (c : C) → live (subscribe c).0 (subscribe c).1 ≡ true
  pub fresh-subscribe : (r : R) (c : C) → live r c ≡ true → r ≢ (subscribe c).0
  pub keep-subscribe : (r : R) (c : C) → live r c ≡ true → live r (subscribe c).1 ≡ true
  pub keep-send : (r : R) (f : Bytes) (c : C) → live r c ≡ true → live r (send f c) ≡ true
  pub keep-recv : (r q : R) (c : C) → live r c ≡ true → live r (recv q c) ≡ true
  pub keep-close : (r q : R) (c : C) → live r c ≡ true → r ≢ q → live r (close q c) ≡ true
  pub counted : (r : R) (c : C) → live r c ≡ true → (receiver_count c == 0) ≢ true

-- A session of `handle_publisher`: it holds its room, may hold a frame that it has recorded and not
-- yet sent, and after its loop it has the map still to visit.
pub data Publisher : Type 0 where
  away : Publisher
  serving : String → ℕ → Publisher
  holding : String → ℕ → Bytes → Publisher
  leaving : String → Publisher

-- A session of `handle_viewer`: behind `room_for`, behind `subscribe`, and with the frames of the
-- snapshot.
pub data Viewer (R : Type 0) : Type 0 where
  outside : Viewer R
  picked : String → ℕ → Viewer R
  subscribed : String → ℕ → R → Viewer R
  watching : String → ℕ → R → List Bytes → Viewer R

-- The map names rooms by their address, `made` is the number of rooms so far.
pub record System (C R : Type 0) : Type 0 where
  pub rooms : List (String × ℕ)
  pub objects : ℕ → RoomState C
  pub made : ℕ
  pub publishers : ℕ → Publisher
  pub viewers : ℕ → Viewer R

unfoldable pub update {ℓ} : {A : Type ℓ} → (ℕ → A) → ℕ → A → ℕ → A
update f i a j = if j == i then a else f j

module _ {C R : Type 0} (b : Channels C R) where
  unfoldable pub init : System C R
  init = record {
    rooms = [];
    objects = λ _. new_room b.broadcast;
    made = 0;
    publishers = λ _. away;
    viewers = λ _. outside;
  }

  -- Under the lock of the map.
  unfoldable pub room_for : String → System C R → ℕ × System C R
  unfolding update
  room_for peer_id s = elim (lookup peer_id s.rooms) [
    | some room ↦ (room, s)
    | none ↦ (
      s.made,
      record s {
        rooms = insert peer_id s.made s.rooms;
        objects = update s.objects s.made (new_room b.broadcast);
        made = suc s.made;
      },
    )
  ]

  unfoldable pub set_publisher : ℕ → Publisher → System C R → System C R
  unfolding update
  set_publisher k p s = record s { publishers = update s.publishers k p }

  unfoldable pub set_viewer : ℕ → Viewer R → System C R → System C R
  unfolding update
  set_viewer v w s = record s { viewers = update s.viewers v w }

  unfoldable pub set_room : ℕ → RoomState C → System C R → System C R
  unfolding update
  set_room room x s = record s { objects = update s.objects room x }

  abbrev set_tx : ℕ → C → System C R → System C R
  set_tx room c s = set_room room (record (s.objects room) { tx = c }) s

  unfoldable pub connects : ℕ → String → System C R → System C R
  connects k peer_id s =
      let (room, s') = room_for peer_id s in set_publisher k (serving peer_id room) s'

  unfoldable pub records : ℕ → String → ℕ → Bytes → System C R → System C R
  records k peer_id room f s =
      let x = s.objects room in
      set_publisher k (holding peer_id room f)
        (set_room room (record x { warmup = (record_frame x.warmup f).0 }) s)

  unfoldable pub sends : ℕ → String → ℕ → Bytes → System C R → System C R
  sends k peer_id room f s =
      set_publisher k (serving peer_id room) (set_tx room (b.send f (s.objects room).tx) s)

  -- A message of closing, or the end of the socket.
  unfoldable pub ends : ℕ → String → System C R → System C R
  ends k peer_id s = set_publisher k (leaving peer_id) s

  -- `item?` on an error of the socket: the code behind the loop is not reached.
  unfoldable pub breaks : ℕ → System C R → System C R
  breaks k s = set_publisher k away s

  -- Under the lock of the map.
  unfoldable pub drop_room : String → System C R → System C R
  drop_room peer_id s = elim (lookup peer_id s.rooms) [
    | none ↦ s
    | some room ↦
        if b.receiver_count (s.objects room).tx == 0
        then record s { rooms = remove peer_id s.rooms }
        else s
  ]

  unfoldable pub drops : ℕ → String → System C R → System C R
  drops k peer_id s = set_publisher k away (drop_room peer_id s)

  unfoldable pub picks : ℕ → String → System C R → System C R
  picks v peer_id s = let (room, s') = room_for peer_id s in set_viewer v (picked peer_id room) s'

  unfoldable pub subscribes : ℕ → String → ℕ → System C R → System C R
  subscribes v peer_id room s =
      let (rx, tx) = b.subscribe (s.objects room).tx in
      set_viewer v (subscribed peer_id room rx) (set_tx room tx s)

  unfoldable pub primes : ℕ → String → ℕ → R → System C R → System C R
  primes v peer_id room rx s =
      set_viewer v (watching peer_id room rx (snapshot (s.objects room).warmup)) s

  -- `rx.recv()` in the loop.
  unfoldable pub receives : ℕ → R → System C R → System C R
  receives room rx s = set_tx room (b.recv rx (s.objects room).tx) s

  -- A send to the viewer failed, and the receiver is dropped with the session.
  unfoldable pub leaves : ℕ → ℕ → R → System C R → System C R
  leaves v room rx s = set_viewer v outside (set_tx room (b.close rx (s.objects room).tx) s)

  -- One step of one session.
  pub data Step (s : System C R) : System C R → Type 0 where
    connecting : (k : ℕ) (p : String) → s.publishers k ≡ away → Step s (connects k p s)
    recording :
        (k : ℕ) (p : String) (room : ℕ) (f : Bytes)
        → s.publishers k ≡ serving p room
        → Step s (records k p room f s)
    sending :
        (k : ℕ) (p : String) (room : ℕ) (f : Bytes)
        → s.publishers k ≡ holding p room f
        → Step s (sends k p room f s)
    ending : (k : ℕ) (p : String) (room : ℕ) → s.publishers k ≡ serving p room → Step s (ends k p s)
    breaking :
        (k : ℕ) (p : String) (room : ℕ) → s.publishers k ≡ serving p room → Step s (breaks k s)
    dropping : (k : ℕ) (p : String) → s.publishers k ≡ leaving p → Step s (drops k p s)
    picking : (v : ℕ) (p : String) → s.viewers v ≡ outside → Step s (picks v p s)
    subscribing :
        (v : ℕ) (p : String) (room : ℕ)
        → s.viewers v ≡ picked p room
        → Step s (subscribes v p room s)
    priming :
        (v : ℕ) (p : String) (room : ℕ) (rx : R)
        → s.viewers v ≡ subscribed p room rx
        → Step s (primes v p room rx s)
    receiving :
        (v : ℕ) (p : String) (room : ℕ) (rx : R) (cached : List Bytes)
        → s.viewers v ≡ watching p room rx cached
        → Step s (receives room rx s)
    hanging_up :
        (v : ℕ) (p : String) (room : ℕ) (rx : R) (cached : List Bytes)
        → s.viewers v ≡ watching p room rx cached
        → Step s (leaves v room rx s)

  pub data Reached : System C R → Type 0 where
    start : Reached init
    later : {s t : System C R} → Reached s → Step s t → Reached t
