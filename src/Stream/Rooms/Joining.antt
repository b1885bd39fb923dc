-- ===== src/Stream/Rooms/Joining.antt =====
-- A viewer that joins while a publisher is sending: the session of the one between any two steps of
-- the other.
pub mod Caught
use xyzen_relay.Prelude.{◌≡◌, Option, none, some, List, [], ◌∷◌, ◌++◌}
use xyzen_relay.Stream.Warmup.{Bytes, WarmupWindow, default, record_frame, snapshot}
use xyzen_relay.Stream.Rooms.{Broadcast}

-- How far `handle_viewer` is: before `subscribe`, between it and the snapshot, and behind it.
pub data Viewer (R : Type 0) : Type 0 where
  outside : Viewer R
  subscribed : R → Viewer R
  primed : R → List Bytes → Viewer R

-- The room, the frame that the publisher has recorded and not yet sent, and the viewer. `recorded`
-- lists the frames of the cache so far, the first one first.
pub record Scene (C R : Type 0) : Type 0 where
  pub tx : C
  pub warmup : WarmupWindow
  pub in_hand : Option Bytes
  pub viewer : Viewer R
  pub recorded : List Bytes

abbrev pub hand : Option Bytes → List Bytes
hand none = []
hand (some f) = f ∷ []

-- The runs, from an empty room, and the number of frames sent since the viewer subscribed.
module _ {C R : Type 0} (b : Broadcast C R) where
  abbrev pub empty_scene : Scene C R
  empty_scene = record {
    tx = b.channel;
    warmup = default;
    in_hand = none;
    viewer = outside;
    recorded = [];
  }

  abbrev pub records : Bytes → Scene C R → Scene C R
  records f s = record s {
    warmup = (record_frame s.warmup f).0;
    in_hand = some f;
    recorded = s.recorded ++ f ∷ [];
  }

  abbrev pub sends : Bytes → Scene C R → Scene C R
  sends f s = record s { tx = b.send f s.tx; in_hand = none }

  abbrev pub subscribes : Scene C R → Scene C R
  subscribes s = record s { tx = (b.subscribe s.tx).1; viewer = subscribed (b.subscribe s.tx).0 }

  abbrev pub primes : R → Scene C R → Scene C R
  primes r s = record s { viewer = primed r (snapshot s.warmup) }

  pub data Reached : Scene C R → Type 0 where
    empty : Reached empty_scene
    recording : (f : Bytes) (s : Scene C R) → s.in_hand ≡ none → Reached s → Reached (records f s)
    sending : (f : Bytes) (s : Scene C R) → s.in_hand ≡ some f → Reached s → Reached (sends f s)
    subscribing : (s : Scene C R) → s.viewer ≡ outside → Reached s → Reached (subscribes s)
    priming : (r : R) (s : Scene C R) → s.viewer ≡ subscribed r → Reached s → Reached (primes r s)
