-- ===== src/Stream/Warmup/Snapshot.antt =====
-- What a fresh viewer is sent, told from the frames of the publisher alone.
use xyzen_relay.Prelude.{ℕ, ◌≡◌, ◌⊎◌, none, some, List, [], ◌∷◌, ◌++◌, All}
use mathlib.Core.List.{Memᴰ}
use xyzen_relay.Stream.Nal.{Codec, param_set, classify_nal}
use xyzen_relay.Stream.Warmup.{Bytes}
use xyzen_relay.Stream.Warmup.Replay.{dependents}
use xyzen_relay.Stream.Warmup.History.{codec_of, Keyless, LastKey, TooLong}
use xyzen_relay.Stream.Warmup.Origin.{Origin}
use xyzen_relay.Stream.Warmup.Latest.{newest}

-- What a fresh viewer is sent in a room that is locked to `c`, told from the frames of the publisher:
-- the newest parameter set of every type that came, the last keyframe, and every frame behind that one
-- which is neither a keyframe nor a parameter set.
pub record FullReplay (c : Codec) (past frames : List Bytes) : Type 0 where
  pub sets : List Bytes
  pub last : LastKey c past
  pub order : frames ≡ sets ++ last.key ∷ dependents c last.after
  pub sets_newest :
      All
        (λ f.
          (t : ℕ) × ((classify_nal f (some c) ≡ param_set c t)
            × (newest none t past none ≡ some f)))
        sets
  pub sets_all :
      (t : ℕ)
      → (newest none t past none ≡ none)
        ⊎ ((f : Bytes) × ((newest none t past none ≡ some f) × Memᴰ f sets))

-- Nothing is sent, because no keyframe came or because it is too long; or all of a replay.
pub data Replayed (past frames : List Bytes) : Type 0 where
  no_keyframe : Keyless none past → frames ≡ [] → Replayed past frames
  too_long :
      (c : Codec)
      → codec_of none past ≡ some c
      → (l : LastKey c past) → TooLong c l
      → frames ≡ []
      → Replayed past frames
  in_full :
      (c : Codec) → codec_of none past ≡ some c → FullReplay c past frames → Replayed past frames
