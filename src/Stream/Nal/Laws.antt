-- ===== src/Stream/Nal/Laws.antt =====
-- How the classification depends on the codec that the room is locked to.
use xyzen_relay.Prelude.{ℕ, ◌≡◌, Option, none, some, List, arith}
use xyzen_relay.Stream.Nal.{
  Codec, hevc, h264, NalKind, param_set, keyframe, delta, unknown, classify_nal, classify_at,
  classify_first, first_byte,
}

-- A frame that depends on frames before it, as far as the relay can tell.
abbrev pub Dependent : NalKind → Type 0
Dependent delta = Unit {0}
Dependent unknown = Unit {0}
Dependent keyframe = ⊥
Dependent (param_set c t) = ⊥

classify_first-discovery :
    (first : ℕ) (c : Codec) (t : ℕ)
    → classify_first first none ≡ param_set c t
    → classify_first first (some c) ≡ param_set c t
unfolding classify_first
classify_first-discovery first hevc t e = ground arith
classify_first-discovery first h264 t e = ground arith

-- The three facts below, for the byte behind the start code or for its absence.
classify_at-discovery :
    (b : Option ℕ) (c : Codec) (t : ℕ)
    → classify_at b none ≡ param_set c t
    → classify_at b (some c) ≡ param_set c t
unfolding classify_at
classify_at-discovery none c t e = cc
classify_at-discovery (some first) c t e = classify_first-discovery first c t e

classify_at-ne-keyframe : (b : Option ℕ) → ¬ (classify_at b none ≡ keyframe)
unfolding classify_at classify_first
classify_at-ne-keyframe none e = cc
classify_at-ne-keyframe (some first) e = ground arith

classify_at-same_codec :
    (b : Option ℕ) (c d : Codec) (t : ℕ) → classify_at b (some c) ≡ param_set d t → d ≡ c
unfolding classify_at classify_first
classify_at-same_codec none c d t e = cc
classify_at-same_codec (some first) hevc d t e = ground arith
classify_at-same_codec (some first) h264 d t e = ground arith

-- A parameter set found in discovery is one for the codec that it locks the room to.
pub classify_nal-discovery :
    (f : List ℕ) (c : Codec) (t : ℕ)
    → classify_nal f none ≡ param_set c t
    → classify_nal f (some c) ≡ param_set c t
unfolding classify_nal
classify_nal-discovery f c t e = classify_at-discovery (first_byte f) c t e

-- In discovery nothing passes for a keyframe.
pub discovery-ne-keyframe : (f : List ℕ) → ¬ (classify_nal f none ≡ keyframe)
unfolding classify_nal
discovery-ne-keyframe f e = classify_at-ne-keyframe (first_byte f) e

-- A locked room finds parameter sets of its own codec only.
pub classify_nal-same_codec :
    (f : List ℕ) (c d : Codec) (t : ℕ) → classify_nal f (some c) ≡ param_set d t → d ≡ c
unfolding classify_nal
classify_nal-same_codec f c d t e = classify_at-same_codec (first_byte f) c d t e
