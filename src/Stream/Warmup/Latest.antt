-- ===== src/Stream/Warmup/Latest.antt =====
-- Which parameter sets the window holds.
use xyzen_relay.Prelude.{
  ℕ, ◌≡◌, refl, ap, ◌∙◌, Option, some, List, [], ◌∷◌, arith, ◌==◌, if◌then◌else◌,
}
use xyzen_relay.Prelude.Assoc.{lookup, nat_eq, lookup-insert}
use xyzen_relay.Stream.Nal.{Codec, NalKind, param_set, keyframe, delta, unknown, classify_nal}
use xyzen_relay.Stream.Warmup.{Bytes, WarmupWindow, record_frame, record_as, record_all}
use xyzen_relay.Stream.Warmup.Replay.{lock-record_as}
use xyzen_relay.Stream.Warmup.History.{codec_after, codec-record_as}

-- The newest parameter set of a type in a run of frames, or else the one from before.
abbrev newer : NalKind → ℕ → Bytes → Option Bytes → Option Bytes
newer (param_set d u) t f old = if u == t then some f else old
newer keyframe t f old = old
newer delta t f old = old
newer unknown t f old = old

unfoldable pub latest : Codec → ℕ → List Bytes → Option Bytes → Option Bytes
latest c t [] old = old
latest c t (f ∷ fs) old = latest c t fs (newer (classify_nal f (some c)) t f old)

-- The same where the codec of the room is still to be found.
unfoldable pub newest : Option Codec → ℕ → List Bytes → Option Bytes → Option Bytes
newest oc t [] old = old
newest oc t (f ∷ fs) old =
    let kd = classify_nal f oc in newest (codec_after kd oc) t fs (newer kd t f old)

lookup-record_as :
    (w : WarmupWindow) (t : ℕ) (f : Bytes) (k : NalKind)
    → lookup t (record_as k w f).0.param_sets ≡ newer k t f (lookup t w.param_sets)
unfolding record_as
lookup-record_as w t f (param_set d u) = lookup-insert u t f w.param_sets
lookup-record_as w t f keyframe = ground arith
lookup-record_as w t f delta = ground arith
lookup-record_as w t f unknown = ground arith

-- In a room that is locked to `c` the set kept for each type is the newest that came, through any
-- run of frames, keyframes and overflows included.
pub lookup-record_all :
    (w : WarmupWindow) (c : Codec) (t : ℕ) (fs : List Bytes)
    → w.codec ≡ some c
    → lookup t (record_all w fs).param_sets ≡ latest c t fs (lookup t w.param_sets)
unfolding record_all record_frame latest
lookup-record_all w c t [] e = refl
lookup-record_all w c t (f ∷ fs) e =
    lookup-record_all (record_frame w f).0 c t fs (lock-record_as w f c (classify_nal f w.codec) e)
    ∙ ap (latest c t fs) (
        lookup-record_as w t f (classify_nal f w.codec)
        ∙ ap (λ o. newer (classify_nal f o) t f (lookup t w.param_sets)) e)

pub lookup-newest :
    (w : WarmupWindow) (oc : Option Codec) (t : ℕ) (fs : List Bytes)
    → w.codec ≡ oc
    → lookup t (record_all w fs).param_sets ≡ newest oc t fs (lookup t w.param_sets)
unfolding record_all record_frame newest
lookup-newest w oc t [] e = refl
lookup-newest w oc t (f ∷ fs) e =
    let kd = classify_nal f w.codec in
    lookup-newest (record_frame w f).0 _ t fs (codec-record_as w f kd)
    ∙ ap (newest (codec_after kd w.codec) t fs) (lookup-record_as w t f kd)
    ∙ ap
        (λ o.
          newest (codec_after (classify_nal f o) o) t fs
            (newer (classify_nal f o) t f (lookup t w.param_sets)))
        e
