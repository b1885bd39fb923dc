-- ===== src/Stream/Warmup/Overflow.antt =====
-- A publisher that sends more dependent frames than the window holds.
use xyzen_relay.Prelude.{
  ◌+◌, ◌≤◌, ◌<◌, ◌≡◌, refl, ap, ◌∙◌, true, some, List, [], ◌∷◌, ◌++◌, length, All, arith,
}
use xyzen_relay.Stream.Nal.{Codec, NalKind, param_set, keyframe, delta, unknown, classify_nal}
use xyzen_relay.Stream.Warmup.{
  Bytes, WarmupWindow, warmup_delta_max_bytes, warmup_key_max_bytes, record_frame, record_as,
  record_all, snapshot,
}
use xyzen_relay.Stream.Warmup.Invariant.{total_bytes, IsKey}
use xyzen_relay.Stream.Warmup.Replay.{
  NotKey, is_dependent, dependents, Holds, lock-record_as, Holds-after_keyframe,
}

-- With no keyframe nothing is kept and nothing is sent until the next one.
pub bare-record_as :
    (w : WarmupWindow) (f : Bytes) (kd : NalKind)
    → ¬ (kd ≡ keyframe)
    → w.keyframe ≡ []
    → (record_as kd w f).0.keyframe ≡ []
unfolding record_as
bare-record_as w f (param_set d t) ne e = e
bare-record_as w f keyframe ne e = absurd (ne refl)
bare-record_as w f delta ne e = ground arith
bare-record_as w f unknown ne e = ground arith

bare-record_all :
    (w : WarmupWindow) (c : Codec) (ds : List Bytes)
    → w.codec ≡ some c
    → w.keyframe ≡ []
    → All (NotKey c) ds
    → (record_all w ds).keyframe ≡ []
unfolding record_all record_frame
bare-record_all w c [] l e others = e
bare-record_all w c (f ∷ fs) l e others =
    bare-record_all (record_frame w f).0 c fs (lock-record_as w f c (classify_nal f w.codec) l)
      (bare-record_as w f (classify_nal f w.codec) (rw l others.0) e) others.1

pub overflow-bare :
    (c : Codec) (k : Bytes) (s : List Bytes) (w : WarmupWindow) (f : Bytes) (kd : NalKind)
    → is_dependent kd ≡ true
    → warmup_delta_max_bytes < total_bytes s + length f
    → Holds c k s w
    → (record_as kd w f).0.keyframe ≡ []
unfolding record_as
overflow-bare c k s w f (param_set d t) dep over h = cc
overflow-bare c k s w f keyframe dep over h = cc
overflow-bare c k s w f delta dep over h = ground (arith, h.key, h.counted)
overflow-bare c k s w f unknown dep over h = ground (arith, h.key, h.counted)

record_all-append :
    (w : WarmupWindow) (fs gs : List Bytes)
    → record_all w (fs ++ gs) ≡ record_all (record_all w fs) gs
unfolding record_all
record_all-append w [] gs = refl
record_all-append w (f ∷ fs) gs = record_all-append (record_frame w f).0 fs gs

overflow_then_bare :
    (w : WarmupWindow) (c : Codec) (k : Bytes) (s : List Bytes) (f : Bytes) (es : List Bytes)
    → Holds c k s w
    → is_dependent (classify_nal f (some c)) ≡ true
    → warmup_delta_max_bytes < total_bytes s + length f
    → All (NotKey c) es
    → snapshot (record_all w (f ∷ es)) ≡ []
unfolding record_all record_frame snapshot
overflow_then_bare w c k s f es h dep over others = rw (
    bare-record_all (record_frame w f).0 c es
      (lock-record_as w f c (classify_nal f w.codec) h.locked)
      (overflow-bare c k s w f (classify_nal f w.codec)
        (ap is_dependent (ap (classify_nal f) h.locked) ∙ dep) over h)
      others)

-- After a keyframe and dependent frames within the cap, one more dependent frame that would pass
-- 16 MiB empties the window: a viewer that joins before the next keyframe is sent nothing.
pub snapshot-after_overflow :
    (w : WarmupWindow) (c : Codec) (k : Bytes) (ds : List Bytes) (f : Bytes) (es : List Bytes)
    → w.codec ≡ some c
    → IsKey (some c) k
    → length k ≤ warmup_key_max_bytes
    → All (NotKey c) ds
    → total_bytes (dependents c ds) ≤ warmup_delta_max_bytes
    → is_dependent (classify_nal f (some c)) ≡ true
    → warmup_delta_max_bytes < total_bytes (dependents c ds) + length f
    → All (NotKey c) es
    → snapshot (record_all w ((k ∷ ds) ++ (f ∷ es))) ≡ []
snapshot-after_overflow w c k ds f es e key small others fits dep over rest =
    ap snapshot (record_all-append w (k ∷ ds) (f ∷ es))
    ∙ overflow_then_bare (record_all w (k ∷ ds)) c k (dependents c ds) f es
        (Holds-after_keyframe w c k ds e key small others fits) dep over rest
