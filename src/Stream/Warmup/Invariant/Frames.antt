-- ===== src/Stream/Warmup/Invariant/Frames.antt =====
-- Every frame keeps the invariant of the warm-up window.
use xyzen_relay.Prelude.{ℕ, ◌≡◌, refl, sym, subst, Option, none, some, List, [], ◌∷◌, All}
use xyzen_relay.Prelude.Assoc.{insert, nat_eq}
use xyzen_relay.Stream.Nal.{Codec, NalKind, param_set, keyframe, delta, unknown, classify_nal}
use xyzen_relay.Stream.Nal.Laws.{
  classify_nal-discovery, discovery-ne-keyframe, classify_nal-same_codec,
}
use xyzen_relay.Stream.Warmup.{
  Bytes, WarmupWindow, default, record_frame, record_as, record_all, lock_codec,
}
use xyzen_relay.Stream.Warmup.Invariant.{
  Anchored, FiledAs, IsKey, IsDependent, Inv, default-Inv, All-insert, record_keyframe-Inv,
  record_delta-Inv,
}

-- An unlocked room holds nothing.
unlocked_empty :
    (w : WarmupWindow)
    → Inv w
    → w.codec ≡ none
    → (w.param_sets ≡ []) × (w.keyframe ≡ []) × (w.since_keyframe ≡ [])
unlocked_empty w v e =
    let no_key = no_keys w.keyframe (subst (λ oc. All (IsKey oc) w.keyframe) e v.key_kind) in
    (
      no_sets w.param_sets (subst (λ oc. All (FiledAs oc) w.param_sets) e v.filed),
      no_key,
      subst (λ ks. Anchored ks w.since_keyframe) no_key v.anchored,
    )
  where
    no_sets : (m : List (ℕ × Bytes)) → All (FiledAs none) m → m ≡ []
    no_sets [] h = refl
    no_sets (x ∷ m) h = absurd h.0

    no_keys : (fs : List Bytes) → All (IsKey none) fs → fs ≡ []
    no_keys [] h = refl
    no_keys (f ∷ fs) h = absurd (discovery-ne-keyframe f h.0)

-- The window with one more parameter set, once its contents are known to suit the codec `c`.
filed_more :
    (w : WarmupWindow) (c : Codec) (t : ℕ) (f : Bytes) (oc : Option Codec)
    → Inv w
    → oc ≡ some c
    → classify_nal f (some c) ≡ param_set c t
    → All (FiledAs (some c)) w.param_sets
    → All (IsKey (some c)) w.keyframe
    → All (IsDependent (some c)) w.since_keyframe
    → Inv (record w { codec = oc; param_sets = insert t f w.param_sets })
filed_more w c t f oc v e k sets keys deltas = record {
  filed =
      subst (λ o. All (FiledAs o) (insert t f w.param_sets)) (sym e)
        (All-insert (FiledAs (some c)) t f w.param_sets k sets);
  key_kind = subst (λ o. All (IsKey o) w.keyframe) (sym e) keys;
  delta_kind = subst (λ o. All (IsDependent o) w.since_keyframe) (sym e) deltas;
  single = v.single;
  anchored = v.anchored;
  key_total = v.key_total;
  delta_total = v.delta_total;
  key_cap = v.key_cap;
  delta_cap = v.delta_cap;
}

record_param_set-Inv :
    (w : WarmupWindow) (c : Codec) (t : ℕ) (f : Bytes) (oc : Option Codec)
    → w.codec ≡ oc
    → classify_nal f oc ≡ param_set c t
    → Inv w
    → Inv (record_as (param_set c t) w f).0
unfolding record_as
record_param_set-Inv w c t f none e k v =
    let (sets, keys, deltas) = unlocked_empty w v e in
    filed_more w c t f (lock_codec w.codec c) v (rw e) (classify_nal-discovery f c t k)
      (subst (All (FiledAs (some c))) (sym sets) tt) (subst (All (IsKey (some c))) (sym keys) tt)
      (subst (All (IsDependent (some c))) (sym deltas) tt)
record_param_set-Inv w c t f (some d) e k v =
    let same = classify_nal-same_codec f d c t k in
    filed_more w d t f (lock_codec w.codec c) v (rw e)
      (subst (λ x. classify_nal f (some d) ≡ param_set x t) same k)
      (subst (λ o. All (FiledAs o) w.param_sets) e v.filed)
      (subst (λ o. All (IsKey o) w.keyframe) e v.key_kind)
      (subst (λ o. All (IsDependent o) w.since_keyframe) e v.delta_kind)

record_as-Inv :
    (w : WarmupWindow) (f : Bytes) (k : NalKind)
    → classify_nal f w.codec ≡ k
    → Inv w
    → Inv (record_as k w f).0
record_as-Inv w f (param_set c t) e v = record_param_set-Inv w c t f w.codec refl e v
record_as-Inv w f keyframe e v = record_keyframe-Inv w f e v
record_as-Inv w f delta e v = record_delta-Inv w f (rw e tt) v
record_as-Inv w f unknown e v = unfold record_as in record_delta-Inv w f (rw e tt) v

-- Recording any frame keeps the window's invariant: parameter sets are filed under their own type
-- and codec, there is at most one keyframe and nothing depends on a keyframe that is not there, the
-- byte counts are those of the frames held, and both stay within their caps.
pub record_frame-Inv : (w : WarmupWindow) (f : Bytes) → Inv w → Inv (record_frame w f).0
unfolding record_frame
record_frame-Inv w f v = record_as-Inv w f (classify_nal f w.codec) refl v

pub record_all-Inv : (w : WarmupWindow) (fs : List Bytes) → Inv w → Inv (record_all w fs)
unfolding record_all
record_all-Inv w [] v = v
record_all-Inv w (f ∷ fs) v = record_all-Inv (record_frame w f).0 fs (record_frame-Inv w f v)

-- So it holds of the window of a room, whatever its publisher has sent.
pub room_window-Inv : (fs : List Bytes) → Inv (record_all default fs)
room_window-Inv fs = record_all-Inv default fs default-Inv
