-- ===== src/Stream/Warmup/History.antt =====
-- The codec of a room and its last keyframe, told from the frames of its publisher alone.
use xyzen_relay.Prelude.{
  ◌<◌, ◌≡◌, refl, ap, ◌∙◌, ◌⊎◌, inl, inr, Bool-cases, Bool, true, false, Option, none, some, List,
  [], ◌∷◌, ◌++◌, append-nil, length, All, arith, if◌then◌else◌,
}
use xyzen_relay.Stream.Nal.{Codec, NalKind, param_set, keyframe, delta, unknown, classify_nal}
use xyzen_relay.Stream.Warmup.{
  Bytes, WarmupWindow, warmup_delta_max_bytes, warmup_key_max_bytes, record_as, lock_codec,
}
use xyzen_relay.Stream.Warmup.Invariant.{total_bytes, IsKey}
use xyzen_relay.Stream.Warmup.Replay.{NotKey, is_dependent, dependents, keep}

-- The codec of the first parameter set is the room's.
abbrev pub codec_after : NalKind → Option Codec → Option Codec
codec_after (param_set d t) none = some d
codec_after (param_set d t) (some c) = some c
codec_after keyframe oc = oc
codec_after delta oc = oc
codec_after unknown oc = oc

unfoldable pub codec_of : Option Codec → List Bytes → Option Codec
codec_of oc [] = oc
codec_of oc (f ∷ fs) = codec_of (codec_after (classify_nal f oc) oc) fs

-- No frame was a keyframe for the codec that the room had then.
unfoldable pub Keyless : Option Codec → List Bytes → Type 0
Keyless oc [] = Unit {0}
Keyless oc (f ∷ fs) = (¬ IsKey oc f) × Keyless (codec_after (classify_nal f oc) oc) fs

pub codec_of-append :
    (oc : Option Codec) (fs gs : List Bytes) → codec_of oc (fs ++ gs) ≡ codec_of (codec_of oc fs) gs
unfolding codec_of
codec_of-append oc [] gs = refl
codec_of-append oc (f ∷ fs) gs = codec_of-append (codec_after (classify_nal f oc) oc) fs gs

pub Keyless-append :
    (oc : Option Codec) (fs : List Bytes) (f : Bytes)
    → Keyless oc fs
    → ¬ IsKey (codec_of oc fs) f
    → Keyless oc (fs ++ f ∷ [])
unfolding Keyless codec_of
Keyless-append oc [] f before last = (last, tt)
Keyless-append oc (g ∷ fs) f (first, before) last =
    (first, Keyless-append (codec_after (classify_nal g oc) oc) fs f before last)

pub codec-record_as :
    (w : WarmupWindow) (f : Bytes) (kd : NalKind)
    → (record_as kd w f).0.codec ≡ codec_after kd w.codec
unfolding record_as lock_codec
codec-record_as w f (param_set d t) = locked w.codec
  where
    locked : (oc : Option Codec) → lock_codec oc d ≡ codec_after (param_set d t) oc
    locked none = refl
    locked (some c) = refl
codec-record_as w f keyframe = ground arith
codec-record_as w f delta = ground arith
codec-record_as w f unknown = ground arith

pub dependents-append :
    (c : Codec) (fs gs : List Bytes) → dependents c (fs ++ gs) ≡ dependents c fs ++ dependents c gs
unfolding dependents
dependents-append c [] gs = refl
dependents-append c (f ∷ fs) gs = elim (Bool-cases (is_dependent (classify_nal f (some c)))) [
  | inl e ↦ rw e (ap (λ l. f ∷ l) (dependents-append c fs gs))
  | inr e ↦ rw e (dependents-append c fs gs)
]

keep-append :
    (b : Bool) (s : List Bytes) (f : Bytes)
    → s ++ (if b then f ∷ [] else []) ≡ (if b then s ++ f ∷ [] else s)
keep-append true s f = refl
keep-append false s f = append-nil s

pub dependents-keep :
    (c : Codec) (fs : List Bytes) (f : Bytes)
    → dependents c (fs ++ f ∷ []) ≡ keep (classify_nal f (some c)) (dependents c fs) f
unfolding dependents
dependents-keep c fs f =
    dependents-append c fs (f ∷ [])
    ∙ keep-append (is_dependent (classify_nal f (some c))) (dependents c fs) f

-- The last keyframe, and the frames before and after it.
pub record LastKey (c : Codec) (past : List Bytes) : Type 0 where
  pub before : List Bytes
  pub key : Bytes
  pub after : List Bytes
  pub came : past ≡ before ++ key ∷ after
  pub key_kind : IsKey (some c) key
  pub no_later : All (NotKey c) after

-- The keyframe is over 8 MiB, or what depends on it came to more than 16 MiB.
abbrev pub TooLong : (c : Codec) {past : List Bytes} → LastKey c past → Type 0
TooLong c l =
    (warmup_key_max_bytes < length l.key)
    ⊎ (warmup_delta_max_bytes < total_bytes (dependents c l.after))
