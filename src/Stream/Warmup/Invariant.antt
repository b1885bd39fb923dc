-- ===== src/Stream/Warmup/Invariant.antt =====
-- What the warm-up window keeps true from frame to frame.
pub mod Frames
use xyzen_relay.Prelude.{
  ℕ, ◌+◌, ◌≤◌, ◌≡◌, refl, sym, subst, inl, inr, false, Option, none, some, List, [], ◌∷◌, ◌++◌,
  length, is_empty, All, All-append, arith, ltb, leb, Bool-cases,
}
use xyzen_relay.Prelude.Assoc.{insert, nat_eq}
use xyzen_relay.Stream.Nal.{Codec, NalKind, param_set, keyframe, delta, unknown, classify_nal}
use xyzen_relay.Stream.Nal.Laws.{
  Dependent, classify_nal-discovery, discovery-ne-keyframe, classify_nal-same_codec,
}
use xyzen_relay.Stream.Warmup.{
  Bytes, WarmupWindow, default, warmup_delta_max_bytes, warmup_key_max_bytes, record_frame,
  record_as, record_all, saturating_add, lock_codec,
}

unfoldable pub total_bytes : List Bytes → ℕ
total_bytes [] = 0
total_bytes (f ∷ fs) = length f + total_bytes fs

pub total_bytes-append :
    (fs gs : List Bytes) → total_bytes (fs ++ gs) ≡ total_bytes fs + total_bytes gs
unfolding total_bytes
total_bytes-append [] gs = omega arith
total_bytes-append (f ∷ fs) gs = omega (arith, total_bytes-append fs gs)

-- A parameter set is filed under its own type, in a room that is locked to its codec.
abbrev pub FiledAs : Option Codec → ℕ × Bytes → Type 0
FiledAs none e = ⊥
FiledAs (some c) (t, f) = classify_nal f (some c) ≡ param_set c t

abbrev pub IsKey : Option Codec → Bytes → Type 0
IsKey oc f = classify_nal f oc ≡ keyframe

abbrev pub IsDependent : Option Codec → Bytes → Type 0
IsDependent oc f = Dependent (classify_nal f oc)

-- Without a keyframe no frame depends on it.
abbrev pub Anchored : List Bytes → List Bytes → Type 0
Anchored [] since = since ≡ []
Anchored (k ∷ ks) since = Unit {0}

held-Anchored : (ks since : List Bytes) → is_empty ks ≡ false → Anchored ks since
held-Anchored [] since e = absurd (cc)
held-Anchored (k ∷ ks) since e = tt

pub record Inv (w : WarmupWindow) : Type 0 where
  pub filed : All (FiledAs w.codec) w.param_sets
  pub key_kind : All (IsKey w.codec) w.keyframe
  pub delta_kind : All (IsDependent w.codec) w.since_keyframe
  pub single : length w.keyframe ≤ 1
  pub anchored : Anchored w.keyframe w.since_keyframe
  pub key_total : w.keyframe_total_bytes ≡ total_bytes w.keyframe
  pub delta_total : w.since_keyframe_total_bytes ≡ total_bytes w.since_keyframe
  pub key_cap : w.keyframe_total_bytes ≤ warmup_key_max_bytes
  pub delta_cap : w.since_keyframe_total_bytes ≤ warmup_delta_max_bytes

pub default-Inv : Inv default
unfolding total_bytes
default-Inv = record {
  filed = tt;
  key_kind = tt;
  delta_kind = tt;
  single = omega arith;
  anchored = refl;
  key_total = refl;
  delta_total = refl;
  key_cap = omega arith;
  delta_cap = omega arith;
}

-- `insert` files one more entry.
pub All-insert :
    (P : ℕ × Bytes → Type 0) (k : ℕ) (v : Bytes) (m : List (ℕ × Bytes))
    → P (k, v)
    → All P m
    → All P (insert k v m)
unfolding insert
All-insert P k v [] p h = (p, tt)
All-insert P k v ((j, u) ∷ m) p h = elim (Bool-cases (nat_eq.beq j k)) [
  | inl e ↦ rw e (p, h.1)
  | inr e ↦ rw e (h.0, All-insert P k v m p h.1)
]

pub record_keyframe-Inv :
    (w : WarmupWindow) (f : Bytes) → IsKey w.codec f → Inv w → Inv (record_as keyframe w f).0
unfolding record_as total_bytes
record_keyframe-Inv w f k v = elim (Bool-cases (leb (length f) warmup_key_max_bytes)) [
  | inl fits ↦ rw fits (record {
    filed = v.filed;
    key_kind = (k, tt);
    delta_kind = tt;
    single = omega arith;
    anchored = tt;
    key_total = omega arith;
    delta_total = refl;
    key_cap = ground arith;
    delta_cap = omega arith;
  })
  | inr huge ↦ rw huge (record {
    filed = v.filed;
    key_kind = tt;
    delta_kind = tt;
    single = omega arith;
    anchored = refl;
    key_total = refl;
    delta_total = refl;
    key_cap = omega arith;
    delta_cap = omega arith;
  })
]

-- Without a keyframe a dependent frame is passed over; beyond the cap it empties the window.
pub record_delta-Inv :
    (w : WarmupWindow) (f : Bytes) → IsDependent w.codec f → Inv w → Inv (record_as delta w f).0
unfolding record_as total_bytes
record_delta-Inv w f k v = elim (Bool-cases (is_empty w.keyframe)) [
  | inl bare ↦ rw bare v
  | inr held ↦
      let sum = saturating_add w.since_keyframe_total_bytes (length f) in
      elim (Bool-cases (ltb warmup_delta_max_bytes sum)) [
        | inl over ↦
            rw (held, over)
              (record {
                filed = v.filed;
                key_kind = tt;
                delta_kind = tt;
                single = omega arith;
                anchored = refl;
                key_total = refl;
                delta_total = refl;
                key_cap = omega arith;
                delta_cap = omega arith;
              })
        | inr fits ↦
            rw (held, fits)
              (record {
                filed = v.filed;
                key_kind = v.key_kind;
                delta_kind =
                    All-append (IsDependent w.codec) w.since_keyframe _ v.delta_kind (k, tt);
                single = v.single;
                anchored = held-Anchored w.keyframe _ held;
                key_total = v.key_total;
                delta_total =
                    ground (arith, total_bytes-append w.since_keyframe (f ∷ []), v.delta_total);
                key_cap = v.key_cap;
                delta_cap = ground arith;
              })
      ]
]
