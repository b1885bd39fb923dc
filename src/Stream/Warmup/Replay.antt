-- ===== src/Stream/Warmup/Replay.antt =====
-- What the window holds after a run of frames, told from the frames alone.
use xyzen_relay.Prelude.{
  ◌≤◌, ◌≡◌, refl, sym, ap, ◌∙◌, subst, inl, inr, Bool-cases, Bool, true, false, some, List, [], ◌∷◌,
  ◌++◌, append-nil, append_assoc, length, is_empty, All, arith, ltb, leb, if◌then◌else◌,
}
use xyzen_relay.Prelude.Assoc.{nat_eq}
use xyzen_relay.Stream.Nal.{Codec, NalKind, param_set, keyframe, delta, unknown, classify_nal}
use xyzen_relay.Stream.Warmup.{
  Bytes, WarmupWindow, warmup_delta_max_bytes, warmup_key_max_bytes, record_frame, record_as,
  record_all, snapshot, sorted_param_sets, saturating_add,
}
use xyzen_relay.Stream.Warmup.Invariant.{total_bytes, total_bytes-append, IsKey}

-- The lock on the codec is never reconsidered.
pub lock-record_as :
    (w : WarmupWindow) (f : Bytes) (c : Codec) (k : NalKind)
    → w.codec ≡ some c
    → (record_as k w f).0.codec ≡ some c
unfolding record_as
lock-record_as w f c (param_set d t) e = rw e
lock-record_as w f c keyframe e = ground arith
lock-record_as w f c delta e = ground arith
lock-record_as w f c unknown e = ground arith

-- Once the room is locked to a codec, no run of frames unlocks it or changes it.
pub lock-record_all :
    (w : WarmupWindow) (fs : List Bytes) (c : Codec)
    → w.codec ≡ some c
    → (record_all w fs).codec ≡ some c
unfolding record_all record_frame
lock-record_all w [] c e = e
lock-record_all w (f ∷ fs) c e =
    lock-record_all (record_frame w f).0 fs c (lock-record_as w f c (classify_nal f w.codec) e)

abbrev pub NotKey : Codec → Bytes → Type 0
NotKey c f = ¬ IsKey (some c) f

abbrev pub is_dependent : NalKind → Bool
is_dependent delta = true
is_dependent unknown = true
is_dependent keyframe = false
is_dependent (param_set c t) = false

-- The frames of a run that are neither parameter sets nor keyframes.
unfoldable pub dependents : Codec → List Bytes → List Bytes
dependents c [] = []
dependents c (f ∷ fs) =
    if is_dependent (classify_nal f (some c)) then f ∷ dependents c fs else dependents c fs

-- A window that is locked to `c` and holds the keyframe `k` with the frames `s` behind it.
pub record Holds (c : Codec) (k : Bytes) (s : List Bytes) (w : WarmupWindow) : Type 0 where
  pub locked : w.codec ≡ some c
  pub key : w.keyframe ≡ k ∷ []
  pub since : w.since_keyframe ≡ s
  pub counted : w.since_keyframe_total_bytes ≡ total_bytes s

-- The frames kept once one more has come.
abbrev pub keep : NalKind → List Bytes → Bytes → List Bytes
keep kd s f = if is_dependent kd then s ++ f ∷ [] else s

Holds-delta :
    (c : Codec) (k : Bytes) (s : List Bytes) (w : WarmupWindow) (f : Bytes)
    → total_bytes (s ++ f ∷ []) ≤ warmup_delta_max_bytes
    → Holds c k s w
    → Holds c k (s ++ f ∷ []) (record_as delta w f).0
unfolding record_as
Holds-delta c k s w f fits h =
    let held : is_empty w.keyframe ≡ false = rw h.key in
    let size = total_bytes-append s (f ∷ []) in
    let one : total_bytes (f ∷ []) ≡ length f = unfold total_bytes in omega arith in
    let room : ltb warmup_delta_max_bytes (saturating_add w.since_keyframe_total_bytes (length f))
        ≡ false =
      ground (arith, size, one, h.counted) in
    rw (held, room)
      (record {
        locked = h.locked;
        key = h.key;
        since = rw h.since;
        counted = omega (arith, size, one, h.counted);
      })

pub Holds-record_as :
    (c : Codec) (k : Bytes) (s : List Bytes) (w : WarmupWindow) (f : Bytes) (kd : NalKind)
    → ¬ (kd ≡ keyframe)
    → total_bytes (keep kd s f) ≤ warmup_delta_max_bytes
    → Holds c k s w
    → Holds c k (keep kd s f) (record_as kd w f).0
unfolding record_as
Holds-record_as c k s w f (param_set d t) ne fits h = record {
  locked = rw h.locked;
  key = h.key;
  since = h.since;
  counted = h.counted;
}
Holds-record_as c k s w f keyframe ne fits h = absurd (ne refl)
Holds-record_as c k s w f delta ne fits h = Holds-delta c k s w f fits h
Holds-record_as c k s w f unknown ne fits h = Holds-delta c k s w f fits h

keep-dependents :
    (c : Codec) (s : List Bytes) (f : Bytes) (fs : List Bytes)
    → s ++ dependents c (f ∷ fs) ≡ keep (classify_nal f (some c)) s f ++ dependents c fs
unfolding dependents
keep-dependents c s f fs = elim (Bool-cases (is_dependent (classify_nal f (some c)))) [
  | inl e ↦ rw e (sym (append_assoc s (f ∷ []) (dependents c fs)))
  | inr e ↦ rw e
]

Holds-record_all :
    (c : Codec) (k : Bytes) (s : List Bytes) (w : WarmupWindow) (ds : List Bytes)
    → All (NotKey c) ds
    → total_bytes (s ++ dependents c ds) ≤ warmup_delta_max_bytes
    → Holds c k s w
    → Holds c k (s ++ dependents c ds) (record_all w ds)
unfolding record_all dependents record_frame
Holds-record_all c k s w [] others fits h = rw (append-nil s) h
Holds-record_all c k s w (f ∷ fs) others fits h =
    let kd = classify_nal f (some c) in
    let split = keep-dependents c s f fs in
    let total = ap total_bytes split ∙ total_bytes-append (keep kd s f) (dependents c fs) in
    let next = Holds-record_as c k s w f kd others.0 (omega (arith, total)) h in
    rw split (
      Holds-record_all c k (keep kd s f) (record_frame w f).0 fs others.1
        (omega (arith, total, total_bytes-append (keep kd s f) (dependents c fs)))
        (subst (λ oc. Holds c k (keep kd s f) (record_as (classify_nal f oc) w f).0) (sym h.locked)
          next))

pub Holds-keyframe :
    (c : Codec) (k : Bytes) (w : WarmupWindow)
    → w.codec ≡ some c
    → length k ≤ warmup_key_max_bytes
    → Holds c k [] (record_as keyframe w k).0
unfolding record_as total_bytes
Holds-keyframe c k w e fits =
    let small : leb (length k) warmup_key_max_bytes ≡ true = ground arith in
    rw small (record { locked = e; key = refl; since = refl; counted = refl })

pub Holds-after_keyframe :
    (w : WarmupWindow) (c : Codec) (k : Bytes) (ds : List Bytes)
    → w.codec ≡ some c
    → IsKey (some c) k
    → length k ≤ warmup_key_max_bytes
    → All (NotKey c) ds
    → total_bytes (dependents c ds) ≤ warmup_delta_max_bytes
    → Holds c k (dependents c ds) (record_all w (k ∷ ds))
unfolding record_all record_frame
Holds-after_keyframe w c k ds e key small others fits =
    Holds-record_all c k [] (record_frame w k).0 ds others fits
      (rw (ap (classify_nal k) e ∙ key) (Holds-keyframe c k w e small))

-- A room that is locked to `c` gets a keyframe of at most 8 MiB and then frames with no keyframe
-- among them, of which the dependent ones come to at most 16 MiB: a viewer that joins now is sent the
-- parameter sets, that keyframe, and exactly those dependent frames, in the order they came.
pub snapshot-after_keyframe :
    (w : WarmupWindow) (c : Codec) (k : Bytes) (ds : List Bytes)
    → w.codec ≡ some c
    → IsKey (some c) k
    → length k ≤ warmup_key_max_bytes
    → All (NotKey c) ds
    → total_bytes (dependents c ds) ≤ warmup_delta_max_bytes
    → snapshot (record_all w (k ∷ ds))
      ≡ sorted_param_sets (record_all w (k ∷ ds)) ++ k ∷ dependents c ds
unfolding snapshot
snapshot-after_keyframe w c k ds e key small others fits =
    let h = Holds-after_keyframe w c k ds e key small others fits in rw (h.key, h.since)
