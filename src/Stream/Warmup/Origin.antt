-- ===== src/Stream/Warmup/Origin.antt =====
-- Where the contents of the window come from.
use xyzen_relay.Prelude.{
  ◌+◌, ◌≤◌, ◌<◌, ◌≡◌, refl, sym, ap, ◌∙◌, subst, inl, inr, Bool-cases, true, false, none, some,
  Option-cases, List, [], ◌∷◌, ◌++◌, append-nil, append_assoc, length, All-append, arith, leb,
}
use xyzen_relay.Stream.Nal.{Codec, NalKind, param_set, keyframe, delta, unknown, classify_nal}
use xyzen_relay.Stream.Nal.Laws.{discovery-ne-keyframe}
use xyzen_relay.Stream.Warmup.{
  Bytes, WarmupWindow, default, warmup_delta_max_bytes, warmup_key_max_bytes, record_frame,
  record_as, record_all,
}
use xyzen_relay.Stream.Warmup.Invariant.{total_bytes, total_bytes-append, IsKey}
use xyzen_relay.Stream.Warmup.Replay.{
  NotKey, is_dependent, dependents, Holds, keep, Holds-record_as, Holds-keyframe, lock-record_as,
}
use xyzen_relay.Stream.Warmup.Overflow.{bare-record_as, overflow-bare}
use xyzen_relay.Stream.Warmup.History.{
  codec_after, codec_of, Keyless, codec_of-append, Keyless-append, codec-record_as,
  dependents-append, dependents-keep, LastKey, TooLong,
}

-- Nothing is held, as no keyframe came or as it is too long; or the last keyframe is held, with all
-- that depends on it.
pub data Origin (past : List Bytes) (w : WarmupWindow) : Type 0 where
  unkeyed : Keyless none past → w.keyframe ≡ [] → Origin past w
  dropped :
      (c : Codec)
      → w.codec ≡ some c
      → (l : LastKey c past) → TooLong c l
      → w.keyframe ≡ []
      → Origin past w
  held :
      (c : Codec) (l : LastKey c past)
      → total_bytes (dependents c l.after) ≤ warmup_delta_max_bytes
      → Holds c l.key (dependents c l.after) w
      → Origin past w

abbrev later :
    (c : Codec) (past : List Bytes) (f : Bytes)
    → NotKey c f
    → LastKey c past
    → LastKey c (past ++ f ∷ [])
later c past f other l = record {
  before = l.before;
  key = l.key;
  after = l.after ++ f ∷ [];
  came = ap (λ fs. fs ++ f ∷ []) l.came ∙ append_assoc l.before (l.key ∷ l.after) (f ∷ []);
  key_kind = l.key_kind;
  no_later = All-append (NotKey c) l.after (f ∷ []) l.no_later (other, tt);
}

TooLong-later :
    (c : Codec) (past : List Bytes) (f : Bytes) (other : NotKey c f) (l : LastKey c past)
    → TooLong c l
    → TooLong c (later c past f other l)
TooLong-later c past f other l (inl long) = inl long
TooLong-later c past f other l (inr over) =
    let grown = ap total_bytes (dependents-append c l.after (f ∷ [])) in
    inr (omega (arith, grown, total_bytes-append (dependents c l.after) (dependents c (f ∷ []))))

abbrev newest_key :
    (c : Codec) (past : List Bytes) (f : Bytes) → IsKey (some c) f → LastKey c (past ++ f ∷ [])
newest_key c past f key = record {
  before = past;
  key = f;
  after = [];
  came = refl;
  key_kind = key;
  no_later = tt;
}

large-bare :
    (w : WarmupWindow) (f : Bytes)
    → leb (length f) warmup_key_max_bytes ≡ false
    → (record_as keyframe w f).0.keyframe ≡ []
unfolding record_as
large-bare w f large = rw large refl

Origin-keyframe :
    (past : List Bytes) (w : WarmupWindow) (f : Bytes) (c : Codec)
    → w.codec ≡ some c
    → IsKey (some c) f
    → Origin (past ++ f ∷ []) (record_as keyframe w f).0
unfolding dependents total_bytes
Origin-keyframe past w f c l key = elim (Bool-cases (leb (length f) warmup_key_max_bytes)) [
  | inl small ↦
      held c (newest_key c past f key) (omega arith) (Holds-keyframe c f w l (ground arith))
  | inr large ↦
      dropped c (lock-record_as w f c keyframe l) (newest_key c past f key) (inl (ground arith))
        (large-bare w f large)
]

Origin-held :
    (past : List Bytes) (w : WarmupWindow) (f : Bytes) (kd : NalKind) (c : Codec)
    → classify_nal f (some c) ≡ kd
    → ¬ (kd ≡ keyframe)
    → (other : NotKey c f) → (l : LastKey c past)
    → total_bytes (dependents c l.after) ≤ warmup_delta_max_bytes
    → Holds c l.key (dependents c l.after) w
    → Origin (past ++ f ∷ []) (record_as kd w f).0
Origin-held past w f kd c e ne other l fitted h =
    let s = dependents c l.after in
    let kept : dependents c (l.after ++ f ∷ []) ≡ keep kd s f =
      dependents-keep c l.after f ∙ ap (λ k. keep k s f) e in
    let total = ap total_bytes kept in
    elim (Bool-cases (leb (total_bytes (keep kd s f)) warmup_delta_max_bytes)) [
      | inl fits ↦ held c (later c past f other l) (ground (arith, total)) (
          subst (λ s'. Holds c l.key s' (record_as kd w f).0) (sym kept)
            (Holds-record_as c l.key s w f kd ne (ground arith) h))
      | inr over ↦ elim (Bool-cases (is_dependent kd)) [
        | inl dep ↦
            dropped c (lock-record_as w f c kd h.locked) (later c past f other l)
              (inr (ground (arith, total)))
              (overflow-bare c l.key s w f kd dep (over_cap kd s f dep over) h)
        | inr apart ↦ absurd (ground arith)
      ]
    ]
  where
    over_cap :
        (kd : NalKind) (s : List Bytes) (f : Bytes)
        → is_dependent kd ≡ true
        → leb (total_bytes (keep kd s f)) warmup_delta_max_bytes ≡ false
        → warmup_delta_max_bytes < total_bytes s + length f
    over_cap kd s f dep over =
        let size = total_bytes-append s (f ∷ []) in
        let one : total_bytes (f ∷ []) ≡ length f = unfold total_bytes in omega arith in
        ground (arith, size, one)

-- A frame that is no keyframe.
Origin-other :
    (past : List Bytes) (w : WarmupWindow) (f : Bytes) (kd : NalKind)
    → classify_nal f w.codec ≡ kd
    → ¬ (kd ≡ keyframe)
    → codec_of none past ≡ w.codec
    → Origin past w
    → Origin (past ++ f ∷ []) (record_as kd w f).0
Origin-other past w f kd e ne codec (unkeyed before bare) =
    unkeyed
      (Keyless-append none past f before
        (λ key. ne (sym e ∙ ap (classify_nal f) (sym codec) ∙ key)))
      (bare-record_as w f kd ne bare)
Origin-other past w f kd e ne codec (dropped c locked l long bare) =
    let other : NotKey c f = λ key. ne (sym e ∙ ap (classify_nal f) locked ∙ key) in
    dropped c (lock-record_as w f c kd locked) (later c past f other l)
      (TooLong-later c past f other l long) (bare-record_as w f kd ne bare)
Origin-other past w f kd e ne codec (held c l fitted h) =
    Origin-held past w f kd c (ap (classify_nal f) (sym h.locked) ∙ e) ne
      (λ key. ne (sym e ∙ ap (classify_nal f) h.locked ∙ key)) l fitted h

Origin-record_as :
    (past : List Bytes) (w : WarmupWindow) (f : Bytes) (kd : NalKind)
    → classify_nal f w.codec ≡ kd
    → codec_of none past ≡ w.codec
    → Origin past w
    → Origin (past ++ f ∷ []) (record_as kd w f).0
Origin-record_as past w f (param_set d t) e codec o = Origin-other past w f _ e (λ x. cc) codec o
Origin-record_as past w f delta e codec o = Origin-other past w f _ e (λ x. cc) codec o
Origin-record_as past w f unknown e codec o = Origin-other past w f _ e (λ x. cc) codec o
Origin-record_as past w f keyframe e codec o = elim (Option-cases w.codec) [
  | inl bare ↦ absurd (discovery-ne-keyframe f (ap (classify_nal f) (sym bare) ∙ e))
  | inr (c, locked) ↦ Origin-keyframe past w f c locked (ap (classify_nal f) (sym locked) ∙ e)
]

codec_of-record_frame :
    (past : List Bytes) (w : WarmupWindow) (f : Bytes)
    → codec_of none past ≡ w.codec
    → codec_of none (past ++ f ∷ []) ≡ (record_frame w f).0.codec
unfolding record_frame codec_of
codec_of-record_frame past w f codec =
    codec_of-append none past (f ∷ [])
    ∙ ap (λ oc. codec_after (classify_nal f oc) oc) codec
    ∙ sym (codec-record_as w f (classify_nal f w.codec))

Origin-record_all :
    (fs past : List Bytes) (w : WarmupWindow)
    → codec_of none past ≡ w.codec
    → Origin past w
    → Origin (past ++ fs) (record_all w fs) × (codec_of none (past ++ fs) ≡ (record_all w fs).codec)
unfolding record_all record_frame
Origin-record_all [] past w codec o =
    subst (λ all. Origin all w × (codec_of none all ≡ w.codec)) (sym (append-nil past)) (o, codec)
Origin-record_all (f ∷ fs) past w codec o =
    let w' = record_all (record_frame w f).0 fs in
    subst (λ all. Origin all w' × (codec_of none all ≡ w'.codec)) (append_assoc past (f ∷ []) fs)
      (Origin-record_all fs (past ++ f ∷ []) (record_frame w f).0
        (codec_of-record_frame past w f codec)
        (Origin-record_as past w f (classify_nal f w.codec) refl codec o))

-- The window of a room, from the frames of its publisher.
pub room-Origin :
    (fs : List Bytes)
    → Origin fs (record_all default fs) × (codec_of none fs ≡ (record_all default fs).codec)
unfolding Keyless codec_of
room-Origin fs = Origin-record_all fs [] default refl (unkeyed tt refl)
