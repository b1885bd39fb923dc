-- ===== src/Pipeline.antt =====
-- From crates/win-capturer/src/encoder.rs to crates/stream/src/main.rs: the frames that the encoder
-- hands over, as the room of the relay keeps them for a viewer.
use xyzen_relay.Prelude.{
  ℕ, ◌/◌, ◌%◌, ◌^◌, ◌≤◌, ◌≡◌, refl, sym, ap, subst, ◌∙◌, Option, none, some, List, [], ◌∷◌, ◌++◌,
  map, length, All, ◌⊎◌, inl, inr, arith,
}
use xyzen_relay.Prelude.Bits.{bit_and-five_bits, bit_and-six_bits}
use xyzen_relay.Prelude.Assoc.{lookup, insert, nat_eq}
use xyzen_relay.Stream.Nal.{
  Codec, h264, NalKind, param_set, keyframe, delta, unknown, classify_nal, classify_at,
  classify_first, first_byte,
}
use xyzen_relay.Stream.Warmup.{
  Bytes, WarmupWindow, warmup_delta_max_bytes, warmup_key_max_bytes, default, record_frame,
  record_as, record_all, snapshot, sorted_param_sets, lock_codec,
}
use xyzen_relay.Stream.Warmup.Invariant.{total_bytes}
use xyzen_relay.Stream.Warmup.Replay.{NotKey, dependents, lock-record_as, snapshot-after_keyframe}
use xyzen_relay.Windows.Annexb.{start_code}
use xyzen_relay.Windows.Encoder.{to_be_bytes}

-- A unit of H264 with the wall clock at which it came out of the encoder.
pub record Coded : Type 0 where
  pub wall : ℕ
  pub header : ℕ
  pub rest : List ℕ

abbrev pub wire : Coded → Bytes
wire u = to_be_bytes u.wall ++ (start_code ++ u.header ∷ u.rest)

-- `nal_unit_type`, in a byte.
abbrev pub HasType : ℕ → Coded → Type 0
HasType t u = u.header % 32 ≡ t

-- A slice, or any other unit that is neither a parameter set nor an IDR picture.
abbrev pub Other : Coded → Type 0
Other u = (¬ HasType 5 u) × ((¬ HasType 7 u) × (¬ HasType 8 u))

classify_wire : (u : Coded) (k : Option Codec) → classify_nal (wire u) k ≡ classify_first u.header k
unfolding classify_nal first_byte classify_at
classify_wire u k = ground arith

classify-sps : (u : Coded) → HasType 7 u → classify_nal (wire u) none ≡ param_set h264 7
classify-sps u e =
    classify_wire u none
    ∙ (unfold classify_first in
        ground (arith, bit_and-five_bits u.header, bit_and-six_bits (u.header / 2 ^ 1)))

classify-pps : (u : Coded) → HasType 8 u → classify_nal (wire u) (some h264) ≡ param_set h264 8
classify-pps u e =
    classify_wire u (some h264)
    ∙ (unfold classify_first in ground (arith, bit_and-five_bits u.header))

classify-idr : (u : Coded) → HasType 5 u → classify_nal (wire u) (some h264) ≡ keyframe
classify-idr u e =
    classify_wire u (some h264)
    ∙ (unfold classify_first in ground (arith, bit_and-five_bits u.header))

classify_delta : (u : Coded) → Other u → classify_nal (wire u) (some h264) ≡ delta
classify_delta u (a, (b, c)) =
    classify_wire u (some h264)
    ∙ (unfold classify_first in ground (arith, bit_and-five_bits u.header))

others-NotKey : (us : List Coded) → All Other us → All (NotKey h264) (map wire us)
others-NotKey [] all = tt
others-NotKey (u ∷ us) (o, all) = (λ e. let d = classify_delta u o in cc, others-NotKey us all)

dependents-others : (us : List Coded) → All Other us → dependents h264 (map wire us) ≡ map wire us
unfolding dependents
dependents-others [] all = refl
dependents-others (u ∷ us) (o, all) =
    rw (classify_delta u o) (ap (◌∷◌ (wire u)) (dependents-others us all))

params-record_as :
    (w : WarmupWindow) (f : Bytes) (k : NalKind)
    → (k ≡ delta) ⊎ (k ≡ keyframe)
    → (record_as k w f).0.param_sets ≡ w.param_sets
unfolding record_as
params-record_as w f (param_set d t) (inl e) = absurd cc
params-record_as w f (param_set d t) (inr e) = absurd cc
params-record_as w f keyframe e = ground arith
params-record_as w f delta e = ground arith
params-record_as w f unknown (inl e) = absurd cc
params-record_as w f unknown (inr e) = absurd cc

params-others :
    (w : WarmupWindow) (us : List Coded)
    → w.codec ≡ some h264
    → All Other us
    → (record_all w (map wire us)).param_sets ≡ w.param_sets
unfolding record_all record_frame
params-others w [] e all = refl
params-others w (u ∷ us) e (o, all) =
    params-others (record_frame w (wire u)).0 us
      (lock-record_as w (wire u) h264 (classify_nal (wire u) w.codec) e) all
    ∙ params-record_as w (wire u) (classify_nal (wire u) w.codec)
        (inl (ap (classify_nal (wire u)) e ∙ classify_delta u o))

-- The window behind the two parameter sets.
started : Coded → Coded → WarmupWindow
started sps pps = record default {
  codec = some h264;
  param_sets = insert 8 (wire pps) ((7, wire sps) ∷ []);
}

starts :
    (sps pps : Coded)
    → HasType 7 sps
    → HasType 8 pps
    → record_all default (wire sps ∷ wire pps ∷ []) ≡ started sps pps
unfolding record_all record_frame started record_as insert lock_codec
starts sps pps s p =
    ap (λ k. (record_frame (record_as k default (wire sps)).0 (wire pps)).0) (classify-sps sps s)
    ∙ ap (λ k. (record_as k (record_as (param_set h264 7) default (wire sps)).0 (wire pps)).0)
        (classify-pps pps p)

sorted-started :
    (sps pps : Coded) (x : WarmupWindow)
    → x.param_sets ≡ (started sps pps).param_sets
    → sorted_param_sets x ≡ wire sps ∷ wire pps ∷ []
unfolding started sorted_param_sets insert lookup
sorted-started sps pps x e = ap (λ sets. sorted_param_sets (record x { param_sets = sets })) e

started-params :
    (sps pps idr : Coded) (us : List Coded)
    → HasType 5 idr
    → All Other us
    → (record_all (started sps pps) (wire idr ∷ map wire us)).param_sets
      ≡ (started sps pps).param_sets
unfolding started record_all record_frame
started-params sps pps idr us i all =
    let w = started sps pps in
    params-others (record_frame w (wire idr)).0 us
      (lock-record_as w (wire idr) h264 (classify_nal (wire idr) w.codec) refl) all
    ∙ params-record_as w (wire idr) (classify_nal (wire idr) w.codec) (inr (classify-idr idr i))

-- An H264 session, from its parameter sets and first IDR picture on, with no other of them since: a
-- viewer that joins is sent every frame of it, just as the encoder has handed them over. The picture
-- is no larger than 8 MiB, and the frames since then come to no more than 16 MiB.
pub snapshot-session :
    (sps pps idr : Coded) (us : List Coded)
    → HasType 7 sps
    → HasType 8 pps
    → HasType 5 idr
    → All Other us
    → length (wire idr) ≤ warmup_key_max_bytes
    → total_bytes (map wire us) ≤ warmup_delta_max_bytes
    → snapshot (record_all default (map wire (sps ∷ pps ∷ idr ∷ us)))
      ≡ map wire (sps ∷ pps ∷ idr ∷ us)
unfolding started record_all
snapshot-session sps pps idr us s p i all small fits =
    let w = started sps pps in
    let ds = map wire us in
    let same = dependents-others us all in
    ap (λ x. snapshot (record_all x (wire idr ∷ ds))) (starts sps pps s p)
    ∙ snapshot-after_keyframe w h264 (wire idr) ds refl (classify-idr idr i) small
        (others-NotKey us all)
        (subst (λ fs. total_bytes fs ≤ warmup_delta_max_bytes) (sym same) fits)
    ∙ ap (λ front. front ++ wire idr ∷ dependents h264 ds)
        (sorted-started sps pps _ (started-params sps pps idr us i all))
    ∙ ap (λ fs. wire sps ∷ wire pps ∷ wire idr ∷ fs) same
