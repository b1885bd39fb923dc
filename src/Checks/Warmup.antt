-- ===== src/Checks/Warmup.antt =====
-- Runs of the warm-up window, after the tests of crates/stream/src/main.rs.
use xyzen_relay.Prelude.{ℕ, zero, suc, ◌*◌, ◌≡◌, refl, true, some, none, [], ◌∷◌, ◌++◌, arith}
use xyzen_relay.Stream.Nal.{
  hevc, h264, param_set, keyframe, unknown, classify_nal, classify_at, classify_first, first_byte,
}
use xyzen_relay.Prelude.{length}
use xyzen_relay.Prelude.Assoc.{lookup, nat_eq}
use xyzen_relay.Stream.Warmup.Invariant.{Inv, total_bytes}
use xyzen_relay.Stream.Warmup.Replay.{
  is_dependent, dependents, snapshot-after_keyframe, lock-record_all,
}
use xyzen_relay.Stream.Warmup.Overflow.{snapshot-after_overflow}
use xyzen_relay.Stream.Warmup.Latest.{latest, lookup-record_all}
use xyzen_relay.Stream.Warmup.{
  Bytes, WarmupWindow, default, record_frame, record_all, snapshot, sorted_param_sets,
}
use xyzen_relay.Stream.Warmup.Invariant.Frames.{record_frame-Inv, room_window-Inv}

-- Eight bytes of time, a start code, the byte that tells the kind, and one more.
abbrev stamped : ℕ → ℕ → Bytes
stamped first last = 0 ∷ 0 ∷ 0 ∷ 0 ∷ 0 ∷ 0 ∷ 0 ∷ 0 ∷ 0 ∷ 0 ∷ 0 ∷ 1 ∷ first ∷ last ∷ []

abbrev vps : Bytes
vps = stamped 0x40 1

abbrev sps : Bytes
sps = stamped 0x42 1

abbrev pps : Bytes
pps = stamped 0x44 1

abbrev idr : ℕ → Bytes
idr = stamped 0x26

abbrev slice : ℕ → Bytes
slice = stamped 0x02

classify_vps : classify_nal vps none ≡ param_set hevc 32
unfolding classify_nal first_byte classify_at classify_first
classify_vps = refl

classify_h264_sps : classify_nal (stamped 0x67 0x42) none ≡ param_set h264 7
unfolding classify_nal first_byte classify_at classify_first
classify_h264_sps = refl

classify_h264_idr : classify_nal (stamped 0x65 0x88) none ≡ unknown
unfolding classify_nal first_byte classify_at classify_first
classify_h264_idr = refl

classify_idr : classify_nal (idr 1) (some hevc) ≡ keyframe
unfolding classify_nal first_byte classify_at classify_first
classify_idr = refl

abbrev started : WarmupWindow
started = record_all default (vps ∷ sps ∷ pps ∷ [])

-- Parameter sets by type, the second keyframe, and the slices behind it.
replayed :
    snapshot (record_all default (pps ∷ vps ∷ sps ∷ idr 0xaa ∷ slice 1 ∷ idr 0xff ∷ slice 2 ∷ []))
    ≡ vps ∷ sps ∷ pps ∷ idr 0xff ∷ slice 2 ∷ []
unfolding snapshot record_all record_frame classify_nal first_byte classify_at classify_first
replayed = refl

not_before_keyframe : snapshot (record_all default (vps ∷ sps ∷ slice 1 ∷ [])) ≡ []
unfolding snapshot record_all record_frame classify_nal first_byte classify_at classify_first
not_before_keyframe = refl

record_frame-Inv_example : Inv (record_frame started (idr 1)).0
record_frame-Inv_example = record_frame-Inv started (idr 1) (room_window-Inv (vps ∷ sps ∷ pps ∷ []))

snapshot-after_keyframe_example :
    snapshot (record_all started (idr 1 ∷ slice 1 ∷ sps ∷ slice 2 ∷ []))
    ≡ vps ∷ sps ∷ pps ∷ idr 1 ∷ slice 1 ∷ slice 2 ∷ []
unfolding record_all record_frame classify_nal first_byte classify_at classify_first dependents
    total_bytes sorted_param_sets
snapshot-after_keyframe_example =
    snapshot-after_keyframe started hevc (idr 1) (slice 1 ∷ sps ∷ slice 2 ∷ []) refl refl
      (omega arith) (λ e. cc, (λ e. cc, (λ e. cc, tt))) (omega arith)

lookup-record_all_example :
    lookup 33 (record_all started (stamped 0x42 7 ∷ idr 1 ∷ [])).param_sets ≡ some (stamped 0x42 7)
unfolding record_all record_frame classify_nal first_byte classify_at classify_first latest lookup
lookup-record_all_example = lookup-record_all started hevc 33 (stamped 0x42 7 ∷ idr 1 ∷ []) refl

lock-record_all_example : (record_all started (stamped 0x67 7 ∷ [])).codec ≡ some hevc
unfolding record_all record_frame classify_nal first_byte classify_at classify_first
lock-record_all_example = lock-record_all started (stamped 0x67 7 ∷ []) hevc refl

zeros : ℕ → Bytes
zeros zero = []
zeros (suc n) = 0 ∷ zeros n

length-zeros : (n : ℕ) → length (zeros n) ≡ n
unfolding zeros
length-zeros zero = refl
length-zeros (suc n) = omega (arith, length-zeros n)

abbrev slice_of : Bytes → Bytes
slice_of payload = 0 ∷ 0 ∷ 0 ∷ 0 ∷ 0 ∷ 0 ∷ 0 ∷ 0 ∷ 0 ∷ 0 ∷ 0 ∷ 1 ∷ 0x02 ∷ payload

slice_of-is_dependent : (p : Bytes) → is_dependent (classify_nal (slice_of p) (some hevc)) ≡ true
unfolding classify_nal first_byte classify_at classify_first
slice_of-is_dependent p = ground arith

-- A slice of more than 16 MiB.
abbrev huge : Bytes
huge = slice_of (zeros (16 * 1024 * 1024))

snapshot-after_overflow_example :
    snapshot (record_all started ((idr 1 ∷ slice 1 ∷ []) ++ (huge ∷ slice 3 ∷ []))) ≡ []
unfolding record_all record_frame classify_nal first_byte classify_at classify_first dependents
    total_bytes
snapshot-after_overflow_example =
    snapshot-after_overflow started hevc (idr 1) (slice 1 ∷ []) huge (slice 3 ∷ []) refl refl
      (omega arith) (λ e. cc, tt) (omega arith) (slice_of-is_dependent (zeros (16 * 1024 * 1024)))
      (omega (arith, length-zeros (16 * 1024 * 1024))) (λ e. cc, tt)
