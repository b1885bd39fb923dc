-- ===== src/Checks/Capture.antt =====
-- Concrete runs of the conversions of the Windows capturer.
use xyzen_relay.Prelude.{
  ℕ, zero, suc, ◌<◌, ◌≡◌, refl, arith, true, false, some, List, [], ◌∷◌, ◌++◌, map, length, drop,
  All,
}
use xyzen_relay.Stream.Nal.{starts_with}
use xyzen_relay.Windows.Annexb.{start_code, is_annexb, annexb_split, avcc_to_annexb}
use xyzen_relay.Windows.Annexb.Units.{code_len, units, with_codes}
use xyzen_relay.Windows.Annexb.Split.{annexb_split-units}
use xyzen_relay.Windows.Annexb.Avcc.{avcc_stream, has_unit, avcc_to_annexb-stream}
use xyzen_relay.Windows.Annexb.Parse.{avcc_to_annexb-total}
use xyzen_relay.Windows.Annexb.Clean.{
  no_code, ends_nonzero, annexb_stream, avcc_to_annexb-annexb_stream, avcc_to_annexb-sniffed,
}
use xyzen_relay.Windows.Nv12.{bgra_to_nv12, luma, chroma_u, chroma_v}
use xyzen_relay.Windows.Nv12.Planes.{luma_at, luma_line, luma_plane}
use xyzen_relay.Windows.Nv12.Chroma.{chroma_line, chroma_plane, mean}
use xyzen_relay.Windows.Nv12.Picture.{nv12, bgra_to_nv12-nv12}
use xyzen_relay.Windows.Nv12.Range.{InVideoRange, bgra_to_nv12-InVideoRange}

abbrev copies : ℕ → ℕ → List ℕ
copies zero x = []
copies (suc n) x = x ∷ copies n x

-- A unit behind four bytes, an empty one, and one behind three.
abbrev three_units : List ℕ
three_units = 9 ∷ 0 ∷ 0 ∷ 0 ∷ 1 ∷ 103 ∷ 66 ∷ 0 ∷ 0 ∷ 1 ∷ 0 ∷ 0 ∷ 1 ∷ 101 ∷ 0 ∷ []

annexb_split-units_example :
    annexb_split three_units
    ≡ some ((start_code ++ (103 ∷ 66 ∷ [])) ∷ (start_code ++ (101 ∷ 0 ∷ [])) ∷ [])
unfolding units with_codes code_len
annexb_split-units_example = annexb_split-units three_units

-- A unit of two bytes, and the beginning of a length.
abbrev cut_stream : List ℕ
cut_stream = 0 ∷ 0 ∷ 0 ∷ 2 ∷ 101 ∷ 7 ∷ 0 ∷ 0 ∷ []

cut_stream-bytes : All (λ b. b < 256) cut_stream
cut_stream-bytes = (
  omega arith,
  (
    omega arith,
    (omega arith, (omega arith, (omega arith, (omega arith, (omega arith, (omega arith, tt)))))),
  ),
)

cut_stream-apart : is_annexb cut_stream ≡ false
unfolding is_annexb starts_with
cut_stream-apart = refl

avcc_to_annexb-total_example :
    (nals : List (List ℕ)) × ((tail : List ℕ) × ((cut_stream ≡ avcc_stream nals ++ tail)
        × ((has_unit tail ≡ false)
            × (avcc_to_annexb cut_stream ≡ some (map (λ u. start_code ++ u) nals)))))
avcc_to_annexb-total_example = avcc_to_annexb-total cut_stream cut_stream-bytes cut_stream-apart

cut-has_no_unit : has_unit (0 ∷ 0 ∷ 0 ∷ 5 ∷ 170 ∷ 187 ∷ []) ≡ false
unfolding has_unit
cut-has_no_unit = refl

avcc_to_annexb-stream_example :
    avcc_to_annexb
      (0 ∷ 0 ∷ 0 ∷ 3 ∷ 170 ∷ 187 ∷ 204 ∷ 0 ∷ 0 ∷ 0 ∷ 0 ∷ 0 ∷ 0 ∷ 0 ∷ 5 ∷ 170 ∷ 187 ∷ [])
    ≡ some ((start_code ++ (170 ∷ 187 ∷ 204 ∷ [])) ∷ start_code ∷ [])
unfolding avcc_stream
avcc_to_annexb-stream_example =
    avcc_to_annexb-stream (170 ∷ 187 ∷ 204 ∷ []) ([] ∷ []) (0 ∷ 0 ∷ 0 ∷ 5 ∷ 170 ∷ 187 ∷ [])
      (omega arith, (omega arith, tt)) refl cut-has_no_unit

keyframe-Whole :
    (no_code (101 ∷ 0 ∷ 0 ∷ 3 ∷ []) ≡ true) × (ends_nonzero (101 ∷ 0 ∷ 0 ∷ 3 ∷ []) ≡ true)
unfolding no_code ends_nonzero
keyframe-Whole = (refl, refl)

params-Whole : (no_code (103 ∷ 66 ∷ []) ≡ true) × (ends_nonzero (103 ∷ 66 ∷ []) ≡ true)
unfolding no_code ends_nonzero
params-Whole = (refl, refl)

avcc_to_annexb-annexb_stream_example :
    avcc_to_annexb (0 ∷ 0 ∷ 1 ∷ 103 ∷ 66 ∷ 0 ∷ 0 ∷ 0 ∷ 1 ∷ 101 ∷ 0 ∷ 0 ∷ 3 ∷ [])
    ≡ some ((start_code ++ (103 ∷ 66 ∷ [])) ∷ (start_code ++ (101 ∷ 0 ∷ 0 ∷ 3 ∷ [])) ∷ [])
unfolding annexb_stream
avcc_to_annexb-annexb_stream_example =
    avcc_to_annexb-annexb_stream false (103 ∷ 66 ∷ []) ((true, 101 ∷ 0 ∷ 0 ∷ 3 ∷ []) ∷ [])
      (params-Whole, (keyframe-Whole, tt))

long-no_code : no_code (copies 300 5) ≡ true
unfolding no_code
long-no_code = refl

-- A delta of 300 bytes of the type 5 comes out as one whose first byte is 44.
avcc_to_annexb-sniffed_example :
    avcc_to_annexb (0 ∷ 0 ∷ 1 ∷ 44 ∷ copies 300 5) ≡ some ((start_code ++ (44 ∷ copies 300 5)) ∷ [])
avcc_to_annexb-sniffed_example =
    avcc_to_annexb-sniffed (copies 300 5) (omega arith) (omega arith) long-no_code

-- Two white columns of two pixels.
abbrev white : List ℕ
white = copies 16 255

bgra_to_nv12-nv12_example :
    (bgra_to_nv12 white 2 2 (copies 8 7) ≡ some (235 ∷ 235 ∷ 235 ∷ 235 ∷ 128 ∷ 128 ∷ 7 ∷ 7 ∷ []))
    × (length (nv12 white 1 1) ≡ 6)
unfolding nv12 luma_plane luma_line luma_at chroma_plane chroma_line mean luma chroma_u chroma_v
bgra_to_nv12-nv12_example = bgra_to_nv12-nv12 1 1 white (copies 8 7) (omega arith) (omega arith)

black-bytes : (n : ℕ) → All (λ p. p < 256) (copies n 0)
black-bytes zero = tt
black-bytes (suc n) = (omega arith, black-bytes n)

bgra_to_nv12-InVideoRange_example :
    (planes : List ℕ) × ((bgra_to_nv12 (copies 16 0) 2 2 (copies 6 7)
        ≡ some (planes ++ drop (length planes) (copies 6 7)))
      × ((length planes ≡ 6) × All InVideoRange planes))
bgra_to_nv12-InVideoRange_example =
    bgra_to_nv12-InVideoRange 1 1 (copies 16 0) (copies 6 7) (black-bytes 16) (omega arith)
      (omega arith)
