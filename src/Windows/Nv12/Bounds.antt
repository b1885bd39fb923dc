-- ===== src/Windows/Nv12/Bounds.antt =====
-- The values that `bgra_to_nv12` writes: plain sums, divided and rounded down, in the ranges of BT.601.
use xyzen_relay.Prelude.{ℕ, ◌+◌, ◌-◌, ◌*◌, ◌/◌, ◌≤◌, ◌<◌, ◌≡◌, arith}
use xyzen_relay.Windows.Nv12.{luma, chroma_u, chroma_v}

module _ (b g r : ℕ) (hb : b < 256) (hg : g < 256) (hr : r < 256) where
  -- On bytes the brightness is the rounded weighted sum, from 16 to 235: the clamp does not act.
  pub luma-eq :
      (luma b g r ≡ (66 * r + 129 * g + 25 * b + 128) / 256 + 16)
      × ((16 ≤ luma b g r) × (luma b g r ≤ 235))
  unfolding luma
  luma-eq = ground arith

  -- On bytes the two colour values are the weighted sums around 128, rounded down even where the sum
  -- is negative, from 16 to 240: the clamp does not act.
  pub chroma-eq :
      ((chroma_u b g r ≡ (112 * b + 128 + 128 * 256 - (38 * r + 74 * g)) / 256)
        × ((16 ≤ chroma_u b g r) × (chroma_u b g r ≤ 240)))
      × ((chroma_v b g r ≡ (112 * r + 128 + 128 * 256 - (94 * g + 18 * b)) / 256)
          × ((16 ≤ chroma_v b g r) × (chroma_v b g r ≤ 240)))
  unfolding chroma_u chroma_v
  chroma-eq = ground arith
