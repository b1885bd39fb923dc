-- ===== src/Windows/Nv12/Range.antt =====
-- The range of every byte that `bgra_to_nv12` writes.
use xyzen_relay.Prelude.{
  ℕ, zero, suc, ◌+◌, ◌*◌, ◌/◌, ◌≤◌, ◌<◌, ◌≡◌, some, List, [], ◌∷◌, ◌++◌, arith, length, drop,
  get_or, All, All-append,
}
use xyzen_relay.Windows.Nv12.Bounds.{luma-eq, chroma-eq}
use xyzen_relay.Windows.Nv12.Planes.{luma_at, luma_line, luma_plane}
use xyzen_relay.Windows.Nv12.Chroma.{blue, green, red, mean, chroma_line, chroma_plane}
use xyzen_relay.Windows.Nv12.{bgra_to_nv12}
use xyzen_relay.Windows.Nv12.Picture.{nv12, bgra_to_nv12-nv12}

abbrev pub InVideoRange : ℕ → Type 0
InVideoRange v = (16 ≤ v) × (v ≤ 240)

get_or-small : (src : List ℕ) (i : ℕ) → All (λ p. p < 256) src → get_or src i 0 < 256
get_or-small [] i small = omega arith
get_or-small (p ∷ src) zero (here, small) = here
get_or-small (p ∷ src) (suc i) (here, small) = get_or-small src i small

module _ (src : List ℕ) (small : All (λ p. p < 256) src) where
  luma_line-InVideoRange : (row n x : ℕ) → All InVideoRange (luma_line src row n x)
  unfolding luma_line luma_at
  luma_line-InVideoRange row zero x = tt
  luma_line-InVideoRange row (suc n) x =
      let i = row + x * 4 in
      let at = λ (k : ℕ). get_or-small src k small in
      let (exact, (low, high)) = luma-eq _ _ _ (at i) (at (i + 1)) (at (i + 2)) in
      ((low, omega arith), luma_line-InVideoRange row n (suc x))

  luma_plane-InVideoRange : (w n y : ℕ) → All InVideoRange (luma_plane src w n y)
  unfolding luma_plane
  luma_plane-InVideoRange w zero y = tt
  luma_plane-InVideoRange w (suc n) y =
      All-append InVideoRange (luma_line src (y * w * 4) w 0) (luma_plane src w n (suc y))
        (luma_line-InVideoRange (y * w * 4) w 0) (luma_plane-InVideoRange w n (suc y))

  mean-small :
      (colour : ℕ → ℕ) (w y x : ℕ) → ((i : ℕ) → colour i < 256) → mean src colour w y x < 256
  unfolding mean
  mean-small colour w y x h = omega (
    arith,
    h ((y * w + x) * 4),
    h ((y * w + (x + 1)) * 4),
    h (((y + 1) * w + x) * 4),
    h (((y + 1) * w + (x + 1)) * 4),
  )

  chroma_line-InVideoRange : (w y n x : ℕ) → All InVideoRange (chroma_line src w y n x)
  unfolding chroma_line
  chroma_line-InVideoRange w y zero x = tt
  chroma_line-InVideoRange w y (suc n) x =
      let b = mean-small (blue src) w y x (λ i. get_or-small src i small) in
      let g = mean-small (green src) w y x (λ i. get_or-small src (i + 1) small) in
      let r = mean-small (red src) w y x (λ i. get_or-small src (i + 2) small) in
      let (u, v) = chroma-eq _ _ _ b g r in (u.1, (v.1, chroma_line-InVideoRange w y n (x + 2)))

  chroma_plane-InVideoRange : (a n y : ℕ) → All InVideoRange (chroma_plane src a n y)
  unfolding chroma_plane
  chroma_plane-InVideoRange a zero y = tt
  chroma_plane-InVideoRange a (suc n) y =
      All-append InVideoRange (chroma_line src (2 * a) y a 0) (chroma_plane src a n (y + 2))
        (chroma_line-InVideoRange (2 * a) y a 0) (chroma_plane-InVideoRange a n (y + 2))

  -- Every byte of the planes of a picture of bytes is from 16 to 240.
  pub nv12-InVideoRange : (a b : ℕ) → All InVideoRange (nv12 src a b)
  unfolding nv12
  nv12-InVideoRange a b =
      All-append InVideoRange (luma_plane src (2 * a) (2 * b) 0) (chroma_plane src a b 0)
        (luma_plane-InVideoRange (2 * a) (2 * b) 0) (chroma_plane-InVideoRange a b 0)

-- On a picture of bytes of even width and height, with a target that is long enough: as many bytes as
-- the two planes have are written in front of what was there, and each of them is from 16 to 240.
pub bgra_to_nv12-InVideoRange :
    (a b : ℕ) (src dst : List ℕ)
    → All (λ p. p < 256) src
    → 2 * a * (2 * b) * 4 ≤ length src
    → 2 * a * (2 * b) + 2 * a * (2 * b) / 2 ≤ length dst
    → (planes : List ℕ) × ((bgra_to_nv12 src (2 * a) (2 * b) dst
          ≡ some (planes ++ drop (length planes) dst))
        × ((length planes ≡ 2 * a * (2 * b) + 2 * a * (2 * b) / 2) × All InVideoRange planes))
bgra_to_nv12-InVideoRange a b src dst small long room =
    let (e, size) = bgra_to_nv12-nv12 a b src dst long room in
    (nv12 src a b, (e, (size, nv12-InVideoRange src small a b)))
