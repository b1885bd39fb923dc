-- ===== src/Windows/Nv12/Picture.antt =====
-- `bgra_to_nv12` on a whole picture.
use xyzen_relay.Prelude.{
  ℕ, ◌+◌, ◌*◌, ◌/◌, ◌≤◌, ◌≡◌, sym, ap, ◌∙◌, some, List, [], ◌++◌, append_assoc, arith, length, drop,
  length-append, length-drop, drop-drop,
}
use xyzen_relay.Windows.Nv12.{bgra_to_nv12}
use xyzen_relay.Windows.Nv12.Planes.{luma_plane, length-luma_plane, luma_rows-behind}
use xyzen_relay.Windows.Nv12.Chroma.{chroma_plane, length-chroma_plane, chroma_rows-behind}

-- The two planes of a picture `2 * a` wide and `2 * b` high.
unfoldable pub nv12 : List ℕ → ℕ → ℕ → List ℕ
nv12 src a b = luma_plane src (2 * a) (2 * b) 0 ++ chroma_plane src a b 0

-- On a picture of even width and height, with a source and a target that are long enough, the
-- conversion does not panic: it writes the two planes, which take half as much again as there are
-- pixels, and leaves what is behind them.
pub bgra_to_nv12-nv12 :
    (a b : ℕ) (src dst : List ℕ)
    → 2 * a * (2 * b) * 4 ≤ length src
    → 2 * a * (2 * b) + 2 * a * (2 * b) / 2 ≤ length dst
    → (bgra_to_nv12 src (2 * a) (2 * b) dst
        ≡ some (nv12 src a b ++ drop (length (nv12 src a b)) dst))
      × (length (nv12 src a b) ≡ 2 * a * (2 * b) + 2 * a * (2 * b) / 2)
unfolding bgra_to_nv12 nv12
bgra_to_nv12-nv12 a b src dst inside room =
    let w = 2 * a in
    let h = 2 * b in
    let rows : (h + 1) / 2 ≡ b = omega arith in
    let high = luma_plane src w h 0 in
    let low = chroma_plane src a b 0 in
    let double : w * h ≡ 2 * (b * w) = grind arith in
    let half : w * h / 2 ≡ b * w = omega (arith, double) in
    let high_size = length-luma_plane src w h 0 in
    let low_size = length-chroma_plane src a b 0 in
    let first = luma_rows-behind src w h 0 [] dst (grind arith) (omega arith) (grind arith) in
    let second =
      chroma_rows-behind src a (w * h) b 0 high (drop (h * w) dst) (grind arith) (grind arith)
        (grind (arith, length-drop (h * w) dst)) in
    let size : h * w + b * w ≡ length (high ++ low) = grind (arith, length-append high low) in
    let cut : drop (b * w) (drop (h * w) dst) ≡ drop (length (high ++ low)) dst =
      drop-drop (h * w) (b * w) dst ∙ ap (λ n. drop n dst) size in
    (
      rw (first, rows)
          (second
            ∙ ap (λ t. some (high ++ (low ++ t))) cut
            ∙ ap some (sym (append_assoc high low (drop (length (high ++ low)) dst)))),
      grind (arith, length-append high low),
    )
