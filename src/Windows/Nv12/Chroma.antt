-- ===== src/Windows/Nv12/Chroma.antt =====
-- The second plane that `bgra_to_nv12` writes, against the plane written down directly.
use xyzen_relay.Prelude.{
  ℕ, zero, suc, ◌+◌, ◌*◌, ◌/◌, ◌≤◌, ◌<◌, ◌≡◌, refl, sym, ap, ◌∙◌, some, List, [], ◌∷◌, ◌++◌,
  append_assoc, arith, length, drop, get_or, length-append, length-drop, drop-drop,
}
use xyzen_relay.Windows.Nv12.{
  set, chroma_u, chroma_v, Sums, add_pixel, block_sums, write_chroma, chroma_row, chroma_rows,
}
use xyzen_relay.Windows.Nv12.Planes.{get_elem?-inside, set-behind, regroup}

module _ (src : List ℕ) where
  -- The colours of the pixel at `src[i]`.
  abbrev pub blue : ℕ → ℕ
  blue i = get_or src i 0

  abbrev pub green : ℕ → ℕ
  green i = get_or src (i + 1) 0

  abbrev pub red : ℕ → ℕ
  red i = get_or src (i + 2) 0

  -- A quarter of the sum of one colour over the four pixels at the row `y` and the column `x`.
  unfoldable pub mean : (ℕ → ℕ) → ℕ → ℕ → ℕ → ℕ
  mean colour w y x =
      (colour ((y * w + x) * 4)
        + colour ((y * w + (x + 1)) * 4)
        + colour (((y + 1) * w + x) * 4)
        + colour (((y + 1) * w + (x + 1)) * 4))
      / 4

  -- `n` pairs of colour values from the column `x`.
  unfoldable pub chroma_line : ℕ → ℕ → ℕ → ℕ → List ℕ
  chroma_line w y zero x = []
  chroma_line w y (suc n) x =
      chroma_u (mean blue w y x) (mean green w y x) (mean red w y x)
      ∷ chroma_v (mean blue w y x) (mean green w y x) (mean red w y x)
      ∷ chroma_line w y n (x + 2)

  -- `n` such rows, for pictures `2 * a` pixels wide, from the row `y`.
  unfoldable pub chroma_plane : ℕ → ℕ → ℕ → List ℕ
  chroma_plane a zero y = []
  chroma_plane a (suc n) y = chroma_line (2 * a) y a 0 ++ chroma_plane a n (y + 2)

  add_pixel-inside :
      (i sum_b sum_g sum_r : ℕ)
      → i + 2 < length src
      → add_pixel src i (sum_b, sum_g, sum_r)
        ≡ some (sum_b + blue i, sum_g + green i, sum_r + red i)
  unfolding add_pixel
  add_pixel-inside i sum_b sum_g sum_r inside =
      rw
        (
          get_elem?-inside src i (omega arith),
          get_elem?-inside src (i + 1) (omega arith),
          get_elem?-inside src (i + 2) inside,
        )
        refl

  block_sums-inside :
      (w y x : ℕ)
      → x + 2 ≤ w
      → (y * w + 2 * w) * 4 ≤ length src
      → (sums : Sums) × ((block_sums src w y x ≡ some sums)
          × ((sums.0 / 4 ≡ mean blue w y x)
              × ((sums.1 / 4 ≡ mean green w y x) × (sums.2 / 4 ≡ mean red w y x))))
  unfolding block_sums mean
  block_sums-inside w y x room inside =
      let same_row : y + 0 ≡ y = omega arith in
      let same_column : x + 0 ≡ x = omega arith in
      let p0 = (y * w + x) * 4 in
      let p1 = (y * w + (x + 1)) * 4 in
      let p2 = ((y + 1) * w + x) * 4 in
      let p3 = ((y + 1) * w + (x + 1)) * 4 in
      let sum = λ (colour : ℕ → ℕ). 0 + colour p0 + colour p1 + colour p2 + colour p3 in
      (
        (sum blue, sum green, sum red),
        (
          rw
              (
                same_row,
                same_column,
                add_pixel-inside p0 0 0 0 (grind arith),
                add_pixel-inside p1 _ _ _ (grind arith),
                add_pixel-inside p2 _ _ _ (grind arith),
                add_pixel-inside p3 _ _ _ (grind arith),
              )
              refl,
          (omega arith, (omega arith, omega arith)),
        ),
      )

  -- One round of the inner loop, behind what is written.
  write_chroma-behind :
      (w uv_off y x p q : ℕ) (front rest : List ℕ)
      → x + 2 ≤ w
      → (y * w + 2 * w) * 4 ≤ length src
      → uv_off + y / 2 * w + x ≡ length front
      → write_chroma src w uv_off y x (front ++ (p ∷ q ∷ rest))
        ≡ some ((front ++ chroma_line w y 1 x) ++ rest)
  unfolding write_chroma chroma_line
  write_chroma-behind w uv_off y x p q front rest room inside at =
      let (sums, (e, (eb, (eg, er)))) = block_sums-inside w y x room inside in
      let u = chroma_u (mean blue w y x) (mean green w y x) (mean red w y x) in
      let v = chroma_v (mean blue w y x) (mean green w y x) (mean red w y x) in
      let next : length front + 1 ≡ length (front ++ (u ∷ [])) =
        omega (arith, length-append front (u ∷ [])) in
      rw (e, eb, eg, er, at, set-behind front (q ∷ rest) p u, next)
        (ap (λ dst. set dst (length (front ++ (u ∷ []))) v)
            (sym (append_assoc front (u ∷ []) (q ∷ rest)))
          ∙ set-behind (front ++ (u ∷ [])) rest q v
          ∙ ap some
              (append_assoc front (u ∷ []) (v ∷ rest) ∙ sym (append_assoc front (u ∷ v ∷ []) rest)))

  length-chroma_line : (w y n x : ℕ) → length (chroma_line w y n x) ≡ 2 * n
  unfolding chroma_line
  length-chroma_line w y zero x = omega arith
  length-chroma_line w y (suc n) x = omega (arith, length-chroma_line w y n (x + 2))

  chroma_row-behind :
      (w uv_off y n x : ℕ) (front rest : List ℕ)
      → x + 2 * n ≤ w
      → (y * w + 2 * w) * 4 ≤ length src
      → uv_off + y / 2 * w + x ≡ length front
      → 2 * n ≤ length rest
      → chroma_row src w uv_off y n x (front ++ rest)
        ≡ some (front ++ (chroma_line w y n x ++ drop (2 * n) rest))
  unfolding chroma_row chroma_line
  chroma_row-behind w uv_off y zero x front rest wide inside at room =
      let none_left : 0 ≡ 2 * 0 = omega arith in ap (λ k. some (front ++ drop k rest)) none_left
  chroma_row-behind w uv_off y (suc n) x front [] wide inside at room = absurd (omega arith)
  chroma_row-behind w uv_off y (suc n) x front (p ∷ []) wide inside at room = absurd (omega arith)
  chroma_row-behind w uv_off y (suc n) x front (p ∷ q ∷ rest) wide inside at room =
      let pair = chroma_line w y 1 x in
      let written = write_chroma-behind w uv_off y x p q front rest (omega arith) inside at in
      let next : uv_off + y / 2 * w + (x + 2) ≡ length (front ++ pair) =
        omega (arith, length-append front pair, length-chroma_line w y 1 x) in
      let two : suc (suc (2 * n)) ≡ 2 * suc n = omega arith in
      rw (written) (
        chroma_row-behind w uv_off y n (x + 2) (front ++ pair) rest (omega arith) inside next
          (omega arith)
        ∙ ap some (append_assoc front pair (chroma_line w y n (x + 2) ++ drop (2 * n) rest))
        ∙ ap (λ k. some (front ++ (chroma_line w y (suc n) x ++ drop k (p ∷ q ∷ rest)))) two)

  pub length-chroma_plane : (a n y : ℕ) → length (chroma_plane a n y) ≡ n * (2 * a)
  unfolding chroma_plane
  length-chroma_plane a zero y = omega arith
  length-chroma_plane a (suc n) y = grind (
    arith,
    length-append (chroma_line (2 * a) y a 0) (chroma_plane a n (y + 2)),
    length-chroma_line (2 * a) y a 0,
    length-chroma_plane a n (y + 2),
  )

  -- From the row `2 * k`.
  pub chroma_rows-behind :
      (a uv_off n k : ℕ) (front rest : List ℕ)
      → (2 * k * (2 * a) + 2 * n * (2 * a)) * 4 ≤ length src
      → uv_off + k * (2 * a) ≡ length front
      → n * (2 * a) ≤ length rest
      → chroma_rows src (2 * a) uv_off n (2 * k) (front ++ rest)
        ≡ some (front ++ (chroma_plane a n (2 * k) ++ drop (n * (2 * a)) rest))
  unfolding chroma_rows chroma_plane
  chroma_rows-behind a uv_off zero k front rest inside at room =
      let none_left : 0 ≡ 0 * (2 * a) = omega arith in
      ap (λ m. some (front ++ drop m rest)) none_left
  chroma_rows-behind a uv_off (suc n) k front rest inside at room =
      let w = 2 * a in
      let line = chroma_line w (2 * k) a 0 in
      let columns : (w + 1) / 2 ≡ a = omega arith in
      let half : 2 * k / 2 ≡ k = omega arith in
      let down : 2 * k + 2 ≡ 2 * suc k = omega arith in
      let start : uv_off + 2 * k / 2 * w + 0 ≡ length front =
        ap (λ (m : ℕ). uv_off + m * w + 0) half ∙ omega arith in
      let row =
        chroma_row-behind w uv_off (2 * k) a 0 front rest (omega arith) (grind arith) start
          (grind arith) in
      let size : uv_off + suc k * w ≡ length (front ++ line) =
        grind (arith, length-append front line, length-chroma_line w (2 * k) a 0) in
      let ih =
        chroma_rows-behind a uv_off n (suc k) (front ++ line) (drop w rest) (grind arith) size
          (grind (arith, length-drop w rest)) in
      let cut : drop (n * w) (drop w rest) ≡ drop (suc n * w) rest =
        drop-drop w (n * w) rest ∙ ap (λ m. drop m rest) (grind arith) in
      rw (columns, row, down)
        (ap (chroma_rows src w uv_off n (2 * suc k)) (sym (append_assoc front line (drop w rest)))
          ∙ ih
          ∙ ap (λ t. some ((front ++ line) ++ (chroma_plane a n (2 * suc k) ++ t))) cut
          ∙ ap some (regroup front line (chroma_plane a n (2 * suc k)) (drop (suc n * w) rest)))
