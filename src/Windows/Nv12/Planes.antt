-- ===== src/Windows/Nv12/Planes.antt =====
-- The first plane that `bgra_to_nv12` writes, against the plane written down directly.
use xyzen_relay.Prelude.{
  ℕ, zero, suc, ◌+◌, ◌*◌, ◌≤◌, ◌<◌, ◌≡◌, refl, sym, ap, ◌∙◌, some, List, [], ◌∷◌, ◌++◌,
  append_assoc, arith, length, drop, get_or, length-append, length-drop, drop-drop,
}
use xyzen_relay.Windows.Nv12.{get_elem?, push_front, set, luma, write_luma, luma_row, luma_rows}

pub get_elem?-inside : (xs : List ℕ) (i : ℕ) → i < length xs → get_elem? xs i ≡ some (get_or xs i 0)
get_elem?-inside [] i h = absurd (omega arith)
get_elem?-inside (x ∷ xs) zero h = refl
get_elem?-inside (x ∷ xs) (suc i) h = get_elem?-inside xs i (omega arith)

-- Writing right behind what is written.
pub set-behind :
    (front rest : List ℕ) (x v : ℕ)
    → set (front ++ (x ∷ rest)) (length front) v ≡ some (front ++ (v ∷ rest))
set-behind [] rest x v = refl
set-behind (y ∷ front) rest x v = ap (push_front y) (set-behind front rest x v)

pub regroup : (a b c d : List ℕ) → (a ++ b) ++ (c ++ d) ≡ a ++ ((b ++ c) ++ d)
regroup a b c d = append_assoc a b (c ++ d) ∙ ap (λ t. a ++ t) (sym (append_assoc b c d))

module _ (src : List ℕ) where
  -- The brightness of the pixel at `src[i]`.
  unfoldable pub luma_at : ℕ → ℕ
  luma_at i = luma (get_or src i 0) (get_or src (i + 1) 0) (get_or src (i + 2) 0)

  -- `n` pixels of a row that begins at `src[row]`, from the column `x`.
  unfoldable pub luma_line : ℕ → ℕ → ℕ → List ℕ
  luma_line row zero x = []
  luma_line row (suc n) x = luma_at (row + x * 4) ∷ luma_line row n (suc x)

  -- `n` rows of `w` pixels, from the row `y`.
  unfoldable pub luma_plane : ℕ → ℕ → ℕ → List ℕ
  luma_plane w zero y = []
  luma_plane w (suc n) y = luma_line (y * w * 4) w 0 ++ luma_plane w n (suc y)

  write_luma-behind :
      (i j x : ℕ) (front rest : List ℕ)
      → i + 2 < length src
      → j ≡ length front
      → write_luma src i j (front ++ (x ∷ rest)) ≡ some (front ++ (luma_at i ∷ rest))
  unfolding write_luma luma_at
  write_luma-behind i j x front rest inside at =
      rw
        (
          get_elem?-inside src i (omega arith),
          get_elem?-inside src (i + 1) (omega arith),
          get_elem?-inside src (i + 2) inside,
          at,
        )
        (set-behind front rest x (luma_at i))

  luma_row-behind :
      (row start n x : ℕ) (front rest : List ℕ)
      → row + (x + n) * 4 ≤ length src
      → start + x ≡ length front
      → n ≤ length rest
      → luma_row src row start n x (front ++ rest)
        ≡ some (front ++ (luma_line row n x ++ drop n rest))
  unfolding luma_row luma_line
  luma_row-behind row start zero x front rest inside at room = refl
  luma_row-behind row start (suc n) x front [] inside at room = absurd (omega arith)
  luma_row-behind row start (suc n) x front (r ∷ rest) inside at room =
      let v = luma_at (row + x * 4) in
      let written = write_luma-behind (row + x * 4) (start + x) r front rest (omega arith) at in
      let next : start + suc x ≡ length (front ++ (v ∷ [])) =
        omega (arith, length-append front (v ∷ [])) in
      rw (written) (
        ap (luma_row src row start n (suc x)) (sym (append_assoc front (v ∷ []) rest))
        ∙ luma_row-behind row start n (suc x) (front ++ (v ∷ [])) rest (omega arith) next
            (omega arith)
        ∙ ap some (append_assoc front (v ∷ []) (luma_line row n (suc x) ++ drop n rest)))

  length-luma_line : (row n x : ℕ) → length (luma_line row n x) ≡ n
  unfolding luma_line
  length-luma_line row zero x = refl
  length-luma_line row (suc n) x = omega (arith, length-luma_line row n (suc x))

  pub length-luma_plane : (w n y : ℕ) → length (luma_plane w n y) ≡ n * w
  unfolding luma_plane
  length-luma_plane w zero y = omega arith
  length-luma_plane w (suc n) y = grind (
    arith,
    length-append (luma_line (y * w * 4) w 0) (luma_plane w n (suc y)),
    length-luma_line (y * w * 4) w 0,
    length-luma_plane w n (suc y),
  )

  pub luma_rows-behind :
      (w n y : ℕ) (front rest : List ℕ)
      → (y * w + n * w) * 4 ≤ length src
      → length front ≡ y * w
      → n * w ≤ length rest
      → luma_rows src w n y (front ++ rest)
        ≡ some (front ++ (luma_plane w n y ++ drop (n * w) rest))
  unfolding luma_rows luma_plane
  luma_rows-behind w zero y front rest inside at room =
      let none_left : 0 ≡ 0 * w = omega arith in ap (λ k. some (front ++ drop k rest)) none_left
  luma_rows-behind w (suc n) y front rest inside at room =
      let line = luma_line (y * w * 4) w 0 in
      let row =
        luma_row-behind (y * w * 4) (y * w) w 0 front rest (grind arith) (omega arith)
          (grind arith) in
      let size : length (front ++ line) ≡ suc y * w =
        grind (arith, length-append front line, length-luma_line (y * w * 4) w 0) in
      let ih =
        luma_rows-behind w n (suc y) (front ++ line) (drop w rest) (grind arith) size
          (grind (arith, length-drop w rest)) in
      let cut : drop (n * w) (drop w rest) ≡ drop (suc n * w) rest =
        drop-drop w (n * w) rest ∙ ap (λ k. drop k rest) (grind arith) in
      rw (row) (
        ap (luma_rows src w n (suc y)) (sym (append_assoc front line (drop w rest)))
        ∙ ih
        ∙ ap (λ t. some ((front ++ line) ++ (luma_plane w n (suc y) ++ t))) cut
        ∙ ap some (regroup front line (luma_plane w n (suc y)) (drop (suc n * w) rest)))
