-- ===== src/Mac/Listing/Fits.antt =====
-- How many displays the buffer of `list_displays` has room for.
use native.Mathlib.Nat.{pow-suc}
use xyzen_relay.Prelude.{
  ℕ, zero, suc, ◌+◌, ◌*◌, ◌/◌, ◌%◌, ◌≤◌, ◌<◌, ◌≡◌, refl, ap, ◌∙◌, Bool, true, false, Option, some,
  List, [], ◌∷◌, ◌++◌, ltb, length, Bool-cases, inl, inr, ◌^◌, ◌-◌, drop, zeros, length-append,
  take-length_append, arith,
}
use xyzen_relay.Prelude.Int.{ℤ, pos, negsuc}
use xyzen_relay.Mac.Listing.{
  DisplayInfo, digits, decimal, width_key, height_key, primary_key, bool_text, display_text, joined,
  json, xz_capturer_list_displays_json, or_empty, list_displays,
}

length-digits : (fuel n : ℕ) → length (digits fuel n) ≤ fuel
unfolding digits
length-digits zero n = omega arith
length-digits (suc fuel) n =
    ground (
      arith,
      length-digits fuel (n / 10),
      length-append (digits fuel (n / 10)) ((48 + n % 10) ∷ []),
    )

length-decimal : (z : ℤ) → length (decimal z) ≤ 21
unfolding decimal
length-decimal (pos n) = omega (arith, length-digits 20 n)
length-decimal (negsuc n) = omega (arith, length-digits 20 (suc n))

length-bool_text : (b : Bool) → length (bool_text b) ≤ 5
length-bool_text true = omega arith
length-bool_text false = omega arith

-- No entry takes more than 107 bytes.
length-display_text : (d : DisplayInfo) → length (display_text d) ≤ 107
unfolding display_text
length-display_text d =
    let tail = bool_text d.is_primary ++ 0x7d ∷ [] in
    let high = decimal d.height ++ (primary_key ++ tail) in
    let wide = decimal d.width ++ (height_key ++ high) in
    omega (
      arith,
      length-digits 20 d.id,
      length-decimal d.width,
      length-decimal d.height,
      length-bool_text d.is_primary,
      length-append (digits 20 d.id) (width_key ++ wide),
      length-append (decimal d.width) (height_key ++ high),
      length-append (decimal d.height) (primary_key ++ tail),
      length-append (bool_text d.is_primary) (0x7d ∷ []),
    )

length-joined : (ds : List DisplayInfo) → length (joined ds) ≤ 108 * length ds
unfolding joined
length-joined [] = omega arith
length-joined (d ∷ []) = omega (arith, length-display_text d)
length-joined (d ∷ e ∷ ds) = omega (
  arith,
  length-display_text d,
  length-joined (e ∷ ds),
  length-append (display_text d) (0x2c ∷ joined (e ∷ ds)),
)

length-json : (ds : List DisplayInfo) → length (json ds) ≤ 108 * length ds + 2
unfolding json
length-json ds = omega (arith, length-joined ds, length-append (joined ds) (0x5d ∷ []))

-- Up to 75 displays are listed as they are, by a reader that reads back what Swift writes of them.
pub list_displays-all :
    (read : List ℕ → Option (List DisplayInfo)) (ds : List DisplayInfo)
    → read (json ds) ≡ some ds
    → length ds ≤ 75
    → list_displays read ds ≡ ds
unfolding list_displays xz_capturer_list_displays_json
list_displays-all read ds reads few =
    let fits : ltb 8192 (length (json ds)) ≡ false = ground (arith, length-json ds) in
    let rest = drop (length (json ds)) (zeros 8192) in
    rw fits (ap (λ l. or_empty (read l)) (take-length_append (json ds) rest) ∙ ap or_empty reads)

-- The number that digits stand for, behind those of `acc`.
value_from : ℕ → List ℕ → ℕ
value_from acc [] = acc
value_from acc (x ∷ xs) = value_from (acc * 10 + (x - 48)) xs

value_from-append :
    (acc y : ℕ) (xs : List ℕ) → value_from acc (xs ++ y ∷ []) ≡ value_from acc xs * 10 + (y - 48)
unfolding value_from
value_from-append acc y [] = refl
value_from-append acc y (x ∷ xs) = value_from-append (acc * 10 + (x - 48)) y xs

-- As many digits as there is fuel are enough for the number.
digits_value : (fuel n : ℕ) → n < 10 ^ fuel → value_from 0 (digits fuel n) ≡ n
unfolding digits value_from
digits_value zero n h = omega arith
digits_value (suc fuel) n h = elim (Bool-cases (ltb n 10)) [
  | inl small ↦ ground arith
  | inr large ↦ rw large (
      value_from-append 0 (48 + n % 10) (digits fuel (n / 10))
      ∙ omega (arith, digits_value fuel (n / 10) (omega (arith, pow-suc 10 fuel))))
]
