-- ===== src/Mac/Listing.antt =====
-- `list_displays`: the text that Swift writes into the buffer, and what Rust makes of it. Reading UTF-8
-- and JSON is library code, and comes as `read`: `from_utf8` and then `from_str`.
pub mod Fits
use xyzen_relay.Prelude.{
  ℕ, zero, suc, ◌+◌, ◌-◌, ◌*◌, ◌/◌, ◌%◌, ◌^◌, ◌≤◌, ◌<◌, ◌≡◌, refl, ap, ◌∙◌, Bool, true, false,
  Option, none, some, List, [], ◌∷◌, ◌++◌, ltb, leb, if◌then◌else◌, length, take, drop, zeros,
}
use xyzen_relay.Prelude.Int.{ℤ, pos, negsuc}

pub record DisplayInfo : Type 0 where
  pub id : ℕ
  pub width : ℤ
  pub height : ℤ
  pub is_primary : Bool

-- The decimal digits of a number; 20 are enough for 64 bits.
unfoldable pub digits : ℕ → ℕ → List ℕ
digits zero n = []
digits (suc fuel) n =
    let front = digits fuel (n / 10) in
    if ltb n 10 then (48 + n) ∷ [] else front ++ (48 + n % 10) ∷ []

unfoldable pub decimal : ℤ → List ℕ
decimal (pos n) = digits 20 n
decimal (negsuc n) = 45 ∷ digits 20 (suc n)

-- {"id":   ,"width":   ,"height":   ,"is_primary":   true   false
abbrev pub id_key : List ℕ
id_key = 0x7b ∷ 0x22 ∷ 0x69 ∷ 0x64 ∷ 0x22 ∷ 0x3a ∷ []

abbrev pub width_key : List ℕ
width_key = 0x2c ∷ 0x22 ∷ 0x77 ∷ 0x69 ∷ 0x64 ∷ 0x74 ∷ 0x68 ∷ 0x22 ∷ 0x3a ∷ []

abbrev pub height_key : List ℕ
height_key = 0x2c ∷ 0x22 ∷ 0x68 ∷ 0x65 ∷ 0x69 ∷ 0x67 ∷ 0x68 ∷ 0x74 ∷ 0x22 ∷ 0x3a ∷ []

abbrev pub primary_key : List ℕ
primary_key =
    0x2c ∷ 0x22 ∷ 0x69 ∷ 0x73 ∷ 0x5f ∷ 0x70 ∷ 0x72 ∷ 0x69 ∷ 0x6d ∷ 0x61 ∷ 0x72 ∷ 0x79 ∷ 0x22 ∷ 0x3a
    ∷ []

abbrev pub bool_text : Bool → List ℕ
bool_text true = 0x74 ∷ 0x72 ∷ 0x75 ∷ 0x65 ∷ []
bool_text false = 0x66 ∷ 0x61 ∷ 0x6c ∷ 0x73 ∷ 0x65 ∷ []

unfoldable pub display_text : DisplayInfo → List ℕ
display_text d =
    id_key
    ++ (digits 20 d.id
        ++ (width_key
            ++ (decimal d.width
                ++ (height_key
                    ++ (decimal d.height
                        ++ (primary_key ++ (bool_text d.is_primary ++ 0x7d ∷ [])))))))

-- `joined(separator: ",")`.
unfoldable pub joined : List DisplayInfo → List ℕ
joined [] = []
joined (d ∷ []) = display_text d
joined (d ∷ e ∷ ds) = display_text d ++ 0x2c ∷ joined (e ∷ ds)

unfoldable pub json : List DisplayInfo → List ℕ
json ds = 0x5b ∷ joined ds ++ 0x5d ∷ []

-- The count of bytes, and the buffer of `capacity` bytes behind the call: `none` is -1, with nothing
-- written.
unfoldable pub xz_capturer_list_displays_json : List DisplayInfo → ℕ → List ℕ → Option ℕ × List ℕ
xz_capturer_list_displays_json ds capacity out =
    let bytes = json ds in
    if ltb capacity (length bytes)
    then (none, out)
    else (some (length bytes), bytes ++ drop (length bytes) out)

abbrev pub or_empty : Option (List DisplayInfo) → List DisplayInfo
or_empty none = []
or_empty (some ds) = ds

module _ (read : List ℕ → Option (List DisplayInfo)) where
  abbrev pub read_back : Option ℕ × List ℕ → List DisplayInfo
  read_back (none, buf) = []
  read_back (some n, buf) = or_empty (read (take n buf))

  -- `ds` is what ScreenCaptureKit reports.
  unfoldable pub list_displays : List DisplayInfo → List DisplayInfo
  list_displays ds = read_back (xz_capturer_list_displays_json ds 8192 (zeros 8192))
