-- ===== src/Windows/Displays/Selected.antt =====
-- An id that the list of displays hands out opens the monitor that it stands for.
use Prim.Native.String.{String}
use xyzen_relay.Prelude.{
  ℕ, suc, ◌+◌, ◌%◌, ◌^◌, ◌<◌, ◌≡◌, refl, ap, ◌∙◌, Option, none, some, List, [], ◌∷◌, length, All,
  arith,
}
use xyzen_relay.Windows.Nv12.{get_elem?, and_then}
use xyzen_relay.Windows.Displays.{
  Monitor, DisplayInfo, name_of, same_name, describe, described, list_displays, or_else, resolve,
}

-- What the id of an entry opens: a monitor of the size that the entry gives.
abbrev pub Opens : (ℕ → Option Monitor) → Option Monitor → DisplayInfo → Type 0
Opens from_index primary d =
    (m : Monitor) × ((resolve from_index primary d.id ≡ some m)
      × ((m.width ≡ some d.width) × (m.height ≡ some d.height)))

-- An entry, where there is one, has the number of the monitor and its size.
abbrev Entry : ℕ → Monitor → Option DisplayInfo → Type 0
Entry idx m none = Unit {0}
Entry idx m (some d) =
    (d.id ≡ (idx % 2 ^ 32 + 1) % 2 ^ 32) × ((m.width ≡ some d.width) × (m.height ≡ some d.height))

sized-Entry :
    (name : Option String) (idx : ℕ) (m : Monitor) (w h : Option ℕ)
    → m.width ≡ w
    → m.height ≡ h
    → Entry idx m (
        and_then w (λ width. and_then h (λ height. some (record {
          id = (idx % 2 ^ 32 + 1) % 2 ^ 32;
          width = width;
          height = height;
          is_primary = same_name name m.device_name;
        }))))
sized-Entry name idx m none h ew eh = tt
sized-Entry name idx m (some w) none ew eh = tt
sized-Entry name idx m (some w) (some h) ew eh = (refl, (ew, eh))

describe-Entry : (name : Option String) (idx : ℕ) (m : Monitor) → Entry idx m (describe name idx m)
unfolding describe
describe-Entry name idx m = sized-Entry name idx m m.width m.height refl refl

module _ (from_index : ℕ → Option Monitor) (primary : Option Monitor) where
  Entry-Opens :
      (idx : ℕ) (m : Monitor) (d : DisplayInfo)
      → idx + 1 < 2 ^ 32
      → from_index (suc idx) ≡ some m
      → Entry idx m (some d)
      → Opens from_index primary d
  unfolding resolve
  Entry-Opens idx m d small found (id, size) =
      let number : d.id ≡ suc idx = id ∙ omega arith in
      (m, (ap (λ n. resolve from_index primary n) number ∙ ap (λ o. or_else o primary) found, size))

  with_found-All :
      (idx : ℕ) (m : Monitor) (found : Option DisplayInfo) (rest : List DisplayInfo)
      → idx + 1 < 2 ^ 32
      → from_index (suc idx) ≡ some m
      → Entry idx m found
      → All (Opens from_index primary) rest
      → All (Opens from_index primary) (elim found [ none ↦ rest | some d ↦ d ∷ rest ])
  with_found-All idx m none rest small e entry all = all
  with_found-All idx m (some d) rest small e entry all = (Entry-Opens idx m d small e entry, all)

  described-Opens :
      (name : Option String) (idx : ℕ) (ms : List Monitor)
      → idx + length ms < 2 ^ 32
      → ((i : ℕ) → i < length ms → from_index (suc (idx + i)) ≡ get_elem? ms i)
      → All (Opens from_index primary) (described name idx ms)
  unfolding described
  described-Opens name idx [] small same = tt
  described-Opens name idx (m ∷ ms) small same =
      with_found-All idx m (describe name idx m) (described name (suc idx) ms) (omega arith)
        (ap (λ n. from_index (suc n)) (omega arith) ∙ same 0 (omega arith))
        (describe-Entry name idx m)
        (described-Opens name (suc idx) ms (omega arith)
          (λ i lt. ap (λ n. from_index (suc n)) (omega arith) ∙ same (suc i) (omega arith)))

  -- With fewer than 2 ^ 32 monitors, and a platform that opens by the number n + 1 the monitor that it
  -- lists at n: every entry of the list has an id with which the capture thread opens a monitor of the
  -- size in the entry, also when monitors without a size were left out.
  pub list_displays-Opens :
      (ms : List Monitor)
      → length ms < 2 ^ 32
      → ((i : ℕ) → i < length ms → from_index (suc i) ≡ get_elem? ms i)
      → All (Opens from_index primary) (list_displays primary (some ms))
  unfolding list_displays
  list_displays-Opens ms small same =
      described-Opens (name_of primary) 0 ms (omega arith)
        (λ i lt. ap (λ n. from_index (suc n)) (omega arith) ∙ same i lt)
