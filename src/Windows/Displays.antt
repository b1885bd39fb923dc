-- ===== src/Windows/Displays.antt =====
-- crates/win-capturer/src/display.rs, the list of displays, and the part of
-- crates/win-capturer/src/publisher.rs that turns an id of the list into a monitor. A monitor is
-- what the calls on it answer, `none` for an error.
pub mod Selected
use Prim.Native.String.{String}
use package.text.Mathlib.Text.{◌==◌ as str_eq}
use xyzen_relay.Prelude.{
  ℕ, zero, suc, ◌+◌, ◌%◌, ◌^◌, ◌<◌, ◌≡◌, refl, ap, ◌∙◌, Bool, false, Option, none, some, List, [],
  ◌∷◌, length, All, arith,
}
use xyzen_relay.Windows.Nv12.{get_elem?, and_then}

pub record Monitor : Type 0 where
  pub width : Option ℕ
  pub height : Option ℕ
  pub device_name : Option String

pub record DisplayInfo : Type 0 where
  pub id : ℕ
  pub width : ℕ
  pub height : ℕ
  pub is_primary : Bool

abbrev pub name_of : Option Monitor → Option String
name_of none = none
name_of (some m) = m.device_name

abbrev pub same_name : Option String → Option String → Bool
same_name none b = false
same_name (some a) none = false
same_name (some a) (some b) = str_eq a b

-- `(idx as u32) + 1`, which wraps in a release build; `?` on the size.
unfoldable pub describe : Option String → ℕ → Monitor → Option DisplayInfo
describe primary_name idx m = and_then m.width (λ width. and_then m.height (λ height. some (record {
  id = (idx % 2 ^ 32 + 1) % 2 ^ 32;
  width = width;
  height = height;
  is_primary = same_name primary_name m.device_name;
})))

-- `enumerate` before `filter_map`: a monitor that is left out keeps its number.
unfoldable pub described : Option String → ℕ → List Monitor → List DisplayInfo
described primary_name idx [] = []
described primary_name idx (m ∷ monitors) = elim (describe primary_name idx m) [
  | none ↦ described primary_name (suc idx) monitors
  | some d ↦ d ∷ described primary_name (suc idx) monitors
]

-- `Monitor::primary()` and `Monitor::enumerate()` are arguments.
unfoldable pub list_displays : Option Monitor → Option (List Monitor) → List DisplayInfo
list_displays primary none = []
list_displays primary (some monitors) = described (name_of primary) 0 monitors

abbrev pub or_else {ℓ} : {A : Type ℓ} → Option A → Option A → Option A
or_else none b = b
or_else (some a) b = some a

-- The monitor that the capture thread opens.
unfoldable pub resolve : (ℕ → Option Monitor) → Option Monitor → ℕ → Option Monitor
resolve from_index primary zero = primary
resolve from_index primary (suc n) = or_else (from_index (suc n)) primary
