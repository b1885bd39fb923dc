-- ===== src/Checks/Forwards.antt =====
-- Concrete runs of the capturer that forwards, of the lists of displays, and from the encoder to a
-- viewer.
use xyzen_relay.Prelude.{
  ℕ, zero, suc, ◌≡◌, refl, true, Option, none, some, List, [], ◌∷◌, All, map, arith,
}
use xyzen_relay.Prelude.Int.{pos}
use xyzen_relay.Windows.Nv12.{get_elem?}
use xyzen_relay.Windows.Displays.{Monitor, list_displays}
use xyzen_relay.Windows.Displays.Selected.{Opens, list_displays-Opens}
use xyzen_relay.Mac.{MacCapturer}
use xyzen_relay.Mac.Capture.{
  Platform, select_display, xz_capturer_select_display, select_display_method, contains,
  active_display_id, active-select_display,
}
use xyzen_relay.Mac.Listing
use xyzen_relay.Mac.Listing.{DisplayInfo}
use xyzen_relay.Mac.Listing.Fits.{list_displays-all}
use xyzen_relay.Stream.Warmup.{default, record_all, snapshot}
use xyzen_relay.Stream.Warmup.Invariant.{total_bytes}
use xyzen_relay.Pipeline.{Coded, wire, snapshot-session}
use xyzen_relay.Capturer.{Tally, forward, publisher_url}
use xyzen_relay.Capturer.Forwarding.{Accounts, forward-Accounts, publisher_url-slashes}

-- The second monitor does not give its size, and is left out.
abbrev monitors : List Monitor
monitors =
    record { width = some 2560; height = some 1440; device_name = some "DISPLAY1" }
    ∷ record { width = none; height = some 1080; device_name = some "DISPLAY2" }
    ∷ record { width = some 1920; height = some 1080; device_name = none }
    ∷ []

abbrev from_index : ℕ → Option Monitor
from_index zero = none
from_index (suc n) = get_elem? monitors n

list_displays-Opens_example : All (Opens from_index none) (list_displays none (some monitors))
list_displays-Opens_example =
    list_displays-Opens from_index none monitors (omega arith) (λ i lt. refl)

abbrev shown : DisplayInfo
shown = record { id = 1; width = pos 2560; height = pos 1440; is_primary = true }

list_displays-all_example :
    Listing.list_displays (λ text. some (shown ∷ [])) (shown ∷ []) ≡ shown ∷ []
list_displays-all_example =
    list_displays-all (λ text. some (shown ∷ [])) (shown ∷ []) refl (omega arith)

abbrev capturing : MacCapturer
capturing = record {
  width = pos 2560;
  height = pos 1440;
  fps = pos 30;
  current_bitrate_kbps = pos 8000;
  stream = true;
  encoder = true;
  current_display_id = 1;
}

abbrev platform : Platform
platform = record { made = true; displays = some (1 ∷ 7 ∷ []); accepted = true }

active-select_display_example : active_display_id (select_display platform 7 (some capturing)).1 ≡ 7
unfolding select_display xz_capturer_select_display select_display_method contains
active-select_display_example = active-select_display platform 7 (some capturing)

-- Two units, the second of which is logged with the first.
abbrev fresh : Tally
fresh = record { total = 0; nals = 0; last_log = 10 }

forward-Accounts_example :
    Accounts 5
      ((1 ∷ 2 ∷ [], 11) ∷ (3 ∷ [], 12) ∷ [])
      fresh
      (forward 5 ((1 ∷ 2 ∷ [], 11) ∷ (3 ∷ [], 12) ∷ []) fresh)
forward-Accounts_example =
    forward-Accounts 5 ((1 ∷ 2 ∷ [], 11) ∷ (3 ∷ [], 12) ∷ []) fresh (omega arith) (omega arith)

publisher_url-slashes_example :
    publisher_url (0x77 ∷ 0x73 ∷ 0x2f ∷ 0x2f ∷ []) (0x37 ∷ []) ≡ 0x77 ∷ 0x73 ∷ 0x2f ∷ 0x37 ∷ []
publisher_url-slashes_example = publisher_url-slashes (0x77 ∷ []) (0x37 ∷ []) 0x73 2 refl

-- The slice has the header 0x41, which reads as a parameter set of HEVC.
abbrev unit : ℕ → Coded
unit header = record { wall = 1700000000000000; header = header; rest = 1 ∷ 2 ∷ [] }

snapshot-session_example :
    snapshot (record_all default (map wire (unit 0x67 ∷ unit 0x68 ∷ unit 0x65 ∷ unit 0x41 ∷ [])))
    ≡ map wire (unit 0x67 ∷ unit 0x68 ∷ unit 0x65 ∷ unit 0x41 ∷ [])
unfolding total_bytes
snapshot-session_example =
    snapshot-session (unit 0x67) (unit 0x68) (unit 0x65) (unit 0x41 ∷ []) refl refl refl
      ((λ e. cc, (λ e. cc, λ e. cc)), tt) (omega arith) (omega arith)
