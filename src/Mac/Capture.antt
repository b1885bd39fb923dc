-- ===== src/Mac/Capture.antt =====
-- `start`, `select_display`, `active_display_id` and `on_nal`, with the functions of Swift behind them.
use xyzen_relay.Prelude.{
  ℕ, ◌≡◌, refl, ap, Bool, true, false, not, Option, none, some, List, [], ◌∷◌, ◌==◌, if◌then◌else◌,
  arith,
}
use xyzen_relay.Prelude.Int.{ℤ, pos, negsuc}
use xyzen_relay.Mac.{
  MacCapturer, Shared, Outcome, done, not_started, set_failed, as_i32, outcome, thrown,
}

-- What the platform answers: whether an encoder can be made, the ids of the displays that can be
-- shared (`none` where they cannot be fetched), and whether the capture starts, or takes a filter.
pub record Platform : Type 0 where
  pub made : Bool
  pub displays : Option (List ℕ)
  pub accepted : Bool

unfoldable pub contains : ℕ → List ℕ → Bool
contains id [] = false
contains id (d ∷ ds) = if d == id then true else contains id ds

abbrev pub first : List ℕ → Option ℕ
first [] = none
first (d ∷ ds) = some d

-- `preferredDisplayId` is `nil` for the display id 0.
unfoldable pub pick_display : ℕ → List ℕ → Option ℕ
pick_display preferred ds =
    if preferred == 0 then first ds else if contains preferred ds then some preferred else first ds

-- `startCapture`: the display that is captured from now on, `none` where it throws.
unfoldable pub start_capture : Platform → ℕ → Option ℕ
start_capture a preferred = elim a.displays [
  | none ↦ none
  | some ds ↦ if a.accepted then pick_display preferred ds else none
]

-- A start that throws leaves the shared capturer as it was.
unfoldable pub xz_capturer_start : Platform → ℤ → ℤ → ℤ → ℤ → ℕ → Shared → ℕ × Shared
xz_capturer_start a width height fps bitrate_kbps display_id s =
    if not a.made then (1, s) else elim (start_capture a display_id) [
      | none ↦ (1, s)
      | some id ↦ (
        0,
        some (record {
          width = width;
          height = height;
          fps = fps;
          current_bitrate_kbps = bitrate_kbps;
          stream = true;
          encoder = true;
          current_display_id = id;
        }),
      )
    ]

-- `true` where the receiver is returned.
unfoldable pub start : Platform → ℕ → ℕ → ℕ → ℕ → ℕ → Shared → Bool × Shared
start a width height fps bitrate_kbps display_id s =
    let (rc, s') =
      xz_capturer_start a (as_i32 width) (as_i32 height) (as_i32 fps) (as_i32 bitrate_kbps)
        display_id s in
    (rc == 0, s')

-- `selectDisplay`; `false` is a throw.
unfoldable pub select_display_method : Platform → ℕ → MacCapturer → Bool × MacCapturer
select_display_method a id c =
    if not c.stream
    then (false, c)
    else if id == c.current_display_id
    then (true, c)
    else elim a.displays [
      | none ↦ (false, c)
      | some ds ↦
          if contains id ds
          then (if a.accepted then (true, record c { current_display_id = id }) else (false, c))
          else (false, c)
    ]

unfoldable pub xz_capturer_select_display : Platform → ℕ → Shared → ℕ × Shared
xz_capturer_select_display a id none = (1, none)
xz_capturer_select_display a id (some c) = thrown (select_display_method a id c)

unfoldable pub select_display : Platform → ℕ → Shared → Outcome × Shared
select_display a id s = let (rc, s') = xz_capturer_select_display a id s in (outcome rc, s')

unfoldable pub active_display_id : Shared → ℕ
active_display_id none = 0
active_display_id (some c) = c.current_display_id

-- What `on_nal` sends into the channel: null pointers are `none`, and a length of 0 or less is passed
-- over. The slice has the length that Swift gives.
unfoldable pub on_nal : Bool → Option (List ℕ) → ℤ → ℤ → List (List ℕ × ℤ)
on_nal has_ctx none len pts_us = []
on_nal has_ctx (some bytes) (negsuc n) pts_us = []
on_nal has_ctx (some bytes) (pos n) pts_us =
    if n == 0 then [] else if has_ctx then (bytes, pts_us) ∷ [] else []

-- By how `select_display` ends, which display is active: the one asked for, none, or the one before.
abbrev pub Selected : ℕ → Shared → Outcome × Shared → Type 0
Selected id s (done, s') = active_display_id s' ≡ id
Selected id s (not_started, s') = (s ≡ none) × (s' ≡ none)
Selected id s (set_failed, s') = s' ≡ s

abbrev Switched : ℕ → MacCapturer → Bool × MacCapturer → Type 0
Switched id c (true, c') = c'.current_display_id ≡ id
Switched id c (false, c') = c' ≡ c

Switched-if :
    (id : ℕ) (c : MacCapturer) (b : Bool) (x y : Bool × MacCapturer)
    → (b ≡ true → Switched id c x)
    → Switched id c y
    → Switched id c (if b then x else y)
Switched-if id c true x y hx hy = hx refl
Switched-if id c false x y hx hy = hy

listed-Switched :
    (a : Platform) (id : ℕ) (c : MacCapturer) (displays : Option (List ℕ))
    → Switched id c (elim displays [
      | none ↦ (false, c)
      | some ds ↦
          if contains id ds
          then (if a.accepted then (true, record c { current_display_id = id }) else (false, c))
          else (false, c)
    ])
listed-Switched a id c none = refl
listed-Switched a id c (some ds) =
    Switched-if id c (contains id ds) _ _ (λ e. Switched-if id c a.accepted _ _ (λ f. refl) refl)
      refl

Switched-Selected :
    (id : ℕ) (c : MacCapturer) (r : Bool × MacCapturer)
    → Switched id c r
    → Selected id (some c) (outcome (thrown r).0, (thrown r).1)
unfolding active_display_id
Switched-Selected id c (true, c') e = e
Switched-Selected id c (false, c') e = ap some e

-- `select_display` and then `active_display_id`, whatever the platform answers: after `Ok` it gives the
-- display that was asked for, after a failure the capturer is as it was, and the call says that nothing
-- was started just when there is no capturer.
pub active-select_display :
    (a : Platform) (id : ℕ) (s : Shared) → Selected id s (select_display a id s)
unfolding select_display xz_capturer_select_display
active-select_display a id none = (refl, refl)
active-select_display a id (some c) = Switched-Selected id c (select_display_method a id c) (
    unfold select_display_method in
    Switched-if id c (not c.stream) _ _ (λ e. refl)
      (Switched-if id c (id == c.current_display_id) _ _ (λ e. ground arith)
        (listed-Switched a id c a.displays)))
