-- ===== src/Windows/Publisher/Getters.antt =====
-- crates/win-capturer/src/publisher.rs: the public getters. The state is `none` where the lock is
-- poisoned.
use xyzen_relay.Prelude.{
  ℕ, ◌≡◌, refl, true, Bool-cases, inl, inr, ap, Option, none, some, ◌==◌, ==_iff,
}
use xyzen_relay.Windows.Publisher.{State, select_display, set_bitrate_kbps, set_fps, set_resolution}

abbrev pub field {ℓ} : {A : Type ℓ} → (State → A) → A → Option State → A
field f default none = default
field f default (some s) = f s

unfoldable pub active_display_id : Option State → ℕ
active_display_id s = field (λ s. s.display_id) 0 s

unfoldable pub bitrate_kbps : Option State → ℕ
bitrate_kbps s = field (λ s. s.bitrate_kbps) 0 s

unfoldable pub fps : Option State → ℕ
fps s = field (λ s. s.fps) 0 s

unfoldable pub resolution : Option State → ℕ × ℕ
resolution s = field (λ s. (s.width, s.height)) (0, 0) s

-- The four settings, as the getters give them.
abbrev pub settings : Option State → (ℕ × ℕ) × (ℕ × (ℕ × ℕ))
settings s = (resolution s, (fps s, (bitrate_kbps s, active_display_id s)))

abbrev with_display : State → ℕ → (ℕ × ℕ) × (ℕ × (ℕ × ℕ))
with_display s n = ((s.width, s.height), (s.fps, (s.bitrate_kbps, n)))

-- On a publisher that runs, each getter gives what its setter was last called with, and a setter moves
-- no other getter.
pub settings-setters :
    (s : State) (w h f k d : ℕ)
    → s.running ≡ true
    → (settings (set_resolution w h s) ≡ ((w, h), (s.fps, (s.bitrate_kbps, s.display_id))))
      × (settings (set_fps f s) ≡ ((s.width, s.height), (f, (s.bitrate_kbps, s.display_id))))
      × (settings (set_bitrate_kbps k s) ≡ ((s.width, s.height), (s.fps, (k, s.display_id))))
      × (settings (select_display d s) ≡ ((s.width, s.height), (s.fps, (s.bitrate_kbps, d))))
unfolding active_display_id bitrate_kbps fps resolution select_display set_bitrate_kbps set_fps
    set_resolution
settings-setters s w h f k d runs = (
  rw runs refl,
  rw runs refl,
  rw runs refl,
  elim (Bool-cases (s.display_id == d)) [
    | inl same ↦ rw (runs, same) (ap (with_display s) ((==_iff s.display_id d).0 same))
    | inr other ↦ rw (runs, other) refl
  ],
)
