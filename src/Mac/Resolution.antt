-- ===== src/Mac/Resolution.antt =====
-- What the getters say after a setter.
use xyzen_relay.Prelude.{
  ℕ, ◌+◌, ◌*◌, ◌/◌, ◌%◌, ◌^◌, ◌≤◌, ◌≡◌, refl, ap, ◌∙◌, bit_and, bit_or, Bool, true, false, ◌&&◌,
  none, some, arith, ltb, ◌==◌, if◌then◌else◌,
}
use xyzen_relay.Prelude.Int.{ℤ, pos, negsuc, clamp_pos}
use xyzen_relay.Prelude.Bits.{bit_or-shifted, bit_and-two_bytes}
use xyzen_relay.Mac.{
  MacCapturer, Shared, Answers, Outcome, done, not_started, set_failed, as_i32, as_u32, eq_nat,
  half_word, set_resolution_method, thrown, xz_capturer_set_resolution, xz_capturer_resolution,
  outcome, set_resolution, unpacked, resolution,
}

clamp_pos-le :
    (z : ℤ) (low high : ℕ)
    → low ≤ high
    → (low ≤ clamp_pos z low high) × (clamp_pos z low high ≤ high)
clamp_pos-le (pos n) low high h = ground arith
clamp_pos-le (negsuc n) low high h = ground arith

unpacked-word :
    (w h : ℕ) → 160 ≤ w → w ≤ 7680 → h ≤ 4320 → unpacked (as_i32 (w * 2 ^ 16 + h)) ≡ (w, h)
unpacked-word w h low high hh =
    let n = w * 2 ^ 16 + h in
    let positive : ltb n (2 ^ 31) ≡ true = ground arith in
    let present : (n == 0) ≡ false = ground arith in
    let upper : n / 2 ^ 16 ≡ w = omega arith in
    let left : bit_and w 0xffff ≡ w = omega (arith, bit_and-two_bytes w) in
    let right : bit_and n 0xffff ≡ h = omega (arith, bit_and-two_bytes n) in
    rw (positive, present, right, upper, left) refl

word-pos :
    (w h : ℕ)
    → (160 ≤ w) × (w ≤ 7680)
    → (120 ≤ h) × (h ≤ 4320)
    → unpacked (
        as_i32 (bit_or (as_u32 (half_word (pos w)) * 2 ^ 16 % 2 ^ 32) (as_u32 (half_word (pos h)))))
      ≡ (w, h)
word-pos w h (low, high) (low', high') =
    let a : as_u32 (half_word (pos w)) ≡ w = ground arith in
    let b : as_u32 (half_word (pos h)) ≡ h = ground arith in
    let c : w * 2 ^ 16 % 2 ^ 32 ≡ w * 2 ^ 16 = omega arith in
    ap (λ n. unpacked (as_i32 (bit_or (n * 2 ^ 16 % 2 ^ 32) (as_u32 (half_word (pos h)))))) a
    ∙ ap (λ n. unpacked (as_i32 (bit_or (w * 2 ^ 16 % 2 ^ 32) n))) b
    ∙ ap (λ n. unpacked (as_i32 (bit_or n h))) c
    ∙ ap (λ n. unpacked (as_i32 n)) (bit_or-shifted 16 w h (omega arith))
    ∙ unpacked-word w h low high high'

-- A size in the range of the setter goes through one word and back.
resolution-pos :
    (c : MacCapturer) (w h : ℕ)
    → c.width ≡ pos w
    → c.height ≡ pos h
    → (160 ≤ w) × (w ≤ 7680)
    → (120 ≤ h) × (h ≤ 4320)
    → resolution (some c) ≡ (w, h)
unfolding resolution xz_capturer_resolution
resolution-pos c w h ew eh hw hh =
    let word = λ (z1 z2 : ℤ).
      unpacked
        (as_i32 (bit_or (as_u32 (half_word z1) * 2 ^ 16 % 2 ^ 32) (as_u32 (half_word z2)))) in
    ap (λ z. word z c.height) ew ∙ ap (λ z. word (pos w) z) eh ∙ word-pos w h hw hh

-- What the setter said: that it is done, that nothing was started, or that it failed.
abbrev pub Told :
    (Shared → Type 0) → (Shared → Type 0) → (Shared → Type 0) → Outcome × Shared → Type 0
Told P Q R (done, s) = P s
Told P Q R (not_started, s) = Q s
Told P Q R (set_failed, s) = R s

-- The size is not the one asked for, and there is no stream, or it refuses the configuration, or no
-- encoder can be made.
abbrev pub Refused : Answers → ℕ → ℕ → MacCapturer → Type 0
Refused a w h c =
    ((eq_nat c.width w && eq_nat c.height h) ≡ false)
    × ((c.stream && (a.updated && a.made)) ≡ false)

-- A method that threw nothing left the size that it was given; `R` is why it threw.
abbrev Resized : ℕ → ℕ → Type 0 → Bool × MacCapturer → Type 0
Resized w h R (true, c) = resolution (some c) ≡ (w, h)
Resized w h R (false, c) = R

Resized-if :
    (w h : ℕ) (R : Type 0) (b : Bool) (x y : Bool × MacCapturer)
    → (b ≡ true → Resized w h R x)
    → (b ≡ false → Resized w h R y)
    → Resized w h R (if b then x else y)
Resized-if w h R true x y hx hy = hx refl
Resized-if w h R false x y hx hy = hy refl

Resized-made :
    (w h : ℕ) (R : Type 0) (b : Bool) (c : MacCapturer)
    → resolution (some c) ≡ (w, h)
    → (b ≡ false → R)
    → Resized w h R (b, c)
Resized-made w h R true c e why = e
Resized-made w h R false c e why = why refl

eq_nat_sound : (z : ℤ) (n : ℕ) → eq_nat z n ≡ true → z ≡ pos n
eq_nat_sound (pos a) n e = ap pos (ground arith)
eq_nat_sound (negsuc a) n e = absurd (cc)

both_true : (b c : Bool) → (b && c) ≡ true → (b ≡ true) × (c ≡ true)
both_true true c e = (refl, e)
both_true false c e = absurd (cc)

not_updated : (x y z : Bool) → (x && y) ≡ false → (x && (y && z)) ≡ false
not_updated true y z e = rw e refl
not_updated false y z e = refl

not_made : (x y z : Bool) → z ≡ false → (x && (y && z)) ≡ false
not_made true true z e = e
not_made true false z e = refl
not_made false y z e = refl

set_resolution_method-Resized :
    (a : Answers) (w h : ℕ) (c : MacCapturer)
    → (160 ≤ w) × (w ≤ 7680)
    → (120 ≤ h) × (h ≤ 4320)
    → Resized w h (Refused a w h c) (set_resolution_method a w h c)
unfolding set_resolution_method
set_resolution_method-Resized a w h c hw hh =
    let R = Refused a w h c in
    Resized-if w h R (eq_nat c.width w && eq_nat c.height h) _ _
      (λ e.
        let (ew, eh) = both_true (eq_nat c.width w) (eq_nat c.height h) e in
        resolution-pos c w h (eq_nat_sound c.width w ew) (eq_nat_sound c.height h eh) hw hh)
      λ other.
        Resized-if w h R (c.stream && a.updated) _ _
          (λ e.
            Resized-made w h R a.made _ (resolution-pos _ w h refl refl hw hh)
              (λ unmade. (other, not_made c.stream a.updated a.made unmade)))
          (λ e. (other, not_updated c.stream a.updated a.made e))

Resized-Told :
    (w h : ℕ) (R : Type 0) (Q S : Shared → Type 0) (r : Bool × MacCapturer)
    → (R → S (some r.1))
    → Resized w h R r
    → Told (λ s. resolution s ≡ (w, h)) Q S (outcome (thrown r).0, (thrown r).1)
Resized-Told w h R Q S (true, c) why e = e
Resized-Told w h R Q S (false, c) why e = why e

-- `set_resolution` and then `resolution`, whatever the platform answers: after `Ok` it gives the size
-- that was asked for, read as an `i32` and brought into 160 to 7680 and 120 to 4320; the setter says that
-- nothing was started just when there is no capturer; and it says that it failed only where there is
-- one, of another size than that, which has no stream, or whose stream refuses the configuration, or for
-- which no encoder can be made.
pub resolution-set_resolution :
    (a : Answers) (width height : ℕ) (s : Shared)
    → Told
        (λ s'.
          resolution s' ≡ (clamp_pos (as_i32 width) 160 7680, clamp_pos (as_i32 height) 120 4320))
        (λ s'. (s ≡ none) × (s' ≡ none))
        (λ s'.
          (c : MacCapturer) × ((s ≡ some c)
            × Refused a (clamp_pos (as_i32 width) 160 7680) (clamp_pos (as_i32 height) 120 4320) c))
        (set_resolution a width height s)
unfolding set_resolution xz_capturer_set_resolution
resolution-set_resolution a width height none = (refl, refl)
resolution-set_resolution a width height (some c) =
    let w = clamp_pos (as_i32 width) 160 7680 in
    let h = clamp_pos (as_i32 height) 120 4320 in
    Resized-Told w h (Refused a w h c) _ _ (set_resolution_method a w h c) (λ why. (c, (refl, why)))
      (set_resolution_method-Resized a w h c (clamp_pos-le (as_i32 width) 160 7680 (omega arith))
        (clamp_pos-le (as_i32 height) 120 4320 (omega arith)))
