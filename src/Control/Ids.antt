-- ===== src/Control/Ids.antt =====
-- crates/control/src/ids.rs, `random_id`: nine decimal digits out of a random word.
pub mod Digits
use xyzen_relay.Prelude.{ℕ, zero, suc, ◌+◌, ◌/◌, ◌%◌, List, [], ◌∷◌, ◌++◌, ltb, if◌then◌else◌}
use xyzen_relay.Control.Errors.{Text}

abbrev pub span : ℕ
span = 900000000

abbrev pub base : ℕ
base = 100000000

abbrev pub digit : ℕ → ℕ
digit d = 0x30 + d

-- The decimal digits of a number, the last one first in line to be cut off.
unfoldable pub decimal : ℕ → ℕ → Text
decimal zero n = []
decimal (suc fuel) n =
    let rest = decimal fuel (n / 10) in
    if ltb n 10 then digit n ∷ [] else rest ++ digit (n % 10) ∷ []

-- A number of 64 bits has at most twenty digits.
abbrev pub to_string : ℕ → Text
to_string n = decimal 20 n

-- `word` is what the eight random bytes say.
unfoldable pub random_id : ℕ → Text
random_id word = to_string (word % span + base)
