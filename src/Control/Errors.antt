-- ===== src/Control/Errors.antt =====
-- crates/control/src/http.rs, `AppError`: the status and the message of a refused request.
use Prim.Native.String.{String}
use xyzen_relay.Prelude.{ℕ, List, Option, none, some}

abbrev pub Text : Type 0
Text = List ℕ

pub record AppError : Type 0 where
  pub status : ℕ
  pub msg : String

abbrev pub bad : String → AppError
bad m = record { status = 400; msg = m }

abbrev pub unauthorized : String → AppError
unauthorized m = record { status = 401; msg = m }

abbrev pub not_found : String → AppError
not_found m = record { status = 404; msg = m }

abbrev pub db_error : AppError
db_error = record { status = 500; msg = "database error" }

abbrev pub internal : AppError
internal = record { status = 500; msg = "internal error" }

pub data Result {ℓ} (A : Type ℓ) : Type ℓ where
  ok : A → Result A
  err : AppError → Result A

infixl 5 ◌>>=◌
abbrev pub ◌>>=◌ {ℓ κ} : {A : Type ℓ} {B : Type κ} → Result A → (A → Result B) → Result B
ok a >>= f = f a
err e >>= f = err e

-- `ok_or_else`.
abbrev pub or_fail {ℓ} : {A : Type ℓ} → Option A → AppError → Result A
or_fail none e = err e
or_fail (some a) e = ok a
