-- ===== src/Windows/Encoder/Post.antt =====
-- What holds when an operation of the encoder ends, by how it ends, and the operations that leave the
-- encoder's own state alone.
use xyzen_relay.Prelude.{ℕ, ◌≡◌, Bool, true, false, List, ◌∷◌, if◌then◌else◌}
use xyzen_relay.Windows.Encoder.{
  Error, Result, ok, err, panic, unfinished, Call, Reply, failed, done, H264Encoder, Machine, Mf,
  after, ◌>>=◌, pure, fail, read, answered, ask, note,
}

-- `Q` of the value and the state where it returns one, `R` of the state where it returns an error; it
-- does not panic and no loop is left unfinished.
abbrev pub Post {ℓ} :
    {A : Type ℓ} → (A → Machine → Type 0) → (Machine → Type 0) → Result A × Machine → Type 0
Post Q R (ok a, m) = Q a m
Post Q R (err e, m) = R m
Post Q R (panic, m) = ⊥
Post Q R (unfinished, m) = ⊥

pub after-Post {ℓ κ} :
    {A : Type ℓ} {B : Type κ} (Q : A → Machine → Type 0) (Q' : B → Machine → Type 0)
    (R : Machine → Type 0) (r : Result A × Machine) (f : A → Mf B)
    → Post Q R r
    → ((a : A) (m : Machine) → Q a m → Post Q' R (f a m))
    → Post Q' R (after r f)
after-Post Q Q' R (ok a, m) f first rest = rest a m first
after-Post Q Q' R (err e, m) f first rest = first
after-Post Q Q' R (panic, m) f first rest = absurd first
after-Post Q Q' R (unfinished, m) f first rest = absurd first

-- What noting a call keeps.
abbrev pub Logs : (Machine → Type 0) → Type 0
Logs I = (c : Call) (m : Machine) → I m → I (record m { log = c ∷ m.log })

-- The operation ends with a value or an error, and keeps `I`.
pub record Keeps {ℓ} (I : Machine → Type 0) {A : Type ℓ} (x : Mf A) : Type ℓ where
  pub run : (m : Machine) → I m → Post (λ a m'. I m') I (x m)

abbrev pub Same : H264Encoder → Machine → Type 0
Same e m = m.encoder ≡ e

pub Logs-Same : (e : H264Encoder) → Logs (Same e)
Logs-Same e c m same = same

answered-kept :
    (I : Machine → Type 0) (m : Machine) (r : Reply)
    → I m
    → Post (λ (a : List ℕ) m'. I m') I (answered r, m)
answered-kept I m (failed code) h = h
answered-kept I m (done values) h = h

module _ {I : Machine → Type 0} where
  pub Keeps-bind {ℓ κ} :
      {A : Type ℓ} {B : Type κ} {x : Mf A} {f : A → Mf B}
      → Keeps I x
      → ((a : A) → Keeps I (f a))
      → Keeps I (x >>= f)
  unfolding ◌>>=◌
  Keeps-bind {x = x} {f = f} first rest = record {
    run = λ m h.
        after-Post (λ a m'. I m') (λ b m'. I m') I (x m) f (first.run m h)
          (λ a m' kept. (rest a).run m' kept);
  }

  pub Keeps-read : Keeps I read
  unfolding read
  Keeps-read = record { run = λ m h. h }

  pub Keeps-pure {ℓ} : {A : Type ℓ} (a : A) → Keeps I (pure a)
  unfolding pure
  Keeps-pure a = record { run = λ m h. h }

  pub Keeps-fail {ℓ} : {A : Type ℓ} (x : Error) → Keeps I {A = A} (fail x)
  unfolding fail
  Keeps-fail x = record { run = λ m h. h }

  pub Keeps-if {ℓ} :
      {A : Type ℓ} (b : Bool) {x y : Mf A} → Keeps I x → Keeps I y → Keeps I (if b then x else y)
  Keeps-if true hx hy = hx
  Keeps-if false hx hy = hy

  module _ (host : List Call → Call → Reply) where
    -- Calls whose noting keeps `I`.
    pub Keeps-ask_at :
        (c : Call) → ((m : Machine) → I m → I (record m { log = c ∷ m.log })) → Keeps I (ask host c)
    unfolding ask
    Keeps-ask_at c keep = record {
      run = λ m h. answered-kept I (record m { log = c ∷ m.log }) (host m.log c) (keep m h);
    }

    pub Keeps-note_at :
        (c : Call)
        → ((m : Machine) → I m → I (record m { log = c ∷ m.log }))
        → Keeps I (note host c)
    unfolding note
    Keeps-note_at c keep = record { run = λ m h. keep m h }

    pub Keeps-ask : Logs I → (c : Call) → Keeps I (ask host c)
    Keeps-ask logs c = Keeps-ask_at c (logs c)

    pub Keeps-note : Logs I → (c : Call) → Keeps I (note host c)
    Keeps-note logs c = Keeps-note_at c (logs c)

-- From a state with `I`, the operation ends with a value and `Q`, or with an error and `I`.
pub record Ends {ℓ} (I : Machine → Type 0) {A : Type ℓ} (Q : A → Machine → Type 0) (x : Mf A)
    : Type ℓ where
  pub run : (m : Machine) → I m → Post Q I (x m)

pub Ends-bind {ℓ κ} :
    {I : Machine → Type 0} {A : Type ℓ} {B : Type κ} {Q : B → Machine → Type 0} {x : Mf A}
    {f : A → Mf B}
    → Keeps I x
    → ((a : A) → Ends I Q (f a))
    → Ends I Q (x >>= f)
unfolding ◌>>=◌
Ends-bind {I = I} {Q = Q} {x = x} {f = f} first rest = record {
  run = λ m same.
      after-Post (λ a m'. I m') Q I (x m) f (first.run m same) (λ a m' kept. (rest a).run m' kept);
}

-- One call, in a state that is known.
abbrev pub logged : Call → Machine → Machine
logged c m = record m { log = c ∷ m.log }

module _ (host : List Call → Call → Reply) where
  answered-after {ℓ} :
      {B : Type ℓ} (Q : B → Machine → Type 0) (R : Machine → Type 0) (r : Reply) (f : List ℕ → Mf B)
      (m : Machine)
      → ((values : List ℕ) → Post Q R (f values m))
      → R m
      → Post Q R (after (answered r, m) f)
  answered-after Q R (failed code) f m rest refused = refused
  answered-after Q R (done values) f m rest refused = rest values

  pub ask-bind {ℓ} :
      {B : Type ℓ} (Q : B → Machine → Type 0) (R : Machine → Type 0) (c : Call) (f : List ℕ → Mf B)
      (m : Machine)
      → ((values : List ℕ) → Post Q R (f values (logged c m)))
      → R (logged c m)
      → Post Q R ((ask host c >>= f) m)
  unfolding ◌>>=◌ ask
  ask-bind Q R c f m = answered-after Q R (host m.log c) f (logged c m)

  answered-Post :
      (Q : List ℕ → Machine → Type 0) (R : Machine → Type 0) (r : Reply) (m : Machine)
      → ((values : List ℕ) → Q values m)
      → R m
      → Post Q R (answered r, m)
  answered-Post Q R (failed code) m rest refused = refused
  answered-Post Q R (done values) m rest refused = rest values

  pub ask-Post :
      (Q : List ℕ → Machine → Type 0) (R : Machine → Type 0) (c : Call) (m : Machine)
      → ((values : List ℕ) → Q values (logged c m))
      → R (logged c m)
      → Post Q R (ask host c m)
  unfolding ask
  ask-Post Q R c m = answered-Post Q R (host m.log c) (logged c m)

pub Post-map {ℓ} :
    {A : Type ℓ} (Q Q' : A → Machine → Type 0) (R : Machine → Type 0) (r : Result A × Machine)
    → ((a : A) (m : Machine) → Q a m → Q' a m)
    → Post Q R r
    → Post Q' R r
Post-map Q Q' R (ok a, m) h held = h a m held
Post-map Q Q' R (err e, m) h held = held
Post-map Q Q' R (panic, m) h held = held
Post-map Q Q' R (unfinished, m) h held = held

pub Post-weaken {ℓ} :
    {A : Type ℓ} (Q : A → Machine → Type 0) (R R' : Machine → Type 0) (r : Result A × Machine)
    → ((m : Machine) → R m → R' m)
    → Post Q R r
    → Post Q R' r
Post-weaken Q R R' (ok a, m) h held = held
Post-weaken Q R R' (err e, m) h held = h m held
Post-weaken Q R R' (panic, m) h held = held
Post-weaken Q R R' (unfinished, m) h held = held

-- An operation that keeps `I`, and then one that ends with `Q` or `R`.
pub bind-Post {ℓ κ} :
    {A : Type ℓ} {B : Type κ} (I : Machine → Type 0) (Q : B → Machine → Type 0)
    (R : Machine → Type 0) {x : Mf A} (f : A → Mf B) (m : Machine)
    → ((m' : Machine) → I m' → R m')
    → Keeps I x
    → I m
    → ((a : A) (m' : Machine) → I m' → Post Q R (f a m'))
    → Post Q R ((x >>= f) m)
unfolding ◌>>=◌
bind-Post I Q R {x = x} f m weak first h rest =
    after-Post (λ a m'. I m') Q R (x m) f
      (Post-weaken (λ a m'. I m') I R (x m) weak (first.run m h)) rest
