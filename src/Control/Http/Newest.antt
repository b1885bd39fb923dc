-- ===== src/Control/Http/Newest.antt =====
-- The rows that a listing of the audit table is made of.
use xyzen_relay.Prelude.{
  ℕ, zero, suc, ◌≤◌, ◌<◌, ◌≡◌, ◌≢◌, refl, sym, ap, subst, ◌∙◌, ◌⊎◌, Bool, true, false, Bool-cases,
  inl, inr, Option, none, some, List, [], ◌∷◌, All, length, take, arith, if◌then◌else◌,
}
use mathlib.Core.List.{Memᴰ}
use xyzen_relay.Prelude.Int.{ℤ, ◌≤ℤ◌}
use xyzen_relay.Control.Errors.{Text}
use xyzen_relay.Control.Texts.{text_eq_iff}
use xyzen_relay.Control.Store.{AuditRow, select_where, selected, names}
use xyzen_relay.Control.Store.Invariant.{Descending}

abbrev pub Named : Option Text → AuditRow → Type 0
Named none r = Unit {0}
Named (some p) r = (r.peer_id ≡ some p) ⊎ (r.controller_peer_id ≡ some p)

-- Not before `since`, and on the peer `p`.
abbrev pub Matches : ℤ → Option Text → AuditRow → Type 0
Matches since p r = (since ≤ℤ r.ts) × Named p r

-- A row of the table is listed, or does not match, or stands before all the rows of a list that is full.
abbrev pub Placed : ℤ → Option Text → ℕ → List AuditRow → AuditRow → Type 0
Placed since p limit rows r =
    Memᴰ r rows ⊎ ((¬ Matches since p r) ⊎ ((length rows ≡ limit) × All (λ r'. r.id < r'.id) rows))

-- The newest rows of the table that match, the last id first, and `limit` of them or all there are.
abbrev pub Newest : ℤ → Option Text → ℕ → ℕ → List AuditRow → List AuditRow → Type 0
Newest since p limit next table rows =
    (length rows ≤ limit)
    × Descending next rows
    × All (Matches since p) rows
    × All (λ r. Memᴰ r table) rows
    × All (Placed since p limit rows) table

length-take_le {ℓ} : {A : Type ℓ} (n : ℕ) (xs : List A) → length (take n xs) ≤ n
length-take_le zero xs = omega arith
length-take_le (suc n) [] = omega arith
length-take_le (suc n) (x ∷ xs) = omega (arith, length-take_le n xs)

Descending-weaken : (m n : ℕ) (rows : List AuditRow) → m ≤ n → Descending m rows → Descending n rows
Descending-weaken m n [] h d = tt
Descending-weaken m n (r ∷ rows) h d = (omega (arith, d.0), d.1)

Descending-select_where :
    (test : AuditRow → Bool) (n : ℕ) (rows : List AuditRow)
    → Descending n rows
    → Descending n (select_where test rows)
unfolding select_where
Descending-select_where test n [] d = tt
Descending-select_where test n (r ∷ rows) d = elim (Bool-cases (test r)) [
  | inl e ↦ rw e (d.0, Descending-select_where test r.id rows d.1)
  | inr e ↦
      rw e (
        Descending-select_where test n rows
          (Descending-weaken r.id n rows (omega (arith, d.0)) d.1))
]

Descending-take : (k n : ℕ) (rows : List AuditRow) → Descending n rows → Descending n (take k rows)
Descending-take zero n rows d = tt
Descending-take (suc k) n [] d = tt
Descending-take (suc k) n (r ∷ rows) d = (d.0, Descending-take k r.id rows d.1)

All-take {ℓ κ} : {A : Type ℓ} (P : A → Type κ) (k : ℕ) (xs : List A) → All P xs → All P (take k xs)
All-take P zero xs h = tt
All-take P (suc k) [] h = tt
All-take P (suc k) (x ∷ xs) h = (h.0, All-take P k xs h.1)

names-eq-true : (p : Text) (o : Option Text) → names p o ≡ true → o ≡ some p
names-eq-true p none e = cc
names-eq-true p (some q) e = ap some ((text_eq_iff q p).0 e)

selected-Named :
    (since : ℤ) (p : Option Text) (r : AuditRow)
    → selected since p r ≡ true
    → (since ≤ℤ r.ts) × Named p r
selected-Named since none r e = (ground arith, tt)
selected-Named since (some p) r e = (
  ground arith,
  elim (Bool-cases (names p r.peer_id)) [
    | inl own ↦ inl (names-eq-true p r.peer_id own)
    | inr other ↦ inr (names-eq-true p r.controller_peer_id (ground arith))
  ],
)

All-select_where :
    (since : ℤ) (p : Option Text) (rows : List AuditRow)
    → All (λ r. (since ≤ℤ r.ts) × Named p r) (select_where (selected since p) rows)
unfolding select_where
All-select_where since p [] = tt
All-select_where since p (r ∷ rows) = elim (Bool-cases (selected since p r)) [
  | inl e ↦ rw e (selected-Named since p r e, All-select_where since p rows)
  | inr e ↦ rw e (All-select_where since p rows)
]

not-selected :
    (since : ℤ) (p : Option Text) (r : AuditRow) → Matches since p r → selected since p r ≢ false
not-selected since none r (late, tt) e = absurd (ground arith)
not-selected since (some p) r (late, inl own) e =
    absurd (let same = (text_eq_iff p p).1 refl in let named = ap (names p) own in ground arith)
not-selected since (some p) r (late, inr other) e =
    absurd (let same = (text_eq_iff p p).1 refl in let named = ap (names p) other in ground arith)

Memᴰ-Descending :
    (n : ℕ) (r : AuditRow) (rows : List AuditRow) → Memᴰ r rows → Descending n rows → r.id < n
Memᴰ-Descending n r [] m d = elim m [ ]
Memᴰ-Descending n r (r' ∷ rows) (Memᴰ.head e) d = subst (λ x. x.id < n) (sym e) d.0
Memᴰ-Descending n r (r' ∷ rows) (Memᴰ.tail h) d =
    omega (arith, Memᴰ-Descending r'.id r rows h d.1, d.0)

All-Memᴰ {ℓ κ} :
    {A : Type ℓ} (P : A → Type κ) (xs : List A) → ((x : A) → Memᴰ x xs → P x) → All P xs
All-Memᴰ P [] h = tt
All-Memᴰ P (x ∷ xs) h = (h x (Memᴰ.head refl), All-Memᴰ P xs (λ y m. h y (Memᴰ.tail m)))

Memᴰ-if :
    (b : Bool) (r r' : AuditRow) (rows table : List AuditRow)
    → (Memᴰ r rows → Memᴰ r table)
    → Memᴰ r (if b then r' ∷ rows else rows)
    → Memᴰ r (r' ∷ table)
Memᴰ-if true r r' rows table more (Memᴰ.head e) = Memᴰ.head e
Memᴰ-if true r r' rows table more (Memᴰ.tail m) = Memᴰ.tail (more m)
Memᴰ-if false r r' rows table more m = Memᴰ.tail (more m)

Memᴰ-select_where :
    (test : AuditRow → Bool) (r : AuditRow) (rows : List AuditRow)
    → Memᴰ r (select_where test rows)
    → Memᴰ r rows
unfolding select_where
Memᴰ-select_where test r [] m = m
Memᴰ-select_where test r (r' ∷ rows) m =
    Memᴰ-if (test r') r r' (select_where test rows) rows (Memᴰ-select_where test r rows) m

if-Memᴰ :
    (b : Bool) (r r' : AuditRow) (rows : List AuditRow)
    → Memᴰ r rows
    → Memᴰ r (if b then r' ∷ rows else rows)
if-Memᴰ true r r' rows m = Memᴰ.tail m
if-Memᴰ false r r' rows m = m

select_where-Memᴰ :
    (test : AuditRow → Bool) (r : AuditRow) (rows : List AuditRow)
    → Memᴰ r rows
    → test r ≡ true
    → Memᴰ r (select_where test rows)
unfolding select_where
select_where-Memᴰ test r [] m chosen = elim m [ ]
select_where-Memᴰ test r (r' ∷ rows) (Memᴰ.head e) chosen =
    let chosen' : test r' ≡ true = ap test (sym e) ∙ chosen in rw chosen' (Memᴰ.head e)
select_where-Memᴰ test r (r' ∷ rows) (Memᴰ.tail m) chosen =
    if-Memᴰ (test r') r r' (select_where test rows) (select_where-Memᴰ test r rows m chosen)

Memᴰ-take {ℓ} : {A : Type ℓ} (k : ℕ) (x : A) (xs : List A) → Memᴰ x (take k xs) → Memᴰ x xs
Memᴰ-take zero x xs m = elim m [ ]
Memᴰ-take (suc k) x [] m = m
Memᴰ-take (suc k) x (y ∷ xs) (Memᴰ.head e) = Memᴰ.head e
Memᴰ-take (suc k) x (y ∷ xs) (Memᴰ.tail m) = Memᴰ.tail (Memᴰ-take k x xs m)

-- A row of the list is among the first `k`, or before all of these, and there are `k`.
take-Memᴰ :
    (k n : ℕ) (r : AuditRow) (rows : List AuditRow)
    → Memᴰ r rows
    → Descending n rows
    → Memᴰ r (take k rows) ⊎ ((length (take k rows) ≡ k) × All (λ r'. r.id < r'.id) (take k rows))
take-Memᴰ zero n r rows m d = inr (refl, tt)
take-Memᴰ (suc k) n r [] m d = elim m [ ]
take-Memᴰ (suc k) n r (r' ∷ rows) (Memᴰ.head e) d = inl (Memᴰ.head e)
take-Memᴰ (suc k) n r (r' ∷ rows) (Memᴰ.tail m) d = elim (take-Memᴰ k r'.id r rows m d.1) [
  | inl early ↦ inl (Memᴰ.tail early)
  | inr (full, older) ↦ inr (ap suc full, (Memᴰ-Descending r'.id r rows m d.1, older))
]

module _ (since : ℤ) (p : Option Text) (limit next : ℕ) (table : List AuditRow)
    (down : Descending next table) where
  abbrev chosen : List AuditRow
  chosen = select_where (selected since p) table

  abbrev answer : List AuditRow
  answer = take limit chosen

  answer-Placed : (r : AuditRow) → Memᴰ r table → Placed since p limit answer r
  answer-Placed r m = elim (Bool-cases (selected since p r)) [
    | inl e ↦
        elim (take-Memᴰ limit next r chosen (select_where-Memᴰ (selected since p) r table m e)
          (Descending-select_where (selected since p) next table down)) [
            | inl listed ↦ inl listed
            | inr full ↦ inr (inr full)
          ]
    | inr e ↦ inr (inl (λ m. not-selected since p r m e))
  ]

  pub answer-Newest : Newest since p limit next table answer
  answer-Newest = (
    length-take_le limit chosen,
    Descending-take limit next chosen (Descending-select_where (selected since p) next table down),
    All-take _ limit chosen (All-select_where since p table),
    All-Memᴰ (λ r. Memᴰ r table) answer
        (λ r m. Memᴰ-select_where (selected since p) r table (Memᴰ-take limit r chosen m)),
    All-Memᴰ (Placed since p limit answer) table answer-Placed,
  )
