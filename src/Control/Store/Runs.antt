-- ===== src/Control/Store/Runs.antt =====
-- How a chain of database steps runs: what holds when it answers, and what every step keeps.
use xyzen_relay.Prelude.{◌≡◌, refl, subst, Bool-cases, ◌⊎◌, inl, inr, Option-cases, ◌∷◌}
use xyzen_relay.Control.Errors.{Text, AppError, Result, ok, err}
use xyzen_relay.Control.Store.{
  PeerRow, World, Env, App, after, lift, select_user, insert_peer, of_peer, of_user,
}

-- If the step answers, the answer and the world behind it satisfy `P`.
abbrev pub PostOk {ℓ κ} : {A : Type ℓ} → (A → World → Type κ) → Result A × World → Type κ
PostOk P (ok a, w) = P a w
PostOk P (err e, w) = Unit {κ}

pub after-PostOk {ℓ κ ι} :
    {A : Type ℓ} {B : Type κ} (P : A → World → Type ι) (Q : B → World → Type ι)
    (r : Result A × World) (f : A → App B)
    → PostOk P r
    → ((a : A) (w : World) → P a w → PostOk Q (f a w))
    → PostOk Q (after r f)
after-PostOk P Q (ok a, w) f first rest = rest a w first
after-PostOk P Q (err e, w) f first rest = tt

pub PostOk-eq {ℓ κ} :
    {A : Type ℓ} (P : A → World → Type κ) (r : Result A × World) (a : A) (w : World)
    → r ≡ (ok a, w)
    → PostOk P r
    → P a w
PostOk-eq P r a w e h = subst (PostOk P) e h

pub PostOk-always {ℓ κ} : {A : Type ℓ} (P : Type κ) (r : Result A × World) → P → PostOk (λ a w. P) r
PostOk-always P (ok a, w) h = h
PostOk-always P (err e, w) h = tt

pub Result-cases {ℓ} :
    {A : Type ℓ} (r : Result A) → ((a : A) × (r ≡ ok a)) ⊎ ((e : AppError) × (r ≡ err e))
Result-cases (ok a) = inl (a, refl)
Result-cases (err e) = inr (e, refl)

-- A chain keeps what its steps keep.
pub after-keeps {ℓ κ ι} :
    {A : Type ℓ} {B : Type κ} (P : World → Type ι) (r : Result A × World) (f : A → App B)
    → P r.1
    → ((a : A) (w' : World) → P w' → P (f a w').1)
    → P (after r f).1
after-keeps P (ok a, w') f kept rest = rest a w' kept
after-keeps P (err x, w') f kept rest = kept

pub lift-PostOk {ℓ} : {A : Type ℓ} (r : Result A) (w : World) → PostOk (λ a w'. w' ≡ w) (lift r w)
unfolding lift
lift-PostOk (ok a) w = refl
lift-PostOk (err e) w = tt

pub select_user-PostOk :
    (v : Env) (u : Text) (w : World)
    → PostOk (λ o w'. (o ≡ of_user u w.peers) × (w'.peers ≡ w.peers)) (select_user v u w)
unfolding select_user
select_user-PostOk v u w = elim (Bool-cases (v.fails w.queries)) [
  | inl f ↦ rw f tt
  | inr f ↦ rw f (refl, refl)
]

pub insert_peer-PostOk :
    (v : Env) (u p : Text) (w : World)
    → PostOk
        (λ i w'. (r : PeerRow) × ((w'.peers ≡ r ∷ w.peers) × (r.user_id ≡ u) × (r.peer_id ≡ p)))
        (insert_peer v u p w)
unfolding insert_peer of_user
insert_peer-PostOk v u p w = elim (Bool-cases (v.fails w.queries)) [
  | inl f ↦ rw f tt
  | inr f ↦ elim (Option-cases (of_user u w.peers)) [
    | inr (r, e) ↦ rw (f, e) tt
    | inl e ↦ elim (Option-cases (of_peer p w.peers)) [
      | inr (r, g) ↦ rw (f, e, g) tt
      | inl g ↦ rw (f, e, g) (_, (refl, refl, refl))
    ]
  ]
]
