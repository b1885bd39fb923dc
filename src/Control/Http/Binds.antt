-- ===== src/Control/Http/Binds.antt =====
-- When binding a user succeeds.
use xyzen_relay.Prelude.{
  ℕ, zero, suc, ◌+◌, ◌<◌, ◌≡◌, refl, sym, subst, false, inl, inr, Option, none, Option-cases, List,
  arith,
}
use xyzen_relay.Control.Errors.{Text, Result, ok, err}
use xyzen_relay.Control.Texts.{is_blank}
use xyzen_relay.Control.Auth.{require_token}
use xyzen_relay.Control.Ids.{random_id}
use xyzen_relay.Control.Store.{
  PeerRow, World, Env, App, after, ◌>>=◌, lift, pure, select_user, fresh, fresh_loop, insert_peer,
  of_user, of_peer,
}
use xyzen_relay.Control.Store.Runs.{PostOk}
use xyzen_relay.Control.Http.{bind_peer, bind_new}
use xyzen_relay.Control.Http.Bind.{Bound, bind_peer-PostOk}

-- The step answers, and `P` holds of the answer and the world behind it.
abbrev pub Gives {ℓ} : {A : Type ℓ} → (A → World → Type 0) → Result A × World → Type 0
Gives P (ok a, w) = P a w
Gives P (err e, w) = ⊥

after-Gives {ℓ κ} :
    {A : Type ℓ} {B : Type κ} (P : A → World → Type 0) (Q : B → World → Type 0)
    (r : Result A × World) (f : A → App B)
    → Gives P r
    → ((a : A) (w : World) → P a w → Gives Q (f a w))
    → Gives Q (after r f)
after-Gives P Q (ok a, w) f first rest = rest a w first
after-Gives P Q (err e, w) f first rest = absurd first

Gives-PostOk {ℓ} :
    {A : Type ℓ} (P Q : A → World → Type 0) (r : Result A × World)
    → Gives P r
    → PostOk Q r
    → Gives Q r
Gives-PostOk P Q (ok a, w) answered h = h
Gives-PostOk P Q (err e, w) answered h = absurd answered

-- One of the next `tries` draws is an id that no row has.
abbrev pub FreeAmong : ℕ → Env → World → Type 0
FreeAmong tries v w =
    (i : ℕ) × ((i < tries) × (of_peer (random_id (v.word (w.drawn + i))) w.peers ≡ none))

module _ (v : Env) (works : (n : ℕ) → v.fails n ≡ false) where
  abbrev Unused : List PeerRow → Text → World → Type 0
  Unused rows s w = (of_peer s rows ≡ none) × (w.peers ≡ rows)

  same_draw : (d : ℕ) → d + 0 ≡ d
  same_draw d = omega arith

  later_draw : (d i : ℕ) → d + suc i ≡ suc d + i
  later_draw d i = omega arith

  fresh_loop-Gives :
      (tries i : ℕ) (w : World)
      → i < tries
      → of_peer (random_id (v.word (w.drawn + i))) w.peers ≡ none
      → Gives (Unused w.peers) (fresh_loop tries v w)
  unfolding fresh_loop pure
  fresh_loop-Gives zero i w lt e = absurd (omega arith)
  fresh_loop-Gives (suc tries) zero w lt e =
      let free = subst (λ n. of_peer (random_id (v.word n)) w.peers ≡ none) (same_draw w.drawn) e in
      rw (works w.queries, free) (free, refl)
  fresh_loop-Gives (suc tries) (suc i) w lt e =
      elim (Option-cases (of_peer (random_id (v.word w.drawn)) w.peers)) [
        | inl free ↦ rw (works w.queries, free) (free, refl)
        | inr (r, used) ↦
            rw (works w.queries, used)
              (fresh_loop-Gives tries i (record w { queries = suc w.queries; drawn = suc w.drawn })
                (omega arith)
                (subst (λ n. of_peer (random_id (v.word n)) w.peers ≡ none) (later_draw w.drawn i)
                  e))
      ]

  insert_peer-Gives :
      (u s : Text) (w : World)
      → of_user u w.peers ≡ none
      → of_peer s w.peers ≡ none
      → Gives (λ i w'. Unit {0}) (insert_peer v u s w)
  unfolding insert_peer of_user
  insert_peer-Gives u s w new free = rw (works w.queries, new, free) tt

  module _ (to_str : List ℕ → Option Text) (as_bytes : Text → List ℕ) (user_json : Text → Text)
      (token : Text) where
    bind_new-Gives :
        (u : Text) (w : World)
        → of_user u w.peers ≡ none
        → FreeAmong 16 v w
        → Gives (λ resp w'. Unit {0}) (bind_new to_str as_bytes user_json token v u w)
    unfolding ◌>>=◌ pure
    bind_new-Gives u w new (i, (lt, free)) =
        after-Gives (Unused w.peers) (λ resp w'. Unit {0}) (fresh v w) _
          (fresh_loop-Gives 16 i w lt free)
          (λ s w' unused.
            after-Gives (λ x w2. Unit {0}) (λ resp w2. Unit {0}) (insert_peer v u s w') _
              (insert_peer-Gives u s w' (subst (λ rows. of_user u rows ≡ none) (sym unused.1) new)
                (subst (λ rows. of_peer s rows ≡ none) (sym unused.1) unused.0))
              (λ x w2 done. tt))

    bind_peer-answers :
        (authorization : Option (List ℕ)) (u : Text) (w : World)
        → require_token to_str as_bytes authorization token ≡ ok tt
        → is_blank u ≡ false
        → FreeAmong 16 v w
        → Gives
            (λ resp w'. Unit {0})
            (bind_peer to_str as_bytes user_json token v authorization u w)
    unfolding bind_peer ◌>>=◌ lift select_user pure
    bind_peer-answers authorization u w allowed named draws =
        elim (Option-cases (of_user u w.peers)) [
          | inl new ↦
              rw (allowed, named, works w.queries, new)
                (bind_new-Gives u (record w { queries = suc w.queries }) new draws)
          | inr (r, found) ↦ rw (allowed, named, works w.queries, found) tt
        ]

    -- With the bearer's token and a user id that is not blank, while no query fails: if one of the
    -- next sixteen draws is an id that no row has, `bind_peer` answers, and binds the user.
    pub bind_peer-Gives :
        (authorization : Option (List ℕ)) (u : Text) (w : World)
        → require_token to_str as_bytes authorization token ≡ ok tt
        → is_blank u ≡ false
        → FreeAmong 16 v w
        → Gives (Bound u w.peers) (bind_peer to_str as_bytes user_json token v authorization u w)
    bind_peer-Gives authorization u w allowed named draws =
        Gives-PostOk (λ resp w'. Unit {0}) (Bound u w.peers) _
          (bind_peer-answers authorization u w allowed named draws)
          (bind_peer-PostOk to_str as_bytes user_json token v authorization u w)
