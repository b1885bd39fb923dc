-- ===== src/Control/Http/Bind.antt =====
-- Binding a user to a peer id, and reading the binding back.
use xyzen_relay.Prelude.{
  ℕ, suc, ◌≡◌, refl, sym, ap, subst, ◌∙◌, false, Bool-cases, inl, inr, Option, none, some, List,
  ◌∷◌, if◌then◌else◌, arith,
}
use xyzen_relay.Control.Errors.{Text, Result, ok, err}
use xyzen_relay.Control.Texts.{is_blank, text_eq, text_eq_iff}
use xyzen_relay.Control.Auth.{require_token}
use xyzen_relay.Control.Store.{
  PeerRow, World, Env, ◌>>=◌, lift, pure, select_user, fresh, insert_peer, of_user,
}
use xyzen_relay.Control.Store.Runs.{
  PostOk, PostOk-always, Result-cases, after-PostOk, PostOk-eq, lift-PostOk, select_user-PostOk,
  insert_peer-PostOk,
}
use xyzen_relay.Control.Store.Invariant.{tables, fresh_loop-tables, record_event-peers}
use xyzen_relay.Control.Http.{PeerResp, bind_peer, bind_new, bind_to, bind_found, get_peer}

-- Of the two lists of rows, the second has the answered binding, and says the same of all others.
pub Bound : Text → List PeerRow → PeerResp → World → Type 0
Bound u before resp w =
    (resp.user_id ≡ u)
    × ((r : PeerRow) × ((of_user u w.peers ≡ some r) × (r.peer_id ≡ resp.peer_id)))
    × ((t : Text)
        → of_user t w.peers ≡ (if text_eq u t then of_user u w.peers else of_user t before))

Bound-cons :
    (u p : Text) (before : List PeerRow) (r : PeerRow) (w : World)
    → w.peers ≡ r ∷ before
    → r.user_id ≡ u
    → r.peer_id ≡ p
    → Bound u before (record { user_id = u; peer_id = p }) w
unfolding Bound of_user
Bound-cons u p before r w e user peer = rw e (
  refl,
  (r, (rw ((text_eq_iff r.user_id u).1 user) refl, peer)),
  λ t. ground (arith, text_eq_iff u t, text_eq_iff r.user_id t, text_eq_iff r.user_id u),
)

Bound-found :
    (u : Text) (rows : List PeerRow) (r : PeerRow) (w : World)
    → of_user u rows ≡ some r
    → w.peers ≡ rows
    → Bound u rows (record { user_id = u; peer_id = r.peer_id }) w
unfolding Bound
Bound-found u rows r w e same = rw same (refl, (r, (e, refl)), λ t. ground (arith, text_eq_iff u t))

module _ (to_str : List ℕ → Option Text) (as_bytes : Text → List ℕ) (user_json : Text → Text)
    (token : Text) (v : Env) (authorization : Option (List ℕ)) where
  bind_to-Bound :
      (u p : Text) (w : World)
      → PostOk (Bound u w.peers) (bind_to to_str as_bytes user_json token v u p w)
  unfolding ◌>>=◌ pure
  bind_to-Bound u p w =
      after-PostOk _ (Bound u w.peers) (insert_peer v u p w) _ (insert_peer-PostOk v u p w)
        (λ i w' inserted.
          let (r, (e, user, peer)) = inserted in
          Bound-cons u p w.peers r _
            (record_event-peers v "peer_bound" (some p) none none (some (user_json u)) w' ∙ e) user
            peer)

  bind_new-Bound :
      (u : Text) (w : World)
      → PostOk (Bound u w.peers) (bind_new to_str as_bytes user_json token v u w)
  unfolding ◌>>=◌
  bind_new-Bound u w =
      after-PostOk (λ p w'. w'.peers ≡ w.peers) (Bound u w.peers) (fresh v w) _
        (go (fresh v w) (fresh_loop-tables 16 v w))
        (λ p w' same.
          subst (λ rows. PostOk (Bound u rows) (bind_to to_str as_bytes user_json token v u p w'))
            same (bind_to-Bound u p w'))
    where
      go : (r : Result Text × World) → tables r.1 ≡ tables w → PostOk (λ p w'. w'.peers ≡ w.peers) r
      go (ok p, w') e = ap (λ t. t.0) e
      go (err x, w') e = tt

  bind_found-Bound :
      (u : Text) (rows : List PeerRow) (o : Option PeerRow) (w : World)
      → o ≡ of_user u rows
      → w.peers ≡ rows
      → PostOk (Bound u rows) (bind_found to_str as_bytes user_json token v u o w)
  unfolding pure
  bind_found-Bound u rows none w e same =
      subst (λ l. PostOk (Bound u l) (bind_new to_str as_bytes user_json token v u w)) same
        (bind_new-Bound u w)
  bind_found-Bound u rows (some r) w e same = Bound-found u rows r w (sym e) same

  pub bind_peer-PostOk :
      (u : Text) (w : World)
      → PostOk (Bound u w.peers) (bind_peer to_str as_bytes user_json token v authorization u w)
  unfolding bind_peer ◌>>=◌
  bind_peer-PostOk u w = after-PostOk _ _ (lift _ w) _ (lift-PostOk _ w) (λ allowed w1 e1.
      after-PostOk _ _ (lift _ w1) _ (lift-PostOk _ w1) (λ named w2 e2.
        after-PostOk _ _ (select_user v u w2) _ (select_user-PostOk v u w2) (λ o w3 found.
          bind_found-Bound u w.peers o w3 (found.0 ∙ ap (λ x. of_user u x.peers) (e2 ∙ e1))
            (found.1 ∙ ap (λ x. x.peers) (e2 ∙ e1)))))

  abbrev Allowed : Text → Type 0
  Allowed u = (require_token to_str as_bytes authorization token ≡ ok tt) × (is_blank u ≡ false)

  bind_peer-Allowed :
      (u : Text) (w : World)
      → PostOk
          (λ resp w'. Allowed u)
          (bind_peer to_str as_bytes user_json token v authorization u w)
  unfolding bind_peer ◌>>=◌ lift
  bind_peer-Allowed u w = elim (Result-cases (require_token to_str as_bytes authorization token)) [
    | inr (e, refused) ↦ rw refused tt
    | inl (a, allowed) ↦ elim (Bool-cases (is_blank u)) [
      | inl blank ↦ rw (allowed, blank) tt
      | inr named ↦ PostOk-always (Allowed u) _ (allowed, named)
    ]
  ]

  get_peer-bound :
      (u : Text) (r : PeerRow) (w : World)
      → require_token to_str as_bytes authorization token ≡ ok tt
      → v.fails w.queries ≡ false
      → of_user u w.peers ≡ some r
      → get_peer to_str as_bytes user_json token v authorization u w
        ≡ (ok (record { user_id = u; peer_id = r.peer_id }), record w { queries = suc w.queries })
  unfolding get_peer ◌>>=◌ lift select_user pure
  get_peer-bound u r w allowed works found = rw (allowed, works, found) refl

  bind_peer-bound :
      (u : Text) (r : PeerRow) (w : World)
      → require_token to_str as_bytes authorization token ≡ ok tt
      → is_blank u ≡ false
      → v.fails w.queries ≡ false
      → of_user u w.peers ≡ some r
      → bind_peer to_str as_bytes user_json token v authorization u w
        ≡ (ok (record { user_id = u; peer_id = r.peer_id }), record w { queries = suc w.queries })
  unfolding bind_peer ◌>>=◌ lift select_user pure
  bind_peer-bound u r w allowed named works found = rw (allowed, named, works, found) refl

  -- Once `bind_peer` has answered with a binding of `u`, and as long as the next query works, both
  -- `get_peer` and a repeated `bind_peer` for `u` answer the same and change no table.
  pub get_peer-bind_peer :
      (u : Text) (w w' : World) (resp : PeerResp)
      → bind_peer to_str as_bytes user_json token v authorization u w ≡ (ok resp, w')
      → v.fails w'.queries ≡ false
      → (get_peer to_str as_bytes user_json token v authorization u w'
          ≡ (ok resp, record w' { queries = suc w'.queries }))
        × (bind_peer to_str as_bytes user_json token v authorization u w'
            ≡ (ok resp, record w' { queries = suc w'.queries }))
  unfolding Bound
  get_peer-bind_peer u w w' resp e works =
      let (allowed, named) = PostOk-eq _ _ resp w' e (bind_peer-Allowed u w) in
      let (user, (r, (found, peer)), others) = PostOk-eq _ _ resp w' e (bind_peer-PostOk u w) in
      let same : record { user_id = u; peer_id = r.peer_id } ≡ resp = cc in
      (
        get_peer-bound u r w' allowed works found
            ∙ ap (λ x. (ok x, record w' { queries = suc w'.queries })) same,
        bind_peer-bound u r w' allowed named works found
            ∙ ap (λ x. (ok x, record w' { queries = suc w'.queries })) same,
      )

  -- A binding that `bind_peer` answers for `u` is in the table, and the bindings of all other users
  -- are as before.
  pub bind_peer-Bound :
      (u : Text) (w w' : World) (resp : PeerResp)
      → bind_peer to_str as_bytes user_json token v authorization u w ≡ (ok resp, w')
      → Bound u w.peers resp w'
  bind_peer-Bound u w w' resp e = PostOk-eq _ _ resp w' e (bind_peer-PostOk u w)
