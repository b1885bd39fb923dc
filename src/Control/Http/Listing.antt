-- ===== src/Control/Http/Listing.antt =====
-- What the audit listing answers.
use xyzen_relay.Prelude.{
  ℕ, ◌⊎◌, true, ◌≡◌, refl, sym, subst, Bool-cases, inl, inr, Option, none, some, Option-cases, List,
  [],
}
use xyzen_relay.Prelude.Int.{pos, clamp_pos}
use xyzen_relay.Control.Errors.{Text, AppError, Result, ok, err, db_error}
use xyzen_relay.Control.Auth.{require_token}
use xyzen_relay.Control.Store.{
  App, PeerRow, AuditRow, World, Env, after, ◌>>=◌, pure, lift, select_user, select_audit, of_user,
}
use xyzen_relay.Control.Store.Invariant.{Descending}
use xyzen_relay.Control.Http.{AuditQuery, unwrap_or, list_audit, filter_of, rows_for}
use xyzen_relay.Control.Http.Newest.{Newest, answer-Newest}

-- The peer that a query is about, if any: the one it names, or else that of the user it names. The
-- outer `none` is a user without a peer.
abbrev pub peer_of : Option PeerRow → Option (Option Text)
peer_of none = none
peer_of (some r) = some (some r.peer_id)

abbrev pub about_user : Option Text → List PeerRow → Option (Option Text)
about_user none rows = some none
about_user (some u) rows = peer_of (of_user u rows)

abbrev pub about : Option Text → Option Text → List PeerRow → Option (Option Text)
about (some p) user rows = some (some p)
about none user rows = about_user user rows

-- Nothing for a user without a peer, and else the newest rows.
abbrev pub Listed : AuditQuery → Option (Option Text) → World → List AuditRow → Type 0
Listed q none w rows = rows ≡ []
Listed q (some p) w rows =
    Newest (unwrap_or q.since (pos 0)) p (clamp_pos (unwrap_or q.limit (pos 100)) 1 1000) w.next_id
      w.audit rows

-- `P` of what a step answers and of the world behind it, or `E` of its error.
abbrev pub Ends {ℓ κ} :
    {A : Type ℓ} → (A → World → Type κ) → (AppError → Type κ) → Result A × World → Type κ
Ends P E (ok a, w) = P a w
Ends P E (err e, w) = E e

after-Ends {ℓ κ ι} :
    {A : Type ℓ} {B : Type κ} (P : A → World → Type ι) (Q : B → World → Type ι)
    (E : AppError → Type ι) (r : Result A × World) (f : A → App B)
    → Ends P E r
    → ((a : A) (w : World) → P a w → Ends Q E (f a w))
    → Ends Q E (after r f)
after-Ends P Q E (ok a, w) f first rest = rest a w first
after-Ends P Q E (err e, w) f first rest = first

module _ (to_str : List ℕ → Option Text) (as_bytes : Text → List ℕ) (user_json : Text → Text)
    (token : Text) (v : Env) (authorization : Option (List ℕ)) where
  -- The token is refused with this error, or a query fails.
  abbrev pub Refused : AppError → Type 0
  Refused e =
      (require_token to_str as_bytes authorization token ≡ err e)
      ⊎ ((e ≡ db_error) × ((n : ℕ) × (v.fails n ≡ true)))

  guard-Ends :
      (w : World) (r : Result (Unit {0}))
      → require_token to_str as_bytes authorization token ≡ r
      → Ends (λ a w'. w' ≡ w) Refused (lift r w)
  unfolding lift
  guard-Ends w (ok a) same = refl
  guard-Ends w (err e) same = inl same

  -- The world behind a step that only reads, and what the filter is.
  Filtered : AuditQuery → World → Option (Option Text) → World → Type 0
  Filtered q w o w' = (o ≡ about q.peer_id q.user_id w.peers) × (w'.audit ≡ w.audit)

  filter_of-Filtered :
      (q : AuditQuery) (w : World)
      → Ends (Filtered q w) Refused (filter_of to_str as_bytes user_json token v q w)
  unfolding Filtered ◌>>=◌ pure select_user
  filter_of-Filtered q w = go q.peer_id q.user_id
    where
      go :
          (p u : Option Text)
          → Ends (Filtered (record q { peer_id = p; user_id = u }) w) Refused (
              filter_of to_str as_bytes user_json token v (record q { peer_id = p; user_id = u }) w)
      go (some p) u = (refl, refl)
      go none none = (refl, refl)
      go none (some u) = elim (Bool-cases (v.fails w.queries)) [
        | inl f ↦ rw f (inr (refl, (w.queries, f)))
        | inr f ↦ elim (Option-cases (of_user u w.peers)) [
          | inl e ↦ rw (f, e) (refl, refl)
          | inr (r, e) ↦ rw (f, e) (refl, refl)
        ]
      ]

  abbrev Answers : AuditQuery → World → Option (Option Text) → App (List AuditRow) → World → Type 0
  Answers q w o m w' = Ends (λ rows w''. Listed q o w rows) Refused (m w')

  rows_for-Listed :
      (q : AuditQuery) (w w' : World) (o : Option (Option Text))
      → Descending w.next_id w.audit
      → w'.audit ≡ w.audit
      → Answers q w o (rows_for to_str as_bytes user_json token v q o) w'
  unfolding pure select_audit
  rows_for-Listed q w w' none d same = refl
  rows_for-Listed q w w' (some p) d same = elim (Bool-cases (v.fails w'.queries)) [
    | inl f ↦ rw f (inr (refl, (w'.queries, f)))
    | inr f ↦
        rw (f, same)
          (answer-Newest (unwrap_or q.since (pos 0)) p
            (clamp_pos (unwrap_or q.limit (pos 100)) 1 1000) w.next_id w.audit d)
  ]

  -- What `list_audit` answers on tables whose audit ids go down. It fails only with the error of the
  -- token, or where a query fails. Where the query names no peer, but a user without one, the answer
  -- is empty. Else it is made of the rows of the table from `since` (0 if it is not given) on which the
  -- peer that the query names, or that of its user, is the one or the other party, or of all from
  -- `since` where it names neither: the newest of them, the last id first, each with nothing newer left
  -- out, and as many as there are up to the limit of the query, which is 100 if it is not given and is
  -- brought into 1 to 1000.
  pub list_audit-Listed :
      (q : AuditQuery) (w : World)
      → Descending w.next_id w.audit
      → Ends
          (λ rows w'. Listed q (about q.peer_id q.user_id w.peers) w rows)
          Refused
          (list_audit to_str as_bytes user_json token v authorization q w)
  unfolding list_audit ◌>>=◌ Filtered
  list_audit-Listed q w d =
      let allowed = require_token to_str as_bytes authorization token in
      after-Ends _ _ Refused (lift allowed w) _ (guard-Ends w allowed refl) (λ done w1 e1.
        after-Ends (Filtered q w) _ Refused (filter_of to_str as_bytes user_json token v q w1) _
          (subst
            (λ x. Ends (Filtered q w) Refused (filter_of to_str as_bytes user_json token v q x))
            (sym e1) (filter_of-Filtered q w))
          (λ o w2 f.
            subst (λ o'. Answers q w o' (rows_for to_str as_bytes user_json token v q o) w2) f.0
              (rows_for-Listed q w w2 o d f.1)))
