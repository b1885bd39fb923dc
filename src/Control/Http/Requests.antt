-- ===== src/Control/Http/Requests.antt =====
-- What every request to crates/control keeps, and what a refused one does.
use Prim.Native.String.{String}
use xyzen_relay.Prelude.{
  ℕ, ◌≡◌, refl, sym, subst, Bool-cases, inl, inr, Option, none, some, List, All,
}
use xyzen_relay.Prelude.Int.{ℤ}
use xyzen_relay.Control.Errors.{Text, AppError, Result, ok, err}
use xyzen_relay.Control.Auth.{require_token}
use xyzen_relay.Control.Store.{
  PeerRow, AuditRow, World, Env, App, after, ◌>>=◌, lift, pure, select_audit, select_user, fresh,
  fresh_loop, insert_peer, record_event,
}
use xyzen_relay.Control.Store.Runs.{after-keeps}
use xyzen_relay.Control.Store.Invariant.{
  IsWellFormed, IsPeerId, DistinctUsers, DistinctPeers, Descending, FreshFor, tables,
  fresh_loop-tables, fresh_loop-FreshFor, insert_peer-IsWellFormed, record_event-Descending,
  record_event-peers,
}
use xyzen_relay.Control.Http.{
  Request, healthz_request, post_peers, get_peers, get_audit, post_audit, plain, healthz, bind_peer,
  bind_new, bind_found, rows_for, AuditQuery, IngestAudit, bind_to, get_peer, ingest_audit,
  list_audit, filter_of, serve,
}

record_event-IsWellFormed :
    (v : Env) (kind : String) (p c a m : Option Text) (w : World)
    → IsWellFormed w
    → IsWellFormed (record_event v kind p c a m w)
record_event-IsWellFormed v kind p c a m w (users, peers, ids, down) =
    rw (record_event-peers v kind p c a m w)
      (users, peers, ids, record_event-Descending v kind p c a m w down)

tables-IsWellFormed : (w w' : World) → tables w' ≡ tables w → IsWellFormed w → IsWellFormed w'
tables-IsWellFormed w w' e h = subst Holds (sym e) h
  where
    Holds : List PeerRow × List AuditRow × ℕ → Type 0
    Holds (peers, audit, next) =
        DistinctUsers peers
        × DistinctPeers peers
        × All (λ r. IsPeerId r.peer_id) peers
        × Descending next audit

Keeps {ℓ} : {A : Type ℓ} → App A → Type 0
Keeps m = (w : World) → IsWellFormed w → IsWellFormed (m w).1

>>=-Keeps {ℓ κ} :
    {A : Type ℓ} {B : Type κ} (m : App A) (f : A → App B)
    → Keeps m
    → ((a : A) → Keeps (f a))
    → Keeps (m >>= f)
unfolding Keeps ◌>>=◌
>>=-Keeps m f first rest w h = after-keeps IsWellFormed (m w) f (first w h) rest

lift-Keeps {ℓ} : {A : Type ℓ} (r : Result A) → Keeps (lift r)
unfolding Keeps lift
lift-Keeps r w h = h

pure-Keeps {ℓ} : {A : Type ℓ} (a : A) → Keeps (pure a)
unfolding Keeps pure
pure-Keeps a w h = h

select_user-Keeps : (v : Env) (u : Text) → Keeps (select_user v u)
unfolding Keeps select_user
select_user-Keeps v u w h = elim (Bool-cases (v.fails w.queries)) [
  | inl f ↦ rw f h
  | inr f ↦ rw f h
]

select_audit-Keeps :
    (v : Env) (since : ℤ) (p : Option Text) (limit : ℕ) → Keeps (select_audit v since p limit)
unfolding Keeps select_audit
select_audit-Keeps v since p limit w h = elim (Bool-cases (v.fails w.queries)) [
  | inl f ↦ rw f h
  | inr f ↦ rw f h
]

module _ (to_str : List ℕ → Option Text) (as_bytes : Text → List ℕ) (user_json : Text → Text)
    (token : Text) (v : Env) (authorization : Option (List ℕ)) where
  bind_to-IsWellFormed :
      (u p : Text) (w : World)
      → IsPeerId p
      → IsWellFormed w
      → IsWellFormed (bind_to to_str as_bytes user_json token v u p w).1
  unfolding ◌>>=◌ record_event pure
  bind_to-IsWellFormed u p w id h =
      after-keeps IsWellFormed (insert_peer v u p w) _ (insert_peer-IsWellFormed v u p w id h)
        (λ i w' h'.
          record_event-IsWellFormed v "peer_bound" (some p) none none (some (user_json u)) w' h')

  bind_new-Keeps : (u : Text) → Keeps (bind_new to_str as_bytes user_json token v u)
  unfolding Keeps ◌>>=◌ fresh_loop
  bind_new-Keeps u w h = go (fresh v w) (fresh_loop-tables 16 v w) (fresh_loop-FreshFor 16 v w)
    where
      go :
          (r : Result Text × World)
          → tables r.1 ≡ tables w
          → FreshFor w.peers r
          → IsWellFormed (after r (bind_to to_str as_bytes user_json token v u)).1
      go (ok p, w') same (id, free) =
          bind_to-IsWellFormed u p w' id (tables-IsWellFormed w w' same h)
      go (err e, w') same found = tables-IsWellFormed w w' same h

  bind_found-Keeps :
      (u : Text) (o : Option PeerRow) → Keeps (bind_found to_str as_bytes user_json token v u o)
  bind_found-Keeps u none = bind_new-Keeps u
  bind_found-Keeps u (some r) = pure-Keeps _

  bind_peer-Keeps : (u : Text) → Keeps (bind_peer to_str as_bytes user_json token v authorization u)
  unfolding bind_peer
  bind_peer-Keeps u = >>=-Keeps _ _ (lift-Keeps _) (λ allowed.
      >>=-Keeps _ _ (lift-Keeps _)
        (λ named. >>=-Keeps _ _ (select_user-Keeps v u) (bind_found-Keeps u)))

  get_peer-Keeps : (u : Text) → Keeps (get_peer to_str as_bytes user_json token v authorization u)
  unfolding get_peer
  get_peer-Keeps u = >>=-Keeps _ _ (lift-Keeps _) (λ allowed.
      >>=-Keeps _ _ (select_user-Keeps v u)
        (λ found. >>=-Keeps _ _ (lift-Keeps _) (λ row. pure-Keeps _)))

  filter_of-Keeps : (q : AuditQuery) → Keeps (filter_of to_str as_bytes user_json token v q)
  filter_of-Keeps q = go q.peer_id q.user_id
    where
      go :
          (p u : Option Text)
          → Keeps
              (filter_of to_str as_bytes user_json token v (record q { peer_id = p; user_id = u }))
      go (some p) u = pure-Keeps _
      go none none = pure-Keeps _
      go none (some u) = >>=-Keeps _ _ (select_user-Keeps v u) (λ found. pure-Keeps _)

  rows_for-Keeps :
      (q : AuditQuery) (o : Option (Option Text))
      → Keeps (rows_for to_str as_bytes user_json token v q o)
  rows_for-Keeps q none = pure-Keeps _
  rows_for-Keeps q (some p) = select_audit-Keeps v _ p _

  list_audit-Keeps :
      (q : AuditQuery) → Keeps (list_audit to_str as_bytes user_json token v authorization q)
  unfolding list_audit
  list_audit-Keeps q =
      >>=-Keeps _ _ (lift-Keeps _) (λ allowed. >>=-Keeps _ _ (filter_of-Keeps q) (rows_for-Keeps q))

  ingest_audit-Keeps :
      (ev : IngestAudit) → Keeps (ingest_audit to_str as_bytes user_json token v authorization ev)
  unfolding ingest_audit Keeps
  ingest_audit-Keeps ev = >>=-Keeps _ _ (lift-Keeps _) (λ allowed w h.
      record_event-IsWellFormed v ev.kind ev.peer_id ev.controller_peer_id ev.addr ev.meta w h)

  -- The tables stay well formed under every request, whoever sends it and whatever queries fail: no
  -- user id and no peer id is bound twice, every peer id has nine decimal digits, and the audit ids
  -- go down from below the next one.
  pub serve-IsWellFormed :
      (q : Request) (w : World)
      → IsWellFormed w
      → IsWellFormed (serve to_str as_bytes user_json token v authorization q w).1
  unfolding serve Keeps
  serve-IsWellFormed healthz_request w h = pure-Keeps (plain healthz) w h
  serve-IsWellFormed (post_peers u) w h = >>=-Keeps _ _ (bind_peer-Keeps u) (λ a. pure-Keeps _) w h
  serve-IsWellFormed (get_peers u) w h = >>=-Keeps _ _ (get_peer-Keeps u) (λ a. pure-Keeps _) w h
  serve-IsWellFormed (get_audit q) w h = >>=-Keeps _ _ (list_audit-Keeps q) (λ a. pure-Keeps _) w h
  serve-IsWellFormed (post_audit ev) w h =
      >>=-Keeps _ _ (ingest_audit-Keeps ev) (λ a. pure-Keeps _) w h

  -- The route that asks for no token.
  abbrev pub IsProtected : Request → Type 0
  IsProtected healthz_request = ⊥
  IsProtected other = Unit {0}

  -- Without the token every request but `healthz` is answered by the refusal of `require_token`, and
  -- no query is made and no table is changed.
  pub serve-refused :
      (q : Request) (e : AppError) (w : World)
      → IsProtected q
      → require_token to_str as_bytes authorization token ≡ err e
      → serve to_str as_bytes user_json token v authorization q w ≡ (err e, w)
  unfolding serve bind_peer get_peer list_audit ingest_audit ◌>>=◌ lift
  serve-refused healthz_request e w protected refused = absurd protected
  serve-refused (post_peers u) e w protected refused = rw refused refl
  serve-refused (get_peers u) e w protected refused = rw refused refl
  serve-refused (get_audit q) e w protected refused = rw refused refl
  serve-refused (post_audit ev) e w protected refused = rw refused refl
