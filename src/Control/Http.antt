-- ===== src/Control/Http.antt =====
-- crates/control/src/http.rs: the handlers of the routes.
pub mod Requests
pub mod Bind
pub mod Newest
pub mod Listing
pub mod Binds
use Prim.Native.String.{String}
use xyzen_relay.Prelude.{ℕ, true, false, Option, none, some, List, [], ◌∷◌, if◌then◌else◌}
use xyzen_relay.Prelude.Int.{ℤ, pos, clamp_pos}
use xyzen_relay.Control.Errors.{Text, AppError, Result, ok, err, bad, not_found, or_fail}
use xyzen_relay.Control.Texts.{is_blank}
use xyzen_relay.Control.Auth.{require_token}
use xyzen_relay.Control.Store.{
  PeerRow, AuditRow, World, Env, App, ◌>>=◌, pure, lift, select_user, fresh, insert_peer,
  record_event, select_audit,
}

pub record PeerResp : Type 0 where
  pub user_id : Text
  pub peer_id : Text

pub record AuditQuery : Type 0 where
  pub since : Option ℤ
  pub user_id : Option Text
  pub peer_id : Option Text
  pub limit : Option ℤ

pub record IngestAudit : Type 0 where
  pub kind : String
  pub peer_id : Option Text
  pub controller_peer_id : Option Text
  pub addr : Option Text
  pub meta : Option Text

pub data Request : Type 0 where
  healthz_request : Request
  post_peers get_peers : Text → Request
  get_audit : AuditQuery → Request
  post_audit : IngestAudit → Request

pub data Response : Type 0 where
  plain : String → Response
  peer : PeerResp → Response
  audit_rows : List AuditRow → Response
  status_code : ℕ → Response

abbrev pub healthz : String
healthz = "ok"

abbrev pub unwrap_or {ℓ} : {A : Type ℓ} → Option A → A → A
unwrap_or none d = d
unwrap_or (some a) d = a

-- The parameters are those of `require_token`, the text that serde_json makes of
-- `{ "user_id": ... }`, and the token of `AppState`.
module _ (to_str : List ℕ → Option Text) (as_bytes : Text → List ℕ) (user_json : Text → Text)
    (token : Text) where
  abbrev pub guard : Option (List ℕ) → App (Unit {0})
  guard authorization = lift (require_token to_str as_bytes authorization token)

  abbrev pub require_user_id : Text → Result (Unit {0})
  require_user_id user_id = if is_blank user_id then err (bad "user_id required") else ok tt

  abbrev pub record_bound : Env → Text → Text → App (Unit {0})
  record_bound v user_id peer_id w =
      (ok tt, record_event v "peer_bound" (some peer_id) none none (some (user_json user_id)) w)

  abbrev pub bind_to : Env → Text → Text → App PeerResp
  bind_to v user_id peer_id = do
    inserted ← insert_peer v user_id peer_id
    noted ← record_bound v user_id peer_id
    pure (record { user_id = user_id; peer_id = peer_id })

  abbrev pub bind_new : Env → Text → App PeerResp
  bind_new v user_id = do peer_id ← fresh v; bind_to v user_id peer_id

  abbrev pub bind_found : Env → Text → Option PeerRow → App PeerResp
  bind_found v user_id (some r) = pure (record { user_id = user_id; peer_id = r.peer_id })
  bind_found v user_id none = bind_new v user_id

  unfoldable pub bind_peer : Env → Option (List ℕ) → Text → App PeerResp
  bind_peer v authorization user_id = do
    allowed ← guard authorization
    named ← lift (require_user_id user_id)
    found ← select_user v user_id
    bind_found v user_id found

  unfoldable pub get_peer : Env → Option (List ℕ) → Text → App PeerResp
  get_peer v authorization user_id = do
    allowed ← guard authorization
    found ← select_user v user_id
    row ← lift (or_fail found (not_found "user_id not bound"))
    pure (record { user_id = user_id; peer_id = row.peer_id })

  -- The status is 202.
  unfoldable pub ingest_audit : Env → Option (List ℕ) → IngestAudit → App ℕ
  ingest_audit v authorization ev = do
    allowed ← guard authorization
    λ w. (ok 202, record_event v ev.kind ev.peer_id ev.controller_peer_id ev.addr ev.meta w)

  abbrev resolved : Option PeerRow → Option (Option Text)
  resolved none = none
  resolved (some r) = some (some r.peer_id)

  -- The peer id to filter by; `none` inside is no filter, and the outer `none` an unbound user.
  abbrev pub filter_of : Env → AuditQuery → App (Option (Option Text))
  filter_of v q = elim q.peer_id [
    | some p ↦ pure (some (some p))
    | none ↦ elim q.user_id [
      | none ↦ pure (some none)
      | some uid ↦ do found ← select_user v uid; pure (resolved found)
    ]
  ]

  abbrev pub rows_for : Env → AuditQuery → Option (Option Text) → App (List AuditRow)
  rows_for v q none = pure []
  rows_for v q (some p) =
      select_audit v (unwrap_or q.since (pos 0)) p (clamp_pos (unwrap_or q.limit (pos 100)) 1 1000)

  unfoldable pub list_audit : Env → Option (List ℕ) → AuditQuery → App (List AuditRow)
  list_audit v authorization q = do
    allowed ← guard authorization
    filter ← filter_of v q
    rows_for v q filter

  -- The route table of `serve`, on requests that axum has read.
  unfoldable pub serve : Env → Option (List ℕ) → Request → App Response
  serve v authorization healthz_request = pure (plain healthz)
  serve v authorization (post_peers user_id) = do
    resp ← bind_peer v authorization user_id
    pure (peer resp)
  serve v authorization (get_peers user_id) = do
    resp ← get_peer v authorization user_id
    pure (peer resp)
  serve v authorization (get_audit q) = do
    rows ← list_audit v authorization q
    pure (audit_rows rows)
  serve v authorization (post_audit ev) = do
    status ← ingest_audit v authorization ev
    pure (status_code status)
