-- ===== src/Control/Store.antt =====
-- crates/control: the SQLite database behind the HTTP handlers (migrations/0001_init.sql), one
-- operation for each query of http.rs, ids.rs and audit.rs.
pub mod Runs
pub mod Invariant
use Prim.Native.String.{String}
use xyzen_relay.Prelude.{
  ℕ, zero, suc, ◌+◌, ◌≡◌, refl, Bool, true, false, ◌&&◌, ◌||◌, Option, none, some, List, [], ◌∷◌,
  if◌then◌else◌, take,
}
use xyzen_relay.Prelude.Int.{ℤ, leb_ℤ}
use xyzen_relay.Control.Errors.{Text, AppError, Result, ok, err, db_error, internal}
use xyzen_relay.Control.Texts.{text_eq}
use xyzen_relay.Control.Ids.{random_id}

pub record PeerRow : Type 0 where
  pub user_id : Text
  pub peer_id : Text
  pub created_at : ℤ

pub record AuditRow : Type 0 where
  pub id : ℕ
  pub ts : ℤ
  pub kind : String
  pub peer_id : Option Text
  pub controller_peer_id : Option Text
  pub addr : Option Text
  pub meta_json : Option Text

-- The two tables, the audit rows with the last one first, and the AUTOINCREMENT counter. `queries`,
-- `drawn` and `ticks` count the queries, the random words and the readings of the clock so far.
pub record World : Type 0 where
  pub peers : List PeerRow
  pub audit : List AuditRow
  pub next_id : ℕ
  pub queries : ℕ
  pub drawn : ℕ
  pub ticks : ℕ

-- What is outside: which queries the database fails, the random words, the clock.
pub record Env : Type 0 where
  pub fails : ℕ → Bool
  pub word : ℕ → ℕ
  pub now : ℕ → ℤ

abbrev pub App {ℓ} : Type ℓ → Type ℓ
App A = World → Result A × World

abbrev pub after {ℓ κ} :
    {A : Type ℓ} {B : Type κ} → Result A × World → (A → App B) → Result B × World
after (ok a, w) f = f a w
after (err e, w) f = (err e, w)

infixl 5 ◌>>=◌
unfoldable pub ◌>>=◌ {ℓ κ} : {A : Type ℓ} {B : Type κ} → App A → (A → App B) → App B
(m >>= f) w = after (m w) f

unfoldable pub pure {ℓ} : {A : Type ℓ} → A → App A
pure a w = (ok a, w)

unfoldable pub lift {ℓ} : {A : Type ℓ} → Result A → App A
lift r w = (r, w)

-- SELECT ... FROM peers WHERE user_id = ?
unfoldable pub of_user : Text → List PeerRow → Option PeerRow
of_user u [] = none
of_user u (r ∷ rows) = if text_eq r.user_id u then some r else of_user u rows

-- SELECT ... FROM peers WHERE peer_id = ?
unfoldable pub of_peer : Text → List PeerRow → Option PeerRow
of_peer p [] = none
of_peer p (r ∷ rows) = if text_eq r.peer_id p then some r else of_peer p rows

-- A query that the database fails leaves the tables as they are.
abbrev pub query {ℓ} : {A : Type ℓ} → Env → AppError → App A → App A
query v e m w =
    let w' = record w { queries = suc w.queries } in if v.fails w.queries then (err e, w') else m w'

unfoldable pub select_user : Env → Text → App (Option PeerRow)
select_user v u = query v db_error (λ w. (ok (of_user u w.peers), w))

abbrev pub tick : Env → World → ℤ × World
tick v w = (v.now w.ticks, record w { ticks = suc w.ticks })

-- user_id is the primary key and peer_id is UNIQUE.
abbrev pub insert_row : PeerRow → App (Unit {0})
insert_row r w = elim (of_user r.user_id w.peers) [
  | some _ ↦ (err db_error, w)
  | none ↦ elim (of_peer r.peer_id w.peers) [
    | some _ ↦ (err db_error, w)
    | none ↦ (ok tt, record w { peers = r ∷ w.peers })
  ]
]

unfoldable pub insert_peer : Env → Text → Text → App (Unit {0})
insert_peer v user_id peer_id w =
    let (created_at, w') = tick v w in
    query v db_error
      (insert_row (record { user_id = user_id; peer_id = peer_id; created_at = created_at })) w'

-- The loop of `ids::fresh`.
unfoldable pub fresh_loop : ℕ → Env → App Text
unfolding pure
fresh_loop zero v w = (err internal, w)
fresh_loop (suc tries) v w =
    let s = random_id (v.word w.drawn) in
    let found =
      query v internal (λ w. (ok (of_peer s w.peers), w)) (record w { drawn = suc w.drawn }) in
    after found (λ exists. elim exists [ none ↦ pure s | some r ↦ fresh_loop tries v ])

abbrev pub fresh : Env → App Text
fresh = fresh_loop 16

abbrev pub insert_audit : AuditRow → World → World
insert_audit r w = record w { audit = r ∷ w.audit; next_id = suc w.next_id }

-- audit.rs, `record`: an insert that fails is logged and forgotten.
unfoldable pub record_event :
    Env → String → Option Text → Option Text → Option Text → Option Text → World → World
record_event v kind peer_id controller_peer_id addr meta w =
    let (ts, w') = tick v w in
    let asked = record w' { queries = suc w'.queries } in
    if v.fails w'.queries
    then asked
    else insert_audit
        (record {
          id = w.next_id;
          ts = ts;
          kind = kind;
          peer_id = peer_id;
          controller_peer_id = controller_peer_id;
          addr = addr;
          meta_json = meta;
        })
        asked

abbrev pub names : Text → Option Text → Bool
names p none = false
names p (some q) = text_eq q p

-- The WHERE clause of the two queries of `list_audit`.
abbrev pub selected : ℤ → Option Text → AuditRow → Bool
selected since none r = leb_ℤ since r.ts
selected since (some p) r = leb_ℤ since r.ts && (names p r.peer_id || names p r.controller_peer_id)

unfoldable pub select_where : (AuditRow → Bool) → List AuditRow → List AuditRow
select_where test [] = []
select_where test (r ∷ rows) = if test r then r ∷ select_where test rows else select_where test rows

-- ORDER BY id DESC LIMIT ?, the rows being kept with the last id first.
unfoldable pub select_audit : Env → ℤ → Option Text → ℕ → App (List AuditRow)
select_audit v since filter limit =
    query v db_error (λ w. (ok (take limit (select_where (selected since filter) w.audit)), w))
