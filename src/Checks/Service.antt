-- ===== src/Checks/Service.antt =====
-- Runs of the control plane, over a database that answers every query.
use xyzen_relay.Prelude.{
  ℕ, ◌≡◌, ◌≢◌, refl, ◌⊎◌, false, Option, none, some, List, [], ◌∷◌, ◌++◌, length, All, arith,
}
use xyzen_relay.Prelude.Int.{pos}
use xyzen_relay.Control.Errors.{Text, ok, err, unauthorized}
use xyzen_relay.Control.Texts.{is_blank, text_eq}
use xyzen_relay.Control.Ids.{random_id, decimal}
use xyzen_relay.Control.Ids.Digits.{IsDigit, random_id-nine_digits}
use xyzen_relay.Control.Auth.{require_token, bearer_prefix, strip_prefix, ct_eq, ct_diff}
use xyzen_relay.Control.Auth.Gate.{IsUnauthorized, require_token_cases}
use xyzen_relay.Control.Store.{
  select_audit, select_where, World, Env, ◌>>=◌, pure, lift, of_user, of_peer, select_user,
  insert_peer, fresh_loop, record_event,
}
use xyzen_relay.Control.Store.Invariant.{IsWellFormed}
use xyzen_relay.Control.Http.{
  AuditQuery, list_audit, PeerResp, post_peers, serve, bind_peer, get_peer,
}
use xyzen_relay.Control.Http.Requests.{serve-IsWellFormed, serve-refused}
use xyzen_relay.Control.Http.Listing.{Listed, Ends, Refused, list_audit-Listed}
use xyzen_relay.Control.Http.Binds.{Gives, bind_peer-Gives}
use xyzen_relay.Control.Http.Bind.{Bound, get_peer-bind_peer, bind_peer-Bound}

abbrev bytes_of : Text → List ℕ
bytes_of t = t

abbrev json_of : Text → Text
json_of t = t

abbrev token : Text
token = 0x74 ∷ 0x6f ∷ []

abbrev bearer : Option (List ℕ)
bearer = some (bearer_prefix ++ token)

abbrev env : Env
env = record { fails = λ n. false; word = λ n. n; now = λ n. pos n }

abbrev fresh_db : World
fresh_db = record { peers = []; audit = []; next_id = 1; queries = 0; drawn = 0; ticks = 0 }

abbrev alice : Text
alice = 0x61 ∷ []

abbrev first_id : Text
first_id = 0x31 ∷ 0x30 ∷ 0x30 ∷ 0x30 ∷ 0x30 ∷ 0x30 ∷ 0x30 ∷ 0x30 ∷ 0x30 ∷ []

abbrev alice_resp : PeerResp
alice_resp = record { user_id = alice; peer_id = first_id }

-- The database behind the first binding.
abbrev bound_db : World
bound_db = record {
  peers = record { user_id = alice; peer_id = first_id; created_at = pos 0 } ∷ [];
  audit =
      record {
        id = 1;
        ts = pos 1;
        kind = "peer_bound";
        peer_id = some first_id;
        controller_peer_id = none;
        addr = none;
        meta_json = some alice;
      }
      ∷ [];
  next_id = 2;
  queries = 4;
  drawn = 1;
  ticks = 2;
}

bind_alice :
    bind_peer some bytes_of json_of token env bearer alice fresh_db ≡ (ok alice_resp, bound_db)
unfolding bind_peer require_token strip_prefix ct_eq ct_diff is_blank ◌>>=◌ lift pure select_user
    of_user of_peer insert_peer fresh_loop random_id decimal record_event
bind_alice = refl

random_id-nine_digits_example : (length (random_id 7) ≡ 9) × All IsDigit (random_id 7)
random_id-nine_digits_example = random_id-nine_digits 7

require_token_cases_example :
    ((some (bearer_prefix ++ token) ≡ some (bearer_prefix ++ token))
      × (require_token some bytes_of bearer token ≡ ok tt))
    ⊎ ((some (bearer_prefix ++ token) ≢ some (bearer_prefix ++ token))
        × IsUnauthorized (require_token some bytes_of bearer token))
require_token_cases_example = require_token_cases some bytes_of (λ s t e. e) bearer token

serve-refused_example :
    serve some bytes_of json_of token env none (post_peers alice) fresh_db
    ≡ (err (unauthorized "missing Authorization"), fresh_db)
unfolding require_token
serve-refused_example =
    serve-refused some bytes_of json_of token env none (post_peers alice)
      (unauthorized "missing Authorization") fresh_db tt refl

serve-IsWellFormed_example :
    IsWellFormed (serve some bytes_of json_of token env bearer (post_peers alice) fresh_db).1
serve-IsWellFormed_example =
    serve-IsWellFormed some bytes_of json_of token env bearer (post_peers alice) fresh_db
      (tt, tt, tt, tt)

get_peer-bind_peer_example :
    (get_peer some bytes_of json_of token env bearer alice bound_db
      ≡ (ok alice_resp, record bound_db { queries = 5 }))
    × (bind_peer some bytes_of json_of token env bearer alice bound_db
        ≡ (ok alice_resp, record bound_db { queries = 5 }))
get_peer-bind_peer_example =
    get_peer-bind_peer some bytes_of json_of token env bearer alice fresh_db bound_db alice_resp
      bind_alice refl

bind_peer-Bound_example : Bound alice [] alice_resp bound_db
bind_peer-Bound_example =
    bind_peer-Bound some bytes_of json_of token env bearer alice fresh_db bound_db alice_resp
      bind_alice

bind_peer-Gives_example :
    Gives (Bound alice []) (bind_peer some bytes_of json_of token env bearer alice fresh_db)
unfolding require_token strip_prefix ct_eq ct_diff is_blank of_peer
bind_peer-Gives_example =
    bind_peer-Gives env (λ n. refl) some bytes_of json_of token bearer alice fresh_db refl refl
      (3, (omega arith, refl))

abbrev about_alice : AuditQuery
about_alice = record { since = none; user_id = some alice; peer_id = none; limit = some (pos 0) }

list_alice :
    list_audit some bytes_of json_of token env bearer about_alice bound_db
    ≡ (ok bound_db.audit, record bound_db { queries = 6 })
unfolding list_audit require_token strip_prefix ct_eq ct_diff ◌>>=◌ lift pure select_user of_user
    select_audit select_where text_eq
list_alice = refl

list_audit-Listed_example :
    Ends
      (λ rows w. Listed about_alice (some (some first_id)) bound_db rows)
      (Refused some bytes_of json_of token env bearer)
      (list_audit some bytes_of json_of token env bearer about_alice bound_db)
unfolding of_user text_eq
list_audit-Listed_example =
    list_audit-Listed some bytes_of json_of token env bearer about_alice bound_db (omega arith, tt)
