-- ===== src/Rendezvous/Audit.antt =====
-- crates/rendezvous/src/audit.rs: the emitter of audit events. `url` and `token` are what a request
-- is sent with; the HTTP client is not under this repository, so a request is recorded, not sent.
use Prim.Native.String.{String}
use xyzen_relay.Prelude.{Option, none, some, List}

-- `meta` is a JSON object with text values.
pub record Event : Type 0 where
  pub kind : String
  pub peer_id : Option String
  pub controller_peer_id : Option String
  pub addr : Option String
  pub meta : Option (List (String × String))

pub record Inner : Type 0 where
  pub url : String
  pub token : String

pub record Auditor : Type 0 where
  pub inner : Option Inner

pub record Post : Type 0 where
  pub url : String
  pub bearer : String
  pub body : Event

inner_of : Option String → Option String → Option Inner
inner_of (some url) (some token) = some (record { url = url; token = token })
inner_of (some url) none = none
inner_of none token = none

pub new : Option String → Option String → Auditor
unfolding inner_of
new url token = record { inner = inner_of url token }

-- The request that `emit` spawns, if any.
unfoldable pub emit : Auditor → Event → Option Post
emit a ev = elim a.inner [
  | none ↦ none
  | some i ↦ some (record { url = i.url; bearer = i.token; body = ev })
]
