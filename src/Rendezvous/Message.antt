-- ===== src/Rendezvous/Message.antt =====
-- crates/proto/protos/rendezvous.proto as the server sees it: the union of a `RendezvousMessage`, with
-- the fields of the messages that the server reads or builds, and the encoded bytes of the others.
-- An `int32` or an enum is its number. `tag` is from crates/rendezvous/src/server.rs.
use Prim.Native.String.{String}
use xyzen_relay.Prelude.{ℕ, Bool, false, Option, none, List, []}

pub record RegisterPeer : Type 0 where
  pub id : String
  pub serial : ℕ

pub record RegisterPeerResponse : Type 0 where
  pub request_pk : Bool

pub record RegisterPk : Type 0 where
  pub id : String
  pub uuid : List ℕ
  pub pk : List ℕ
  pub old_id : String
  pub no_register_device : Bool

pub record RegisterPkResponse : Type 0 where
  pub result : ℕ
  pub keep_alive : ℕ

pub record PunchHoleRequest : Type 0 where
  pub id : String
  pub nat_type : ℕ
  pub licence_key : String
  pub conn_type : ℕ
  pub token : String
  pub version : String
  pub udp_port : ℕ
  pub force_relay : Bool
  pub upnp_port : ℕ
  pub socket_addr_v6 : List ℕ

pub record RequestRelay : Type 0 where
  pub id : String
  pub uuid : String
  pub socket_addr : List ℕ
  pub relay_server : String
  pub secure : Bool
  pub licence_key : String
  pub conn_type : ℕ
  pub token : String
  pub control_permissions : Option ℕ

pub data RelayUnion : Type 0 where
  id : String → RelayUnion
  pk : List ℕ → RelayUnion

pub record RelayResponse : Type 0 where
  pub socket_addr : List ℕ
  pub uuid : String
  pub relay_server : String
  pub union : Option RelayUnion
  pub refuse_reason : String
  pub version : String
  pub feedback : ℕ
  pub socket_addr_v6 : List ℕ
  pub upnp_port : ℕ

-- `RequestRelay { relay_server, ..Default::default() }`, and so for `RelayResponse`.
abbrev pub request_relay_to : String → RequestRelay
request_relay_to relay_server = record {
  id = "";
  uuid = "";
  socket_addr = [];
  relay_server = relay_server;
  secure = false;
  licence_key = "";
  conn_type = 0;
  token = "";
  control_permissions = none;
}

abbrev pub relay_response_to : String → RelayResponse
relay_response_to relay_server = record {
  socket_addr = [];
  uuid = "";
  relay_server = relay_server;
  union = none;
  refuse_reason = "";
  version = "";
  feedback = 0;
  socket_addr_v6 = [];
  upnp_port = 0;
}

pub data Union : Type 0 where
  register_peer : RegisterPeer → Union
  register_peer_response : RegisterPeerResponse → Union
  punch_hole_request : PunchHoleRequest → Union
  punch_hole punch_hole_sent punch_hole_response fetch_local_addr local_addr : List ℕ → Union
  configure_update : List ℕ → Union
  register_pk : RegisterPk → Union
  register_pk_response : RegisterPkResponse → Union
  software_update : List ℕ → Union
  request_relay : RequestRelay → Union
  relay_response : RelayResponse → Union
  test_nat_request test_nat_response peer_discovery online_request online_response : List ℕ → Union
  key_exchange hc http_proxy_request http_proxy_response : List ℕ → Union

pub record RendezvousMessage : Type 0 where
  pub union : Option Union

-- The name of a message in the log.
unfoldable pub tag : Union → String
tag (register_peer m) = "register_peer"
tag (register_peer_response m) = "register_peer_response"
tag (punch_hole_request m) = "punch_hole_request"
tag (punch_hole m) = "punch_hole"
tag (punch_hole_sent m) = "punch_hole_sent"
tag (punch_hole_response m) = "punch_hole_response"
tag (fetch_local_addr m) = "fetch_local_addr"
tag (local_addr m) = "local_addr"
tag (configure_update m) = "configure_update"
tag (register_pk m) = "register_pk"
tag (register_pk_response m) = "register_pk_response"
tag (software_update m) = "software_update"
tag (request_relay m) = "request_relay"
tag (relay_response m) = "relay_response"
tag (test_nat_request m) = "test_nat_request"
tag (test_nat_response m) = "test_nat_response"
tag (peer_discovery m) = "peer_discovery"
tag (online_request m) = "online_request"
tag (online_response m) = "online_response"
tag (key_exchange m) = "key_exchange"
tag (hc m) = "hc"
tag (http_proxy_request m) = "http_proxy_request"
tag (http_proxy_response m) = "http_proxy_response"
