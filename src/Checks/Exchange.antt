-- ===== src/Checks/Exchange.antt =====
-- Runs of the rendezvous server.
use Prim.Native.String.{String}
use xyzen_relay.Prelude.{
  ℕ, ◌+◌, ◌≤◌, ◌≡◌, ◌≢◌, refl, true, false, Option, none, some, List, [], ◌∷◌, length, ◌==◌,
  if◌then◌else◌, arith,
}
use xyzen_relay.Prelude.Assoc.{lookup, insert, remove, string_eq, beq_refl}
use xyzen_relay.Rendezvous.Message.{
  RegisterPeer, register_peer, relay_response, request_relay, relay_response_to, request_relay_to,
  RendezvousMessage,
}
use xyzen_relay.Rendezvous.Registry.{udp, ws_push, upsert, get, remove_if_ws}
use xyzen_relay.Rendezvous.Server.{
  Pending, World, Config, message, push, datagram, did, dispatch_punch, dispatch_relay_ack,
}
use xyzen_relay.Rendezvous.Ws.{binary, close, ping, handle_ws}
use xyzen_relay.Rendezvous.Accounting.{ws_in, start, requests, responses, serve_all}
use xyzen_relay.Rendezvous.Accounting.Runs.{serve_all_accounting}
use xyzen_relay.Rendezvous.Laws.{get-remove_if_ws}
use xyzen_relay.Rendezvous.Cleanup.{handle_ws-unregisters}
use xyzen_relay.Rendezvous.Cleanup.Leak.{handle_ws_two_ids_leak}
use xyzen_relay.Rendezvous.Exchange.{KeyOrder, punch_then_ack, ack_answers_any}

abbrev config : Config
config = record { relay_addr = "relay:21117"; auditor = record { inner = none } }

abbrev peer : String → RegisterPeer
peer id = record { id = id; serial = 0 }

-- A decoder of two messages: the bytes 1 and 2 register two ids.
decode : List ℕ → Option RendezvousMessage
decode [] = none
decode (b ∷ bytes) =
    if b == 1
    then some (message (register_peer (peer "123456789")))
    else if b == 2
    then some (message (register_peer (peer "987654321")))
    else none

first_key : Pending → Option String
first_key [] = none
first_key ((k, tx) ∷ rest) = some k

first_key-KeyOrder : KeyOrder first_key
unfolding first_key lookup
first_key-KeyOrder [] = refl
first_key-KeyOrder ((k, tx) ∷ rest) = (tx, ground (arith, beq_refl k))

abbrev online : World
online = record start { registry = upsert [] "123456789" (udp "10.0.0.7:4000") 1 }

punch_then_ack_example :
    dispatch_relay_ack first_key config (dispatch_punch config "123456789" 5 online)
    ≡ record online {
      log =
          push 5 (message (relay_response (relay_response_to "relay:21117")))
          ∷ datagram "10.0.0.7:4000" (message (request_relay (request_relay_to "relay:21117")))
          ∷ [];
    }
unfolding upsert get insert lookup
punch_then_ack_example =
    punch_then_ack first_key config "123456789" 5 online (udp "10.0.0.7:4000") first_key-KeyOrder
      refl refl

abbrev two_pending : World
two_pending = record start { pending = ("123456789", 5) ∷ ("987654321", 6) ∷ [] }

ack_answers_any_example :
    (next_key : Pending → Option String) × KeyOrder next_key
    × (dispatch_relay_ack next_key config two_pending
        ≡ did
            (push 6 (message (relay_response (relay_response_to "relay:21117"))))
            (record two_pending { pending = remove "987654321" two_pending.pending }))
unfolding lookup
ack_answers_any_example = ack_answers_any config two_pending "987654321" 6 refl

get-remove_if_ws_example :
    get (remove_if_ws (upsert [] "123456789" (ws_push 4) 1) "123456789" 3) "123456789"
    ≡ some (ws_push 4)
unfolding get upsert insert lookup
get-remove_if_ws_example =
    get-remove_if_ws (upsert [] "123456789" (ws_push 4) 1) "123456789" "123456789" 3

nobody : (j : String) → get [] j ≢ some (ws_push 3)
unfolding get lookup
nobody j e = cc

handle_ws-unregisters_example :
    get
      (handle_ws decode first_key config 3 "10.0.0.9:5000"
        ((1, binary (1 ∷ [])) ∷ (2, ping) ∷ (3, close) ∷ [])
        (record { my_id = none; world = start })).registry
      "123456789"
    ≢ some (ws_push 3)
unfolding decode
handle_ws-unregisters_example =
    handle_ws-unregisters decode first_key config 3 "10.0.0.9:5000" "123456789"
      ((1, binary (1 ∷ [])) ∷ (2, ping) ∷ (3, close) ∷ []) start nobody (refl, (tt, (tt, tt)))
      "123456789"

different : ◌≢◌ {A = String} "123456789" "987654321"
different e =
    let same : false ≡ true = (string_eq.beq_iff "123456789" "987654321").1 e in absurd (cc)

handle_ws_two_ids_leak_example :
    get
      (handle_ws decode first_key config 3 "10.0.0.9:5000"
        ((1, binary (1 ∷ [])) ∷ (2, binary (2 ∷ [])) ∷ [])
        (record { my_id = none; world = start })).registry
      "123456789"
    ≡ some (ws_push 3)
unfolding decode
handle_ws_two_ids_leak_example =
    handle_ws_two_ids_leak decode first_key config 3 "10.0.0.9:5000" (peer "123456789")
      (peer "987654321") 1 2 (1 ∷ []) (2 ∷ []) (record { my_id = none; world = start }) refl refl
      different

serve_all_accounting_example :
    responses
        (serve_all decode first_key config start (ws_in 3 "10.0.0.9:5000" 1 (1 ∷ []) none ∷ [])).log
      + length
          (serve_all decode first_key config start
            (ws_in 3 "10.0.0.9:5000" 1 (1 ∷ []) none ∷ [])).pending
    ≤ requests
        (serve_all decode first_key config start (ws_in 3 "10.0.0.9:5000" 1 (1 ∷ []) none ∷ [])).log
serve_all_accounting_example =
    serve_all_accounting decode first_key config (ws_in 3 "10.0.0.9:5000" 1 (1 ∷ []) none ∷ [])
