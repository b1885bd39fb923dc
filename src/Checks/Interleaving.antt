-- ===== src/Checks/Interleaving.antt =====
-- Handlers of the rendezvous server that run at the same time.
use Prim.Native.String.{String}
use xyzen_relay.Prelude.{◌+◌, ◌≤◌, ◌≡◌, refl, Option, none, some, [], ◌∷◌, arith}
use xyzen_relay.Prelude.Assoc.{lookup, insert, remove, string_eq, beq_refl}
use xyzen_relay.Rendezvous.Registry.{udp, upsert, get}
use xyzen_relay.Rendezvous.Server.{Pending, Config, dispatch_relay_ack, ack_key}
use xyzen_relay.Rendezvous.Exchange.{KeyOrder}
use xyzen_relay.Rendezvous.Accounting.{start, requests, responses}
use xyzen_relay.Rendezvous.Interleaved.{
  Punch, Running, idle, looks_up, asks, enters, on_world, looking, asking, entering, acknowledging,
  registering, Reached, begin, later,
}
use xyzen_relay.Rendezvous.Interleaved.Inv.{Answered}
use xyzen_relay.Rendezvous.Interleaved.Safe.{interleaved_accounting, responses-Answered}
use xyzen_relay.Rendezvous.Interleaved.Order.{ack_overtakes}

abbrev config : Config
config = record { relay_addr = "relay:21117"; auditor = record { inner = none } }

abbrev first_key : Pending → Option String
first_key [] = none
first_key ((k, tx) ∷ rest) = some k

first_key-KeyOrder : KeyOrder first_key
unfolding lookup
first_key-KeyOrder [] = refl
first_key-KeyOrder ((k, tx) ∷ rest) = (tx, ground (arith, beq_refl k))

abbrev punch : Punch
punch = record { target = "123456789"; requester = 5 }

-- The target is online, and the call has sent it the request.
abbrev online : Running
online = on_world (record start { registry = upsert [] "123456789" (udp "10.0.0.7:4000") 1 }) idle

abbrev sent : Running
sent = asks config [] [] punch (udp "10.0.0.7:4000") (looks_up punch online)

sent-Reached : Reached first_key config sent
unfolding looks_up get upsert insert lookup
sent-Reached =
    later (later (later begin (registering "123456789" (udp "10.0.0.7:4000") 1)) (looking punch))
      (asking [] [] punch (udp "10.0.0.7:4000") refl)

-- Another peer's acknowledgement, then the entry, then the acknowledgement of the target.
abbrev answered : Running
answered =
    let entered =
      enters [] [] punch (on_world (dispatch_relay_ack first_key config sent.world) sent) in
    on_world (dispatch_relay_ack first_key config entered.world) entered

answered-Reached : Reached first_key config answered
unfolding looks_up asks get upsert insert lookup dispatch_relay_ack ack_key
answered-Reached =
    later (later (later sent-Reached acknowledging) (entering [] [] punch refl)) acknowledging

interleaved_accounting_example : 1 + 0 ≤ 1
unfolding looks_up asks enters get upsert insert lookup remove dispatch_relay_ack ack_key requests
    responses
interleaved_accounting_example = interleaved_accounting first_key config answered-Reached

responses-Answered_example : Answered answered.callers answered.world.log
responses-Answered_example = responses-Answered first_key config answered-Reached

-- The requester waits, and the log has no response.
ack_overtakes_example :
    (enters [] [] punch (on_world (dispatch_relay_ack first_key config sent.world) sent)).world
    ≡ record (sent.world) { pending = ("123456789", 5) ∷ [] }
unfolding looks_up asks get upsert insert lookup
ack_overtakes_example = ack_overtakes first_key config [] [] punch sent first_key-KeyOrder refl
