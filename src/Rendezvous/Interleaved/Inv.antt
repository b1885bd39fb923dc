-- ===== src/Rendezvous/Interleaved/Inv.antt =====
-- What holds of the server while calls are under way: the responses are paid for, and whoever waits
-- for one has called.
use Prim.Native.String.{String}
use xyzen_relay.Prelude.{
  ◌+◌, ◌≤◌, ◌≡◌, refl, inl, inr, Bool, true, false, ◌||◌, some, Option-cases, List, [], ◌∷◌, length,
  All, All-map, ◌==◌, arith,
}
use xyzen_relay.Prelude.Assoc.{lookup, string_eq}
use xyzen_relay.Rendezvous.Message.{RendezvousMessage}
use xyzen_relay.Rendezvous.Registry.{Outbox, Reachable, udp, ws_push, get}
use xyzen_relay.Rendezvous.Server.{Effect, datagram, push, post, deliver}
use xyzen_relay.Rendezvous.Accounting.{requests, responses, is_response, is_request}
use xyzen_relay.Rendezvous.Interleaved.{Punch, Running, looks_up}

unfoldable pub member : Outbox → List Outbox → Bool
member tx [] = false
member tx (t ∷ ts) = (t == tx) || member tx ts

-- Every relay response in the log went to the channel of a caller.
unfoldable pub Answered : List Outbox → List Effect → Type 0
Answered callers [] = Unit {0}
Answered callers (datagram addr msg ∷ es) = (is_response msg ≡ 0) × Answered callers es
Answered callers (push tx msg ∷ es) =
    (is_response msg ≡ 1 → member tx callers ≡ true) × Answered callers es
Answered callers (post p ∷ es) = Answered callers es

pub record Inv (s : Running) : Type 0 where
  pub counted :
      responses s.world.log + length s.world.pending + length s.asked ≤ requests s.world.log
  pub waiting :
      (k : String) (tx : Outbox) → lookup k s.world.pending ≡ some tx → member tx s.callers ≡ true
  pub behind : All (λ (p : Punch). member p.requester s.callers ≡ true) s.asked
  pub ahead : All (λ (x : Punch × Reachable). member x.0.requester s.callers ≡ true) s.found
  pub answered : Answered s.callers s.world.log

member-more : (t tx : Outbox) (ts : List Outbox) → member tx ts ≡ true → member tx (t ∷ ts) ≡ true
unfolding member
member-more t tx ts e = ground arith

member-own : (t : Outbox) (ts : List Outbox) → member t (t ∷ ts) ≡ true
unfolding member
member-own t ts = ground arith

Answered-more :
    (t : Outbox) (ts : List Outbox) (es : List Effect) → Answered ts es → Answered (t ∷ ts) es
unfolding Answered
Answered-more t ts [] h = tt
Answered-more t ts (datagram addr msg ∷ es) (h, hs) = (h, Answered-more t ts es hs)
Answered-more t ts (push tx msg ∷ es) (h, hs) =
    (λ e. member-more t tx ts (h e), Answered-more t ts es hs)
Answered-more t ts (post p ∷ es) h = Answered-more t ts es h

called-Inv :
    (p : Punch) (s : Running) → Inv s → Inv (record s { callers = p.requester ∷ s.callers })
called-Inv p s inv = record {
  counted = inv.counted;
  waiting = λ k tx e. member-more p.requester tx s.callers (inv.waiting k tx e);
  behind = All-map _ _ s.asked (λ q h. member-more p.requester q.requester s.callers h) inv.behind;
  ahead = All-map _ _ s.found (λ q h. member-more p.requester q.0.requester s.callers h) inv.ahead;
  answered = Answered-more p.requester s.callers s.world.log inv.answered;
}

pub looks_up-Inv : (p : Punch) (s : Running) → Inv s → Inv (looks_up p s)
unfolding looks_up
looks_up-Inv p s inv = elim (Option-cases (get s.world.registry p.target)) [
  | inl e ↦ rw (e, looks_up) (called-Inv p s inv)
  | inr (reach, e) ↦ rw (e, looks_up) (found-Inv reach (called-Inv p s inv))
]
  where
    found-Inv :
        (reach : Reachable)
        → Inv (record s { callers = p.requester ∷ s.callers })
        → Inv (record s { callers = p.requester ∷ s.callers; found = (p, reach) ∷ s.found })
    found-Inv reach i = record {
      counted = i.counted;
      waiting = i.waiting;
      behind = i.behind;
      ahead = (member-own p.requester s.callers, i.ahead);
      answered = i.answered;
    }

-- What delivering a message adds to the counts.
pub deliver_counts :
    (reach : Reachable) (msg : RendezvousMessage) (es : List Effect)
    → (requests (deliver reach msg ∷ es) ≡ is_request msg + requests es)
      × (responses (deliver reach msg ∷ es) ≡ is_response msg + responses es)
unfolding requests responses
deliver_counts (udp addr) msg es = (refl, refl)
deliver_counts (ws_push tx) msg es = (refl, refl)

pub deliver-Answered :
    (reach : Reachable) (msg : RendezvousMessage) (callers : List Outbox) (es : List Effect)
    → is_response msg ≡ 0
    → Answered callers es
    → Answered callers (deliver reach msg ∷ es)
unfolding Answered
deliver-Answered (udp addr) msg callers es e h = (e, h)
deliver-Answered (ws_push tx) msg callers es e h = (λ one. absurd (omega arith), h)
