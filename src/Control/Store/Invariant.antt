-- ===== src/Control/Store/Invariant.antt =====
-- What the tables of crates/control satisfy, and that each query keeps it.
use Prim.Native.String.{String}
use xyzen_relay.Prelude.{
  ℕ, zero, suc, ◌<◌, ◌≡◌, refl, Bool-cases, inl, inr, Option, none, Option-cases, List, [], ◌∷◌,
  All, length, arith,
}
use xyzen_relay.Control.Errors.{Text, Result, ok, err}
use xyzen_relay.Control.Ids.{random_id}
use xyzen_relay.Control.Ids.Digits.{IsDigit, random_id-nine_digits}
use xyzen_relay.Control.Store.{
  PeerRow, AuditRow, World, Env, of_user, of_peer, insert_peer, fresh_loop, record_event,
}

-- No two rows of `peers` have the user id in common.
abbrev pub DistinctUsers : List PeerRow → Type 0
DistinctUsers [] = Unit {0}
DistinctUsers (r ∷ rows) = (of_user r.user_id rows ≡ none) × DistinctUsers rows

abbrev pub DistinctPeers : List PeerRow → Type 0
DistinctPeers [] = Unit {0}
DistinctPeers (r ∷ rows) = (of_peer r.peer_id rows ≡ none) × DistinctPeers rows

-- Nine decimal digits.
abbrev pub IsPeerId : Text → Type 0
IsPeerId s = (length s ≡ 9) × All IsDigit s

-- The ids of the audit rows go down from below `n`.
abbrev pub Descending : ℕ → List AuditRow → Type 0
Descending n [] = Unit {0}
Descending n (r ∷ rows) = (r.id < n) × Descending r.id rows

abbrev pub IsWellFormed : World → Type 0
IsWellFormed w =
    DistinctUsers w.peers
    × DistinctPeers w.peers
    × All (λ r. IsPeerId r.peer_id) w.peers
    × Descending w.next_id w.audit

abbrev pub tables : World → List PeerRow × List AuditRow × ℕ
tables w = (w.peers, w.audit, w.next_id)

pub fresh_loop-tables : (n : ℕ) (v : Env) (w : World) → tables (fresh_loop n v w).1 ≡ tables w
unfolding fresh_loop
fresh_loop-tables zero v w = refl
fresh_loop-tables (suc n) v w = elim (Bool-cases (v.fails w.queries)) [
  | inl e ↦ rw e refl
  | inr e ↦ elim (Option-cases (of_peer (random_id (v.word w.drawn)) w.peers)) [
    | inl o ↦ rw (e, o) refl
    | inr (r, o) ↦ rw (e, o) (fresh_loop-tables n v _)
  ]
]

-- An id that is answered has the form of an id and is in no row.
abbrev pub FreshFor : List PeerRow → Result Text × World → Type 0
FreshFor rows (ok s, w') = IsPeerId s × (of_peer s rows ≡ none)
FreshFor rows (err e, w') = Unit {0}

pub fresh_loop-FreshFor : (n : ℕ) (v : Env) (w : World) → FreshFor w.peers (fresh_loop n v w)
unfolding fresh_loop
fresh_loop-FreshFor zero v w = tt
fresh_loop-FreshFor (suc n) v w = elim (Bool-cases (v.fails w.queries)) [
  | inl f ↦ rw f tt
  | inr f ↦ elim (Option-cases (of_peer (random_id (v.word w.drawn)) w.peers)) [
    | inl o ↦ rw (f, o) (random_id-nine_digits (v.word w.drawn), o)
    | inr (r, o) ↦ rw (f, o) (fresh_loop-FreshFor n v _)
  ]
]

pub record_event-Descending :
    (v : Env) (kind : String) (p c a m : Option Text) (w : World)
    → Descending w.next_id w.audit
    → Descending (record_event v kind p c a m w).next_id (record_event v kind p c a m w).audit
unfolding record_event
record_event-Descending v kind p c a m w h = elim (Bool-cases (v.fails w.queries)) [
  | inl f ↦ rw f h
  | inr f ↦ rw f (omega arith, h)
]

pub record_event-peers :
    (v : Env) (kind : String) (p c a m : Option Text) (w : World)
    → (record_event v kind p c a m w).peers ≡ w.peers
unfolding record_event
record_event-peers v kind p c a m w = elim (Bool-cases (v.fails w.queries)) [
  | inl f ↦ rw f refl
  | inr f ↦ rw f refl
]

pub insert_peer-IsWellFormed :
    (v : Env) (user_id peer_id : Text) (w : World)
    → IsPeerId peer_id
    → IsWellFormed w
    → IsWellFormed (insert_peer v user_id peer_id w).1
unfolding insert_peer of_user
insert_peer-IsWellFormed v user_id peer_id w id (users, peers, ids, down) =
    elim (Bool-cases (v.fails w.queries)) [
      | inl f ↦ rw f (users, peers, ids, down)
      | inr f ↦ elim (Option-cases (of_user user_id w.peers)) [
        | inr (r, u) ↦ rw (f, u) (users, peers, ids, down)
        | inl u ↦ elim (Option-cases (of_peer peer_id w.peers)) [
          | inr (r, p) ↦ rw (f, u, p) (users, peers, ids, down)
          | inl p ↦ rw (f, u, p) ((u, users), (p, peers), (id, ids), down)
        ]
      ]
    ]
