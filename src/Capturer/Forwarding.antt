-- ===== src/Capturer/Forwarding.antt =====
-- What the publisher sends, what it logs of it, and the address it connects to.
use xyzen_relay.Prelude.{
  ℕ, zero, suc, ◌+◌, ◌-◌, ◌^◌, ◌<◌, ◌≡◌, refl, ap, ◌∙◌, Bool-cases, inl, inr, false, List, [], ◌∷◌,
  ◌++◌, length, take, leb, ◌==◌, arith,
}
use xyzen_relay.Capturer.{
  slash, keep, trim_end_matches, publisher_url, Tally, Line, counted, logged, Forwarded, forward,
}

abbrev pub bytes_of : List (List ℕ) → ℕ
bytes_of [] = 0
bytes_of (nal ∷ nals) = length nal + bytes_of nals

-- The totals of the lines.
abbrev pub logged_bytes : List Line → ℕ
logged_bytes [] = 0
logged_bytes (l ∷ ls) = l.total + logged_bytes ls

abbrev pub logged_nals : List Line → ℕ
logged_nals [] = 0
logged_nals (l ∷ ls) = l.nals + logged_nals ls

abbrev pub units : List (List ℕ × ℕ) → List (List ℕ)
units [] = []
units ((nal, now) ∷ xs) = nal ∷ units xs

-- The sent units are the first ones, and the lines with the counters account for each byte of them.
pub record Accounts (more : ℕ) (xs : List (List ℕ × ℕ)) (t : Tally) (f : Forwarded) : Type 0 where
  pub in_order : f.sent ≡ take more (units xs)
  pub all_bytes : logged_bytes f.lines + f.tally.total ≡ t.total + bytes_of f.sent
  pub all_nals : logged_nals f.lines + f.tally.nals ≡ t.nals + length f.sent

-- A line takes over what the counters had.
logged_sums :
    (now : ℕ) (t : Tally)
    → (logged_bytes (logged now t).0 + (logged now t).1.total ≡ t.total)
      × (logged_nals (logged now t).0 + (logged now t).1.nals ≡ t.nals)
unfolding logged
logged_sums now t = elim (Bool-cases (leb 2 (now - t.last_log))) [
  | inl due ↦ rw due (omega arith, omega arith)
  | inr early ↦ rw early (omega arith, omega arith)
]

logged-append :
    (ls ms : List Line)
    → (logged_bytes (ls ++ ms) ≡ logged_bytes ls + logged_bytes ms)
      × (logged_nals (ls ++ ms) ≡ logged_nals ls + logged_nals ms)
logged-append [] ms = (omega arith, omega arith)
logged-append (l ∷ ls) ms = let (b, n) = logged-append ls ms in (omega arith, omega arith)

-- As long as the byte counter does not wrap: the units go to the socket in order, as many as it takes,
-- and the lines of the log with the counters account for every byte and every unit sent.
pub forward-Accounts :
    (more : ℕ) (xs : List (List ℕ × ℕ)) (t : Tally)
    → t.total + bytes_of (units xs) < 2 ^ 64
    → t.nals + length xs < 2 ^ 64
    → Accounts more xs t (forward more xs t)
unfolding forward
forward-Accounts zero [] t b n = record {
  in_order = refl;
  all_bytes = omega arith;
  all_nals = omega arith;
}
forward-Accounts (suc more) [] t b n = record {
  in_order = refl;
  all_bytes = omega arith;
  all_nals = omega arith;
}
forward-Accounts zero (x ∷ xs) t b n = record {
  in_order = refl;
  all_bytes = omega arith;
  all_nals = omega arith;
}
forward-Accounts (suc more) ((nal, now) ∷ xs) t b n =
    let u = counted (length nal) t in
    let (sum_bytes, sum_nals) = logged_sums now u in
    let r = forward-Accounts more xs (logged now u).1 (omega arith) (omega arith) in
    let (app_bytes, app_nals) =
      logged-append (logged now u).0 (forward more xs (logged now u).1).lines in
    record {
      in_order = ap (◌∷◌ nal) r.in_order;
      all_bytes = omega (arith, r.all_bytes, sum_bytes, app_bytes);
      all_nals = omega (arith, r.all_nals, sum_nals, app_nals);
    }

abbrev pub slashes : ℕ → List ℕ
slashes zero = []
slashes (suc k) = slash ∷ slashes k

trim_slashes : (k : ℕ) → trim_end_matches (slashes k) ≡ []
unfolding trim_end_matches
trim_slashes zero = refl
trim_slashes (suc k) = ap (keep slash) (trim_slashes k)

trim-append : (url : List ℕ) (k : ℕ) → trim_end_matches (url ++ slashes k) ≡ trim_end_matches url
unfolding trim_end_matches
trim-append [] k = trim_slashes k
trim-append (c ∷ cs) k = ap (keep c) (trim-append cs k)

keep_before : (d c : ℕ) (ds : List ℕ) → keep d (ds ++ c ∷ []) ≡ d ∷ (ds ++ c ∷ [])
keep_before d c [] = refl
keep_before d c (x ∷ ds) = refl

trim-stays :
    (url : List ℕ) (c : ℕ) → (c == slash) ≡ false → trim_end_matches (url ++ c ∷ []) ≡ url ++ c ∷ []
unfolding trim_end_matches
trim-stays [] c e = rw e refl
trim-stays (d ∷ ds) c e = ap (keep d) (trim-stays ds c e) ∙ keep_before d c ds

-- However many slashes end the address of the server, the publisher connects to that address without
-- them, one slash and the peer id.
pub publisher_url-slashes :
    (url peer_id : List ℕ) (c k : ℕ)
    → (c == slash) ≡ false
    → publisher_url ((url ++ c ∷ []) ++ slashes k) peer_id ≡ (url ++ c ∷ []) ++ slash ∷ peer_id
unfolding publisher_url
publisher_url-slashes url peer_id c k e =
    ap (λ u. u ++ slash ∷ peer_id) (trim-append (url ++ c ∷ []) k ∙ trim-stays url c e)
