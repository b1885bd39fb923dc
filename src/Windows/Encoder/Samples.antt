-- ===== src/Windows/Encoder/Samples.antt =====
-- What one sample becomes: frames that the relay can read (Stream/Nal.antt).
use xyzen_relay.Prelude.{
  ℕ, suc, ◌≤◌, ◌≡◌, refl, ap, ◌∙◌, Bool, true, false, Option, none, some, List, [], ◌∷◌, ◌++◌, map,
  arith, if◌then◌else◌, drop, All,
}
use xyzen_relay.Stream.Nal.{first_byte}
use xyzen_relay.Windows.Nv12.{get_elem?}
use xyzen_relay.Windows.Annexb.{start_code, avcc_to_annexb}
use xyzen_relay.Windows.Annexb.Coded.{Coded, avcc_to_annexb-Coded}
use xyzen_relay.Windows.Encoder.{
  Call, clock, lock_buffer, unlock_buffer, process_output, convert_to_contiguous, Reply, failed,
  done, H264Encoder, Nal, Machine, Mf, ◌>>=◌, pure, read, micros, to_be_bytes, answered, after, ask,
}
use xyzen_relay.Windows.Encoder.Feed.{prefixed, sample_to_annexb}
use xyzen_relay.Windows.Encoder.Post.{Post, logged, Keeps-ask_at, Keeps-note_at, bind-Post}

-- Eight bytes of time, a start code, and a unit.
abbrev pub Framed : Nal → Type 0
Framed nal =
    (wall : ℕ) × ((unit : List ℕ) × (nal.data_bytes ≡ to_be_bytes wall ++ (start_code ++ unit)))

-- Where the relay looks is the first byte of the unit.
first_byte-framed :
    (wall : ℕ) (unit : List ℕ)
    → first_byte (to_be_bytes wall ++ (start_code ++ unit)) ≡ get_elem? unit 0
unfolding first_byte
first_byte-framed wall [] = ground arith
first_byte-framed wall (x ∷ unit) = ground arith

abbrev pub is_output : Call → Bool
is_output c = elim c [ process_output s ↦ true | _ ↦ false ]

-- How many times output was asked for.
abbrev pub outputs : List Call → ℕ
outputs [] = 0
outputs (c ∷ log) = if is_output c then suc (outputs log) else outputs log

abbrev pub is_lock : Call → Bool
is_lock c = elim c [ lock_buffer ↦ true | _ ↦ false ]

-- The units in the bytes of a sample.
abbrev pub units_in : Option (List (List ℕ)) → List (List ℕ)
units_in none = []
units_in (some us) = us

abbrev pub reply_units : Reply → List (List ℕ)
reply_units (failed code) = []
reply_units (done bytes) = units_in (avcc_to_annexb bytes)

-- The units of every sample read so far, in order.
abbrev pub units_read : (List Call → Call → Reply) → List Call → List (List ℕ)
units_read host [] = []
units_read host (c ∷ log) =
    if is_lock c then units_read host log ++ reply_units (host log c) else units_read host log

-- What stands behind the time in each frame.
abbrev pub bodies : List Nal → List (List ℕ)
bodies [] = []
bodies (nal ∷ nals) = drop 8 nal.data_bytes ∷ bodies nals

pub bodies-append : (front back : List Nal) → bodies (front ++ back) ≡ bodies front ++ bodies back
bodies-append [] back = refl
bodies-append (nal ∷ front) back = ap (◌∷◌ (drop 8 nal.data_bytes)) (bodies-append front back)

if-suc-le : (b : Bool) (k n : ℕ) → k ≤ n → k ≤ (if b then suc n else n)
if-suc-le true k n h = omega arith
if-suc-le false k n h = h

module _ (host : List Call → Call → Reply) (e : H264Encoder) where
  abbrev pub Still : Machine → Type 0
  Still m = m.encoder ≡ e

  -- The encoder is `e`, output was asked for `k` times or more, and `acc` are the units read.
  abbrev pub Drew : ℕ → List (List ℕ) → Machine → Type 0
  Drew k acc m = (m.encoder ≡ e) × ((k ≤ outputs m.log) × (units_read host m.log ≡ acc))

  pub Drew-logged :
      (k : ℕ) (acc : List (List ℕ)) (c : Call)
      → is_lock c ≡ false
      → (m : Machine) → Drew k acc m
      → Drew k acc (logged c m)
  Drew-logged k acc c apart m (same, (drew, read)) = (
    same,
    (
      if-suc-le (is_output c) k (outputs m.log) drew,
      ap
            (λ (b : Bool).
              if b
              then units_read host m.log ++ reply_units (host m.log c)
              else units_read host m.log)
            apart
          ∙ read,
    ),
  )

  -- Frames that come on top of `acc`.
  abbrev pub Handed : ℕ → List (List ℕ) → List Nal → Machine → Type 0
  Handed k acc nals m = All Framed nals × Drew k (acc ++ bodies nals) m

  prefixed-Framed :
      (wall pts : ℕ) (us : List (List ℕ))
      → All Coded us
      → All Framed (map (prefixed host (to_be_bytes wall) pts) us)
  prefixed-Framed wall pts [] coded = tt
  prefixed-Framed wall pts (u ∷ us) ((unit, e), coded) =
      ((wall, (unit, ap (λ t. to_be_bytes wall ++ t) e)), prefixed-Framed wall pts us coded)

  bodies-prefixed :
      (wall pts : ℕ) (us : List (List ℕ))
      → us ≡ bodies (map (prefixed host (to_be_bytes wall) pts) us)
  bodies-prefixed wall pts [] = refl
  bodies-prefixed wall pts (u ∷ us) = ap (◌∷◌ u) (bodies-prefixed wall pts us)

  module _ (k : ℕ) (acc : List (List ℕ)) where
    -- Locking the sample adds its units.
    locked-Post :
        (Q : List Nal → Machine → Type 0) (r : Reply) (f : List ℕ → Mf (List Nal)) (m : Machine)
        → host m.log lock_buffer ≡ r
        → Drew k acc m
        → ((bytes : List ℕ) (m' : Machine)
            → Drew k (acc ++ units_in (avcc_to_annexb bytes)) m'
            → Post Q Still (f bytes m'))
        → Post Q Still (after (answered r, logged lock_buffer m) f)
    locked-Post Q (failed code) f m e h rest = h.0
    locked-Post Q (done bytes) f m e (same, (drew, read)) rest = rest bytes (logged lock_buffer m) (
      same,
      (
        drew,
        ap (λ us. us ++ reply_units (host m.log lock_buffer)) read
            ∙ ap (λ r. acc ++ reply_units r) e,
      ),
    )

    pub sample_to_annexb-Post :
        (pts : ℕ) (m : Machine)
        → Drew k acc m
        → Post (Handed k acc) Still (sample_to_annexb host pts m)
    unfolding sample_to_annexb ◌>>=◌ pure ask
    sample_to_annexb-Post pts m h =
        bind-Post (Drew k acc) (Handed k acc) Still _ m (λ m' d. d.0)
          (Keeps-note_at host clock (Drew-logged k acc clock refl)) h
          (λ wall m1 h1.
            bind-Post (Drew k acc) (Handed k acc) Still _ m1 (λ m' d. d.0)
              (Keeps-ask_at host convert_to_contiguous
                (Drew-logged k acc convert_to_contiguous refl))
              h1
              (λ buffer m2 h2.
                locked-Post (Handed k acc) (host m2.log lock_buffer) _ m2 refl h2 (λ bytes m3 h3.
                  let acc' = acc ++ units_in (avcc_to_annexb bytes) in
                  bind-Post (Drew k acc') (Handed k acc) Still _ m3 (λ m' d. d.0)
                    (Keeps-ask_at host unlock_buffer (Drew-logged k acc' unlock_buffer refl)) h3
                    (λ unlocked m4 h4.
                      let (us, (ended, coded)) = avcc_to_annexb-Coded bytes in
                      let framed = prefixed-Framed (micros wall) pts us coded in
                      let more : acc ++ units_in (avcc_to_annexb bytes)
                          ≡ acc ++ bodies (map (prefixed host (to_be_bytes (micros wall)) pts) us) =
                        ap (λ o. acc ++ units_in o) ended
                        ∙ ap (λ us. acc ++ us) (bodies-prefixed (micros wall) pts us) in
                      rw (ended) (framed, (h4.0, (h4.1.0, h4.1.1 ∙ more)))))))

-- Where the relay looks for the type of such a frame is the first byte of its unit.
pub Framed-first_byte : (nal : Nal) (f : Framed nal) → first_byte nal.data_bytes ≡ get_elem? f.1.0 0
Framed-first_byte nal (wall, (unit, e)) = ap first_byte e ∙ first_byte-framed wall unit
