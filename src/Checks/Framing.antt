-- ===== src/Checks/Framing.antt =====
-- Runs of the frame codec.
use xyzen_relay.Prelude.{ℕ, ◌≡◌, refl, some, List, [], ◌∷◌, ◌++◌, arith}
use xyzen_relay.Codec.{
  RustDeskCodec, body, new, set_raw, frame, incomplete, too_long, decode, encode, decode_head,
  decode_body, header_size, header_word,
}
use xyzen_relay.Codec.RoundTrip.{decode-encode}
use xyzen_relay.Codec.Resume.{decode_resumes, decode-too_long_persists}
use xyzen_relay.Codec.Bounds.{Bounded, decode-Bounded}

abbrev hello : List ℕ
hello = 104 ∷ 101 ∷ 108 ∷ 108 ∷ 111 ∷ []

abbrev tiny : RustDeskCodec
tiny = record new { max = 3 }

encode-hello : encode new hello [] ≡ some (20 ∷ hello)
unfolding encode
encode-hello = refl

-- The frame comes in two pieces: the header and three bytes, then the rest.
decode_cut :
    decode new (20 ∷ 104 ∷ 101 ∷ 108 ∷ [])
    ≡ (incomplete, record new { state = body 5 }, 104 ∷ 101 ∷ 108 ∷ [])
unfolding decode decode_head decode_body header_size header_word
decode_cut = refl

decode_refused : decode tiny (20 ∷ 104 ∷ []) ≡ (too_long, tiny, 20 ∷ 104 ∷ [])
unfolding decode decode_head decode_body header_size header_word
decode_refused = refl

decode_raw : decode (set_raw new) (20 ∷ 104 ∷ []) ≡ (frame (20 ∷ 104 ∷ []), set_raw new, [])
unfolding decode set_raw
decode_raw = refl

decode-encode_example :
    (w : List ℕ) × (encode new hello (1 ∷ []) ≡ some (1 ∷ w))
    × (decode new (w ++ 9 ∷ []) ≡ (frame hello, new, 9 ∷ []))
decode-encode_example =
    decode-encode new hello (9 ∷ []) (1 ∷ []) refl refl (omega arith) (omega arith)

decode_resumes_example :
    decode (record new { state = body 5 }) (104 ∷ 101 ∷ 108 ∷ 108 ∷ 111 ∷ 7 ∷ [])
    ≡ decode new (20 ∷ 104 ∷ 101 ∷ 108 ∷ 108 ∷ 111 ∷ 7 ∷ [])
decode_resumes_example =
    decode_resumes new _ (20 ∷ 104 ∷ 101 ∷ 108 ∷ []) _ (108 ∷ 111 ∷ 7 ∷ []) decode_cut

decode-too_long_persists_example :
    (tiny ≡ tiny)
    × (◌≡◌ {A = List ℕ} (20 ∷ 104 ∷ []) (20 ∷ 104 ∷ []))
    × (decode tiny (20 ∷ 104 ∷ 101 ∷ []) ≡ (too_long, tiny, 20 ∷ 104 ∷ 101 ∷ []))
decode-too_long_persists_example =
    decode-too_long_persists tiny tiny (20 ∷ 104 ∷ []) (20 ∷ 104 ∷ []) (101 ∷ []) decode_refused

decode-Bounded_example : Bounded new.max (20 ∷ hello) (decode new (20 ∷ hello))
decode-Bounded_example = decode-Bounded new (20 ∷ hello) refl tt
