-- ===== src/Codec/RoundTrip.antt =====
-- Frames written by `encode` are read back by `decode`.
use xyzen_relay.Prelude.{
  ℕ, ◌/◌, ◌^◌, ◌∙◌, ap, sym, ◌≤◌, ◌<◌, ◌≡◌, false, some, List, ◌++◌, length, arith,
  take-length_append, drop-length_append, length-append, append_assoc,
}
use xyzen_relay.Codec.{
  State, head, body, RustDeskCodec, frame, decode_body, decode_head, decode, encode, head_len_for,
  header_for, header_bytes,
}
use xyzen_relay.Codec.Steps.{decode-head, decode_head_complete}
use xyzen_relay.Codec.Header.{header_for-Reads, header_for_fields}

pub wire : List ℕ → List ℕ
wire item = header_bytes (head_len_for (length item)) 0 (header_for (length item)) ++ item

encode-wire :
    (c : RustDeskCodec) (item dst : List ℕ)
    → c.raw ≡ false
    → length item ≤ c.max
    → encode c item dst ≡ some (dst ++ wire item)
unfolding encode wire
encode-wire c item dst r h = ground (
  arith,
  append_assoc dst (header_bytes (head_len_for (length item)) 0 (header_for (length item))) item,
)

decode_body-frame :
    (c : RustDeskCodec) (item rest : List ℕ)
    → decode_body c (length item) (item ++ rest) ≡ (frame item, record c { state = head }, rest)
unfolding decode_body
decode_body-frame c item rest =
    ground
      (arith, length-append item rest, take-length_append item rest, drop-length_append item rest)

decode_head-wire :
    (c : RustDeskCodec) (item rest : List ℕ)
    → length item < 2 ^ 30
    → length item ≤ c.max
    → decode_head c (wire item ++ rest)
      ≡ decode_body (record c { state = body (length item) }) (length item) (item ++ rest)
unfolding wire
decode_head-wire c item rest lt h =
    let r = header_for-Reads (length item) (item ++ rest) lt in
    let f = header_for_fields (length item) lt in
    rw
      (append_assoc (header_bytes (head_len_for (length item)) 0 (header_for (length item))) item
        rest)
      (decode_head_complete c _ (item ++ rest) (head_len_for (length item)) (length item)
        (r.size ∙ f.0) (ap (λ t. t / 2 ^ 2) r.word ∙ f.1) r.tail f.2 (omega (arith, r.length_eq)) h)

at_head : (c : RustDeskCodec) (s : State) → c.state ≡ s → record c { state = s } ≡ c
at_head c s e i = record c { state = sym e i }

-- The frame that `encode` appends to a buffer is the one that `decode` returns when it comes to it,
-- with the bytes behind it left in the buffer and the codec as it was. The codec is not raw and is
-- between frames, the item is within its limit, and the limit fits a four-byte header.
pub decode-encode :
    (c : RustDeskCodec) (item rest dst : List ℕ)
    → c.raw ≡ false
    → c.state ≡ head
    → c.max < 2 ^ 30
    → length item ≤ c.max
    → (w : List ℕ) × (encode c item dst ≡ some (dst ++ w))
      × (decode c (w ++ rest) ≡ (frame item, c, rest))
decode-encode c item rest dst r s m h = (
  wire item,
  encode-wire c item dst r h,
  decode-head c (wire item ++ rest) r s
      ∙ decode_head-wire c item rest (omega arith) h
      ∙ decode_body-frame (record c { state = body (length item) }) item rest
      ∙ ap (λ d. (frame item, d, rest)) (at_head c head s),
)
