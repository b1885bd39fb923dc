-- ===== src/Codec.antt =====
-- crates/proto/src/codec.rs: the length-delimited framing of the RustDesk wire.
-- A `BytesMut` is the list of its bytes; `decode` returns its result, the codec and what it leaves in
-- the buffer, `encode` the buffer it wrote or `none` for `Err`. `reserve` has no effect on the bytes.
pub mod Header
pub mod Steps
pub mod RoundTrip
pub mod Resume
pub mod Bounds
use xyzen_relay.Prelude.{
  ℕ, zero, suc, ◌+◌, ◌-◌, ◌*◌, ◌/◌, ◌%◌, ◌^◌, Bool, true, false, Option, none, some, List, [], ◌∷◌,
  ◌++◌, bit_and, bit_or, ltb, if◌then◌else◌, length, take, drop, is_empty,
}

abbrev pub max_packet : ℕ
max_packet = 64 * 1024 * 1024

pub data State : Type 0 where
  head : State
  body : ℕ → State

pub record RustDeskCodec : Type 0 where
  pub state : State
  pub raw : Bool
  pub max : ℕ

abbrev pub new : RustDeskCodec
new = record { state = head; raw = false; max = max_packet }

-- `set_raw`: from here on the buffer is handed up untouched.
unfoldable pub set_raw : RustDeskCodec → RustDeskCodec
set_raw c = record c { raw = true }

-- `io::Result<Option<BytesMut>>`: `Err(InvalidData)`, `Ok(None)`, `Ok(Some(frame))`.
pub data Decoded : Type 0 where
  too_long incomplete : Decoded
  frame : List ℕ → Decoded

abbrev pub Decoding : Type 0
Decoding = Decoded × RustDeskCodec × List ℕ

-- `src[i]`; the code reads it only below the length of the buffer.
abbrev pub byte_at : List ℕ → ℕ → ℕ
byte_at [] i = 0
byte_at (b ∷ bs) zero = b
byte_at (b ∷ bs) (suc i) = byte_at bs i

-- The number of header bytes, from the low two bits of the first.
unfoldable pub header_size : List ℕ → ℕ
header_size src = bit_and (byte_at src 0) 0x03 + 1

-- The header bytes joined in little-endian order.
unfoldable pub header_word : ℕ → List ℕ → ℕ
header_word head_len src =
    let n0 = byte_at src 0 in
    let n1 = if ltb 1 head_len then bit_or n0 (byte_at src 1 * 2 ^ 8) else n0 in
    let n2 = if ltb 2 head_len then bit_or n1 (byte_at src 2 * 2 ^ 16) else n1 in
    if ltb 3 head_len then bit_or n2 (byte_at src 3 * 2 ^ 24) else n2

-- One round of the loop in the state `Body(n)`: it returns.
unfoldable pub decode_body : RustDeskCodec → ℕ → List ℕ → Decoding
decode_body c n src =
    if ltb (length src) n
    then (incomplete, c, src)
    else (frame (take n src), record c { state = head }, drop n src)

-- One round in the state `Head`; when the header is read the loop goes round once more, in `Body(n)`.
unfoldable pub decode_head : RustDeskCodec → List ℕ → Decoding
decode_head c src =
    let head_len = header_size src in
    let n = header_word head_len src / 2 ^ 2 in
    if is_empty src
    then (incomplete, c, src)
    else if ltb (length src) head_len
    then (incomplete, c, src)
    else if ltb c.max n
    then (too_long, c, src)
    else decode_body (record c { state = body n }) n (drop head_len src)

unfoldable pub decode_loop : State → RustDeskCodec → List ℕ → Decoding
decode_loop head c src = decode_head c src
decode_loop (body n) c src = decode_body c n src

unfoldable pub decode : RustDeskCodec → List ℕ → Decoding
unfolding decode_loop
decode c src =
    if c.raw
    then if is_empty src
      then (incomplete, c, src)
      else (frame (take (length src) src), c, drop (length src) src)
    else decode_loop c.state c src

-- The shortest header that holds `n`.
unfoldable pub head_len_for : ℕ → ℕ
head_len_for n =
    if ltb n (2 ^ 6) then 1 else if ltb n (2 ^ 14) then 2 else if ltb n (2 ^ 22) then 3 else 4

-- `((n as u32) << 2) | (head_len as u32 - 1)`.
unfoldable pub header_for : ℕ → ℕ
unfolding head_len_for
header_for n = bit_or (n % 2 ^ 32 * 2 ^ 2 % 2 ^ 32) (head_len_for n - 1)

-- The loop over `i` that writes `count` bytes of the header.
unfoldable pub header_bytes : ℕ → ℕ → ℕ → List ℕ
header_bytes zero i header = []
header_bytes (suc count) i header =
    bit_and (header / 2 ^ (i * 8)) 0xff ∷ header_bytes count (i + 1) header

unfoldable pub encode : RustDeskCodec → List ℕ → List ℕ → Option (List ℕ)
unfolding head_len_for header_for header_bytes
encode c item dst =
    let n = length item in
    if c.raw
    then some (dst ++ item)
    else if ltb c.max n
    then none
    else some ((dst ++ header_bytes (head_len_for n) 0 (header_for n)) ++ item)
