-- ===== src/Websocket/Frame.antt =====
-- The frames of src/websocket.c: what `tlsuv_websocket_write` puts on the wire, and what
-- `ws_read_cb` and `send_pong` make of a frame in the buffer.
pub mod Rfc
pub mod RoundTrip
pub mod Receive
use tlsuv.Base.{
  ℕ, zero, suc, ◌+◌, ◌-◌, ◌*◌, ◌/◌, ◌%◌, ◌^◌, bit_or, bit_xor, Bytes, Bool, true, false, ◌&&◌, ◌||◌,
  Option, none, some, [], ◌∷◌, ◌++◌, length, take, drop, get_or, ltb, leb, ◌==◌, if◌then◌else◌,
}

-- The last `n` bytes of a number, the highest first: `htobe16` and `htobe64` in memory.
unfoldable pub be : ℕ → ℕ → Bytes
be zero v = []
be (suc n) v = be n (v / 256) ++ (v % 256 ∷ [])

-- `be16toh` and `be64toh`, on from a number that is already read.
unfoldable pub from_be : ℕ → Bytes → ℕ
from_be acc [] = acc
from_be acc (b ∷ bs) = from_be (acc * 256 + b) bs

-- `data[i] ^ mask[i % 4]` from an index on.
unfoldable pub mask_bytes : Bytes → ℕ → Bytes → Bytes
mask_bytes mask i [] = []
mask_bytes mask i (b ∷ bs) = bit_xor b (get_or mask (i % 4) 0) ∷ mask_bytes mask (i + 1) bs

-- The bytes of the length, with the mask bit.
unfoldable pub size_bytes : ℕ → Bytes
size_bytes n =
    if ltb n 126
    then bit_or 128 n ∷ []
    else if leb n 65535
    then bit_or 128 126 ∷ be 2 n
    else bit_or 128 127 ∷ be 8 n

-- The frame that `tlsuv_websocket_write` sends; `mask` is four bytes of `rand`.
unfoldable pub ws_frame : Bytes → Bytes → Bytes
ws_frame mask bytes =
    bit_or 128 2 ∷ (size_bytes (length bytes) ++ (mask ++ mask_bytes mask 0 bytes))

-- The size of the buffer for the frame, `headerlen + buf->len`.
unfoldable pub frame_size : ℕ → ℕ
frame_size n = 6 + (if ltb 125 n then 2 else 0) + (if ltb 65535 n then 6 else 0) + n

-- The first bytes of a text and the rest, where there are as many.
abbrev pub split_at : ℕ → Bytes → Option (Bytes × Bytes)
split_at n s = if leb n (length s) then some (take n s, drop n s) else none

-- `frame[1] & (~WS_MASK)`, computed in 32 bits: where `char` is signed, a byte with the mask bit is
-- negative and keeps its upper 24 bits.
unfoldable pub first_len : Bool → ℕ → ℕ
first_len signed b = if signed && leb 128 b then 2 ^ 32 - 256 + b % 128 else b % 128

-- The header of a frame, and the memory behind it.
pub record Head : Type 0 where
  pub op : ℕ
  pub len : ℕ
  pub mask : Bytes
  pub dp : Bytes

-- The length, which may follow in two or eight bytes.
unfoldable pub read_len : ℕ → Bytes → Option (ℕ × Bytes)
read_len n dp =
    if n == 126
    then elim (split_at 2 dp) [ none ↦ none | some (b, rest) ↦ some (from_be 0 b, rest) ]
    else if n == 127
    then elim (split_at 8 dp) [ none ↦ none | some (b, rest) ↦ some (from_be 0 b, rest) ]
    else some (n, dp)

abbrev pub no_mask : Bytes
no_mask = 0 ∷ 0 ∷ 0 ∷ 0 ∷ []

unfoldable pub read_mask : Bool → Bytes → Option (Bytes × Bytes)
read_mask masked dp = if masked then split_at 4 dp else some (no_mask, dp)

-- `none` where the header goes past the end of the buffer.
unfoldable pub parse_head : Bool → Bytes → Option Head
parse_head signed (a ∷ b ∷ dp) = elim (read_len (first_len signed b) dp) [
  | none ↦ none
  | some (len, dp') ↦ elim (read_mask (leb 128 b) dp') [
    | none ↦ none
    | some (mask, dp'') ↦ some (record { op = a % 16; len = len; mask = mask; dp = dp'' })
  ]
]
parse_head signed _ = none

-- What comes of a frame. The last two are accesses outside of a buffer, which C leaves undefined.
pub data Received : Type 0 where
  message : Bytes → Received
  peer_closed : Received
  pong : Bytes → Received
  ignored : Received
  overread overwrite : Received

-- `send_pong`, where `mask` is four bytes of `rand`. The length is an `int`: where it is negative no
-- buffer has the size that is asked for, or one of less than 6 bytes. The loop over the data runs to
-- `buf.len`, the size of the frame, and starts behind the six bytes of its header.
unfoldable pub send_pong : Bytes → Bytes → ℕ → Received
send_pong mask ping_data len =
    let n = len % 2 ^ 32 in
    let size = 6 + n in
    let copied = if ltb 0 n then size else 0 in
    if leb (2 ^ 31) n || ltb size (6 + copied)
    then overwrite
    else pong (
        bit_or 128 10
        ∷ (bit_or 128 (n % 128) ∷ (mask ++ mask_bytes mask 0 (take copied ping_data))))

-- The switch on the operation. Data is unmasked to the front of the buffer, which lies before the
-- bytes that are still to be read.
unfoldable pub on_frame : Bytes → Head → Received
on_frame rand h =
    if h.op == 1 || h.op == 2
    then if leb h.len (length h.dp)
      then message (mask_bytes h.mask 0 (take h.len h.dp))
      else overread
    else if h.op == 8
    then peer_closed
    else if h.op == 9
    then send_pong rand h.dp h.len
    else ignored

-- The part of `ws_read_cb` from `frame` on, on the memory from there to the end of the buffer.
unfoldable pub read_frame : Bool → Bytes → Bytes → Received
read_frame signed rand frame = elim (parse_head signed frame) [
  | none ↦ overread
  | some h ↦ on_frame rand h
]
