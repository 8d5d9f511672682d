-- ===== src/Websocket/Frame/Receive.antt =====
-- What the client makes of the frames of a server that follows RFC 6455.
use tlsuv.Base.{
  ℕ, zero, suc, ◌+◌, ◌%◌, ◌^◌, ◌≤◌, ◌<◌, ◌≡◌, refl, ap₂, bit_xor, bit_xor-zero, Bytes, Bool, some,
  [], ◌∷◌, ◌++◌, length, length-append, take_prefix, get_or, ltb, arith, inl, inr, Bool-cases,
  append_assoc,
}
use tlsuv.Websocket.Frame.{
  be, mask_bytes, first_len, read_len, read_mask, no_mask, parse_head, message, peer_closed, pong,
  overwrite, send_pong, on_frame, read_frame,
}
use tlsuv.Websocket.Frame.Rfc.{server_frame}
use tlsuv.Websocket.Frame.RoundTrip.{
  split_at-append, from_be-be, length-be, long_bytes-be, short_bytes-be,
}

mask_bytes-no_mask : (i : ℕ) (s : Bytes) → mask_bytes no_mask i s ≡ s
unfolding mask_bytes
mask_bytes-no_mask i [] = refl
mask_bytes-no_mask i (b ∷ s) =
    ap₂ ◌∷◌ (at_zero (i % 4) (omega arith)) (mask_bytes-no_mask (i + 1) s)
  where
    at_zero : (k : ℕ) → k < 4 → bit_xor b (get_or no_mask k 0) ≡ b
    at_zero zero h = bit_xor-zero b
    at_zero (suc zero) h = bit_xor-zero b
    at_zero (suc (suc zero)) h = bit_xor-zero b
    at_zero (suc (suc (suc zero))) h = bit_xor-zero b
    at_zero (suc (suc (suc (suc k)))) h = absurd (omega arith)

-- The header of a server's frame, where nothing depends on the sign of `char`.
parse_head-server_frame :
    (signed : Bool) (op : ℕ) (bytes rest : Bytes)
    → op < 16
    → length bytes < 2 ^ 63
    → parse_head signed (server_frame op bytes ++ rest)
      ≡ some (record { op = op; len = length bytes; mask = no_mask; dp = bytes ++ rest })
unfolding parse_head server_frame first_len read_len read_mask
parse_head-server_frame signed op bytes rest h k = elim (Bool-cases (ltb (length bytes) 126)) [
  | inl e ↦ ground (arith, e, h)
  | inr e ↦ elim (Bool-cases (ltb (length bytes) 65536)) [
    | inl f ↦ ground (
      arith,
      e,
      f,
      h,
      short_bytes-be (length bytes),
      append_assoc (be 2 (length bytes)) bytes rest,
      split_at-append 2 (be 2 (length bytes)) (bytes ++ rest) (length-be 2 (length bytes)),
      from_be-be 2 (length bytes),
    )
    | inr f ↦ ground (
      arith,
      e,
      f,
      h,
      k,
      long_bytes-be (length bytes),
      append_assoc (be 8 (length bytes)) bytes rest,
      split_at-append 8 (be 8 (length bytes)) (bytes ++ rest) (length-be 8 (length bytes)),
      from_be-be 8 (length bytes),
    )
  ]
]

-- The first frame in the buffer decides, and the rest of the buffer is not looked at: the payload of
-- a text or binary frame, of less than 2^63 bytes, is given to the user as it was sent, and a close
-- frame is the end, whatever stands behind the frame.
pub read_frame-server_frame :
    (signed : Bool) (rand bytes rest : Bytes)
    → length bytes < 2 ^ 63
    → (read_frame signed rand (server_frame 1 bytes ++ rest) ≡ message bytes)
      × (read_frame signed rand (server_frame 2 bytes ++ rest) ≡ message bytes)
      × (read_frame signed rand (server_frame 8 bytes ++ rest) ≡ peer_closed)
unfolding read_frame on_frame
read_frame-server_frame signed rand bytes rest h =
    let given = mask_bytes-no_mask 0 bytes in
    let first = take_prefix bytes rest in
    let size = length-append bytes rest in
    (
      ground
          (arith, parse_head-server_frame signed 1 bytes rest (omega arith) h, given, first, size),
      ground
          (arith, parse_head-server_frame signed 2 bytes rest (omega arith) h, given, first, size),
      ground (arith, parse_head-server_frame signed 8 bytes rest (omega arith) h),
    )

-- An empty ping is answered with an empty pong. The answer to any other ping, of at most the 125
-- bytes that RFC 6455 allows, is written past the end of its buffer.
pub read_frame-ping :
    (signed : Bool) (rand bytes rest : Bytes)
    → length bytes ≤ 125
    → read_frame signed rand (server_frame 9 bytes ++ rest)
      ≡ elim bytes [ [] ↦ pong (138 ∷ (128 ∷ (rand ++ []))) | b ∷ bs ↦ overwrite ]
unfolding read_frame on_frame send_pong
read_frame-ping signed rand [] rest h =
    unfold mask_bytes in
    ground (arith, parse_head-server_frame signed 9 [] rest (omega arith) (omega arith))
read_frame-ping signed rand (b ∷ bs) rest h =
    ground
      (arith, h, parse_head-server_frame signed 9 (b ∷ bs) rest (omega arith) (omega (arith, h)))
