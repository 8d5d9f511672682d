-- ===== src/Base64/Length.antt =====
-- How much the decoder writes, against what it allocates.
use tlsuv.Base.{ℕ, zero, suc, ◌-◌, ◌*◌, ◌/◌, ◌≤◌, ◌≡◌, Bytes, arith, length, drop}
use tlsuv.Base64.{digit_run, base64url_decode_len, decode_tail, decode_loop, tlsuv_base64url_decode}

length-decode_tail : (s : Bytes) (n : ℕ) → n ≤ 4 → length (decode_tail s n) ≡ n * 3 / 4
unfolding decode_tail
length-decode_tail s n h = ground arith

length-decode_loop :
    (fuel : ℕ) (s : Bytes) (n : ℕ) → n ≤ fuel → length (decode_loop fuel s n) ≡ n * 3 / 4
unfolding decode_loop
length-decode_loop zero s n h = length-decode_tail s n (omega arith)
length-decode_loop (suc fuel) s n h =
    ground (arith, length-decode_tail s n, length-decode_loop fuel (drop 4 s) (n - 4))

-- The decoder writes three bytes for four digits, rounded down, and never more than the buffer
-- that `base64url_decode_len` sizes can hold.
pub length-decode :
    (input : Bytes)
    → (length (tlsuv_base64url_decode input) ≡ digit_run input * 3 / 4)
      × (length (tlsuv_base64url_decode input) ≤ base64url_decode_len input)
unfolding tlsuv_base64url_decode base64url_decode_len
length-decode input =
    let e = length-decode_loop (digit_run input) input (digit_run input) (omega arith) in
    (e, omega (arith, e))
