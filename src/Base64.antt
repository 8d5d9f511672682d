-- ===== src/Base64.antt =====
-- src/base64.c: the decoder for base64 and base64url text, with or without padding.
-- The input is the bytes before the NUL of the C string; a read past them meets that NUL.
mod Encode
pub mod Length
pub mod RoundTrip
use tlsuv.Base.{
  ℕ, zero, suc, ◌+◌, ◌-◌, ◌*◌, ◌/◌, ◌%◌, bit_or, List, [], ◌∷◌, ◌++◌, Bytes, leb, ltb, get_or, drop,
  length, if◌then◌else◌,
}
unfoldable pub use Encode.{symbol, encode}

abbrev pr2six : Bytes
pr2six =
    64 ∷ 64 ∷ 64 ∷ 64 ∷ 64 ∷ 64 ∷ 64 ∷ 64 ∷ 64 ∷ 64 ∷ 64 ∷ 64 ∷ 64 ∷ 64 ∷ 64 ∷ 64 ∷ 64 ∷ 64 ∷ 64
    ∷ 64 ∷ 64 ∷ 64 ∷ 64 ∷ 64 ∷ 64 ∷ 64 ∷ 64 ∷ 64 ∷ 64 ∷ 64 ∷ 64 ∷ 64 ∷ 64 ∷ 64 ∷ 64 ∷ 64 ∷ 64 ∷ 64
    ∷ 64 ∷ 64 ∷ 64 ∷ 64 ∷ 64 ∷ 64 ∷ 64 ∷ 62 ∷ 64 ∷ 63 ∷ 52 ∷ 53 ∷ 54 ∷ 55 ∷ 56 ∷ 57 ∷ 58 ∷ 59 ∷ 60
    ∷ 61 ∷ 64 ∷ 64 ∷ 64 ∷ 64 ∷ 64 ∷ 64 ∷ 64 ∷ 0 ∷ 1 ∷ 2 ∷ 3 ∷ 4 ∷ 5 ∷ 6 ∷ 7 ∷ 8 ∷ 9 ∷ 10 ∷ 11 ∷ 12
    ∷ 13 ∷ 14 ∷ 15 ∷ 16 ∷ 17 ∷ 18 ∷ 19 ∷ 20 ∷ 21 ∷ 22 ∷ 23 ∷ 24 ∷ 25 ∷ 64 ∷ 64 ∷ 64 ∷ 64 ∷ 63 ∷ 64
    ∷ 26 ∷ 27 ∷ 28 ∷ 29 ∷ 30 ∷ 31 ∷ 32 ∷ 33 ∷ 34 ∷ 35 ∷ 36 ∷ 37 ∷ 38 ∷ 39 ∷ 40 ∷ 41 ∷ 42 ∷ 43 ∷ 44
    ∷ 45 ∷ 46 ∷ 47 ∷ 48 ∷ 49 ∷ 50 ∷ 51 ∷ 64 ∷ 64 ∷ 64 ∷ 64 ∷ 64 ∷ 64 ∷ 64 ∷ 64 ∷ 64 ∷ 64 ∷ 64 ∷ 64
    ∷ 64 ∷ 64 ∷ 64 ∷ 64 ∷ 64 ∷ 64 ∷ 64 ∷ 64 ∷ 64 ∷ 64 ∷ 64 ∷ 64 ∷ 64 ∷ 64 ∷ 64 ∷ 64 ∷ 64 ∷ 64 ∷ 64
    ∷ 64 ∷ 64 ∷ 64 ∷ 64 ∷ 64 ∷ 64 ∷ 64 ∷ 64 ∷ 64 ∷ 64 ∷ 64 ∷ 64 ∷ 64 ∷ 64 ∷ 64 ∷ 64 ∷ 64 ∷ 64 ∷ 64
    ∷ 64 ∷ 64 ∷ 64 ∷ 64 ∷ 64 ∷ 64 ∷ 64 ∷ 64 ∷ 64 ∷ 64 ∷ 64 ∷ 64 ∷ 64 ∷ 64 ∷ 64 ∷ 64 ∷ 64 ∷ 64 ∷ 64
    ∷ 64 ∷ 64 ∷ 64 ∷ 64 ∷ 64 ∷ 64 ∷ 64 ∷ 64 ∷ 64 ∷ 64 ∷ 64 ∷ 64 ∷ 64 ∷ 64 ∷ 64 ∷ 64 ∷ 64 ∷ 64 ∷ 64
    ∷ 64 ∷ 64 ∷ 64 ∷ 64 ∷ 64 ∷ 64 ∷ 64 ∷ 64 ∷ 64 ∷ 64 ∷ 64 ∷ 64 ∷ 64 ∷ 64 ∷ 64 ∷ 64 ∷ 64 ∷ 64 ∷ 64
    ∷ 64 ∷ 64 ∷ 64 ∷ 64 ∷ 64 ∷ 64 ∷ 64 ∷ 64 ∷ 64 ∷ 64 ∷ 64 ∷ 64 ∷ 64 ∷ 64 ∷ 64 ∷ 64 ∷ 64 ∷ 64 ∷ 64
    ∷ 64 ∷ 64 ∷ 64 ∷ 64 ∷ 64 ∷ 64 ∷ 64 ∷ []

-- `pr2six[c]`; every byte is an index of the table.
unfoldable pub six : ℕ → ℕ
six c = get_or pr2six c 64

-- `while (pr2six[*(bufin++)] <= 63);` and then `(bufin - in) - 1`: the bytes before the first one
-- that is no digit. The NUL, at the end of the list, is none.
pub digit_run : Bytes → ℕ
digit_run [] = 0
digit_run (c ∷ cs) = let rest = digit_run cs in if leb (six c) 63 then suc rest else 0

pub base64url_decode_len : Bytes → ℕ
unfolding digit_run
base64url_decode_len bufcoded = ((digit_run bufcoded + 3) / 4) * 3

-- The three bytes that four digits give, each cut to an `unsigned char`.
pub first_byte : Bytes → ℕ
first_byte bufin = bit_or (six (get_or bufin 0 0) * 4) (six (get_or bufin 1 0) / 16) % 256

pub second_byte : Bytes → ℕ
second_byte bufin = bit_or (six (get_or bufin 1 0) * 16) (six (get_or bufin 2 0) / 4) % 256

pub third_byte : Bytes → ℕ
third_byte bufin = bit_or (six (get_or bufin 2 0) * 64) (six (get_or bufin 3 0)) % 256

-- What is left for the three tests behind the loop.
pub decode_tail : Bytes → ℕ → Bytes
decode_tail bufin nprbytes =
    (if ltb 1 nprbytes then first_byte bufin ∷ [] else [])
    ++ (if ltb 2 nprbytes then second_byte bufin ∷ [] else [])
    ++ (if ltb 3 nprbytes then third_byte bufin ∷ [] else [])

-- `while (nprbytes > 4)`, on fuel: the digits that are left are enough.
pub decode_loop : ℕ → Bytes → ℕ → Bytes
unfolding decode_tail
decode_loop zero bufin nprbytes = decode_tail bufin nprbytes
decode_loop (suc fuel) bufin nprbytes =
    let rest = decode_loop fuel (drop 4 bufin) (nprbytes - 4) in
    if ltb 4 nprbytes
    then first_byte bufin ∷ second_byte bufin ∷ third_byte bufin ∷ rest
    else decode_tail bufin nprbytes

-- What stands in `*out`; `*out_len` and the result are its length.
unfoldable pub tlsuv_base64url_decode : Bytes → Bytes
unfolding decode_loop digit_run
tlsuv_base64url_decode input = decode_loop (digit_run input) input (digit_run input)
