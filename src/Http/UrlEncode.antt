-- ===== src/Http/UrlEncode.antt =====
-- `write_url_encoded` of src/http_req.c, where `char` is signed as on x86: a byte from 128 on is
-- below the space.
pub mod Decode
use tlsuv.Base.{
  ℕ, ◌+◌, ◌-◌, ◌/◌, bit_and, Bytes, Bool, true, false, ◌||◌, List, [], ◌∷◌, ◌++◌, leb, ltb, ◌==◌,
  codes, if◌then◌else◌,
}

-- `strchr(unsafe, c) != NULL` for a byte that is not the NUL.
abbrev pub occurs : ℕ → Bytes → Bool
occurs c [] = false
occurs c (d ∷ ds) = c == d || occurs c ds

abbrev unsafe : Bytes
unsafe = codes "\"<>%{}|\\^`"

unfoldable pub hexify : ℕ → ℕ
hexify c = if ltb c 10 then b'0' + c else b'A' + c - 10

-- `*url <= ' ' || strchr(unsafe, *url) != NULL`, where `char` is signed: a byte from 128 on is
-- negative.
unfoldable pub is_escaped : ℕ → Bool
is_escaped c = leb c b' ' || leb 128 c || occurs c unsafe

unfoldable pub encode_byte : ℕ → Bytes
encode_byte c =
    if is_escaped c
    then b'%' ∷ hexify (bit_and (c / 16) 0xf) ∷ hexify (bit_and c 0xf) ∷ []
    else c ∷ []

-- What is stored from `buf` on; the result is its length.
unfoldable pub write_url_encoded : Bytes → Bytes
write_url_encoded [] = []
write_url_encoded (c ∷ url) = encode_byte c ++ write_url_encoded url
