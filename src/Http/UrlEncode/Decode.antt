-- ===== src/Http/UrlEncode/Decode.antt =====
-- Percent-decoding of RFC 3986, section 2.1, and what it makes of an encoded text.
use tlsuv.Base.{
  ℕ, ◌+◌, ◌-◌, ◌*◌, ◌/◌, ◌%◌, ◌≤◌, ◌<◌, ◌≡◌, refl, ap, ◌∙◌, Bytes, Bool, true, false, ◌&&◌, [], ◌∷◌,
  ◌++◌, Option, none, some, arith, leb, ◌==◌, ==→eq, if◌then◌else◌, Bool-cases, inl, inr, All,
  bit_and_mask, all_below, all_below_sound, length, length-append, All-append,
}
use tlsuv.Http.UrlEncode.{is_escaped, encode_byte, write_url_encoded, hexify}

unfoldable pub hex_value : ℕ → Option ℕ
hex_value c =
    if leb b'0' c && leb c b'9'
    then some (c - b'0')
    else if leb b'A' c && leb c b'F'
    then some (c - b'A' + 10)
    else if leb b'a' c && leb c b'f'
    then some (c - b'a' + 10)
    else none

-- The byte that two hexadecimal digits stand for, put in front of the rest.
abbrev join_hex : Option ℕ → Option ℕ → Option Bytes → Option Bytes
join_hex (some h) (some l) (some rest) = some ((h * 16 + l) ∷ rest)
join_hex _ _ _ = none

abbrev cons_byte : ℕ → Option Bytes → Option Bytes
cons_byte c none = none
cons_byte c (some rest) = some (c ∷ rest)

unfoldable pub percent_decode : Bytes → Option Bytes
percent_decode [] = some []
percent_decode (c ∷ []) = if c == b'%' then none else some (c ∷ [])
percent_decode (c ∷ h ∷ []) = if c == b'%' then none else cons_byte c (percent_decode (h ∷ []))
percent_decode (c ∷ h ∷ l ∷ rest) =
    let plain = cons_byte c (percent_decode (h ∷ l ∷ rest)) in
    let escaped = join_hex (hex_value h) (hex_value l) (percent_decode rest) in
    if c == b'%' then escaped else plain

abbrev is_some_of : ℕ → Option ℕ → Bool
is_some_of n none = false
is_some_of n (some m) = m == n

eq_of_is_some : (n : ℕ) (o : Option ℕ) → is_some_of n o ≡ true → o ≡ some n
eq_of_is_some n none h = cc
eq_of_is_some n (some m) h = ap some (==→eq _ _ h)

-- Bytes that may stand in an encoded text.
abbrev pub IsClean : ℕ → Type 0
IsClean c = (b' ' < c) × (c < 128)

hex_table : all_below 16 (λ n. is_some_of n (hex_value (hexify n))) ≡ true
unfolding all_below hex_value hexify
hex_table = refl

pub hex_value-hexify : (n : ℕ) → n < 16 → hex_value (hexify n) ≡ some n
hex_value-hexify n h = eq_of_is_some n (hex_value (hexify n)) (all_below_sound 16 _ n hex_table h)

hexify-IsClean : (n : ℕ) → n < 16 → IsClean (hexify n)
unfolding hexify
hexify-IsClean n h = ground arith

percent_decode-plain :
    (c : ℕ) (s : Bytes)
    → (c == b'%') ≡ false
    → percent_decode (c ∷ s) ≡ cons_byte c (percent_decode s)
unfolding percent_decode
percent_decode-plain c [] h = ground (arith, h)
percent_decode-plain c (d ∷ []) h = ground (arith, h)
percent_decode-plain c (d ∷ e ∷ s) h = ground (arith, h)

-- An unescaped byte is no percent sign and clean.
unescaped : (c : ℕ) → is_escaped c ≡ false → ((c == b'%') ≡ false) × IsClean c
unfolding is_escaped
unescaped c h = ground (arith, h)

percent_decode-escape :
    (x y : ℕ) (s : Bytes)
    → x < 16
    → y < 16
    → percent_decode (b'%' ∷ hexify x ∷ hexify y ∷ s)
      ≡ join_hex (some x) (some y) (percent_decode s)
unfolding percent_decode
percent_decode-escape x y s h k = rw (hex_value-hexify x h, hex_value-hexify y k)

join_hex-nibbles :
    (c : ℕ) (o : Option Bytes)
    → c < 256
    → join_hex (some (c / 16 % 16)) (some (c % 16)) o ≡ cons_byte c o
join_hex-nibbles c none h = refl
join_hex-nibbles c (some s) h = ap (λ (x : ℕ). some (x ∷ s)) (omega arith)

percent_decode-encode_byte :
    (c : ℕ) (s : Bytes)
    → c < 256
    → percent_decode (encode_byte c ++ s) ≡ cons_byte c (percent_decode s)
unfolding encode_byte
percent_decode-encode_byte c s h = elim (Bool-cases (is_escaped c)) [
  | inl escape ↦
      rw (escape, bit_and_mask 4 (c / 16), bit_and_mask 4 c)
        (percent_decode-escape (c / 16 % 16) (c % 16) s (omega arith) (omega arith)
          ∙ join_hex-nibbles c (percent_decode s) h)
  | inr plain ↦ rw plain (percent_decode-plain c s (unescaped c plain).0)
]

-- Decoding what is written for a prefix or a path gives it back.
pub decode-write_url_encoded :
    (url : Bytes) → All (λ c. c < 256) url → percent_decode (write_url_encoded url) ≡ some url
unfolding write_url_encoded
decode-write_url_encoded [] h = unfold percent_decode in refl
decode-write_url_encoded (c ∷ url) h =
    percent_decode-encode_byte c (write_url_encoded url) h.0
    ∙ ap (cons_byte c) (decode-write_url_encoded url h.1)

encode_byte-IsClean :
    (c : ℕ)
    → c < 256
    → All IsClean (encode_byte c) × (length (encode_byte c) ≤ 3) × (1 ≤ length (encode_byte c))
unfolding encode_byte
encode_byte-IsClean c h = elim (Bool-cases (is_escaped c)) [
  | inl escape ↦
      rw (escape, bit_and_mask 4 (c / 16), bit_and_mask 4 c)
        (ground (
          arith,
          hexify-IsClean (c / 16 % 16) (omega arith),
          hexify-IsClean (c % 16) (omega arith),
        ))
  | inr plain ↦ rw plain (ground (arith, unescaped c plain))
]

-- What is written holds neither spaces and control bytes nor bytes from 128 on, and it has at most
-- three bytes for each byte of the text.
write_url_encoded-IsClean :
    (url : Bytes)
    → All (λ c. c < 256) url
    → All IsClean (write_url_encoded url)
      × (length (write_url_encoded url) ≤ 3 * length url)
      × (length url ≤ length (write_url_encoded url))
unfolding write_url_encoded
write_url_encoded-IsClean [] h = (tt, omega arith, omega arith)
write_url_encoded-IsClean (c ∷ url) h =
    let (clean, most, least) = write_url_encoded-IsClean url h.1 in
    let (clean', most', least') = encode_byte-IsClean c h.0 in
    let e = length-append (encode_byte c) (write_url_encoded url) in
    (
      All-append IsClean (encode_byte c) (write_url_encoded url) clean' clean,
      omega (arith, e),
      omega (arith, e),
    )
