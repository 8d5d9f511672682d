-- ===== src/Mbedtls/Pkcs7/Der.antt =====
-- DER (X.690): an element is its tag, its length and its content. The messages of RFC 5652 that
-- carry certificates only.
use tlsuv.Base.{
  ℕ, ◌+◌, ◌*◌, ◌/◌, ◌%◌, ◌^◌, ◌<◌, ◌≡◌, Bytes, Option, none, some, List, [], ◌∷◌, ◌++◌, length,
  concat, ltb, if◌then◌else◌, arith, ◌==◌, length-append, append_assoc,
}

-- A length below 2 ^ 24.
unfoldable pub der_length : ℕ → Bytes
der_length n =
    if ltb n 128
    then n ∷ []
    else if ltb n 256
    then 0x81 ∷ n ∷ []
    else if ltb n 65536
    then 0x82 ∷ n / 256 ∷ n % 256 ∷ []
    else 0x83 ∷ n / 65536 ∷ n / 256 % 256 ∷ n % 256 ∷ []

unfoldable pub der : ℕ → Bytes → Bytes
der tag content = tag ∷ der_length (length content) ++ content

-- A reader of an element: the length of the content, and the bytes from the content on. It fails
-- where the content does not end within the bytes.
unfoldable pub within : ℕ → Bytes → Option (ℕ × Bytes)
within n bs = if ltb (length bs) n then none else some (n, bs)

abbrev one_byte : Bytes → Option (ℕ × Bytes)
one_byte [] = none
one_byte (c ∷ bs) = within c bs

abbrev two_bytes : Bytes → Option (ℕ × Bytes)
two_bytes (c ∷ d ∷ bs) = within (c * 256 + d) bs
two_bytes _ = none

abbrev three_bytes : Bytes → Option (ℕ × Bytes)
three_bytes (c ∷ d ∷ e ∷ bs) = within ((c * 256 + d) * 256 + e) bs
three_bytes _ = none

unfoldable pub read_length : Bytes → Option (ℕ × Bytes)
read_length [] = none
read_length (b ∷ bs) =
    if ltb b 128
    then within b bs
    else if b == 0x81
    then one_byte bs
    else if b == 0x82
    then two_bytes bs
    else if b == 0x83
    then three_bytes bs
    else none

unfoldable pub read_tag : ℕ → Bytes → Option (ℕ × Bytes)
read_tag tag [] = none
read_tag tag (t ∷ bs) = let rest = read_length bs in if t == tag then rest else none

-- A ContentInfo with the content `oid` and an inner content `inner`, the elements of certificates,
-- and what may follow them.
unfoldable pub content_info : Bytes → Bytes → List Bytes → Bytes → Bytes
content_info oid inner certs after = der 0x30 (
    der 0x06 oid
    ++ der 0xa0 (
        der 0x30 (
          der 0x02 (0x01 ∷ [])
          ++ (der 0x31 [] ++ (der 0x30 (der 0x06 inner) ++ (der 0xa0 (concat certs) ++ after))))))

read_length-der_length :
    (n : ℕ) (bs : Bytes) → n < 2 ^ 24 → read_length (der_length n ++ bs) ≡ within n bs
unfolding read_length der_length
read_length-der_length n bs small = ground (arith, small, back)
  where
    back : n / 65536 * 256 + n / 256 % 256 ≡ n / 256
    back = omega arith

within-append :
    (content rest : Bytes)
    → within (length content) (content ++ rest) ≡ some (length content, content ++ rest)
unfolding within
within-append content rest = ground (arith, length-append content rest)

-- The reader gives back the content of an element.
pub read_tag-der :
    (tag : ℕ) (content rest : Bytes)
    → length content < 2 ^ 24
    → read_tag tag (der tag content ++ rest) ≡ some (length content, content ++ rest)
unfolding read_tag der
read_tag-der tag content rest small = ground (
  arith,
  append_assoc (der_length (length content)) content rest,
  read_length-der_length (length content) (content ++ rest) small,
  within-append content rest,
)
