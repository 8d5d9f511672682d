-- ===== src/Mbedtls/Signatures/Rsa.antt =====
-- What a token is given to sign with an RSA key: the DigestInfo of RFC 8017, section 9.2.
use tlsuv.Base.{
  Option, some, ℕ, ◌+◌, ◌<◌, ◌≡◌, length-append, refl, ap, sym, ◌∙◌, Bytes, [], ◌∷◌, ◌++◌, length,
  take, take_prefix, arith,
}
use tlsuv.P11.{Driver}
use tlsuv.Mbedtls.Pkcs7.Der.{der, der_length}
use tlsuv.Mbedtls.Signatures.{
  Md, md5, sha1, sha224, sha256, sha384, sha512, ripemd160, get_md_prefix, TokenKey, token_sign,
  p11_rsa_sign,
}

-- The sizes of the digests, and their object identifiers: 1.2.840.113549.2.5, 1.3.14.3.2.26,
-- 2.16.840.1.101.3.4.2.x and 1.0.10118.3.0.49.
abbrev pub size_of : Md → ℕ
size_of md5 = 16
size_of sha1 = 20
size_of sha224 = 28
size_of sha256 = 32
size_of sha384 = 48
size_of sha512 = 64
size_of ripemd160 = 20

abbrev sha2 : ℕ → Bytes
sha2 x = 0x60 ∷ 0x86 ∷ 0x48 ∷ 0x01 ∷ 0x65 ∷ 0x03 ∷ 0x04 ∷ 0x02 ∷ x ∷ []

abbrev pub oid_of : Md → Bytes
oid_of md5 = 0x2a ∷ 0x86 ∷ 0x48 ∷ 0x86 ∷ 0xf7 ∷ 0x0d ∷ 0x02 ∷ 0x05 ∷ []
oid_of sha1 = 0x2b ∷ 0x0e ∷ 0x03 ∷ 0x02 ∷ 0x1a ∷ []
oid_of sha224 = sha2 4
oid_of sha256 = sha2 1
oid_of sha384 = sha2 2
oid_of sha512 = sha2 3
oid_of ripemd160 = 0x28 ∷ 0xcf ∷ 0x06 ∷ 0x03 ∷ 0x00 ∷ 0x31 ∷ []

-- The parameters of the algorithm: NULL, and none for RIPEMD-160.
abbrev pub parameters_of : Md → Bytes
parameters_of ripemd160 = []
parameters_of _ = der 0x05 []

abbrev algorithm_of : Md → Bytes
algorithm_of md = der 0x30 (der 0x06 (oid_of md) ++ parameters_of md)

-- DigestInfo ::= SEQUENCE { AlgorithmIdentifier, OCTET STRING }
unfoldable pub digest_info : Md → Bytes → Bytes
digest_info md hash = der 0x30 (algorithm_of md ++ der 0x04 hash)

der_short :
    (tag n : ℕ) (content : Bytes)
    → length content ≡ n
    → n < 128
    → der tag content ≡ tag ∷ n ∷ content
unfolding der der_length
der_short tag n content size small = ground (arith, size, small)

digest_info_short :
    (md : Md) (n m : ℕ) (hash : Bytes)
    → length hash ≡ n
    → length (algorithm_of md) + (2 + n) ≡ m
    → m < 128
    → digest_info md hash ≡ 0x30 ∷ m ∷ (algorithm_of md ++ 0x04 ∷ n ∷ hash)
unfolding digest_info
digest_info_short md n m hash size whole small =
    ap (λ z. der 0x30 (algorithm_of md ++ z)) (der_short 0x04 n hash size (omega arith))
    ∙ der_short 0x30 m (algorithm_of md ++ 0x04 ∷ n ∷ hash)
        (omega (arith, size, whole, length-append (algorithm_of md) (0x04 ∷ n ∷ hash))) small

prefix-digest_info :
    (md : Md) (hash : Bytes)
    → length hash ≡ size_of md
    → get_md_prefix md ++ hash ≡ digest_info md hash
unfolding get_md_prefix der der_length
prefix-digest_info md5 hash size = sym (digest_info_short md5 16 32 hash size refl (omega arith))
prefix-digest_info sha1 hash size = sym (digest_info_short sha1 20 33 hash size refl (omega arith))
prefix-digest_info sha224 hash size =
    sym (digest_info_short sha224 28 45 hash size refl (omega arith))
prefix-digest_info sha256 hash size =
    sym (digest_info_short sha256 32 49 hash size refl (omega arith))
prefix-digest_info sha384 hash size =
    sym (digest_info_short sha384 48 65 hash size refl (omega arith))
prefix-digest_info sha512 hash size =
    sym (digest_info_short sha512 64 81 hash size refl (omega arith))
prefix-digest_info ripemd160 hash size =
    sym (digest_info_short ripemd160 20 32 hash size refl (omega arith))

-- With an RSA key the token signs the DigestInfo of the hash, in DER, for each digest that is known
-- and whatever follows the hash in memory.
pub p11_rsa_sign_lem :
    {D : Type 0} (driver : Driver D) (md_size : Option Md → Option ℕ) (key : TokenKey) (md : Md)
    (hash rest : Bytes) (d : D)
    → ((m : Md) → md_size (some m) ≡ some (size_of m))
    → length hash ≡ size_of md
    → p11_rsa_sign driver md_size key (some md) (hash ++ rest) d
      ≡ token_sign driver key (digest_info md hash) 4096 d
unfolding p11_rsa_sign
p11_rsa_sign_lem driver md_size key md hash rest d sizes size =
    rw (sizes md, p11_rsa_sign)
      (ap (λ msg. token_sign driver key msg 4096 d)
        (ap (λ n. get_md_prefix md ++ take n (hash ++ rest)) (sym size)
          ∙ ap (◌++◌ (get_md_prefix md)) (take_prefix hash rest)
          ∙ prefix-digest_info md hash size))
