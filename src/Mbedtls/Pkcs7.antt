-- ===== src/Mbedtls/Pkcs7.antt =====
-- Certificates in PKCS#7 form: `parse_pkcs7_certs` of src/mbedtls/engine.c. The functions of mbedTLS
-- that it calls are parameters.
pub mod Der
pub mod Laws
use tlsuv.Base.{
  ℕ, zero, suc, ◌+◌, ◌-◌, Bytes, Bool, true, false, Option, none, some, List, [], ◌∷◌, ◌++◌,
  bytes_eq, take, drop, length, if◌then◌else◌,
}

-- The tags that are asked for, by their numbers.
abbrev pub tag_oid : ℕ
tag_oid = 0x06

abbrev pub tag_sequence : ℕ
tag_sequence = 0x30

abbrev pub tag_set : ℕ
tag_set = 0x31

abbrev pub tag_context : ℕ
tag_context = 0xa0

-- MBEDTLS_OID_PKCS and `OID_PKCS7` before the last byte: 1.2.840.113549.1.7.
abbrev pub oid_pkcs7 : Bytes
oid_pkcs7 = 0x2a ∷ 0x86 ∷ 0x48 ∷ 0x86 ∷ 0xf7 ∷ 0x0d ∷ 0x01 ∷ 0x07 ∷ []

-- `OID_PKCS7_DATA` and `OID_PKCS7_SIGNED_DATA`, as they are defined in the file.
abbrev pub oid_pkcs7_data : Bytes
oid_pkcs7_data = oid_pkcs7 ++ 0x02 ∷ []

abbrev pub oid_pkcs7_signed_data : Bytes
oid_pkcs7_signed_data = oid_pkcs7 ++ 0x01 ∷ []

-- `mbedtls_base64_decode`; `mbedtls_asn1_get_tag` on the bytes before `end`, with the length that it
-- read and the bytes from the content on; `mbedtls_asn1_get_int`, with the bytes behind it; and
-- `mbedtls_x509_crt_parse` on one certificate. `none` is an error.
pub record Asn1 (X : Type 0) : Type 0 where
  pub base64_decode : Bytes → Option Bytes
  pub get_tag : ℕ → Bytes → Option (ℕ × Bytes)
  pub get_int : Bytes → Option Bytes
  pub crt_parse : Bytes → Option X

-- The result: the chain with 0, or an error.
pub data Parsed (X : Type 0) : Type 0 where
  parse_failed invalid_oid : Parsed X
  parsed : List X → Parsed X

module _ {X : Type 0} (mbed : Asn1 X) where
  -- The loop over the certificates; there is a round for each, and a last one.
  unfoldable pub read_certs : ℕ → List X → Bytes → Parsed X
  read_certs zero certs cert_buf = parsed certs
  read_certs (suc fuel) certs cert_buf = elim (mbed.get_tag tag_sequence cert_buf) [
    | none ↦ parsed certs
    | some (len, cbp) ↦
        let cert_len = len + (length cert_buf - length cbp) in
        elim (mbed.crt_parse (take cert_len cert_buf)) [
          | none ↦ parse_failed
          | some x ↦ read_certs fuel (certs ++ x ∷ []) (drop cert_len cert_buf)
        ]
  ]

  -- One tag, and what follows on its content; the length is dropped.
  unfoldable pub expect : ℕ → (Bytes → Parsed X) → Bytes → Parsed X
  expect tag next p = elim (mbed.get_tag tag p) [ none ↦ parse_failed | some (len, q) ↦ next q ]

  -- An OID, and what follows behind it. MBEDTLS_OID_CMP is not 0 where the OIDs differ, so the one
  -- that is named is the one that is refused.
  unfoldable pub expect_oid : Bytes → (Bytes → Parsed X) → Bytes → Parsed X
  expect_oid oid next p = elim (mbed.get_tag tag_oid p) [
    | none ↦ parse_failed
    | some (len, q) ↦ if bytes_eq oid (take len q) then invalid_oid else next (drop len q)
  ]

  unfoldable pub expect_int : (Bytes → Parsed X) → Bytes → Parsed X
  expect_int next p = elim (mbed.get_int p) [ none ↦ parse_failed | some q ↦ next q ]

  -- The content behind the first OID.
  unfoldable pub parse_signed_data : Bytes → Parsed X
  unfolding read_certs expect expect_oid expect_int
  parse_signed_data p =
      expect tag_context
        (expect tag_sequence (
          expect_int (
            expect tag_set (
              expect tag_sequence (
                expect_oid oid_pkcs7_data (
                  expect tag_context
                    (λ cert_buf. read_certs (length cert_buf + 1) [] cert_buf)))))))
        p

  -- `parse_pkcs7_certs`
  unfoldable pub parse_pkcs7_certs : Bytes → Parsed X
  unfolding parse_signed_data
  parse_pkcs7_certs pkcs7 = elim (mbed.base64_decode pkcs7) [
    | none ↦ parse_failed
    | some der ↦ expect tag_sequence (expect_oid oid_pkcs7_signed_data parse_signed_data) der
  ]
