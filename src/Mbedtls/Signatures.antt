-- ===== src/Mbedtls/Signatures.antt =====
-- Signatures: `mbedtls_verify_signature` and `mbedtls_sig_to_asn1` of src/mbedtls/engine.c, and the
-- keys on a token of src/mbedtls/p11_ecdsa.c and src/mbedtls/p11_rsa.c. The functions of mbedTLS are
-- parameters, and so is the token.
pub mod Rsa
pub mod Ecdsa
use tlsuv.Base.{
  ℕ, ◌+◌, ◌-◌, Bytes, Bool, true, false, ◌||◌, Option, none, some, List, [], ◌∷◌, ◌++◌, length,
  take, drop, ltb, if◌then◌else◌,
}
use tlsuv.P11.{Rv, ckr_ok, ckr, Driver, Context}
use tlsuv.P11.Sign.{halves}
use tlsuv.Mbedtls.Pkcs7.Der.{der_length}
use tlsuv.Openssl.Keys.{HashAlgo}

-- The digests that `get_md_prefix` knows.
pub data Md : Type 0 where
  md5 sha1 sha224 sha256 sha384 sha512 ripemd160 : Md

-- HASH_HEADERS
unfoldable pub get_md_prefix : Md → Bytes
get_md_prefix md5 =
    0x30 ∷ 0x20 ∷ 0x30 ∷ 0x0c ∷ 0x06 ∷ 0x08 ∷ 0x2a ∷ 0x86 ∷ 0x48 ∷ 0x86 ∷ 0xf7 ∷ 0x0d ∷ 0x02 ∷ 0x05
    ∷ 0x05 ∷ 0x00 ∷ 0x04 ∷ 0x10 ∷ []
get_md_prefix sha1 =
    0x30 ∷ 0x21 ∷ 0x30 ∷ 0x09 ∷ 0x06 ∷ 0x05 ∷ 0x2b ∷ 0x0e ∷ 0x03 ∷ 0x02 ∷ 0x1a ∷ 0x05 ∷ 0x00 ∷ 0x04
    ∷ 0x14 ∷ []
get_md_prefix sha224 =
    0x30 ∷ 0x2d ∷ 0x30 ∷ 0x0d ∷ 0x06 ∷ 0x09 ∷ 0x60 ∷ 0x86 ∷ 0x48 ∷ 0x01 ∷ 0x65 ∷ 0x03 ∷ 0x04 ∷ 0x02
    ∷ 0x04 ∷ 0x05 ∷ 0x00 ∷ 0x04 ∷ 0x1c ∷ []
get_md_prefix sha256 =
    0x30 ∷ 0x31 ∷ 0x30 ∷ 0x0d ∷ 0x06 ∷ 0x09 ∷ 0x60 ∷ 0x86 ∷ 0x48 ∷ 0x01 ∷ 0x65 ∷ 0x03 ∷ 0x04 ∷ 0x02
    ∷ 0x01 ∷ 0x05 ∷ 0x00 ∷ 0x04 ∷ 0x20 ∷ []
get_md_prefix sha384 =
    0x30 ∷ 0x41 ∷ 0x30 ∷ 0x0d ∷ 0x06 ∷ 0x09 ∷ 0x60 ∷ 0x86 ∷ 0x48 ∷ 0x01 ∷ 0x65 ∷ 0x03 ∷ 0x04 ∷ 0x02
    ∷ 0x02 ∷ 0x05 ∷ 0x00 ∷ 0x04 ∷ 0x30 ∷ []
get_md_prefix sha512 =
    0x30 ∷ 0x51 ∷ 0x30 ∷ 0x0d ∷ 0x06 ∷ 0x09 ∷ 0x60 ∷ 0x86 ∷ 0x48 ∷ 0x01 ∷ 0x65 ∷ 0x03 ∷ 0x04 ∷ 0x02
    ∷ 0x03 ∷ 0x05 ∷ 0x00 ∷ 0x04 ∷ 0x40 ∷ []
get_md_prefix ripemd160 =
    0x30 ∷ 0x20 ∷ 0x30 ∷ 0x08 ∷ 0x06 ∷ 0x06 ∷ 0x28 ∷ 0xcf ∷ 0x06 ∷ 0x03 ∷ 0x00 ∷ 0x31 ∷ 0x04 ∷ 0x14
    ∷ []

-- `struct mp11_key_ctx_s`
pub record TokenKey : Type 0 where
  pub priv_handle : ℕ
  pub pub_handle : ℕ
  pub sign_mechanism : ℕ
  pub ctx : Context

-- The result of a signing function: the signature with 0, or
-- MBEDTLS_ERR_PLATFORM_HW_ACCEL_FAILED.
pub data Signed : Type 0 where
  signed : Bytes → Signed
  hw_failed bad_input : Signed

module _ {D : Type 0} (driver : Driver D) where
  -- `C_SignInit` and `C_Sign` into a buffer of so many bytes.
  unfoldable pub token_sign : TokenKey → Bytes → ℕ → D → D × Signed
  token_sign key msg room d =
      let (d1, rv1) = driver.sign_init key.ctx.session key.sign_mechanism key.priv_handle d in
      elim rv1 [
        | ckr code ↦ (d1, hw_failed)
        | ckr_ok ↦
            (let (d2, rv2, raw) = driver.sign key.ctx.session msg room d1 in
              elim rv2 [ ckr code ↦ (d2, hw_failed) | ckr_ok ↦ (d2, signed raw) ])
      ]

  -- `p11_rsa_sign` on the bytes from `hash` on; of them, the size of the digest counts, which is
  -- what `mbedtls_md_get_size` says, where mbedTLS knows the digest. It is `none` for one that is not
  -- in HASH_HEADERS.
  unfoldable pub p11_rsa_sign :
      (Option Md → Option ℕ) → TokenKey → Option Md → Bytes → D → D × Signed
  unfolding get_md_prefix token_sign
  p11_rsa_sign md_size key md hash d = elim (md_size md) [
    | none ↦ (d, bad_input)
    | some n ↦ elim md [
      | none ↦ (d, hw_failed)
      | some m ↦ token_sign key (get_md_prefix m ++ take n hash) 4096 d
    ]
  ]

-- MBEDTLS_ASN1_CHK_ADD on a function that writes in front of what is written; `none` where there is
-- no room for it.
abbrev pub chk_add : ℕ → Bytes → Option Bytes → Option Bytes
chk_add room part none = none
chk_add room part (some written) =
    if ltb (room - length written) (length part) then none else some (part ++ written)

module _ (write_mpi : Bytes → Bytes) (ecdsa_max_len : ℕ) where
  -- `ecdsa_signature_to_asn1`, and the second part of `mbedtls_sig_to_asn1`; `write_mpi` is what
  -- `mbedtls_mpi_read_binary` and `mbedtls_asn1_write_mpi` make of a number.
  unfoldable pub signature_to_asn1 : Bytes → Bytes → Option Bytes
  signature_to_asn1 r s =
      let len = length (write_mpi s) + length (write_mpi r) in
      chk_add ecdsa_max_len (0x30 ∷ []) (
        chk_add ecdsa_max_len (der_length len)
          (chk_add ecdsa_max_len (write_mpi r) (chk_add ecdsa_max_len (write_mpi s) (some []))))

  -- `mbedtls_sig_to_asn1`
  unfoldable pub sig_to_asn1 : Bytes → Option Bytes
  unfolding signature_to_asn1
  sig_to_asn1 sig = let (r, s) = halves (length sig) sig in signature_to_asn1 r s

  -- `p11_ecdsa_sign`: the result of `ecdsa_signature_to_asn1` is not looked at; `before` is what
  -- `sig` holds then.
  unfoldable pub to_asn1_or : Bytes → Signed → Signed
  to_asn1_or before hw_failed = hw_failed
  to_asn1_or before bad_input = bad_input
  to_asn1_or before (signed raw) = elim (sig_to_asn1 raw) [
    | none ↦ signed before
    | some asn1 ↦ signed asn1
  ]

  unfoldable pub p11_ecdsa_sign :
      {D : Type 0} → Driver D → TokenKey → ℕ → Bytes → Bytes → D → D × Signed
  unfolding to_asn1_or
  p11_ecdsa_sign driver key max_pt_len before hash d =
      let (d', raw) = token_sign driver key hash max_pt_len d in (d', to_asn1_or before raw)

-- `mbedtls_md`, the key of a certificate, MBEDTLS_PK_ECKEY, and `mbedtls_pk_verify` on a signature.
pub record PkVerifier (K : Type 0) : Type 0 where
  pub md : HashAlgo → Bytes → Option Bytes
  pub is_eckey : K → Bool
  pub pk_verify : K → HashAlgo → Bytes → Bytes → Bool

module _ {K : Type 0} (pk : PkVerifier K) (write_mpi : Bytes → Bytes) (ecdsa_max_len : ℕ) where
  -- The result of a check of the converted signature; without one, its length is no length.
  abbrev second_check : K → HashAlgo → Bytes → Option Bytes → Option Bool
  second_check key md hash none = none
  second_check key md hash (some asn1) = some (pk.pk_verify key md hash asn1)

  -- `mbedtls_verify_signature`, true for 0; `none` where memory is read past its end.
  unfoldable pub verify_signature : K → HashAlgo → Bytes → Bytes → Option Bool
  verify_signature key md content sig = elim (pk.md md content) [
    | none ↦ some false
    | some hash ↦
        if pk.pk_verify key md hash sig
        then some true
        else if pk.is_eckey key
        then second_check key md hash (sig_to_asn1 write_mpi ecdsa_max_len sig)
        else some false
  ]
