-- ===== src/Openssl/Keys.antt =====
-- Keys on a PKCS#11 token as OpenSSL keys, and the check of signatures: src/openssl/keys.c. What
-- OpenSSL makes of bytes is a parameter.
pub mod Laws
pub mod Memory
use tlsuv.Base.{
  ℕ, zero, suc, ◌/◌, Bytes, Bool, true, false, Option, none, some, List, [], ◌∷◌, length, take,
  drop, ◌==◌, if◌then◌else◌,
}
use tlsuv.P11.{
  Rc, rc_ok, minus_one, out_of_bounds, rc_ckr, Driver, Context, KeyContext, ckk_ec, ckk_rsa,
  cka_ec_params, cka_ec_point, cka_public_exponent, cka_modulus,
}
use tlsuv.P11.Setup.{Loading, p11_init}
use tlsuv.P11.Load.{load_key}
use tlsuv.P11.Generate.{gen_key}
use tlsuv.P11.Certs.{get_key_attr, get_key_cert, store_key_cert}
use tlsuv.P11.Certs.{get_key_cert, store_key_cert}
use tlsuv.P11.Sign.{halves}

-- `d2i_ECParameters`, `d2i_ASN1_OCTET_STRING`, `o2i_ECPublicKey` and `EVP_PKEY_set1_EC_KEY`.
pub record EcLibrary (E : Type 0) : Type 0 where
  pub ec_parameters : Bytes → Option E
  pub octet_string : Bytes → Option Bytes
  pub public_point : E → Bytes → Option E
  pub set_key : E → Bool

-- An `EVP_PKEY`: just made, or with a key.
pub data Pkey (E : Type 0) : Type 0 where
  no_key : Pkey E
  ec_key : E → Pkey E
  rsa_key : Bytes → Bytes → Pkey E

-- `struct priv_key_s` for a key on a token; `on_token` is what the method data of the key points to.
pub record PrivateKey (E : Type 0) : Type 0 where
  pub pkey : Pkey E
  pub on_token : Option KeyContext

-- What is left of the context of a token's key in the key that it was set for.
abbrev pub held : {E : Type 0} → Pkey E → KeyContext → Option KeyContext
held no_key key = none
held (ec_key e) key = some key
held (rsa_key n e) key = some key

abbrev bytes_or : Bytes → Option Bytes → Bytes
bytes_or b none = b
bytes_or b (some c) = c

-- `goto error` in `load_pkcs11_key`: -1, where the memory is still sound.
abbrev failed : Rc → Rc
failed out_of_bounds = out_of_bounds
failed _ = minus_one

module _ {D E : Type 0} (driver : Driver D) (lib : EcLibrary E) where
  abbrev pub set_point : E → Bytes → Pkey E
  set_point ec value = elim (lib.public_point ec (bytes_or value (lib.octet_string value))) [
    | none ↦ no_key
    | some key ↦ if lib.set_key key then ec_key key else no_key
  ]

  -- `load_pkcs11_ec`: what `pkey` is then; `no_key` where the result is -1.
  unfoldable pub load_pkcs11_ec : Context → KeyContext → D → D × Pkey E
  load_pkcs11_ec p11 key d =
      let (d1, _, params) = get_key_attr driver p11 key cka_ec_params d in
      elim params [
        | none ↦ (d1, no_key)
        | some a ↦ elim (lib.ec_parameters a) [
          | none ↦ (d1, no_key)
          | some ec ↦
              (let (d2, _, point) = get_key_attr driver p11 key cka_ec_point d1 in
                elim point [ none ↦ (d2, no_key) | some value ↦ (d2, set_point ec value) ])
        ]
      ]

  -- `load_pkcs11_rsa`: modulus and public exponent.
  unfoldable pub load_pkcs11_rsa : Context → KeyContext → D → D × Pkey E
  load_pkcs11_rsa p11 key d =
      let (d1, _, exponent) = get_key_attr driver p11 key cka_public_exponent d in
      elim exponent [
        | none ↦ (d1, no_key)
        | some e ↦
            (let (d2, _, modulus) = get_key_attr driver p11 key cka_modulus d1 in
              elim modulus [ none ↦ (d2, no_key) | some n ↦ (d2, rsa_key n e) ])
      ]

  -- The switch on the type of the key in `load_pkcs11_key` and `gen_pkcs11_key`: the results of
  -- `load_pkcs11_ec` and `load_pkcs11_rsa` are not looked at.
  unfoldable pub make_key : Context → KeyContext → D → D × Rc × Option (PrivateKey E)
  unfolding load_pkcs11_ec load_pkcs11_rsa
  make_key p11 key d =
      let (d_ec, ec) = load_pkcs11_ec p11 key d in
      let (d_rsa, rsa) = load_pkcs11_rsa p11 key d in
      if key.kind == ckk_ec
      then (d_ec, rc_ok, some (record { pkey = ec; on_token = held ec key }))
      else if key.kind == ckk_rsa
      then (d_rsa, rc_ok, some (record { pkey = rsa; on_token = held rsa key }))
      else (d, minus_one, none)

  -- `load_pkcs11_key`, where `mem` is what the memory of the id holds.
  unfoldable pub load_pkcs11_key :
      Loading
      → Option Bytes
      → Bytes
      → Bytes
      → Option Bytes
      → Option Bytes
      → D
      → D × Rc × Option (PrivateKey E)
  load_pkcs11_key loading slot pin mem id label d =
      let (d1, rc, ctx) = p11_init driver loading slot pin d in
      elim ctx [
        | none ↦ (d1, rc, none)
        | some p11 ↦
            (let (d2, rc', found) = load_key driver p11 mem id label d1 in
              elim found [ none ↦ (d2, failed rc', none) | some key ↦ make_key p11 key d2 ])
      ]

  -- `gen_pkcs11_key`
  unfoldable pub gen_pkcs11_key :
      Loading → Option Bytes → Bytes → Option Bytes → D → D × Rc × Option (PrivateKey E)
  gen_pkcs11_key loading slot pin label d =
      let (d1, rc, ctx) = p11_init driver loading slot pin d in
      elim ctx [
        | none ↦ (d1, rc, none)
        | some p11 ↦
            (let (d2, _, made) = gen_key driver p11 label d1 in
              elim made [ none ↦ (d2, minus_one, none) | some key ↦ make_key p11 key d2 ])
      ]

-- `enum hash_algo`
pub data HashAlgo : Type 0 where
  hash_sha256 hash_sha384 hash_sha512 : HashAlgo

-- `EVP_PKEY_id` compared with EVP_PKEY_EC, `d2i_ECDSA_SIG` compared with NULL, the digest, and the
-- checks: `ECDSA_do_verify` on `r` and `s`, and `EVP_DigestVerify` with its setup; whether each of
-- these results is 1, and whether the setup's is not 0.
pub record Verifier (K : Type 0) : Type 0 where
  pub is_ec : K → Bool
  pub is_der : Bytes → Bool
  pub digest : HashAlgo → Bytes → Bytes
  pub ecdsa_verify : K → Bytes → Bytes → Bytes → Bool
  pub verify_init : K → HashAlgo → Bool
  pub digest_verify : K → HashAlgo → Bytes → Bytes → Bool

module _ {K : Type 0} (lib : Verifier K) where
  abbrev pub checked : Bool → Rc
  checked good = if good then rc_ok else minus_one

  -- `verify_ecdsa_sig`
  unfoldable pub verify_ecdsa_sig : K → HashAlgo → Bytes → Bytes → Rc
  verify_ecdsa_sig key md content sig =
      let (r, s) = halves (length sig) sig in
      checked (lib.ecdsa_verify key (lib.digest md content) r s)

  -- `verify_signature`
  unfoldable pub verify_signature : K → HashAlgo → Bytes → Bytes → Rc
  unfolding verify_ecdsa_sig
  verify_signature key md content sig =
      let by_digest =
        if lib.verify_init key md
        then checked (lib.digest_verify key md sig content)
        else minus_one in
      if lib.is_ec key
      then (if lib.is_der sig then by_digest else verify_ecdsa_sig key md content sig)
      else by_digest

-- A certificate to and from DER: `i2d_X509`, `i2d_X509_NAME` of its subject, `d2i_X509`.
pub record CertCodec (C : Type 0) : Type 0 where
  pub to_der : C → Bytes
  pub subject_to_der : C → Bytes
  pub of_der : Bytes → Option C

abbrev pub store_of : {C : Type 0} → Option C → List C
store_of none = []
store_of (some c) = c ∷ []

-- What `privkey_get_cert` returns for the result of `p11_get_key_cert`: a store with the certificate,
-- or an empty one where it is no DER.
abbrev pub cert_store : {C : Type 0} → CertCodec C → Rc → Option Bytes → Rc × Option (List C)
cert_store codec rc_ok (some der) = (rc_ok, some (store_of (codec.of_der der)))
cert_store codec _ _ = (minus_one, none)

module _ {D E C : Type 0} (driver : Driver D) (codec : CertCodec C) where
  -- `privkey_get_cert`
  unfoldable pub privkey_get_cert : PrivateKey E → D → D × Rc × Option (List C)
  privkey_get_cert key d = elim key.on_token [
    | none ↦ (d, minus_one, none)
    | some p11_key ↦ elim p11_key.ctx [
      | none ↦ (d, out_of_bounds, none)
      | some p11 ↦
          (let (d', rc, val) = get_key_cert driver p11 p11_key d in
            let (rc', store) = cert_store codec rc val in (d', rc', store))
    ]
  ]

  -- `privkey_store_cert` for the certificates of a store; without one it goes through NULL.
  unfoldable pub privkey_store_cert : PrivateKey E → List C → D → D × Rc
  privkey_store_cert key certs d = elim key.on_token [
    | none ↦ (d, minus_one)
    | some p11_key ↦ elim p11_key.ctx [
      | none ↦ (d, out_of_bounds)
      | some p11 ↦ elim certs [
        | [] ↦ (d, out_of_bounds)
        | c ∷ cs ↦
            store_key_cert driver p11 p11_key (some (codec.to_der c))
              (some (codec.subject_to_der c)) d
      ]
    ]
  ]
