-- ===== src/Mbedtls/Keys.antt =====
-- Keys of mbedTLS: src/mbedtls/keys.c. A `mbedtls_pk_context` and the functions of mbedTLS on it are
-- parameters; the random numbers come from a generator that is seeded first.
pub mod Laws
use tlsuv.Base.{
  ℕ, ◌+◌, Bytes, Bool, true, false, Option, none, some, List, [], ◌∷◌, ◌++◌, length, ◌==◌,
  if◌then◌else◌, ◌⊎◌, inl, inr,
}
use tlsuv.Openssl.Keys.{HashAlgo}

-- `mbedtls_md`; `mbedtls_pk_verify`; `mbedtls_pk_sign` with the room for the signature;
-- `mbedtls_pk_write_pubkey_pem` and `mbedtls_pk_write_key_pem` with the room, without the NUL;
-- `mbedtls_pk_parse_public_key`, `mbedtls_pk_parse_key` and `mbedtls_pk_parse_keyfile`; the seeding
-- of a generator; `mbedtls_pk_setup` with `mbedtls_ecp_gen_key`. Errors are absolute values.
pub record PkLibrary (K : Type 0) : Type 0 where
  pub md : HashAlgo → Bytes → Option Bytes
  pub pk_verify : K → HashAlgo → Bytes → Bytes → Bool
  pub pk_sign : K → HashAlgo → Bytes → ℕ → Option Bytes
  pub write_pubkey_pem : K → ℕ → Option Bytes
  pub write_key_pem : K → ℕ → ℕ ⊎ Bytes
  pub parse_public_key : Bytes → Option K
  pub parse_key : Bytes → ℕ ⊎ K
  pub parse_keyfile : Bytes → ℕ ⊎ K
  pub seed : Option ℕ
  pub generate : ℕ ⊎ K

-- What `privkey_pubkey` makes: a key, a `mbedtls_pk_context` without one, or what the parser makes
-- of memory that was not written.
pub data PublicOf (K : Type 0) : Type 0 where
  public_key : K → PublicOf K
  no_public_key unwritten : PublicOf K

-- The bytes that the parser is given: with a NUL at the end, or with the byte `after` that stands
-- in memory behind them.
abbrev pub terminated : Bytes → ℕ → Bytes
terminated [] after = after ∷ []
terminated (b ∷ []) after = if b == 0 then b ∷ [] else b ∷ after ∷ []
terminated (b ∷ c ∷ bs) after = b ∷ terminated (c ∷ bs) after

module _ {K : Type 0} (mbed : PkLibrary K) where
  -- `verify_signature`, and `pubkey_verify`; true for 0.
  unfoldable pub verify_signature : K → HashAlgo → Bytes → Bytes → Bool
  verify_signature pk md content sig = elim (mbed.md md content) [
    | none ↦ false
    | some hash ↦ mbed.pk_verify pk md hash sig
  ]

  -- `privkey_sign`, with `*siglen` for the room; a generator that could not be seeded is used all
  -- the same.
  unfoldable pub privkey_sign : K → HashAlgo → Bytes → ℕ → Option Bytes
  privkey_sign pk md content siglen = elim (mbed.md md content) [
    | none ↦ none
    | some hash ↦ mbed.pk_sign pk md hash siglen
  ]

  -- `pubkey_pem`: the text, and its length.
  unfoldable pub pubkey_pem : K → Option (Bytes × ℕ)
  pubkey_pem pk = elim (mbed.write_pubkey_pem pk 1024) [
    | none ↦ none
    | some text ↦ some (text, length text)
  ]

  -- `privkey_pubkey`: through the PEM form, in a buffer of 4096 bytes. No result is looked at.
  unfoldable pub privkey_pubkey : K → PublicOf K
  privkey_pubkey pk = elim (mbed.write_pubkey_pem pk 4096) [
    | none ↦ unwritten
    | some text ↦ elim (mbed.parse_public_key (text ++ 0 ∷ [])) [
      | none ↦ no_public_key
      | some k ↦ public_key k
    ]
  ]

  -- `privkey_to_pem`: the text, and its length with the NUL.
  unfoldable pub privkey_to_pem : K → ℕ ⊎ (Bytes × ℕ)
  privkey_to_pem pk = elim (mbed.write_key_pem pk 4096) [
    | inl code ↦ inl code
    | inr text ↦ inr (text, length text + 1)
  ]

  -- `load_key` on data that is not empty: the text of a key, and then the name of a file.
  unfoldable pub load_key : Bytes → ℕ → ℕ ⊎ K
  load_key keydata after = elim mbed.seed [
    | some code ↦ inl code
    | none ↦ elim (mbed.parse_key (terminated keydata after)) [
      | inr k ↦ inr k
      | inl code ↦ mbed.parse_keyfile keydata
    ]
  ]

  -- `gen_key`
  unfoldable pub gen_key : ℕ ⊎ K
  gen_key = elim mbed.seed [ some code ↦ inl code | none ↦ mbed.generate ]
