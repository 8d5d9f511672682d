-- ===== src/Openssl/Keys/Memory.antt =====
-- Keys in memory on OpenSSL: `privkey_sign`, `privkey_pubkey`, `privkey_to_pem`, `pubkey_to_pem` and
-- `load_key` of src/openssl/keys.c. OpenSSL's functions on an `EVP_PKEY` are parameters.
use tlsuv.Base.{Bytes, Bool, Option, none, some, [], ℕ, length, if◌then◌else◌}
use tlsuv.Openssl.Keys.{HashAlgo}

-- Whether `EVP_DigestSignInit` is not 0; `EVP_DigestSign` with the room for the signature;
-- `PEM_write_bio_PUBKEY`, `PEM_read_bio_PUBKEY`, `PEM_write_bio_PKCS8PrivateKey` and
-- `PEM_read_bio_PrivateKey`; and what the file of a name holds, where `fopen` opens one.
pub record KeyLibrary (K : Type 0) : Type 0 where
  pub sign_init : K → HashAlgo → Bool
  pub digest_sign : K → HashAlgo → Bytes → ℕ → Option Bytes
  pub write_pubkey : K → Option Bytes
  pub read_pubkey : Bytes → Option K
  pub write_private : K → Option Bytes
  pub read_private : Bytes → Option K
  pub fopen : Bytes → Option Bytes

module _ {K : Type 0} (lib : KeyLibrary K) where
  -- `privkey_sign`, with `*siglen` for the room; `none` for -1.
  unfoldable pub privkey_sign : K → HashAlgo → Bytes → ℕ → Option Bytes
  privkey_sign pk md content siglen =
      if lib.sign_init pk md then lib.digest_sign pk md content siglen else none

  abbrev written : Option Bytes → Bytes
  written none = []
  written (some text) = text

  -- `privkey_pubkey`: through the PEM form. No result is looked at; `none` for a key that is NULL.
  unfoldable pub privkey_pubkey : K → Option K
  privkey_pubkey pk = lib.read_pubkey (written (lib.write_pubkey pk))

  -- The text and its length, without the NUL.
  abbrev with_length : Option Bytes → Option (Bytes × ℕ)
  with_length none = none
  with_length (some text) = some (text, length text)

  -- `privkey_to_pem`
  unfoldable pub privkey_to_pem : K → Option (Bytes × ℕ)
  privkey_to_pem pk = with_length (lib.write_private pk)

  -- `pubkey_to_pem`
  unfoldable pub pubkey_to_pem : K → Option (Bytes × ℕ)
  pubkey_to_pem pk = with_length (lib.write_pubkey pk)

  -- `load_key`: the data, or the file with the name that they begin with, where one can be opened.
  unfoldable pub load_key : Bytes → Bytes → Option K
  load_key keydata name = elim (lib.fopen name) [
    | none ↦ lib.read_private keydata
    | some text ↦ lib.read_private text
  ]
