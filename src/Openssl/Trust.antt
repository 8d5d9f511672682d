-- ===== src/Openssl/Trust.antt =====
-- Which certificates are trusted: `load_certs`, `load_cert`, `cert_verify_cb` and
-- `tls_set_cert_verify` of src/openssl/engine.c. A `X509_STORE`, the reader of PEM text and the file
-- system are outside.
use tlsuv.Base.{
  ℕ, zero, suc, ◌<◌, Bytes, Bool, true, Option, none, some, List, [], ◌∷◌, ◌++◌, length,
  length-append, ◌≡◌, arith, if◌then◌else◌,
}

-- `X509_STORE_new` and `X509_STORE_add_cert`; `X509_STORE_load_locations` for a file; one call of
-- `PEM_read_bio_X509`, with the bytes that it leaves; `stat`, with whether S_IFREG is set; and what
-- the file holds that `fopen` opens.
pub record StoreLibrary (C St : Type 0) : Type 0 where
  pub new : St
  pub add_cert : St → C → St
  pub load_locations : Bytes → St → St × Bool
  pub read_pem : Bytes → Option (C × Bytes)
  pub stat : Bytes → Option Bool
  pub fopen : Bytes → Option Bytes

-- The part of `struct openssl_ctx`: the check of the application on its context, which returns 0 or
-- not, and whether the `SSL_CTX` asks for a certificate and calls `cert_verify_cb` for it.
pub record TrustContext (St : Type 0) : Type 0 where
  pub cert_verify_f : Option (St → Bool)
  pub verify_peer : Bool
  pub calls_back : Bool

module _ {C St : Type 0} (lib : StoreLibrary C St) where
  -- The loop that reads certificates until there is none. A read that gives one takes at least a
  -- byte, so a turn for each byte, and one more, are enough.
  unfoldable pub read_all : ℕ → Bytes → St → St
  read_all zero buf store = store
  read_all (suc n) buf store = elim (lib.read_pem buf) [
    | none ↦ store
    | some (c, rest) ↦ read_all n rest (lib.add_cert store c)
  ]

  -- `load_certs` on a text and its bytes up to the first NUL, which are tried as a name first. A
  -- failure leaves the store empty.
  unfoldable pub load_certs : Bytes → Bytes → St
  load_certs buf name = elim (lib.stat name) [
    | some regular ↦ if regular then (lib.load_locations name lib.new).0 else lib.new
    | none ↦ read_all (suc (length buf)) buf lib.new
  ]

  abbrev store_with : Option (C × Bytes) → Option St
  store_with none = none
  store_with (some (c, rest)) = some (lib.add_cert lib.new c)

  -- `load_cert`: the first certificate alone; `none` for -1.
  unfoldable pub load_cert : Bytes → Bytes → Option St
  load_cert buf name = elim (lib.fopen name) [
    | some text ↦ store_with (lib.read_pem text)
    | none ↦ store_with (lib.read_pem buf)
  ]

  -- `tls_set_cert_verify`
  unfoldable pub tls_set_cert_verify : TrustContext St → Option (St → Bool) → TrustContext St
  tls_set_cert_verify c verify_f = record c {
    cert_verify_f = verify_f;
    verify_peer = true;
    calls_back = true;
  }

  -- `cert_verify_cb`: true for 1.
  unfoldable pub cert_verify_cb : TrustContext St → C → Bool
  cert_verify_cb c crt = elim c.cert_verify_f [
    | none ↦ true
    | some verify_f ↦ verify_f (lib.add_cert lib.new crt)
  ]

  -- What a list of certificates leaves in a store.
  unfoldable pub add_all : List C → St → St
  add_all [] store = store
  add_all (c ∷ cs) store = add_all cs (lib.add_cert store c)

module _ {C St : Type 0} (lib : StoreLibrary C St) (to_pem : C → Bytes) where
  -- What the reader documents on PEM texts that were written one behind the other, none of them
  -- empty.
  pub record Reads : Type 0 where
    pub at_end : lib.read_pem [] ≡ none
    pub at_cert : (c : C) (rest : Bytes) → lib.read_pem (to_pem c ++ rest) ≡ some (c, rest)
    pub some_bytes : (c : C) → 0 < length (to_pem c)

  unfoldable pub bundle : List C → Bytes
  bundle [] = []
  bundle (c ∷ cs) = to_pem c ++ bundle cs

  read_all-bundle :
      (cs : List C) (n : ℕ) (store : St)
      → Reads
      → length cs < n
      → read_all lib n (bundle cs) store ≡ add_all lib cs store
  unfolding read_all bundle add_all
  read_all-bundle cs zero store reads bound = absurd (ground (arith, bound))
  read_all-bundle [] (suc n) store reads bound = ground (arith, reads.at_end)
  read_all-bundle (c ∷ cs) (suc n) store reads bound = ground (
    arith,
    reads.at_cert c (bundle cs),
    read_all-bundle cs n (lib.add_cert store c) reads (omega (arith, bound)),
  )

  length-bundle : (cs : List C) → Reads → length cs < suc (length (bundle cs))
  unfolding bundle
  length-bundle [] reads = omega arith
  length-bundle (c ∷ cs) reads =
      omega
        (arith, length-append (to_pem c) (bundle cs), reads.some_bytes c, length-bundle cs reads)

  -- A text of certificates, which is not the name of a file, gives `load_certs` a store with all of
  -- them, in their order; and `load_cert` a store with the first.
  load_certs-bundle :
      (c : C) (cs : List C) (name : Bytes)
      → Reads
      → lib.stat name ≡ none
      → lib.fopen name ≡ none
      → (load_certs lib (bundle (c ∷ cs)) name ≡ add_all lib (c ∷ cs) lib.new)
        × (load_cert lib (bundle (c ∷ cs)) name ≡ some (lib.add_cert lib.new c))
  unfolding load_certs load_cert
  load_certs-bundle c cs name reads no_entry no_file =
      let size = length-bundle (c ∷ cs) reads in
      (
        ground (
          arith,
          no_entry,
          read_all-bundle (c ∷ cs) (suc (length (bundle (c ∷ cs)))) lib.new reads size,
        ),
        unfold bundle in ground (arith, no_file, reads.at_cert c (bundle cs)),
      )
