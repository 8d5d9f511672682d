-- ===== src/Mbedtls/Identity.antt =====
-- The client's own key and certificate on mbedTLS: `mbedtls_load_cert`, `mbedtls_set_own_key` and
-- `mbedtls_set_own_cert` of src/mbedtls/engine.c. The configuration of mbedTLS and its parser of
-- certificates are outside; a text that is not a certificate is taken for the name of a file.
use tlsuv.Base.{ℕ, Bytes, Option, none, some, List, ◌∷◌, ◌≡◌, arith}
use tlsuv.Mbedtls.Keys.{terminated}

-- The result of mbedTLS's parsers: how many certificates of the text could not be read, or an
-- error, as its absolute value.
pub data ParseRc : Type 0 where
  parsed parse_error : ℕ → ParseRc

-- `mbedtls_x509_crt_parse` and `mbedtls_x509_crt_parse_file` on a chain, and
-- `mbedtls_ssl_conf_own_cert` with the address of a key: the configuration, and its result.
pub record CrtLibrary (S X : Type 0) : Type 0 where
  pub empty : X
  pub crt_parse : Bytes → X → X × ParseRc
  pub crt_parse_file : Bytes → X → X × ParseRc
  pub conf_own_cert : X → ℕ → S → S × Option ℕ

-- The part of `struct mbedtls_context`: a key is its address. `freed` holds the keys that were
-- freed, the last one first.
pub record OwnContext (S X : Type 0) : Type 0 where
  pub config : S
  pub own_key : Option ℕ
  pub own_cert : Option X
  pub freed : List ℕ

-- What a call returns: -1, the result of the parser, the error of `mbedtls_ssl_conf_own_cert` as its
-- absolute value; or that it calls through a key that is NULL.
pub data OwnRc : Type 0 where
  minus_one null_key : OwnRc
  parse_rc : ParseRc → OwnRc
  conf_rc : Option ℕ → OwnRc

module _ {S X : Type 0} (lib : CrtLibrary S X) where
  abbrev or_file : Bytes → X × ParseRc → X × ParseRc
  or_file name (x, parsed n) = (x, parsed n)
  or_file name (x, parse_error e) = lib.crt_parse_file name x

  abbrev loaded : X × ParseRc → Option X × ParseRc
  loaded (x, parsed n) = (some x, parsed n)
  loaded (x, parse_error e) = (none, parse_error e)

  -- `mbedtls_load_cert` on bytes that are not empty, which the byte `after` follows in memory; `name`
  -- is the C string that they begin with.
  unfoldable pub load_cert : Bytes → ℕ → Bytes → Option X × ParseRc
  load_cert cert_buf after name =
      loaded (or_file name (lib.crt_parse (terminated cert_buf after) lib.empty))

  -- The end of both functions: the configuration where the key and the certificate are there.
  abbrev configured : X → ℕ → OwnContext S X → OwnContext S X × Option ℕ
  configured x key c =
      let (s, rc) = lib.conf_own_cert x key c.config in (record c { config = s }, rc)

  abbrev key_rc : OwnContext S X × Option ℕ → OwnContext S X × OwnRc
  key_rc (c, none) = (c, conf_rc none)
  key_rc (c, some e) = (c, minus_one)

  abbrev cert_rc : OwnContext S X × Option ℕ → OwnContext S X × OwnRc
  cert_rc (c, rc) = (c, conf_rc rc)

  -- `mbedtls_set_own_key`
  unfoldable pub set_own_key : OwnContext S X → ℕ → OwnContext S X × OwnRc
  set_own_key c key =
      let c' = record c { own_key = some key } in
      elim c.own_cert [ none ↦ (c', conf_rc none) | some x ↦ key_rc (configured x key c') ]

  -- A certificate that was not read: it is dropped, and the key is freed.
  abbrev drop_both : OwnContext S X → ParseRc → OwnContext S X × OwnRc
  drop_both c rc = elim c.own_key [
    | none ↦ (record c { own_cert = none }, null_key)
    | some key ↦ (record c { own_key = none; own_cert = none; freed = key ∷ c.freed }, parse_rc rc)
  ]

  abbrev adopt_cert : OwnContext S X → X × ParseRc → OwnContext S X × OwnRc
  adopt_cert c (x, parse_error e) = drop_both c (parse_error e)
  adopt_cert c (x, parsed n) =
      let c' = record c { own_cert = some x } in
      elim c.own_key [ none ↦ (c', parse_rc (parsed n)) | some key ↦ cert_rc (configured x key c') ]

  -- `mbedtls_set_own_cert`: the text is given to the parser as it is, without a NUL put behind it.
  unfoldable pub set_own_cert : OwnContext S X → Bytes → Bytes → OwnContext S X × OwnRc
  set_own_cert c cert_buf name = adopt_cert c (or_file name (lib.crt_parse cert_buf lib.empty))

  abbrev both_set : OwnContext S X → ℕ → X → OwnContext S X
  both_set c key x = record c {
    config = (lib.conf_own_cert x key c.config).0;
    own_key = some key;
    own_cert = some x;
  }

  key_then_cert :
      (c : OwnContext S X) (key n : ℕ) (cert_buf name : Bytes) (x : X)
      → c.own_cert ≡ none
      → lib.crt_parse cert_buf lib.empty ≡ (x, parsed n)
      → (set_own_cert (set_own_key c key).0 cert_buf name).0 ≡ both_set c key x
  unfolding set_own_cert set_own_key
  key_then_cert c key n cert_buf name x no_cert read = ground (arith, no_cert, read)

  cert_then_key :
      (c : OwnContext S X) (key n : ℕ) (cert_buf name : Bytes) (x : X)
      → c.own_key ≡ none
      → lib.crt_parse cert_buf lib.empty ≡ (x, parsed n)
      → (set_own_key (set_own_cert c cert_buf name).0 key).0 ≡ both_set c key x
  unfolding set_own_cert set_own_key
  cert_then_key c key n cert_buf name x no_key read = ground (arith, no_key, read)
