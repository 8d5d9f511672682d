-- ===== src/Openssl/Identity.antt =====
-- The client's own key and certificate: `tls_set_cert_internal`, `tls_set_own_key` and
-- `tls_set_own_cert` of src/openssl/engine.c. The `SSL_CTX` is outside, and so is what
-- `load_certs` reads, the list that `X509_STORE_get0_objects` gives.
pub mod Pairs
use tlsuv.Base.{ℕ, Bytes, Bool, true, false, Option, none, some, List, [], ◌∷◌, ◌==◌, if◌then◌else◌}
use tlsuv.P11.{Rc, rc_ok, minus_one, out_of_bounds, rc_ckr}

-- `tlsuv_private_key_t` of OpenSSL: its address, its `EVP_PKEY`, and the store that
-- `get_certificate` makes, where it returns 0.
pub record OwnKey (P X : Type 0) : Type 0 where
  pub address : ℕ
  pub pkey : Option P
  pub get_certificate : Option (List X)

-- What the code calls on an `SSL_CTX`; the results are whether 1 is returned.
pub record SslCalls (S P X : Type 0) : Type 0 where
  pub use_private_key : Option P → S → S × Bool
  pub use_certificate : Option X → S → S × Bool
  pub set0_chain_cert_store : List X → S → S
  pub check_private_key : S → Bool

-- The part of `struct openssl_ctx` that this code reads and writes.
pub record OwnContext (S P X : Type 0) : Type 0 where
  pub ssl : S
  pub own_key : Option (OwnKey P X)
  pub own_cert : Option X

-- How a call ends: with 0 or TLS_ERR, or with an access through NULL or to a key that was freed.
pub data SetRc : Type 0 where
  set_ok set_failed null_key freed_key : SetRc

abbrev pub is_set : {A : Type 0} → Option A → Bool
is_set none = false
is_set (some a) = true

module _ {S P X : Type 0} (calls : SslCalls S P X) where
  -- The first certificate, and the others as its chain. Of an empty store the first one is NULL.
  -- Whether the certificate is taken is not looked at.
  unfoldable pub set_cert_internal : S → List X → S × Option X
  set_cert_internal s [] = ((calls.use_certificate none s).0, none)
  set_cert_internal s (x ∷ []) = ((calls.use_certificate (some x) s).0, some x)
  set_cert_internal s (x ∷ y ∷ ys) =
      (calls.set0_chain_cert_store (y ∷ ys) (calls.use_certificate (some x) s).0, some x)

  abbrev pub put_cert : OwnContext S P X → List X → OwnContext S P X
  put_cert c store =
      let (s, first) = set_cert_internal c.ssl store in record c { ssl = s; own_cert = first }

  -- The result of `SSL_CTX_check_private_key`, where it is called.
  abbrev pub combo : Bool → OwnContext S P X → OwnContext S P X × SetRc
  combo asked c =
      if asked
      then (if calls.check_private_key c.ssl then (c, set_ok) else (c, set_failed))
      else (c, set_ok)

  abbrev pub with_cert : OwnContext S P X → Option (List X) → OwnContext S P X
  with_cert c none = c
  with_cert c (some store) = put_cert c store

  -- `tls_set_own_key` on a key that is not the one which is set, and was so freed.
  unfoldable pub adopt_key : OwnContext S P X → OwnKey P X → OwnContext S P X × SetRc
  adopt_key c key =
      let (s, used) = calls.use_private_key key.pkey c.ssl in
      let c' = record c { ssl = s; own_key = some key } in
      let c'' = with_cert c' key.get_certificate in
      if used then combo (is_set c''.own_cert) c'' else (c', set_failed)

  -- `tls_set_own_key`: a key that is there passes the test at its start, whatever its `pkey` is.
  unfoldable pub set_own_key : OwnContext S P X → Option (OwnKey P X) → OwnContext S P X × SetRc
  unfolding adopt_key
  set_own_key c none = (c, null_key)
  set_own_key c (some key) = elim c.own_key [
    | none ↦ adopt_key c key
    | some old ↦ if old.address == key.address then (c, freed_key) else adopt_key c key
  ]

  -- `tls_set_own_cert` on the store that `load_certs` makes of its text.
  unfoldable pub set_own_cert : OwnContext S P X → List X → OwnContext S P X × SetRc
  unfolding set_cert_internal
  set_own_cert c store = combo (is_set c.own_key) (put_cert c store)
