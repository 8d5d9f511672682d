-- ===== src/Openssl/Identity/Pairs.antt =====
-- The key and the certificate that are set belong together.
use tlsuv.Base.{◌≡◌, Bool, true, false, Option, none, some, List, [], ◌∷◌, ◌⊎◌}
use tlsuv.Openssl.Identity.{OwnKey, SslCalls, OwnContext, set_ok, set_own_key, set_own_cert}

module _ {S P X : Type 0} (calls : SslCalls S P X) (private_key : S → Option P)
    (certificate : S → Option X) (matches : P → X → Bool) where
  -- What OpenSSL documents of an `SSL_CTX`: its key and its certificate, and which of them match.
  pub record Documented : Type 0 where
    -- A key that is used is the context's key then.
    pub key_used :
        (p : P) (s : S)
        → (calls.use_private_key (some p) s).1 ≡ true
        → (private_key (calls.use_private_key (some p) s).0 ≡ some p)
          × (certificate (calls.use_private_key (some p) s).0 ≡ certificate s)
    pub no_key_used : (s : S) → (calls.use_private_key none s).1 ≡ false
    -- A certificate that is taken is set, and the key of another one may be dropped.
    pub certificate_set :
        (x : X) (s : S)
        → (calls.use_certificate (some x) s).1 ≡ true
        → (certificate (calls.use_certificate (some x) s).0 ≡ some x)
          × ((private_key (calls.use_certificate (some x) s).0 ≡ private_key s)
              ⊎ (private_key (calls.use_certificate (some x) s).0 ≡ none))
    pub no_certificate_set : (s : S) → (calls.use_certificate none s).0 ≡ s
    pub chain_set :
        (xs : List X) (s : S)
        → (certificate (calls.set0_chain_cert_store xs s) ≡ certificate s)
          × (private_key (calls.set0_chain_cert_store xs s) ≡ private_key s)
    pub checks :
        (s : S)
        → calls.check_private_key s ≡ true
        → (p : P) × (x : X) × (private_key s ≡ some p)
          × (certificate s ≡ some x)
          × (matches p x ≡ true)

  -- The `SSL_CTX` has no other key and no other certificate than the ones that are kept.
  record Agrees (c : OwnContext S P X) : Type 0 where
    key :
        (p : P)
        → private_key c.ssl ≡ some p
        → (k : OwnKey P X) × (c.own_key ≡ some k) × (k.pkey ≡ some p)
    cert : (x : X) → c.own_cert ≡ some x → certificate c.ssl ≡ some x

  -- A key and a certificate that are both set match, and are the ones that the `SSL_CTX` uses.
  abbrev Matched : OwnContext S P X → Type 0
  Matched c =
      (k : OwnKey P X) (x : X)
      → c.own_key ≡ some k
      → c.own_cert ≡ some x
      → (p : P) × (k.pkey ≡ some p)
        × (matches p x ≡ true)
        × (private_key c.ssl ≡ some p)
        × (certificate c.ssl ≡ some x)

  -- OpenSSL takes the certificate that is set, if there is one. The code does not look.
  abbrev pub Takes : S → List X → Type 0
  Takes s [] = Unit
  Takes s (x ∷ xs) = (calls.use_certificate (some x) s).1 ≡ true

  -- The same for a store that need not be there.
  abbrev pub TakesAny : S → Option (List X) → Type 0
  TakesAny s none = Unit
  TakesAny s (some store) = Takes s store

  -- The same for the certificate that comes with a key.
  abbrev pub TakesOf : OwnContext S P X → OwnKey P X → Type 0
  TakesOf c key = TakesAny (calls.use_private_key key.pkey c.ssl).0 key.get_certificate

  -- A call that returned 0, with a certificate that OpenSSL takes.
  pub data Given : OwnContext S P X → OwnContext S P X → Type 0 where
    given_key :
        (c c' : OwnContext S P X) (key : OwnKey P X)
        → set_own_key calls c (some key) ≡ (c', set_ok)
        → TakesOf c key
        → Given c c'
    given_cert :
        (c c' : OwnContext S P X) (store : List X)
        → set_own_cert calls c store ≡ (c', set_ok)
        → Takes c.ssl store
        → Given c c'

  pub data Givens (c : OwnContext S P X) : OwnContext S P X → Type 0 where
    at_first : Givens c c
    and_then :
        {c' : OwnContext S P X}
        → Givens c c'
        → (c'' : OwnContext S P X) → Given c' c''
        → Givens c c''
