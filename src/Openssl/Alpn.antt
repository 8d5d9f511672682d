-- ===== src/Openssl/Alpn.antt =====
-- The list of application protocols: `tls_set_alpn_protocols`, `new_openssl_engine` and
-- `tls_get_alpn` of src/openssl/engine.c.
use tlsuv.Base.{
  ℕ, zero, suc, ◌%◌, ◌≡◌, ◌≢◌, ◌<◌, refl, Bytes, Option, none, some, List, [], ◌∷◌, ◌++◌, All, take,
  drop, length, length-append, take_prefix, drop_prefix, leb, ◌==◌, arith, if◌then◌else◌,
}

-- A C string in memory that goes on: the bytes before the first NUL.
unfoldable pub before_nul : Bytes → Bytes
before_nul [] = []
before_nul (b ∷ bs) = let rest = b ∷ before_nul bs in if b == 0 then [] else rest

-- The buffer of `tls_set_alpn_protocols`, without the NUL behind it.
unfoldable pub alpn_buffer : List Bytes → Bytes
alpn_buffer [] = []
alpn_buffer (p ∷ ps) = (length p % 256) ∷ (p ++ alpn_buffer ps)

-- The list that `new_openssl_engine` gives to `SSL_set_alpn_protos`: its length is taken by `strlen`.
unfoldable pub alpn_given : List Bytes → Bytes
alpn_given protos = before_nul (alpn_buffer protos)

-- `tls_get_alpn` on the selected protocol.
unfoldable pub get_alpn : Bytes → Bytes
unfolding before_nul
get_alpn selected = before_nul selected

-- The protocol list of RFC 7301, section 3.1, as a server reads it: each name has its length, 1 to
-- 255, before it. There is a round for each name.
unfoldable pub rfc_names : ℕ → Bytes → Option (List Bytes)
rfc_names fuel [] = some []
rfc_names zero (n ∷ t) = none
rfc_names (suc fuel) (n ∷ t) =
    let rest = rfc_names fuel (drop n t) in
    if n == 0
    then none
    else if leb n (length t)
    then elim rest [ none ↦ none | some ps ↦ some (take n t ∷ ps) ]
    else none

-- A name that can be offered: 1 to 255 bytes, none of them NUL.
abbrev pub IsName : Bytes → Type 0
IsName p = (0 < length p) × (length p < 256) × All (λ b. b ≢ 0) p

before_nul-append : (s t : Bytes) → All (λ b. b ≢ 0) s → before_nul (s ++ t) ≡ s ++ before_nul t
unfolding before_nul
before_nul-append [] t h = refl
before_nul-append (b ∷ s) t (h, hs) = ground (arith, h, before_nul-append s t hs)

alpn_given-cons :
    (p : Bytes) (ps : List Bytes) → IsName p → alpn_given (p ∷ ps) ≡ length p ∷ (p ++ alpn_given ps)
unfolding alpn_given alpn_buffer
alpn_given-cons p ps (some_bytes, few, clean) =
    unfold before_nul in ground (arith, some_bytes, few, before_nul-append p (alpn_buffer ps) clean)

rfc_names-cons :
    (p t : Bytes) (ps : List Bytes) (fuel : ℕ)
    → IsName p
    → rfc_names fuel t ≡ some ps
    → rfc_names (suc fuel) (length p ∷ (p ++ t)) ≡ some (p ∷ ps)
unfolding rfc_names
rfc_names-cons p t ps fuel (some_bytes, few, clean) e =
    ground (arith, some_bytes, e, length-append p t, take_prefix p t, drop_prefix p t)

-- The names that are set are the names that a server reads from the list the engine is given, in
-- order, where each has 1 to 255 bytes with no NUL among them.
pub rfc_names-alpn_given :
    (protos : List Bytes) (fuel : ℕ)
    → All IsName protos
    → length protos < fuel
    → rfc_names fuel (alpn_given protos) ≡ some protos
rfc_names-alpn_given [] fuel h k = unfold alpn_given alpn_buffer before_nul rfc_names in refl
rfc_names-alpn_given (p ∷ ps) zero h k = absurd (omega (arith, k))
rfc_names-alpn_given (p ∷ ps) (suc fuel) (h, hs) k = rw (alpn_given-cons p ps h) (
    rfc_names-cons p (alpn_given ps) ps fuel h (rfc_names-alpn_given ps fuel hs (omega (arith, k))))
