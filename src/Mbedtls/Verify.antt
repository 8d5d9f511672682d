-- ===== src/Mbedtls/Verify.antt =====
-- Who a server may be: `internal_cert_verify`, `new_mbedtls_engine` and `mbedtls_set_cert_verify` of
-- src/mbedtls/engine.c. The check of the chain itself is outside: it calls `internal_cert_verify`
-- for each certificate with the flags that it found.
pub mod Laws
use tlsuv.Base.{
  ℕ, zero, suc, ◌+◌, ◌<◌, ◌%◌, ◌≡◌, ◌↔◌, ◌⊎◌, inl, inr, refl, Bytes, Bool, true, false, not, ◌&&◌,
  ◌||◌, Option, none, some, List, [], ◌∷◌, take, length, bytes_eq, ltb, ◌==◌, if◌then◌else◌, All,
  arith, Bool-cases,
}

-- `MBEDTLS_X509_BADCERT_CN_MISMATCH`, `MBEDTLS_X509_BADCERT_NOT_TRUSTED`, and whether any other bit
-- of the flags is set.
pub record Flags : Type 0 where
  pub cn_mismatch : Bool
  pub not_trusted : Bool
  pub other : Bool

-- An entry of `subject_alt_names`.
pub record San : Type 0 where
  pub tag : ℕ
  pub value : Bytes

pub record Crt (X : Type 0) : Type 0 where
  pub cert : X
  pub subject_alt_names : List San

-- The part of `struct mbedtls_engine`: the first `ip_len` bytes of `addr`, and `cert_verify_f` on
-- its context; the flag is whether it returns 0.
pub record Checker (X : Type 0) : Type 0 where
  pub addr : Bytes
  pub cert_verify_f : Option (X → Bool)

abbrev host_addr : Option Bytes → Option Bytes → Bytes
host_addr (some six) four = six
host_addr none (some four) = four
host_addr none none = []

-- The end of `new_mbedtls_engine`: `uv_inet_pton` on the host as an IPv6 and as an IPv4 address.
unfoldable pub new_checker :
    {X : Type 0} → Option Bytes → Option Bytes → Option (X → Bool) → Checker X
new_checker six four verify_f = record { addr = host_addr six four; cert_verify_f = verify_f }

-- `MBEDTLS_ASN1_TAG_VALUE_MASK` is 0x1f and `MBEDTLS_X509_SAN_IP_ADDRESS` is 7.
unfoldable pub is_address : Bytes → San → Bool
is_address addr san =
    (san.tag % 32 == 7)
    && (length san.value == length addr)
    && bytes_eq (take (length addr) san.value) addr

-- The loop over `subject_alt_names`.
unfoldable pub has_address : Bytes → List San → Bool
has_address addr [] = false
has_address addr (san ∷ sans) =
    let rest = has_address addr sans in if is_address addr san then true else rest

module _ {X : Type 0} (eng : Checker X) where
  -- The first part: an address among the alternative names.
  unfoldable pub check_address : Crt X → ℕ → Flags → Flags
  check_address crt depth flags =
      if (depth == 0) && ltb 0 (length eng.addr) && flags.cn_mismatch
      then (if has_address eng.addr crt.subject_alt_names
          then record flags { cn_mismatch = false }
          else flags)
      else flags

  -- The second part: the application's own check of the leaf.
  unfoldable pub check_by_app : Crt X → ℕ → Flags → Flags
  check_by_app crt depth flags = elim eng.cert_verify_f [
    | none ↦ flags
    | some verify_f ↦
        if ltb 0 depth
        then record flags { not_trusted = false }
        else record flags { not_trusted = not (verify_f crt.cert) }
  ]

  -- `internal_cert_verify`
  unfoldable pub internal_cert_verify : Crt X → ℕ → Flags → Flags
  unfolding check_address check_by_app
  internal_cert_verify crt depth flags = check_by_app crt depth (check_address crt depth flags)

  abbrev pub is_clear : Flags → Bool
  is_clear flags = not flags.cn_mismatch && not flags.not_trusted && not flags.other

  -- A chain from a depth on, each certificate with the flags that were found: the handshake goes on
  -- only if no flag is left.
  unfoldable pub accepts_from : ℕ → List (Crt X × Flags) → Bool
  accepts_from depth [] = true
  accepts_from depth ((crt, flags) ∷ chain) =
      let rest = accepts_from (suc depth) chain in
      is_clear (internal_cert_verify crt depth flags) && rest
