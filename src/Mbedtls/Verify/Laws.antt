-- ===== src/Mbedtls/Verify/Laws.antt =====
-- Which chains of a server pass `internal_cert_verify`.
use tlsuv.Base.{
  ℕ, suc, ◌<◌, ◌≡◌, ◌%◌, ◌↔◌, ◌⊎◌, refl, ap, sym, ◌∙◌, Bytes, true, false, none, some, List, [],
  ◌∷◌, take, take_prefix, append-nil, length, All, arith, bytes_eq_refl, eq_of_bytes_eq, Bool-cases,
  inl, inr,
}
use tlsuv.Mbedtls.Verify.{
  Flags, San, Crt, Checker, is_address, has_address, check_address, check_by_app,
  internal_cert_verify, is_clear, accepts_from,
}

-- One of the alternative names is an IP address, of the type 7, and its bytes are those of `addr`.
pub data Lists (addr : Bytes) : List San → Type 0 where
  at_head :
      (san : San) (sans : List San) → san.tag % 32 ≡ 7 → san.value ≡ addr → Lists addr (san ∷ sans)
  behind : (san : San) (sans : List San) → Lists addr sans → Lists addr (san ∷ sans)

take_all : (s : Bytes) (n : ℕ) → length s ≡ n → take n s ≡ s
take_all s n e =
    ap (λ (k : ℕ). take k s) (sym e) ∙ ap (take (length s)) (sym (append-nil s)) ∙ take_prefix s []

is_address-value :
    (addr : Bytes) (san : San)
    → is_address addr san ≡ true
    → (san.tag % 32 ≡ 7) × (san.value ≡ addr)
unfolding is_address
is_address-value addr san h =
    let same : length san.value ≡ length addr = ground (arith, h) in
    let all_of = take_all san.value (length addr) same in
    (
      ground (arith, h),
      sym all_of ∙ eq_of_bytes_eq (take (length addr) san.value) addr (ground (arith, h)),
    )

value-is_address :
    (addr : Bytes) (san : San) → san.tag % 32 ≡ 7 → san.value ≡ addr → is_address addr san ≡ true
unfolding is_address
value-is_address addr san tag value =
    let all_of = take_all san.value (length addr) (ap length value) in
    ground (arith, tag, ap length value, all_of ∙ value, bytes_eq_refl addr)

has_address-Lists :
    (addr : Bytes) (sans : List San) → has_address addr sans ≡ true → Lists addr sans
unfolding has_address
has_address-Lists addr [] h = absurd (cc)
has_address-Lists addr (san ∷ sans) h = elim (Bool-cases (is_address addr san)) [
  | inl here ↦ let (tag, value) = is_address-value addr san here in at_head san sans tag value
  | inr there ↦ behind san sans (has_address-Lists addr sans (ground (arith, h, there)))
]

Lists-has_address :
    (addr : Bytes) (sans : List San) → Lists addr sans → has_address addr sans ≡ true
unfolding has_address
Lists-has_address addr _ (at_head san sans tag value) =
    ground (arith, value-is_address addr san tag value)
Lists-has_address addr _ (behind san sans l) = ground (arith, Lists-has_address addr sans l)

module _ {X : Type 0} (eng : Checker X) where
  -- What the user asks of the leaf: a name or an address of it is that of the host, and the
  -- application trusts it, or, without an application's check, mbedTLS does.
  abbrev pub NameGood : Crt X → Flags → Type 0
  NameGood crt flags =
      (flags.cn_mismatch ≡ false) ⊎ ((0 < length eng.addr) × Lists eng.addr crt.subject_alt_names)

  abbrev pub Trusted : Crt X → Flags → Type 0
  Trusted crt flags = elim eng.cert_verify_f [
    | none ↦ flags.not_trusted ≡ false
    | some verify_f ↦ verify_f crt.cert ≡ true
  ]

  -- What is asked of the others: without an application's check, that mbedTLS trusts them.
  abbrev pub IssuerGood : Crt X × Flags → Type 0
  IssuerGood (crt, flags) =
      (flags.cn_mismatch ≡ false)
      × (flags.other ≡ false)
      × (elim eng.cert_verify_f [ none ↦ flags.not_trusted ≡ false | some verify_f ↦ Unit ])

  issuer :
      (crt : Crt X) (depth : ℕ) (flags : Flags)
      → (is_clear eng (internal_cert_verify eng crt (suc depth) flags) ≡ true)
        ↔ IssuerGood (crt, flags)
  unfolding internal_cert_verify check_address check_by_app
  issuer crt depth flags = (λ h. ground (arith, h), λ h. ground (arith, h))

  issuers :
      (depth : ℕ) (chain : List (Crt X × Flags))
      → (accepts_from eng (suc depth) chain ≡ true) ↔ All IssuerGood chain
  unfolding accepts_from
  issuers depth [] = (λ h. tt, λ h. refl)
  issuers depth ((crt, flags) ∷ chain) =
      let one = issuer crt depth flags in
      let rest = issuers (suc depth) chain in
      (
        λ h. (one.0 (ground (arith, h)), rest.0 (ground (arith, h))),
        λ (g, gs). ground (arith, one.1 g, rest.1 gs),
      )

  leaf :
      (crt : Crt X) (flags : Flags)
      → (is_clear eng (internal_cert_verify eng crt 0 flags) ≡ true)
        ↔ (NameGood crt flags × Trusted crt flags × (flags.other ≡ false))
  unfolding internal_cert_verify check_address check_by_app
  leaf crt flags = (
    λ h. (
      elim (Bool-cases flags.cn_mismatch) [
        | inl other ↦ inr (
          ground (arith, h, other),
          has_address-Lists eng.addr crt.subject_alt_names (ground (arith, h, other)),
        )
        | inr same ↦ inl same
      ],
      ground (arith, h),
      ground (arith, h),
    ),
    λ (name, trusted, rest). elim name [
      | inl same ↦ ground (arith, same, trusted, rest)
      | inr (some_bytes, l) ↦
          ground
            (arith, some_bytes, Lists-has_address eng.addr crt.subject_alt_names l, trusted, rest)
    ],
  )

  -- The flags of a server's chain are all clear in the end exactly if nothing else is wrong with any
  -- certificate, the leaf has a name of the host or an address entry with the host's address, and
  -- the leaf is trusted: by the application, if it has a check of its own, and then the trust of
  -- mbedTLS in the chain is not asked for; otherwise mbedTLS trusts every certificate.
  pub accepts_from-leaf :
      (crt : Crt X) (flags : Flags) (chain : List (Crt X × Flags))
      → (accepts_from eng 0 ((crt, flags) ∷ chain) ≡ true)
        ↔ (NameGood crt flags × Trusted crt flags × (flags.other ≡ false) × All IssuerGood chain)
  unfolding accepts_from
  accepts_from-leaf crt flags chain =
      let one = leaf crt flags in
      let rest = issuers 0 chain in
      (
        λ h. let g = one.0 (ground (arith, h)) in (g.0, g.1, g.2, rest.0 (ground (arith, h))),
        λ (a, b, c, gs). ground (arith, one.1 (a, b, c), rest.1 gs),
      )
