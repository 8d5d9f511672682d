-- ===== src/Openssl/Chains.antt =====
-- The CA bundle of src/openssl/engine.c: `process_chains`, which sorts its certificates into a
-- store for each root, and `verify_peer_cb`. A store is the list of its certificates. What OpenSSL
-- says of a certificate, whether it is self-signed and whether a store verifies it, is a parameter.
use tlsuv.Base.{
  ℕ, zero, suc, ◌≢◌, ◌+◌, ◌≤◌, ◌≡◌, refl, ap, sym, subst, ◌∙◌, Bool, true, false, Option, none,
  some, List, [], ◌∷◌, ◌++◌, concat, length, length-append, arith, if◌then◌else◌, inl, inr,
  Bool-cases, Option-cases, All, All-append, All-split,
}

-- The result of `X509_verify_cert`: 1, 0, or a negative number where the check could not be made.
pub data VerifyRc : Type 0 where
  valid invalid verify_error : VerifyRc

abbrev pub is_one : VerifyRc → Bool
is_one valid = true
is_one invalid = false
is_one verify_error = false

abbrev pub is_nonzero : VerifyRc → Bool
is_nonzero valid = true
is_nonzero invalid = false
is_nonzero verify_error = true

-- Whether `X509_self_signed` is not 0, and `X509_verify_cert` for a store, the untrusted
-- certificates and a certificate.
pub record X509 (C : Type 0) : Type 0 where
  pub is_self_signed : C → Bool
  pub verify : List C → List C → C → VerifyRc

module _ {C : Type 0} (lib : X509 C) where
  -- The split of the bundle into roots and intermediates, each in its order.
  unfoldable pub roots : List C → List C
  roots [] = []
  roots (c ∷ cs) = let rest = roots cs in if lib.is_self_signed c then c ∷ rest else rest

  unfoldable pub intermediates : List C → List C
  intermediates [] = []
  intermediates (c ∷ cs) =
      let rest = intermediates cs in if lib.is_self_signed c then rest else c ∷ rest

  -- A store for each root, the last root first, as they are popped.
  unfoldable pub root_stores : List C → List (List C)
  root_stores [] = []
  root_stores (r ∷ rs) = root_stores rs ++ ((r ∷ []) ∷ [])

  abbrev behind : List C → Option (List (List C)) → Option (List (List C))
  behind s none = none
  behind s (some ss) = some (s ∷ ss)

  -- The loop over the stores for one certificate: the first store that verifies it takes it.
  unfoldable pub place : C → List (List C) → Option (List (List C))
  place c [] = none
  place c (s ∷ ss) =
      let rest = behind s (place c ss) in
      if is_one (lib.verify s [] c) then some ((s ++ (c ∷ [])) ∷ ss) else rest

  -- One pass over the intermediates: the stores and what is left.
  unfoldable pub pass : List C → List (List C) → List (List C) × List C
  pass [] stores = (stores, [])
  pass (c ∷ cs) stores = elim (place c stores) [
    | none ↦ (let (stores', left) = pass cs stores in (stores', c ∷ left))
    | some stores' ↦ pass cs stores'
  ]

  -- `while (sk_X509_num(inter) > 0 && tries > 0)`
  unfoldable pub passes : ℕ → List C → List (List C) → List (List C) × List C
  passes zero inter stores = (stores, inter)
  passes (suc tries) [] stores = (stores, [])
  passes (suc tries) (c ∷ cs) stores =
      let (stores', left) = pass (c ∷ cs) stores in passes tries left stores'

  -- `process_chains`, with the certificates that stay without a root.
  unfoldable pub process_chains : List C → List (List C) × List C
  unfolding roots intermediates root_stores passes
  process_chains certs = passes 3 (intermediates certs) (root_stores (roots certs))

  -- The loop of `verify_peer_cb` over the stores.
  unfoldable pub some_store_verifies : List (List C) → List C → C → Bool
  some_store_verifies [] untrusted c = false
  some_store_verifies (s ∷ ss) untrusted c =
      let rest = some_store_verifies ss untrusted c in
      if is_nonzero (lib.verify s untrusted c) then true else rest

  -- `verify_peer_cb`
  unfoldable pub verify_peer_cb : List (List C) → Bool → List C → C → Bool
  unfolding some_store_verifies
  verify_peer_cb stores pre_verify untrusted c =
      if pre_verify then true else some_store_verifies stores untrusted c

  -- How many certificates have a property.
  abbrev pub count : (C → Bool) → List C → ℕ
  count p [] = 0
  count p (c ∷ cs) = (if p c then 1 else 0) + count p cs

  -- A store that can be trusted: a root, and certificates that the store verified before each was
  -- added.
  pub data IsChain : List C → Type 0 where
    root : (r : C) → lib.is_self_signed r ≡ true → IsChain (r ∷ [])
    link : (s : List C) (c : C) → IsChain s → lib.verify s [] c ≡ valid → IsChain (s ++ (c ∷ []))

  is_one-valid : (rc : VerifyRc) → is_one rc ≡ true → rc ≡ valid
  is_one-valid valid h = refl
  is_one-valid invalid h = absurd (cc)
  is_one-valid verify_error h = absurd (cc)

  is_nonzero-invalid : (rc : VerifyRc) → is_nonzero rc ≡ true → rc ≢ invalid
  is_nonzero-invalid rc h e = absurd (ground (arith, h, e))

  count-append : (p : C → Bool) (xs ys : List C) → count p (xs ++ ys) ≡ count p xs + count p ys
  count-append p [] ys = omega arith
  count-append p (x ∷ xs) ys = omega (arith, count-append p xs ys)

  -- Where a certificate went: one store verified it and took it, and the others are as they were.
  record Placed (c : C) (ss ss' : List (List C)) : Type 0 where
    before : List (List C)
    store : List C
    after : List (List C)
    was : ss ≡ before ++ (store ∷ after)
    is : ss' ≡ before ++ ((store ++ (c ∷ [])) ∷ after)
    verified : lib.verify store [] c ≡ valid

  place-Placed : (c : C) (ss ss' : List (List C)) → place c ss ≡ some ss' → Placed c ss ss'
  unfolding place
  place-Placed c [] ss' e = absurd (cc)
  place-Placed c (s ∷ ss) ss' e = elim (Bool-cases (is_one (lib.verify s [] c))) [
    | inl here ↦ record {
      before = [];
      store = s;
      after = ss;
      was = refl;
      is = ground (arith, e, here);
      verified = is_one-valid (lib.verify s [] c) here;
    }
    | inr there ↦ elim (Option-cases (place c ss)) [
      | inl nowhere ↦ absurd (ground (arith, e, there, nowhere))
      | inr (rest, e') ↦
          let p = place-Placed c ss rest e' in
          record {
            before = s ∷ p.before;
            store = p.store;
            after = p.after;
            was = ap (◌∷◌ s) p.was;
            is = ground (arith, e, there, e', p.is);
            verified = p.verified;
          }
    ]
  ]

  count-concat :
      (p : C → Bool) (xs ys : List (List C))
      → count p (concat (xs ++ ys)) ≡ count p (concat xs) + count p (concat ys)
  count-concat p [] ys = omega arith
  count-concat p (x ∷ xs) ys = omega (
    arith,
    count-concat p xs ys,
    count-append p x (concat (xs ++ ys)),
    count-append p x (concat xs),
  )

  place-count :
      (p : C → Bool) (c : C) (ss ss' : List (List C))
      → Placed c ss ss'
      → count p (concat ss') ≡ count p (c ∷ []) + count p (concat ss)
  place-count p c ss ss' q = ground (
    arith,
    q.was,
    q.is,
    count-concat p q.before (q.store ∷ q.after),
    count-concat p q.before ((q.store ++ (c ∷ [])) ∷ q.after),
    count-append p q.store (c ∷ []),
    count-append p (q.store ++ (c ∷ [])) (concat q.after),
    count-append p q.store (concat q.after),
  )

  place-IsChain :
      (c : C) (ss ss' : List (List C)) → Placed c ss ss' → All IsChain ss → All IsChain ss'
  place-IsChain c ss ss' q h =
      let (a, b) = All-split IsChain q.before (q.store ∷ q.after) (subst (All IsChain) q.was h) in
      subst (All IsChain) (sym q.is) (
        All-append IsChain q.before ((q.store ++ (c ∷ [])) ∷ q.after) a
          (link q.store c b.0 q.verified, b.1))

  -- What the passes keep.
  abbrev Sorted : List C → List (List C) → List (List C) × List C → Type 0
  Sorted inter stores (stores', left) =
      ((p : C → Bool)
        → count p (concat stores') + count p left ≡ count p (concat stores) + count p inter)
      × All IsChain stores'
      × (length stores' ≡ length stores)

  placed-length :
      (xs : List (List C)) (s t : List C) (ys : List (List C))
      → length (xs ++ (s ∷ ys)) ≡ length (xs ++ (t ∷ ys))
  placed-length [] s t ys = refl
  placed-length (x ∷ xs) s t ys = ap suc (placed-length xs s t ys)

  place-length : (c : C) (ss ss' : List (List C)) → Placed c ss ss' → length ss' ≡ length ss
  place-length c ss ss' q =
      ap length q.is
      ∙ placed-length q.before (q.store ++ (c ∷ [])) q.store q.after
      ∙ sym (ap length q.was)

  pass-Sorted :
      (inter : List C) (stores : List (List C))
      → All IsChain stores
      → Sorted inter stores (pass inter stores)
  unfolding pass
  pass-Sorted [] stores h = (λ p. refl, h, refl)
  pass-Sorted (c ∷ cs) stores h = elim (Option-cases (place c stores)) [
    | inl e ↦
        let rest = pass-Sorted cs stores h in
        rw (e, pass) (λ p. omega (arith, rest.0 p), rest.1, rest.2)
    | inr (stores', e) ↦
        let q = place-Placed c stores stores' e in
        let rest = pass-Sorted cs stores' (place-IsChain c stores stores' q h) in
        rw (e, pass)
          (
            λ p. omega (arith, rest.0 p, place-count p c stores stores' q),
            rest.1,
            rest.2 ∙ place-length c stores stores' q,
          )
  ]

  passes-Sorted :
      (tries : ℕ) (inter : List C) (stores : List (List C))
      → All IsChain stores
      → Sorted inter stores (passes tries inter stores)
  unfolding passes
  passes-Sorted zero inter stores h = (λ p. refl, h, refl)
  passes-Sorted (suc tries) [] stores h = (λ p. refl, h, refl)
  passes-Sorted (suc tries) (c ∷ cs) stores h =
      let one = pass-Sorted (c ∷ cs) stores h in
      let rest = passes-Sorted tries (pass (c ∷ cs) stores).1 (pass (c ∷ cs) stores).0 one.1 in
      (λ p. rest.0 p ∙ one.0 p, rest.1, rest.2 ∙ one.2)

  root_stores-IsChain : (cs : List C) → All IsChain (root_stores (roots cs))
  unfolding root_stores roots
  root_stores-IsChain [] = tt
  root_stores-IsChain (c ∷ cs) = elim (Bool-cases (lib.is_self_signed c)) [
    | inl e ↦ rw e (
        All-append IsChain (root_stores (roots cs)) ((c ∷ []) ∷ []) (root_stores-IsChain cs)
          (root c e, tt))
    | inr e ↦ rw e (root_stores-IsChain cs)
  ]

  split-count :
      (p : C → Bool) (cs : List C)
      → count p (concat (root_stores (roots cs))) + count p (intermediates cs) ≡ count p cs
  unfolding root_stores roots intermediates
  split-count p [] = refl
  split-count p (c ∷ cs) =
      ground (arith, split-count p cs, count-concat p (root_stores (roots cs)) ((c ∷ []) ∷ []))

  root_stores-length : (cs : List C) → length (root_stores (roots cs)) ≡ count lib.is_self_signed cs
  unfolding root_stores roots
  root_stores-length [] = refl
  root_stores-length (c ∷ cs) =
      ground (arith, root_stores-length cs, length-append (root_stores (roots cs)) ((c ∷ []) ∷ []))

  -- Sorting a bundle loses no certificate, makes none up and puts none into two stores: of every
  -- kind there are as many in the stores and among those that are left over as in the bundle. There
  -- is a store for each self-signed certificate, and each store is that root with certificates that
  -- were each verified by what the store held before.
  pub process_chains-IsChain :
      (p : C → Bool) (certs : List C)
      → let (stores, left) = process_chains certs in
        (count p (concat stores) + count p left ≡ count p certs)
        × All IsChain stores
        × (length stores ≡ count lib.is_self_signed certs)
  unfolding process_chains
  process_chains-IsChain p certs =
      let r =
        passes-Sorted 3 (intermediates certs) (root_stores (roots certs))
          (root_stores-IsChain certs) in
      (r.0 p ∙ split-count p certs, r.1, r.2 ∙ root_stores-length certs)

  verifies-IsChain :
      (stores : List (List C)) (untrusted : List C) (c : C)
      → All IsChain stores
      → some_store_verifies stores untrusted c ≡ true
      → (s : List C) × IsChain s
        × ((p : C → Bool) → count p s ≤ count p (concat stores))
        × (lib.verify s untrusted c ≢ invalid)
  unfolding some_store_verifies
  verifies-IsChain [] untrusted c h e = absurd (cc)
  verifies-IsChain (s ∷ ss) untrusted c (h, hs) e =
      elim (Bool-cases (is_nonzero (lib.verify s untrusted c))) [
        | inl here ↦ (
          s,
          h,
          λ p. omega (arith, count-append p s (concat ss)),
          is_nonzero-invalid (lib.verify s untrusted c) here,
        )
        | inr there ↦
            let (t, chain, few, good) =
              verifies-IsChain ss untrusted c hs (ground (arith, e, there)) in
            (t, chain, λ p. omega (arith, few p, count-append p s (concat ss)), good)
      ]

  -- A peer's certificate that OpenSSL itself did not accept is accepted only by a store of
  -- certificates of the bundle, of every kind no more of them than are in the bundle. The store is a
  -- chain from a root, and it verified the certificate or could not carry out the check.
  pub verify_peer_cb-IsChain :
      (certs untrusted : List C) (c : C)
      → verify_peer_cb (process_chains certs).0 false untrusted c ≡ true
      → (s : List C) × IsChain s
        × ((p : C → Bool) → count p s ≤ count p certs)
        × (lib.verify s untrusted c ≢ invalid)
  unfolding verify_peer_cb
  verify_peer_cb-IsChain certs untrusted c accepted =
      let stores = (process_chains certs).0 in
      let (s, chain, few, good) =
        verifies-IsChain stores untrusted c (process_chains-IsChain lib.is_self_signed certs).1
          accepted in
      (s, chain, λ p. omega (arith, few p, (process_chains-IsChain p certs).0), good)
