-- ===== src/P11/Load/Found.antt =====
-- What `p11_load_key` of src/p11.c finds on a token.
use tlsuv.Base.{
  ℕ, ◌≡◌, refl, sym, ap, ◌∙◌, Bytes, true, false, Option, none, some, List, [], ◌∷◌, arith, All,
  Bool-cases, Option-cases, inl, inr, ◌⊎◌,
}
use tlsuv.P11.{
  ckr_ok, Rc, rc_ok, rc_ckr, ulong, Template, Driver, Context, KeyContext, find_one, cka_class,
  cka_key_type, cko_private_key, cko_public_key,
}
use tlsuv.P11.Token.{
  Object, object, matches, first_match, value_of, Same, Searches, Reads, find_one_lem,
}
use tlsuv.P11.Load.{
  load_key, load_selected, load_public, select, selected, of_class, ckr_key_needed,
}

-- Each object has a handle of its own.
abbrev pub Handles : List Object → Type 0
Handles [] = Unit
Handles ((h, t) ∷ objs) = (object h objs ≡ none) × Handles objs

-- Every private key says of which type it is.
abbrev pub HasTypes : List Object → Type 0
HasTypes objs =
    (h : ℕ) (t : Template)
    → object h objs ≡ some t
    → value_of cka_class t ≡ some (ulong cko_private_key)
    → (k : ℕ) × (value_of cka_key_type t ≡ some (ulong k))

-- The object with a handle has the attributes.
abbrev pub Has : List Object → Template → ℕ → Type 0
Has objs q h = (t : Template) × (object h objs ≡ some t) × (matches q t ≡ true)

-- No object has the attributes.
abbrev pub Lacks : List Object → Template → Type 0
Lacks objs q = All (λ o. matches q o.1 ≡ false) objs

first_match-Has :
    (q : Template) (h : ℕ) (objs : List Object)
    → Handles objs
    → first_match q objs ≡ some h
    → Has objs q h
unfolding first_match object
first_match-Has q h [] distinct e = absurd (cc)
first_match-Has q h ((k, t) ∷ objs) (fresh, distinct) e = elim (Bool-cases (matches q t)) [
  | inl here ↦ (t, ground (arith, e, here), here)
  | inr there ↦
      let (u, has, good) = first_match-Has q h objs distinct (ground (arith, e, there)) in
      (u, ground (arith, fresh, has), good)
]

first_match-Lacks : (q : Template) (objs : List Object) → first_match q objs ≡ none → Lacks objs q
unfolding first_match
first_match-Lacks q [] e = tt
first_match-Lacks q ((k, t) ∷ objs) e = elim (Bool-cases (matches q t)) [
  | inl here ↦ absurd (ground (arith, e, here))
  | inr there ↦ (there, first_match-Lacks q objs (ground (arith, e, there)))
]

of_class-value :
    (cls : ℕ) (sel t : Template)
    → matches (of_class cls sel) t ≡ true
    → value_of cka_class t ≡ some (ulong cls)
unfolding matches
of_class-value cls sel t h = elim (Option-cases (value_of cka_class t)) [
  | inl e ↦ absurd (ground (arith, h, e))
  | inr (ulong n, e) ↦ ground (arith, h, e)
  | inr (v, e) ↦ absurd (ground (arith, h, e))
]

-- The key that was loaded: its two objects have what was asked for, and its type is the one that
-- the private object says.
pub record Loaded (objs : List Object) (p11 : Context) (sel : Template) (key : KeyContext)
    : Type 0 where
  private_object : Has objs (of_class cko_private_key sel) key.priv_handle
  public_object : Has objs (of_class cko_public_key sel) key.pub_handle
  kind_is :
      (t : Template) × (object key.priv_handle objs ≡ some t)
      × (value_of cka_key_type t ≡ some (ulong key.kind))
  ctx_is : key.ctx ≡ some p11

abbrev pub Outcome : List Object → Context → Template → Rc → Option KeyContext → Type 0
Outcome objs p11 sel rc key =
    ((rc ≡ rc_ok) × ((k : KeyContext) × (key ≡ some k) × Loaded objs p11 sel k))
    ⊎ ((rc ≡ rc_ckr ckr_key_needed)
        × (Lacks objs (of_class cko_private_key sel) ⊎ Lacks objs (of_class cko_public_key sel)))

module _ {D : Type 0} (driver : Driver D) (objects : D → List Object)
    (search : D → Option Template) where
  load_selected-none :
      (p11 : Context) (sel : Template) (d : D)
      → (find_one driver p11 (of_class cko_private_key sel) d).1 ≡ ckr_ok
      → (find_one driver p11 (of_class cko_private_key sel) d).2 ≡ none
      → load_selected driver p11 sel d
        ≡ ((find_one driver p11 (of_class cko_private_key sel) d).0, rc_ckr ckr_key_needed, none)
  unfolding load_selected
  load_selected-none p11 sel d ok lacks = ground (arith, ok, lacks)

  load_selected-some :
      (p11 : Context) (sel : Template) (d : D) (h : ℕ)
      → (find_one driver p11 (of_class cko_private_key sel) d).1 ≡ ckr_ok
      → (find_one driver p11 (of_class cko_private_key sel) d).2 ≡ some h
      → load_selected driver p11 sel d
        ≡ load_public driver p11 sel h (find_one driver p11 (of_class cko_private_key sel) d).0
  unfolding load_selected
  load_selected-some p11 sel d h ok has = ground (arith, ok, has)

  -- The handles that the two searches give are those of the key.
  pub load_selected-found :
      (p11 : Context) (sel t : Template) (d : D) (h g k : ℕ)
      → Searches driver objects search
      → Reads driver objects search
      → search d ≡ none
      → first_match (of_class cko_private_key sel) (objects d) ≡ some h
      → first_match (of_class cko_public_key sel) (objects d) ≡ some g
      → object h (objects d) ≡ some t
      → value_of cka_key_type t ≡ some (ulong k)
      → ((load_selected driver p11 sel d).1 ≡ rc_ok)
        × ((load_selected driver p11 sel d).2
            ≡ some (record { kind = k; priv_handle = h; pub_handle = g; ctx = some p11 }))
        × Same driver objects search d (load_selected driver p11 sel d).0
  unfolding load_public
  load_selected-found p11 sel t d h g k searches reads idle e e' there typed =
      let priv = of_class cko_private_key sel in
      let q = of_class cko_public_key sel in
      let d1 = (find_one driver p11 priv d).0 in
      let one = find_one_lem driver objects search p11 priv d searches idle in
      let d2 = (find_one driver p11 q d1).0 in
      let two = find_one_lem driver objects search p11 q d1 searches (one.2.1 ∙ idle) in
      let seen = two.1 ∙ ap (first_match q) one.2.0 ∙ e' in
      let three =
        reads.key_type_of p11.session h k t d2 (ap (object h) (two.2.0 ∙ one.2.0) ∙ there) typed in
      let keeps = reads.key_type_keeps p11.session h d2 in
      let run = load_selected-some p11 sel d h one.0 (one.1 ∙ e) in
      ground (arith, run, two, seen, three, keeps, one.2)

  load_public_lem :
      (p11 : Context) (sel : Template) (d d1 : D) (h : ℕ)
      → Searches driver objects search
      → Reads driver objects search
      → search d ≡ none
      → Handles (objects d)
      → HasTypes (objects d)
      → Same driver objects search d d1
      → first_match (of_class cko_private_key sel) (objects d) ≡ some h
      → Outcome
          (objects d)
          p11
          sel
          (load_public driver p11 sel h d1).1
          (load_public driver p11 sel h d1).2
        × Same driver objects search d (load_public driver p11 sel h d1).0
  unfolding load_public
  load_public_lem p11 sel d d1 h searches reads idle distinct types same e =
      let q = of_class cko_public_key sel in
      let two = find_one_lem driver objects search p11 q d1 searches (same.1 ∙ idle) in
      let d2 = (find_one driver p11 q d1).0 in
      let seen = two.1 ∙ ap (first_match q) same.0 in
      let same2 : Same driver objects search d d2 = (two.2.0 ∙ same.0, two.2.1 ∙ same.1) in
      elim (Option-cases (first_match q (objects d))) [
        | inl lacks ↦
            let nothing = seen ∙ lacks in
            rw (two.0, nothing, load_public)
              (inr (refl, inr (first_match-Lacks q (objects d) lacks)), same2)
        | inr (g, e') ↦
            let (t, there, good) =
              first_match-Has (of_class cko_private_key sel) h (objects d) distinct e in
            let (k, typed) = types h t there (of_class-value cko_private_key sel t good) in
            let three =
              reads.key_type_of p11.session h k t d2 (ap (object h) same2.0 ∙ there) typed in
            let keeps = reads.key_type_keeps p11.session h d2 in
            let something = seen ∙ e' in
            rw (two.0, something, three.0, load_public)
              (
                inl (
                  refl,
                  (
                    record {
                      kind = (driver.attribute_key_type p11.session h d2).2;
                      priv_handle = h;
                      pub_handle = g;
                      ctx = some p11;
                    },
                    refl,
                    record {
                      private_object = (t, there, good);
                      public_object = first_match-Has q g (objects d) distinct e';
                      kind_is = (t, there, typed ∙ ap (λ n. some (ulong n)) (sym three.1));
                      ctx_is = refl;
                    },
                  ),
                ),
                (keeps.0 ∙ same2.0, keeps.1 ∙ same2.1),
              )
      ]

  -- A key that is asked for by a usable id or a label, on a token whose objects have a handle each
  -- and whose private keys say their type, in a session with no search open: if the token has a
  -- private and a public key object with what was asked for, the key is loaded with two such
  -- objects and the type that the private one says; if it lacks one of them, the result is
  -- CKR_KEY_NEEDED. The token is as it was, with no search left open.
  pub load_key_lem :
      (p11 : Context) (mem : Bytes) (idstr label : Option Bytes) (sel : Template) (d : D)
      → Searches driver objects search
      → Reads driver objects search
      → search d ≡ none
      → Handles (objects d)
      → HasTypes (objects d)
      → select mem idstr label ≡ selected sel
      → let (d', rc, key) = load_key driver p11 mem idstr label d in
        Outcome (objects d) p11 sel rc key × Same driver objects search d d'
  unfolding load_key
  load_key_lem p11 mem idstr label sel d searches reads idle distinct types sel_is =
      let priv = of_class cko_private_key sel in
      let one = find_one_lem driver objects search p11 priv d searches idle in
      let d1 = (find_one driver p11 priv d).0 in
      let run : load_key driver p11 mem idstr label d ≡ load_selected driver p11 sel d =
        ground (arith, sel_is) in
      elim (Option-cases (first_match priv (objects d))) [
        | inl lacks ↦
            rw (run ∙ load_selected-none p11 sel d one.0 (one.1 ∙ lacks))
              (inr (refl, inl (first_match-Lacks priv (objects d) lacks)), one.2)
        | inr (h, e) ↦
            rw (run ∙ load_selected-some p11 sel d h one.0 (one.1 ∙ e))
              (load_public_lem p11 sel d d1 h searches reads idle distinct types one.2 e)
      ]
