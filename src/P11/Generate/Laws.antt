-- ===== src/P11/Generate/Laws.antt =====
-- What `p11_gen_key` of src/p11.c makes, and how `p11_load_key` finds it again.
use tlsuv.Base.{
  ℕ, ◌^◌, ◌≤◌, ◌<◌, ◌≡◌, refl, sym, ap, ◌∙◌, Bytes, true, false, ◌&&◌, Option, none, some, List, [],
  ◌∷◌, ◌++◌, arith, bytes_eq_refl,
}
use tlsuv.P11.{
  Rv, ckr_ok, rc_ok, minus_one, ulong, bytes, Template, MechanismInfo, Driver, Context, KeyContext,
  cka_label, cka_id, cka_ec_params, cka_key_type, cko_private_key, cko_public_key, ckk_ec,
  ckm_ec_key_pair_gen,
}
use tlsuv.P11.Token.{
  Object, object, matches, first_match, value_of, Added, Same, Searches, Reads, found_new,
  object_new, object_stays, first_match-other,
}
use tlsuv.P11.Load.{load_key, of_class}
use tlsuv.P11.Load.Found.{load_selected-found}
use tlsuv.P11.Generate.{
  private_template, public_template, find_mechanism, generate, gen_key, is_ok, try_types, ec_params,
  get_ec_params,
}

-- Where the token makes a pair, it is two objects with the attributes that were given, and others.
pub record Generates {D : Type 0} (driver : Driver D) (objects : D → List Object)
    (search : D → Option Template) : Type 0 where
  pub info_keeps : (s m : ℕ) (d : D) → Same driver objects search d (driver.mechanism_info s m d).0
  pub random_keeps :
      (s n : ℕ) (d : D) → Same driver objects search d (driver.generate_random s n d).0
  pub pair :
      (s mech : ℕ) (p q : Template) (d : D)
      → (driver.generate_key_pair s mech p q d).1 ≡ ckr_ok
      → (search (driver.generate_key_pair s mech p q d).0 ≡ search d)
        × ((more more' : Template) × (mid : List Object) × Added
              (objects d)
              mid
              (driver.generate_key_pair s mech p q d).2
              (p ++ more)
            × Added mid
                (objects (driver.generate_key_pair s mech p q d).0)
                (driver.generate_key_pair s mech p q d).3
                (q ++ more'))

-- The named curves of RFC 5480 for keys of some size, in DER: secp256r1, secp384r1 and secp521r1.
pub data CurveFor (size : ℕ) : Bytes → Type 0 where
  curve_256 :
      256 ≤ size
      → size < 384
      → CurveFor size (0x06 ∷ 0x08 ∷ 0x2a ∷ 0x86 ∷ 0x48 ∷ 0xce ∷ 0x3d ∷ 0x03 ∷ 0x01 ∷ 0x07 ∷ [])
  curve_384 :
      384 ≤ size → size < 521 → CurveFor size (0x06 ∷ 0x05 ∷ 0x2b ∷ 0x81 ∷ 0x04 ∷ 0x00 ∷ 0x22 ∷ [])
  curve_521 :
      521 ≤ size
      → size < 2 ^ 31
      → CurveFor size (0x06 ∷ 0x05 ∷ 0x2b ∷ 0x81 ∷ 0x04 ∷ 0x00 ∷ 0x23 ∷ [])

ec_params-CurveFor : (size : ℕ) (curve : Bytes) → CurveFor size curve → ec_params size ≡ some curve
unfolding get_ec_params
ec_params-CurveFor size _ (curve_256 low high) = ground (arith, low, high)
ec_params-CurveFor size _ (curve_384 low high) = ground (arith, low, high)
ec_params-CurveFor size _ (curve_521 low high) = ground (arith, low, high)

public_template-params :
    (id label curve : Bytes) (size : ℕ) (more : Template)
    → ec_params size ≡ some curve
    → value_of cka_ec_params (public_template id ckk_ec size (some label) ++ more)
      ≡ some (bytes curve)
unfolding value_of
public_template-params id label curve size more e = rw e refl

abbrev pub labelled : Bytes → Template
labelled label = (cka_label, bytes label) ∷ []

private_template-matches :
    (id label : Bytes) (k : ℕ) (more : Template)
    → matches
        (of_class cko_private_key (labelled label))
        (private_template id k (some label) ++ more)
      ≡ true
unfolding matches value_of
private_template-matches id label k more = rw (bytes_eq_refl label) refl

public_template-matches :
    (id label : Bytes) (k n : ℕ) (more : Template)
    → matches
        (of_class cko_public_key (labelled label))
        (public_template id k n (some label) ++ more)
      ≡ true
unfolding matches value_of
public_template-matches id label k n more = rw (bytes_eq_refl label) refl

private_template-other :
    (id label : Bytes) (k : ℕ) (more : Template)
    → matches
        (of_class cko_public_key (labelled label))
        (private_template id k (some label) ++ more)
      ≡ false
unfolding matches value_of
private_template-other id label k more = refl

private_template-key_type :
    (id label : Bytes) (k : ℕ) (more : Template)
    → value_of cka_key_type (private_template id k (some label) ++ more) ≡ some (ulong k)
unfolding value_of
private_template-key_type id label k more = refl

public_template-other :
    (id label : Bytes) (k n : ℕ) (more : Template)
    → matches
        (of_class cko_private_key (labelled label))
        (public_template id k n (some label) ++ more)
      ≡ false
unfolding matches value_of
public_template-other id label k n more = refl

-- The two objects of a key: the public one has the curve, and both have the same id.
abbrev pub Pair : List Object → Bytes → KeyContext → Type 0
Pair objs curve key =
    (priv pub_ : Template) × (object key.priv_handle objs ≡ some priv)
    × (object key.pub_handle objs ≡ some pub_)
    × (value_of cka_ec_params pub_ ≡ some (bytes curve))
    × (value_of cka_id pub_ ≡ value_of cka_id priv)

module _ {D : Type 0} (driver : Driver D) where
  find_mechanism-ec :
      (p11 : Context) (d : D)
      → (driver.mechanism_info p11.slot_id ckm_ec_key_pair_gen d).1 ≡ ckr_ok
      → (driver.mechanism_info p11.slot_id ckm_ec_key_pair_gen d).2.generates ≡ true
      → find_mechanism driver p11 try_types d ≡ (
        (driver.mechanism_info p11.slot_id ckm_ec_key_pair_gen d).0,
        some (
          ckm_ec_key_pair_gen,
          (driver.mechanism_info p11.slot_id ckm_ec_key_pair_gen d).2.max_key_size,
        ),
      )
  unfolding find_mechanism
  find_mechanism-ec p11 d ok can = ground (arith, ok, can)

  -- A token that makes no EC keys gives no key at all, whatever it says of RSA, which it is not
  -- asked about.
  gen_key-no_ec :
      (p11 : Context) (label : Option Bytes) (d : D) (rv : Rv) (info : MechanismInfo)
      → driver.mechanism_info p11.slot_id ckm_ec_key_pair_gen d ≡ (d, rv, info)
      → (is_ok rv && info.generates) ≡ false
      → gen_key driver p11 label d ≡ (d, minus_one, none)
  unfolding gen_key find_mechanism
  gen_key-no_ec p11 label d rv info asked cannot = ground (arith, asked, cannot)

  module _ (objects : D → List Object) (search : D → Option Template) where
    -- What the token holds once a pair was generated.
    record Made (p11 : Context) (label curve : Bytes) (new : List Object) (key : KeyContext)
        : Type 0 where
      priv_found :
          first_match (of_class cko_private_key (labelled label)) new ≡ some key.priv_handle
      pub_found : first_match (of_class cko_public_key (labelled label)) new ≡ some key.pub_handle
      attributes : Template
      priv_there : object key.priv_handle new ≡ some attributes
      typed : value_of cka_key_type attributes ≡ some (ulong key.kind)
      ctx_is : key.ctx ≡ some p11
      kind_is : key.kind ≡ ckk_ec
      pub_attributes : Template
      pub_there : object key.pub_handle new ≡ some pub_attributes
      on_curve : value_of cka_ec_params pub_attributes ≡ some (bytes curve)
      same_id : value_of cka_id pub_attributes ≡ value_of cka_id attributes

    generate_lem :
        (p11 : Context) (label curve : Bytes) (keysize : ℕ) (d : D)
        → Generates driver objects search
        → CurveFor keysize curve
        → first_match (of_class cko_private_key (labelled label)) (objects d) ≡ none
        → first_match (of_class cko_public_key (labelled label)) (objects d) ≡ none
        → (generate driver p11 (some label) ckm_ec_key_pair_gen keysize d).1 ≡ rc_ok
        → let (d', rc, key) = generate driver p11 (some label) ckm_ec_key_pair_gen keysize d in
          (search d' ≡ search d)
          × ((k : KeyContext) × (key ≡ some k) × Made p11 label curve (objects d') k)
    unfolding generate
    generate_lem p11 label curve keysize d laws fits no_priv no_pub made_one =
        let (d1, id) = driver.generate_random p11.session 8 d in
        let same = laws.random_keeps p11.session 8 d in
        let priv = of_class cko_private_key (labelled label) in
        let pub_ = of_class cko_public_key (labelled label) in
        let p = public_template id ckk_ec keysize (some label) in
        let q = private_template id ckk_ec (some label) in
        let ok : (driver.generate_key_pair p11.session ckm_ec_key_pair_gen p q d1).1 ≡ ckr_ok =
          ground (arith, made_one) in
        let (keeps, (more, more', mid, one, two)) =
          laws.pair p11.session ckm_ec_key_pair_gen p q d1 ok in
        let made = driver.generate_key_pair p11.session ckm_ec_key_pair_gen p q d1 in
        let run : generate driver p11 (some label) ckm_ec_key_pair_gen keysize d ≡ (
          made.0,
          rc_ok,
          some
              (record { kind = ckk_ec; priv_handle = made.3; pub_handle = made.2; ctx = some p11 }),
        ) =
          ground (arith, ok) in
        rw run (
          keeps ∙ same.1,
          (
            record { kind = ckk_ec; priv_handle = made.3; pub_handle = made.2; ctx = some p11 },
            refl,
            record {
              priv_found =
                  found_new priv mid (objects made.0) made.3 (q ++ more') two
                    (first_match-other priv (objects d1) mid made.2 (p ++ more) one
                        (public_template-other id label ckk_ec keysize more)
                      ∙ ap (first_match priv) same.0
                      ∙ no_priv)
                    (private_template-matches id label ckk_ec more');
              pub_found =
                  first_match-other pub_ mid (objects made.0) made.3 (q ++ more') two
                    (private_template-other id label ckk_ec more')
                  ∙ found_new pub_ (objects d1) mid made.2 (p ++ more) one
                      (ap (first_match pub_) same.0 ∙ no_pub)
                      (public_template-matches id label ckk_ec keysize more);
              attributes = q ++ more';
              priv_there = object_new mid (objects made.0) made.3 (q ++ more') two;
              typed = private_template-key_type id label ckk_ec more';
              ctx_is = refl;
              kind_is = refl;
              pub_attributes = p ++ more;
              pub_there =
                  object_stays made.2 (p ++ more) mid (objects made.0) made.3 (q ++ more') two
                    (object_new (objects d1) mid made.2 (p ++ more) one);
              on_curve =
                  public_template-params id label curve keysize more
                    (ec_params-CurveFor keysize curve fits);
              same_id = unfold value_of in refl;
            },
          ),
        )

    -- A key that was generated under a label, not an empty one, is the key that is loaded by this
    -- label afterwards, on a token that makes EC keys of 256 bits and more and had no key with the
    -- label before, in a session with no search open: the same handles, the type EC and the same
    -- session. The public object has the curve for the size that the token gave, and the id of the
    -- private one.
    pub load_key-gen_key :
        (p11 : Context) (mem curve : Bytes) (c : ℕ) (cs : Bytes) (d : D)
        → Searches driver objects search
        → Reads driver objects search
        → Generates driver objects search
        → search d ≡ none
        → (driver.mechanism_info p11.slot_id ckm_ec_key_pair_gen d).1 ≡ ckr_ok
        → (driver.mechanism_info p11.slot_id ckm_ec_key_pair_gen d).2.generates ≡ true
        → CurveFor (driver.mechanism_info p11.slot_id ckm_ec_key_pair_gen d).2.max_key_size curve
        → first_match (of_class cko_private_key (labelled (c ∷ cs))) (objects d) ≡ none
        → first_match (of_class cko_public_key (labelled (c ∷ cs))) (objects d) ≡ none
        → (gen_key driver p11 (some (c ∷ cs)) d).1 ≡ rc_ok
        → let (d', rc, key) = gen_key driver p11 (some (c ∷ cs)) d in
          let (d'', rc', key') = load_key driver p11 mem none (some (c ∷ cs)) d' in
          (rc' ≡ rc_ok)
          × ((k : KeyContext) × (key ≡ some k)
              × (key' ≡ some k)
              × (k.kind ≡ ckk_ec)
              × (k.ctx ≡ some p11)
              × Pair (objects d'') curve k)
          × Same driver objects search d' d''
    unfolding gen_key load_key
    load_key-gen_key p11 mem curve c cs d searches reads laws idle ok can fits no_priv no_pub
          taken =
        let (d0, _, info) = driver.mechanism_info p11.slot_id ckm_ec_key_pair_gen d in
        let same = laws.info_keeps p11.slot_id ckm_ec_key_pair_gen d in
        let priv = of_class cko_private_key (labelled (c ∷ cs)) in
        let pub_ = of_class cko_public_key (labelled (c ∷ cs)) in
        let run : gen_key driver p11 (some (c ∷ cs)) d
            ≡ generate driver p11 (some (c ∷ cs)) ckm_ec_key_pair_gen info.max_key_size d0 =
          ground (arith, find_mechanism-ec p11 d ok can) in
        let (keeps, (k, key_is, made)) =
          generate_lem p11 (c ∷ cs) curve info.max_key_size d0 laws fits
            (ap (first_match priv) same.0 ∙ no_priv) (ap (first_match pub_) same.0 ∙ no_pub)
            (sym (ap (λ r. r.1) run) ∙ taken) in
        let d' = (generate driver p11 (some (c ∷ cs)) ckm_ec_key_pair_gen info.max_key_size d0).0 in
        let found =
          load_selected-found driver objects search p11 (labelled (c ∷ cs)) made.attributes d'
            k.priv_handle k.pub_handle k.kind searches reads (keeps ∙ same.1 ∙ idle) made.priv_found
            made.pub_found made.priv_there made.typed in
        rw run (
          found.0,
          (
            k,
            key_is,
            found.1
                ∙ ap
                    (λ x. some (record {
                      kind = k.kind;
                      priv_handle = k.priv_handle;
                      pub_handle = k.pub_handle;
                      ctx = x;
                    }))
                    (sym made.ctx_is),
            made.kind_is,
            made.ctx_is,
            (
              made.attributes,
              made.pub_attributes,
              ap (object k.priv_handle) found.2.0 ∙ made.priv_there,
              ap (object k.pub_handle) found.2.0 ∙ made.pub_there,
              made.on_curve,
              made.same_id,
            ),
          ),
          found.2,
        )
