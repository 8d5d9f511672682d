-- ===== src/P11/Certs.antt =====
-- The certificate of a key on the token: `p11_store_key_cert`, `p11_get_key_cert` and
-- `p11_get_key_attr` of src/p11.c. `p11` stands for `key->ctx`.
use tlsuv.Base.{
  ℕ, ◌≡◌, refl, ap, subst, ◌∙◌, Bytes, true, false, Option, none, some, List, [], ◌∷◌, ◌++◌, arith,
  bytes_eq_refl,
}
use tlsuv.P11.{
  ckr_ok, ckr, Rc, rc_ok, minus_one, rc_ckr, ulong, flag, bytes, Template, Driver, Context,
  KeyContext, attr_ptr, get_obj_attr, find_one, cka_class, cka_private, cka_token,
  cka_certificate_type, cka_id, cka_label, cka_subject, cka_value, cko_certificate, ckc_x_509,
}
use tlsuv.P11.Token.{
  Object, object, matches, first_match, value_of, text_of, Added, Searches, Reads, Creates,
  find_one_lem, get_obj_attr-some, get_obj_attr-Same, found_new, object_stays, object_new,
}

-- The template of `p11_store_key_cert`.
abbrev pub cert_template : Option Bytes → Option Bytes → Option Bytes → Option Bytes → Template
cert_template id label subj cert =
    (cka_class, ulong cko_certificate)
    ∷ (cka_private, flag false)
    ∷ (cka_token, flag true)
    ∷ (cka_certificate_type, ulong ckc_x_509)
    ∷ (attr_ptr cka_id id
        ++ attr_ptr cka_label label
        ++ attr_ptr cka_subject subj
        ++ attr_ptr cka_value cert)

-- The query of `p11_get_key_cert`: an id that could not be read has the length 0.
abbrev pub cert_query : Option Bytes → Template
cert_query none = (cka_class, ulong cko_certificate) ∷ (cka_id, bytes []) ∷ []
cert_query (some id) = (cka_class, ulong cko_certificate) ∷ (cka_id, bytes id) ∷ []

cert_query-matches :
    (id : Bytes) (label subj cert : Option Bytes)
    → matches (cert_query (some id)) (cert_template (some id) label subj cert) ≡ true
unfolding matches value_of
cert_query-matches id label subj cert = rw (bytes_eq_refl id) refl

value_of-cert_template :
    (id subj cert : Bytes) (label : Option Bytes)
    → text_of cka_value (cert_template (some id) label (some subj) (some cert)) ≡ some cert
unfolding value_of
value_of-cert_template id subj cert none = refl
value_of-cert_template id subj cert (some l) = refl

module _ {D : Type 0} (driver : Driver D) where
  -- `p11_store_key_cert`
  unfoldable pub store_key_cert : Context → KeyContext → Option Bytes → Option Bytes → D → D × Rc
  store_key_cert p11 key cert subj d =
      let (d1, _, id) = get_obj_attr driver p11 key.priv_handle cka_id d in
      let (d2, _, label) = get_obj_attr driver p11 key.priv_handle cka_label d1 in
      let (d3, rv) = driver.create_object p11.session (cert_template id label subj cert) d2 in
      elim rv [ ckr_ok ↦ (d3, rc_ok) | ckr code ↦ (d3, minus_one) ]

  -- `p11_get_key_cert`: what `*val` and `*len` say together, where it returns 0.
  unfoldable pub get_key_cert : Context → KeyContext → D → D × Rc × Option Bytes
  get_key_cert p11 key d =
      let (d1, _, id) = get_obj_attr driver p11 key.priv_handle cka_id d in
      let (d2, rv, found) = find_one driver p11 (cert_query id) d1 in
      elim rv [
        | ckr code ↦ (d2, rc_ckr code, none)
        | ckr_ok ↦ elim found [
          | none ↦ (d2, minus_one, none)
          | some h ↦ get_obj_attr driver p11 h cka_value d2
        ]
      ]

  -- `p11_get_key_attr`
  unfoldable pub get_key_attr : Context → KeyContext → ℕ → D → D × Rc × Option Bytes
  get_key_attr p11 key a d = get_obj_attr driver p11 key.pub_handle a d

  module _ (objects : D → List Object) (search : D → Option Template) where
    stored_lem :
        (p11 : Context) (key : KeyContext) (cert subj id : Bytes) (t : Template) (d : D)
        → Reads driver objects search
        → Creates driver objects search
        → object key.priv_handle (objects d) ≡ some t
        → text_of cka_id t ≡ some id
        → (store_key_cert p11 key (some cert) (some subj) d).1 ≡ rc_ok
        → let d' = (store_key_cert p11 key (some cert) (some subj) d).0 in
          (search d' ≡ search d)
          × ((h : ℕ) × (label : Option Bytes) × Added
                (objects d)
                (objects d')
                h
                (cert_template (some id) label (some subj) (some cert)))
    unfolding store_key_cert
    stored_lem p11 key cert subj id t d reads creates there has taken =
        let (d1, _, id') = get_obj_attr driver p11 key.priv_handle cka_id d in
        let (d2, _, label) = get_obj_attr driver p11 key.priv_handle cka_label d1 in
        let one =
          get_obj_attr-some driver objects search p11 key.priv_handle cka_id t id d reads there
            has in
        let two = get_obj_attr-Same driver objects search p11 key.priv_handle cka_label d1 reads in
        let template = cert_template id' label (some subj) (some cert) in
        let ok : (driver.create_object p11.session template d2).1 ≡ ckr_ok =
          ground (arith, taken) in
        let made = creates.create p11.session template d2 ok in
        let (h, add) = made.1 in
        let run : store_key_cert p11 key (some cert) (some subj) d
            ≡ ((driver.create_object p11.session template d2).0, rc_ok) =
          rw (ok, store_key_cert) refl in
        rw run (
          made.0 ∙ two.1 ∙ one.2.1,
          (
            h,
            label,
            subst
                (λ o.
                  Added o (objects (driver.create_object p11.session template d2).0) h
                    (cert_template (some id) label (some subj) (some cert)))
                (two.0 ∙ one.2.0)
                (subst
                  (λ i.
                    Added (objects d2) (objects (driver.create_object p11.session template d2).0) h
                      (cert_template i label (some subj) (some cert)))
                  one.1 add),
          ),
        )

    -- A certificate that was stored for a key on a token is the one that is read back, when no other
    -- certificate there had the id of the key; and no search stays open.
    pub get_key_cert-store_key_cert :
        (p11 : Context) (key : KeyContext) (cert subj id : Bytes) (t : Template) (d : D)
        → Searches driver objects search
        → Reads driver objects search
        → Creates driver objects search
        → search d ≡ none
        → object key.priv_handle (objects d) ≡ some t
        → text_of cka_id t ≡ some id
        → first_match (cert_query (some id)) (objects d) ≡ none
        → (store_key_cert p11 key (some cert) (some subj) d).1 ≡ rc_ok
        → let d' = (store_key_cert p11 key (some cert) (some subj) d).0 in
          let (d'', rc', val) = get_key_cert p11 key d' in
          (rc' ≡ rc_ok) × (val ≡ some cert) × (search d'' ≡ none)
    unfolding get_key_cert
    get_key_cert-store_key_cert p11 key cert subj id t d searches reads creates idle there has alone
          taken =
        let d' = (store_key_cert p11 key (some cert) (some subj) d).0 in
        let (same, (h, label, add)) =
          stored_lem p11 key cert subj id t d reads creates there has taken in
        let template = cert_template (some id) label (some subj) (some cert) in
        let stays = object_stays key.priv_handle t (objects d) (objects d') h template add there in
        let one =
          get_obj_attr-some driver objects search p11 key.priv_handle cka_id t id d' reads stays
            has in
        let d1 = (get_obj_attr driver p11 key.priv_handle cka_id d').0 in
        let two =
          find_one_lem driver objects search p11 (cert_query (some id)) d1 searches
            (one.2.1 ∙ same ∙ idle) in
        let d2 = (find_one driver p11 (cert_query (some id)) d1).0 in
        let found =
          found_new (cert_query (some id)) (objects d) (objects d') h template add alone
            (cert_query-matches id label (some subj) (some cert)) in
        let here = two.1 ∙ ap (first_match (cert_query (some id))) one.2.0 ∙ found in
        let new =
          ap (object h) (two.2.0 ∙ one.2.0) ∙ object_new (objects d) (objects d') h template add in
        let last =
          get_obj_attr-some driver objects search p11 h cka_value template cert d2 reads new
            (value_of-cert_template id subj cert label) in
        let run : get_key_cert p11 key d' ≡ get_obj_attr driver p11 h cka_value d2 =
          ground (arith, one.1, two.0, here) in
        (
          ap (λ r. r.1) run ∙ last.0,
          ap (λ r. r.2) run ∙ last.1,
          ap (λ r. search r.0) run ∙ last.2.1 ∙ two.2.1 ∙ one.2.1 ∙ same ∙ idle,
        )
