-- ===== src/P11/Generate.antt =====
-- Making a key on the token: `p11_gen_key` of src/p11.c.
pub mod Laws
use tlsuv.Base.{
  ℕ, zero, suc, ◌+◌, ◌%◌, ◌^◌, ◌≡◌, ◌≢◌, refl, sym, ap, ◌∙◌, Bytes, Bool, true, false, ◌&&◌, Option,
  none, some, List, [], ◌∷◌, ◌++◌, length, arith, leb, ◌==◌, if◌then◌else◌, Bool-cases, inl, inr,
  bytes_eq, bytes_eq_refl,
}
use tlsuv.P11.{
  Rv, ckr_ok, ckr, Rc, rc_ok, minus_one, rc_ckr, Value, ulong, flag, bytes, Template, MechanismInfo,
  Driver, Context, KeyContext, attr_ptr, cka_class, cka_id, cka_label, cka_key_type, cka_private,
  cka_token, cka_sensitive, cka_decrypt, cka_sign, cka_unwrap, cka_encrypt, cka_verify, cka_wrap,
  cka_ec_params, cka_modulus_bits, cka_public_exponent, cko_private_key, cko_public_key, ckk_ec,
  ckk_rsa, ckm_ec_key_pair_gen, ckm_rsa_pkcs_key_pair_gen,
}

-- `get_ec_params`, the DER form of the name of a curve.
unfoldable pub get_ec_params : ℕ → Option Bytes
get_ec_params keysize =
    if leb 521 keysize
    then some (0x06 ∷ 0x05 ∷ 0x2b ∷ 0x81 ∷ 0x04 ∷ 0x00 ∷ 0x23 ∷ [])
    else if leb 384 keysize
    then some (0x06 ∷ 0x05 ∷ 0x2b ∷ 0x81 ∷ 0x04 ∷ 0x00 ∷ 0x22 ∷ [])
    else if leb 256 keysize
    then some (0x06 ∷ 0x08 ∷ 0x2a ∷ 0x86 ∷ 0x48 ∷ 0xce ∷ 0x3d ∷ 0x03 ∷ 0x01 ∷ 0x07 ∷ [])
    else if leb 244 keysize
    then some (0x06 ∷ 0x05 ∷ 0x2b ∷ 0x81 ∷ 0x04 ∷ 0x00 ∷ 0x21 ∷ [])
    else if leb 192 keysize
    then some (0x06 ∷ 0x08 ∷ 0x2a ∷ 0x86 ∷ 0x48 ∷ 0xce ∷ 0x3d ∷ 0x03 ∷ 0x01 ∷ 0x01 ∷ [])
    else none

-- `get_ec_params((int)keysize, …)`: a negative number is below all sizes.
abbrev pub ec_params : ℕ → Option Bytes
ec_params keysize =
    if leb (2 ^ 31) (keysize % 2 ^ 32) then none else get_ec_params (keysize % 2 ^ 32)

-- `privtemp`
abbrev pub private_template : Bytes → ℕ → Option Bytes → Template
private_template id keytype label =
    (cka_id, bytes id)
    ∷ (cka_class, ulong cko_private_key)
    ∷ (cka_key_type, ulong keytype)
    ∷ (cka_private, flag true)
    ∷ (cka_token, flag true)
    ∷ (cka_sensitive, flag true)
    ∷ (cka_decrypt, flag true)
    ∷ (cka_sign, flag true)
    ∷ (cka_unwrap, flag true)
    ∷ attr_ptr cka_label label

-- `pubtemp`
abbrev pub public_template : Bytes → ℕ → ℕ → Option Bytes → Template
public_template id keytype keysize label =
    (cka_id, bytes id)
    ∷ (cka_class, ulong cko_public_key)
    ∷ (cka_key_type, ulong keytype)
    ∷ (cka_token, flag true)
    ∷ (cka_encrypt, flag true)
    ∷ (cka_verify, flag true)
    ∷ (cka_wrap, flag true)
    ∷ (attr_ptr cka_label label
        ++ (if keytype == ckk_ec then attr_ptr cka_ec_params (ec_params keysize) else [])
        ++ (if keytype == ckk_rsa
            then (cka_modulus_bits, ulong keysize)
              ∷ (cka_public_exponent, bytes (1 ∷ 0 ∷ 1 ∷ []))
              ∷ []
            else []))

-- `try_types`
abbrev pub try_types : List ℕ
try_types = ckm_ec_key_pair_gen ∷ ckm_rsa_pkcs_key_pair_gen ∷ []

abbrev pub is_ok : Rv → Bool
is_ok ckr_ok = true
is_ok (ckr code) = false

module _ {D : Type 0} (driver : Driver D) where
  -- The loop over `try_types`, which asks for `try_types[0]` in each round: the type that is taken
  -- and the size of a key.
  unfoldable pub find_mechanism : Context → List ℕ → D → D × Option (ℕ × ℕ)
  find_mechanism p11 [] d = (d, none)
  find_mechanism p11 (mech ∷ types) d =
      let (d', rv, info) = driver.mechanism_info p11.slot_id ckm_ec_key_pair_gen d in
      let rest = find_mechanism p11 types d' in
      if is_ok rv && info.generates then (d', some (mech, info.max_key_size)) else rest

  -- From `found:` on.
  unfoldable pub generate : Context → Option Bytes → ℕ → ℕ → D → D × Rc × Option KeyContext
  generate p11 label mech keysize d =
      let keytype = if mech == ckm_rsa_pkcs_key_pair_gen then ckk_rsa else ckk_ec in
      let (d1, id) = driver.generate_random p11.session 8 d in
      let (d2, rv, pubh, privh) =
        driver.generate_key_pair p11.session mech (public_template id keytype keysize label)
          (private_template id keytype label) d1 in
      elim rv [
        | ckr code ↦ (d2, minus_one, none)
        | ckr_ok ↦ (
          d2,
          rc_ok,
          some (record { kind = keytype; priv_handle = privh; pub_handle = pubh; ctx = some p11 }),
        )
      ]

  -- `p11_gen_key`. The context of the key counts only where the result is 0.
  unfoldable pub gen_key : Context → Option Bytes → D → D × Rc × Option KeyContext
  unfolding find_mechanism
  gen_key p11 label d =
      let (d', found) = find_mechanism p11 try_types d in
      elim found [
        | none ↦ (d', minus_one, none)
        | some (mech, keysize) ↦ generate p11 label mech keysize d'
      ]
