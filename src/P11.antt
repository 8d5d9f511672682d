-- ===== src/P11.antt =====
-- Keys on a PKCS#11 token: src/p11.c. The driver is outside: its functions are fields of a record, on
-- a state of the driver's own.
pub mod Token
pub mod Load
pub mod Generate
pub mod Setup
pub mod Sign
pub mod Certs
use tlsuv.Base.{
  ℕ, zero, suc, ◌+◌, Bytes, Bool, true, false, Option, none, some, List, [], ◌∷◌, ◌++◌, length,
  take,
}

-- `CK_RV`: CKR_OK, or another code.
pub data Rv : Type 0 where
  ckr_ok : Rv
  ckr : ℕ → Rv

-- What a function of src/p11.c returns: 0, a code of the driver, or -1. `out_of_bounds` says that it
-- went past the end of an array.
pub data Rc : Type 0 where
  rc_ok minus_one out_of_bounds : Rc
  rc_ckr : ℕ → Rc

-- The values of `CK_ATTRIBUTE_TYPE`, `CK_OBJECT_CLASS`, `CK_KEY_TYPE` and `CK_MECHANISM_TYPE` that
-- are used, in src/pkcs11/pkcs11t.h.
abbrev pub cka_class : ℕ
cka_class = 0x0

abbrev pub cka_token : ℕ
cka_token = 0x1

abbrev pub cka_private : ℕ
cka_private = 0x2

abbrev pub cka_label : ℕ
cka_label = 0x3

abbrev pub cka_value : ℕ
cka_value = 0x11

abbrev pub cka_certificate_type : ℕ
cka_certificate_type = 0x80

abbrev pub cka_key_type : ℕ
cka_key_type = 0x100

abbrev pub cka_subject : ℕ
cka_subject = 0x101

abbrev pub cka_id : ℕ
cka_id = 0x102

abbrev pub cka_sensitive : ℕ
cka_sensitive = 0x103

abbrev pub cka_encrypt : ℕ
cka_encrypt = 0x104

abbrev pub cka_decrypt : ℕ
cka_decrypt = 0x105

abbrev pub cka_wrap : ℕ
cka_wrap = 0x106

abbrev pub cka_unwrap : ℕ
cka_unwrap = 0x107

abbrev pub cka_sign : ℕ
cka_sign = 0x108

abbrev pub cka_verify : ℕ
cka_verify = 0x10a

abbrev pub cka_modulus : ℕ
cka_modulus = 0x120

abbrev pub cka_modulus_bits : ℕ
cka_modulus_bits = 0x121

abbrev pub cka_public_exponent : ℕ
cka_public_exponent = 0x122

abbrev pub cka_ec_params : ℕ
cka_ec_params = 0x180

abbrev pub cka_ec_point : ℕ
cka_ec_point = 0x181

abbrev pub cko_certificate : ℕ
cko_certificate = 0x1

abbrev pub cko_public_key : ℕ
cko_public_key = 0x2

abbrev pub cko_private_key : ℕ
cko_private_key = 0x3

abbrev pub ckk_rsa : ℕ
ckk_rsa = 0x0

abbrev pub ckk_ec : ℕ
ckk_ec = 0x3

abbrev pub ckc_x_509 : ℕ
ckc_x_509 = 0x0

abbrev pub ckm_rsa_pkcs_key_pair_gen : ℕ
ckm_rsa_pkcs_key_pair_gen = 0x0

abbrev pub ckm_rsa_pkcs : ℕ
ckm_rsa_pkcs = 0x1

abbrev pub ckm_rsa_x_509 : ℕ
ckm_rsa_x_509 = 0x3

abbrev pub ckm_rsa_x9_31 : ℕ
ckm_rsa_x9_31 = 0xb

abbrev pub ckm_ec_key_pair_gen : ℕ
ckm_ec_key_pair_gen = 0x1040

abbrev pub ckm_ecdsa : ℕ
ckm_ecdsa = 0x1041

-- The value of an attribute.
pub data Value : Type 0 where
  ulong : ℕ → Value
  flag : Bool → Value
  bytes : Bytes → Value

-- An array of `CK_ATTRIBUTE`.
abbrev pub Template : Type 0
Template = List (ℕ × Value)

-- `CK_MECHANISM_INFO`, as far as it is read.
pub record MechanismInfo : Type 0 where
  pub generates : Bool
  pub max_key_size : ℕ

-- `CK_FUNCTION_LIST`. A value that a function stores counts only where it returns CKR_OK.
-- `C_GetAttributeValue` is three operations: without a buffer, with a buffer of a size, and for a
-- number. A search is asked for one object at most.
pub record Driver (D : Type 0) : Type 0 where
  pub initialize : D → D × Rv
  pub slot_count : D → D × Rv × ℕ
  pub slot_list : ℕ → D → D × Rv × List ℕ
  pub open_session : ℕ → D → D × Rv × ℕ
  pub login : ℕ → Bytes → D → D × Rv
  pub mechanism_info : ℕ → ℕ → D → D × Rv × MechanismInfo
  pub generate_random : ℕ → ℕ → D → D × Bytes
  pub generate_key_pair : ℕ → ℕ → Template → Template → D → D × Rv × ℕ × ℕ
  pub create_object : ℕ → Template → D → D × Rv
  pub find_objects_init : ℕ → Template → D → D × Rv
  pub find_objects : ℕ → D → D × Rv × Option ℕ
  pub find_objects_final : ℕ → D → D × Rv
  pub attribute_length : ℕ → ℕ → ℕ → D → D × Rv × ℕ
  pub attribute_bytes : ℕ → ℕ → ℕ → ℕ → D → D × Rv × Bytes
  pub attribute_key_type : ℕ → ℕ → D → D × Rv × ℕ
  pub sign_init : ℕ → ℕ → ℕ → D → D × Rv
  pub sign : ℕ → Bytes → ℕ → D → D × Rv × Bytes

-- `struct p11_context_s`, without the loaded library.
pub record Context : Type 0 where
  pub session : ℕ
  pub slot_id : ℕ

-- `struct p11_key_ctx_s`; the fields that nothing reads are left out.
pub record KeyContext : Type 0 where
  pub kind : ℕ
  pub priv_handle : ℕ
  pub pub_handle : ℕ
  pub ctx : Option Context

abbrev pub zeros : ℕ → Bytes
zeros zero = []
zeros (suc n) = 0 ∷ zeros n

-- A memory area of a size with some bytes stored at its front, in memory that was cleared.
abbrev pub stored : ℕ → Bytes → Bytes
stored n b = take n (b ++ zeros n)

-- `set_attr_ptr`: nothing is added for a NULL pointer.
abbrev pub attr_ptr : ℕ → Option Bytes → Template
attr_ptr a none = []
attr_ptr a (some b) = (a, bytes b) ∷ []

module _ {D : Type 0} (driver : Driver D) where
  -- `p11_get_obj_attr`: what `*val` and `*len` say together.
  unfoldable pub get_obj_attr : Context → ℕ → ℕ → D → D × Rc × Option Bytes
  get_obj_attr p11 h a d =
      let (d1, rv, len) = driver.attribute_length p11.session h a d in
      elim rv [
        | ckr code ↦ (d1, rc_ckr code, none)
        | ckr_ok ↦
            (let (d2, rv', val) = driver.attribute_bytes p11.session h a len d1 in
              elim rv' [
                | ckr code ↦ (d2, rc_ckr code, none)
                | ckr_ok ↦ (d2, rc_ok, some (stored len val))
              ])
      ]

  -- `C_FindObjectsInit`, `C_FindObjects` for one object and `C_FindObjectsFinal`, where the first
  -- that fails ends the search: its code, or the object if there is one.
  unfoldable pub find_one : Context → Template → D → D × Rv × Option ℕ
  find_one p11 query d =
      let (d1, rv1) = driver.find_objects_init p11.session query d in
      elim rv1 [
        | ckr code ↦ (d1, ckr code, none)
        | ckr_ok ↦
            (let (d2, rv2, found) = driver.find_objects p11.session d1 in
              elim rv2 [
                | ckr code ↦ (d2, ckr code, none)
                | ckr_ok ↦
                    (let (d3, rv3) = driver.find_objects_final p11.session d2 in
                      elim rv3 [ ckr code ↦ (d3, ckr code, none) | ckr_ok ↦ (d3, ckr_ok, found) ])
              ])
      ]
