-- ===== src/P11/Setup.antt =====
-- Opening a session on a token: `p11_init` of src/p11.c.
use tlsuv.Base.{
  ℕ, ◌+◌, ◌-◌, ◌*◌, ◌^◌, ◌%◌, Bytes, Bool, true, false, ◌||◌, ◌&&◌, Option, none, some, [], ◌∷◌,
  leb, ◌==◌, drop, if◌then◌else◌, is_space,
}
use tlsuv.Http.UrlEncode.Decode.{hex_value}
use tlsuv.P11.{Rv, ckr_ok, ckr, Rc, rc_ok, minus_one, out_of_bounds, rc_ckr, Driver, Context}
use tlsuv.P11.Load.{next_digit, first_or_zero}

-- How the library was loaded: not at all, without `C_GetFunctionList`, or with its answer.
pub data Loading : Type 0 where
  no_library no_symbol : Loading
  function_list : Rv → Loading

abbrev pub ckr_function_failed : ℕ
ckr_function_failed = 0x6

abbrev pub ckr_user_already_logged_in : ℕ
ckr_user_already_logged_in = 0x100

abbrev pub ckr_cryptoki_already_initialized : ℕ
ckr_cryptoki_already_initialized = 0x191

abbrev pub ckr_library_load_failed : ℕ
ckr_library_load_failed = 0x1b7

abbrev hex_run : ℕ → Bytes → ℕ
hex_run acc [] = acc
hex_run acc (c ∷ s) = elim (hex_value c) [ none ↦ acc | some v ↦ hex_run (acc * 16 + v) s ]

abbrev is_some : Option ℕ → Bool
is_some none = false
is_some (some v) = true

-- "0x" in front of a digit.
abbrev after_prefix : Bytes → Bytes
after_prefix [] = []
after_prefix (c ∷ s) =
    let x = first_or_zero s in
    if c == b'0' && (x == b'x' || x == b'X') && is_some (next_digit (drop 1 s))
    then drop 1 s
    else c ∷ s

-- A number of type `unsigned long`, of 64 bits, with a sign; the largest one where it is too big.
abbrev signed_ulong : Bool → ℕ → ℕ
signed_ulong minus n =
    if leb (2 ^ 64) n then 2 ^ 64 - 1 else if minus then (2 ^ 64 - n) % 2 ^ 64 else n

-- `strtoul(slot, NULL, 16)`
unfoldable pub strtoul_hex : Bytes → ℕ
strtoul_hex [] = 0
strtoul_hex (c ∷ s) =
    let later = strtoul_hex s in
    if is_space c
    then later
    else if c == b'-'
    then signed_ulong true (hex_run 0 (after_prefix s))
    else if c == b'+'
    then signed_ulong false (hex_run 0 (after_prefix s))
    else signed_ulong false (hex_run 0 (after_prefix (c ∷ s)))

-- The codes that do not stop `p11_init`.
abbrev pub passes_with : ℕ → Rv → Bool
passes_with code ckr_ok = true
passes_with code (ckr n) = n == code

abbrev pub code_of : Rv → Rc
code_of ckr_ok = rc_ok
code_of (ckr n) = rc_ckr n

module _ {D : Type 0} (driver : Driver D) where
  -- The first slot that the driver reports; `slots[0]` is past the end where there is none.
  unfoldable pub first_slot : D → D × Rc × ℕ
  first_slot d =
      let (d1, rv1, count) = driver.slot_count d in
      elim rv1 [
        | ckr code ↦ (d1, rc_ckr code, 0)
        | ckr_ok ↦
            (let (d2, rv2, slots) = driver.slot_list count d1 in
              elim rv2 [
                | ckr code ↦ (d2, rc_ckr code, 0)
                | ckr_ok ↦ elim slots [ [] ↦ (d2, out_of_bounds, 0) | s ∷ _ ↦ (d2, rc_ok, s) ]
              ])
      ]

  abbrev pub slot_of : Option Bytes → D → D × Rc × ℕ
  slot_of none d = first_slot d
  slot_of (some []) d = first_slot d
  slot_of (some (c ∷ s)) d = (d, rc_ok, strtoul_hex (c ∷ s))

  -- `C_OpenSession` and `C_Login`
  unfoldable pub open_slot : Bytes → ℕ → D → D × Rc × Option Context
  open_slot pin slot d =
      let (d1, rv1, session) = driver.open_session slot d in
      elim rv1 [
        | ckr code ↦ (d1, rc_ckr code, none)
        | ckr_ok ↦
            (let (d2, rv2) = driver.login session pin d1 in
              if passes_with ckr_user_already_logged_in rv2
              then (d2, rc_ok, some (record { session = session; slot_id = slot }))
              else (d2, code_of rv2, none))
      ]

  -- From `C_Initialize` on.
  unfoldable pub init_driver : Option Bytes → Bytes → D → D × Rc × Option Context
  unfolding first_slot strtoul_hex
  init_driver slot pin d =
      let (d1, rv) = driver.initialize d in
      let (d2, rc, slot_id) = slot_of slot d1 in
      if passes_with ckr_cryptoki_already_initialized rv
      then elim rc [
        | rc_ok ↦ open_slot pin slot_id d2
        | minus_one ↦ (d2, minus_one, none)
        | out_of_bounds ↦ (d2, out_of_bounds, none)
        | rc_ckr code ↦ (d2, rc_ckr code, none)
      ]
      else (d1, code_of rv, none)

  -- `p11_init`
  unfoldable pub p11_init : Loading → Option Bytes → Bytes → D → D × Rc × Option Context
  p11_init loading slot pin d = elim loading [
    | no_library ↦ (d, rc_ckr ckr_function_failed, none)
    | no_symbol ↦ (d, rc_ckr ckr_library_load_failed, none)
    | function_list rv ↦ elim rv [
      | ckr code ↦ (d, rc_ckr code, none)
      | ckr_ok ↦ init_driver slot pin d
    ]
  ]
