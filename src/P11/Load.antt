-- ===== src/P11/Load.antt =====
-- Finding a key on the token: `p11_load_key` of src/p11.c.
pub mod Ids
pub mod Found
use tlsuv.Base.{
  ℕ, zero, suc, ◌+◌, ◌-◌, ◌*◌, ◌/◌, ◌≡◌, refl, sym, ap, subst, ◌∙◌, Bytes, Bool, true, false, ◌&&◌,
  ◌||◌, Option, none, some, List, [], ◌∷◌, ◌++◌, length, drop, arith, ◌==◌, leb, is_space, ==→eq,
  if◌then◌else◌, All, Bool-cases, inl, inr, ◌⊎◌, Option-cases,
}
use tlsuv.Http.UrlEncode.Decode.{hex_value}
use tlsuv.P11.{
  Rv, ckr_ok, ckr, Rc, rc_ok, minus_one, out_of_bounds, rc_ckr, Value, ulong, flag, bytes, Template,
  Driver, Context, KeyContext, find_one, cka_class, cka_id, cka_label, cka_key_type,
  cko_private_key, cko_public_key,
}

abbrev pub next_digit : Bytes → Option ℕ
next_digit [] = none
next_digit (d ∷ s) = hex_value d

-- The first byte, and 0 where there is none.
abbrev pub first_or_zero : Bytes → ℕ
first_or_zero [] = 0
first_or_zero (d ∷ s) = d

abbrev pub join_digits : Option ℕ → Option ℕ → Option ℕ
join_digits none l = none
join_digits (some h) none = some h
join_digits (some h) (some l) = some (h * 16 + l)

-- A negative number, as a byte.
abbrev pub negated : Option ℕ → Option ℕ
negated none = none
negated (some zero) = some 0
negated (some (suc l)) = some (255 - l)

abbrev pub or_old : ℕ → Option ℕ → ℕ
or_old old none = old
or_old old (some v) = v

-- `sscanf` with "%2hhx": leading white space is skipped, and of the two characters behind it the
-- first may be a sign; "0x" alone has no digit.
unfoldable pub scan_byte : Bytes → Option ℕ
scan_byte [] = none
scan_byte (c ∷ s) =
    let skipped = scan_byte s in
    let d = first_or_zero s in
    if is_space c
    then skipped
    else if c == b'+'
    then next_digit s
    else if c == b'-'
    then negated (next_digit s)
    else if c == b'0' && (d == b'x' || d == b'X')
    then none
    else join_digits (hex_value c) (next_digit s)

-- The loop over `id`: a byte that cannot be read stays what it was in memory.
unfoldable pub parse_id : ℕ → Bytes → Bytes → Bytes
parse_id zero mem s = []
parse_id (suc n) mem s =
    or_old (first_or_zero mem) (scan_byte s) ∷ parse_id n (drop 1 mem) (drop 2 s)

-- `char id[32]`
abbrev pub id_size : ℕ
id_size = 32

abbrev pub ckr_key_needed : ℕ
ckr_key_needed = 0x66

-- What is asked for besides the class; `past_id` when the id is written past the end of its array.
pub data Selection : Type 0 where
  past_id nothing_given : Selection
  selected : Template → Selection

abbrev pub id_length : Bytes → ℕ
id_length idstr = (length idstr + 1) / 2

abbrev by_label : Option Bytes → Selection
by_label none = nothing_given
by_label (some []) = nothing_given
by_label (some (c ∷ cs)) = selected ((cka_label, bytes (c ∷ cs)) ∷ [])

abbrev pub select : Bytes → Option Bytes → Option Bytes → Selection
select mem none label = by_label label
select mem (some []) label = by_label label
select mem (some (c ∷ cs)) label =
    if leb (id_length (c ∷ cs)) id_size
    then selected ((cka_id, bytes (parse_id (id_length (c ∷ cs)) mem (c ∷ cs))) ∷ [])
    else past_id

abbrev pub of_class : ℕ → Template → Template
of_class cls sel = (cka_class, ulong cls) ∷ sel

module _ {D : Type 0} (driver : Driver D) where
  -- From the second search on; `h` is the handle that the first one found. The context of the key
  -- counts only where the result is 0: its owner releases it otherwise.
  unfoldable pub load_public : Context → Template → ℕ → D → D × Rc × Option KeyContext
  load_public p11 sel h d =
      let (d2, rv2, found) = find_one driver p11 (of_class cko_public_key sel) d in
      elim rv2 [
        | ckr code ↦ (d2, rc_ckr code, none)
        | ckr_ok ↦ elim found [
          | none ↦ (d2, rc_ckr ckr_key_needed, none)
          | some g ↦
              (let (d3, rv3, k) = driver.attribute_key_type p11.session h d2 in
                elim rv3 [
                  | ckr code ↦ (d3, rc_ckr code, none)
                  | ckr_ok ↦ (
                    d3,
                    rc_ok,
                    some (record { kind = k; priv_handle = h; pub_handle = g; ctx = some p11 }),
                  )
                ])
        ]
      ]

  -- From the first search on.
  unfoldable pub load_selected : Context → Template → D → D × Rc × Option KeyContext
  load_selected p11 sel d =
      let (d1, rv1, found) = find_one driver p11 (of_class cko_private_key sel) d in
      elim rv1 [
        | ckr code ↦ (d1, rc_ckr code, none)
        | ckr_ok ↦ elim found [
          | none ↦ (d1, rc_ckr ckr_key_needed, none)
          | some h ↦ load_public p11 sel h d1
        ]
      ]

  -- `p11_load_key`
  unfoldable pub load_key :
      Context → Bytes → Option Bytes → Option Bytes → D → D × Rc × Option KeyContext
  load_key p11 mem idstr label d = elim (select mem idstr label) [
    | past_id ↦ (d, out_of_bounds, none)
    | nothing_given ↦ (d, rc_ckr ckr_key_needed, none)
    | selected sel ↦ load_selected p11 sel d
  ]
