-- ===== src/Mbedtls/Csr.antt =====
-- The subject of a certificate request: the loop of `generate_csr` in src/mbedtls/engine.c, whose
-- text `mbedtls_x509write_csr_set_subject_name` reads.
pub mod Names
use tlsuv.Base.{
  ℕ, ◌+◌, Bytes, Bool, true, false, Option, none, some, List, [], ◌∷◌, ◌++◌, length, ltb,
  if◌then◌else◌,
}

-- MBEDTLS_X509_MAX_DN_NAME_SIZE
abbrev pub name_size : ℕ
name_size = 256

-- One attribute, `id` and `val`.
unfoldable pub attribute : Bytes × Bytes → Bytes
attribute (id, val) = id ++ b'=' ∷ val

-- The loop; the flag is `first`.
unfoldable pub subject_loop : Bool → List (Bytes × Bytes) → Bytes
unfolding attribute
subject_loop first [] = []
subject_loop first (a ∷ as_) =
    let rest = attribute a ++ subject_loop false as_ in if first then rest else b',' ∷ rest

-- `subject_name` with its NUL; `none` where it is written past the end of its array, which is not
-- looked at.
unfoldable pub subject_name : List (Bytes × Bytes) → Option Bytes
unfolding subject_loop
subject_name attributes =
    let text = subject_loop true attributes in
    if ltb (length text) name_size then some text else none
