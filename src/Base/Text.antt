-- ===== src/Base/Text.antt =====
-- C strings as lists of byte values, without the final NUL; what ctype.h and strings.h say of them.
use Prim.Native.Char.{code}
use Prim.Native.String.{String}
use Prim.Native.Nat.{ℕ, ◌+◌}
use mathlib.Core.Bool.{Bool, true, false, ◌&&◌}
use mathlib.Core.List.{[], ◌∷◌}
use mathlib.Core.Path.{◌≡◌, refl}
use native.Mathlib.Omega.{arith}
use tlsuv.Base.Lists.{Bytes}
use tlsuv.Base.Tests.{leb, ◌==◌, if◌then◌else◌}

-- The code points of a text: its bytes, if it is ASCII.
abbrev pub codes : String → Bytes
codes String.[] = []
codes (String.◌∷◌ c s) = code c ∷ codes s

-- `tolower` in the C locale.
abbrev pub to_lower : ℕ → ℕ
to_lower c = if leb b'A' c && leb c b'Z' then c + 32 else c

-- `strcmp(s, t) == 0`.
abbrev pub bytes_eq : Bytes → Bytes → Bool
bytes_eq [] [] = true
bytes_eq [] (b ∷ t) = false
bytes_eq (a ∷ s) [] = false
bytes_eq (a ∷ s) (b ∷ t) = (a == b) && bytes_eq s t

-- `strcasecmp(s, t) == 0`.
abbrev pub case_eq : Bytes → Bytes → Bool
case_eq [] [] = true
case_eq [] (b ∷ t) = false
case_eq (a ∷ s) [] = false
case_eq (a ∷ s) (b ∷ t) = (to_lower a == to_lower b) && case_eq s t

pub bytes_eq_refl : (s : Bytes) → bytes_eq s s ≡ true
bytes_eq_refl [] = refl
bytes_eq_refl (a ∷ s) = ground (arith, bytes_eq_refl s)

pub eq_of_bytes_eq : (s t : Bytes) → bytes_eq s t ≡ true → s ≡ t
eq_of_bytes_eq [] [] h = refl
eq_of_bytes_eq [] (b ∷ t) h = cc
eq_of_bytes_eq (a ∷ s) [] h = cc
eq_of_bytes_eq (a ∷ s) (b ∷ t) h = ground (arith, eq_of_bytes_eq s t)

pub case_eq_refl : (s : Bytes) → case_eq s s ≡ true
case_eq_refl [] = refl
case_eq_refl (a ∷ s) = ground (arith, case_eq_refl s)

pub case_eq_comm : (s t : Bytes) → case_eq s t ≡ case_eq t s
case_eq_comm [] [] = refl
case_eq_comm [] (b ∷ t) = refl
case_eq_comm (a ∷ s) [] = refl
case_eq_comm (a ∷ s) (b ∷ t) = ground (arith, case_eq_comm s t)

-- Texts that match one text match one another.
pub case_eq_trans : (s t u : Bytes) → case_eq s t ≡ true → case_eq t u ≡ true → case_eq s u ≡ true
case_eq_trans [] [] u h k = k
case_eq_trans [] (b ∷ t) u h k = cc
case_eq_trans (a ∷ s) [] u h k = cc
case_eq_trans (a ∷ s) (b ∷ t) [] h k = cc
case_eq_trans (a ∷ s) (b ∷ t) (c ∷ u) h k = ground (arith, case_eq_trans s t u)
