-- ===== src/Base/Decimal.antt =====
-- Numbers as text: what `%d`, `%ld` print, `%zx`, and what `strtol` reads in base 10.
use Prim.Native.Nat.{ℕ, zero, suc, ◌+◌, ◌-◌, ◌*◌, ◌/◌, ◌%◌, ◌^◌, ◌<◌, min}
use mathlib.Core.Path.{◌≡◌, refl, ◌∙◌, ap}
use mathlib.Core.Bool.{Bool, true, false, ◌&&◌, ◌||◌}
use mathlib.Core.Option.{Option, none, some}
use mathlib.Core.List.{[], ◌∷◌, ◌++◌, append_assoc}
use mathlib.Core.Logic.{inl, inr}
use native.Mathlib.Nat.{pow-suc}
use native.Mathlib.Omega.{arith}
use tlsuv.Base.Lists.{Bytes}
use tlsuv.Base.Tests.{leb, ltb, ◌==◌, if◌then◌else◌, Bool-cases, ltb→lt}

abbrev pub is_digit : ℕ → Bool
is_digit c = leb b'0' c && leb c b'9'

abbrev pub is_space : ℕ → Bool
is_space c = c == b' ' || (leb 9 c && leb c 13)

print_upto : ℕ → ℕ → Bytes
print_upto zero n = (n % 10 + b'0') ∷ []
print_upto (suc fuel) n =
    let rest = print_upto fuel (n / 10) ++ (n % 10 + b'0') ∷ [] in
    if ltb n 10 then (n + b'0') ∷ [] else rest

-- A number below 2^64 has at most 20 digits.
unfoldable pub print_decimal : ℕ → Bytes
unfolding print_upto
print_decimal n = print_upto 20 n

unfoldable pub read_digits : ℕ → Bytes → ℕ × Bytes
read_digits acc [] = (acc, [])
read_digits acc (c ∷ cs) =
    let more = read_digits (acc * 10 + (c - b'0')) cs in if is_digit c then more else (acc, c ∷ cs)

unfoldable pub skip_space : Bytes → Bytes
skip_space [] = []
skip_space (c ∷ cs) = let rest = skip_space cs in if is_space c then rest else c ∷ cs

-- The sign, and what follows it.
abbrev pub read_sign : Bytes → Bool × Bytes
read_sign [] = (false, [])
read_sign (c ∷ cs) =
    if c == b'-' then (true, cs) else if c == b'+' then (false, cs) else (false, c ∷ cs)

-- What `strtol(s, &end, 10)` yields: whether the number is negative, its magnitude, held at the
-- limit of a 64-bit `long`, and the text at `end`.
pub record Strtol : Type 0 where
  pub negative : Bool
  pub magnitude : ℕ
  pub end_text : Bytes

abbrev pub starts_digit : Bytes → Bool
starts_digit [] = false
starts_digit (c ∷ cs) = is_digit c

-- `none` where there is no number, so that `end == s`.
unfoldable pub strtol : Bytes → Option Strtol
unfolding read_digits skip_space
strtol s =
    let (negative, text) = read_sign (skip_space s) in
    let (value, rest) = read_digits 0 text in
    if starts_digit text
    then some (record {
      negative = negative;
      magnitude = min value (if negative then 2 ^ 63 else 2 ^ 63 - 1);
      end_text = rest;
    })
    else none

print_upto-digits :
    (fuel n : ℕ) (rest : Bytes)
    → n < 10 ^ suc fuel
    → (d : ℕ) × (t : Bytes) × (print_upto fuel n ++ rest ≡ d ∷ t) × (is_digit d ≡ true)
unfolding print_upto
print_upto-digits zero n rest h = (n % 10 + b'0', rest, refl, ground arith)
print_upto-digits (suc fuel) n rest h = elim (Bool-cases (ltb n 10)) [
  | inl small ↦ rw small (n + b'0', rest, refl, ground arith)
  | inr big ↦
      rw (big, append_assoc)
        (print_upto-digits fuel (n / 10) ((n % 10 + b'0') ∷ rest)
          (omega (arith, pow-suc 10 (suc fuel))))
]

read_digits-digit :
    (acc d : ℕ) (rest : Bytes)
    → d < 10
    → read_digits acc ((d + b'0') ∷ rest) ≡ read_digits (acc * 10 + d) rest
unfolding read_digits
read_digits-digit acc d rest h =
    let digit : is_digit (d + b'0') ≡ true = ground arith in
    let value : d + b'0' - b'0' ≡ d = omega arith in rw (digit, value)

read_digits-print_upto :
    (fuel n : ℕ) (rest : Bytes)
    → n < 10 ^ suc fuel
    → read_digits 0 (print_upto fuel n ++ rest) ≡ read_digits n rest
unfolding print_upto
read_digits-print_upto zero n rest h =
    read_digits-digit 0 (n % 10) rest (omega arith)
    ∙ ap (λ (k : ℕ). read_digits k rest) (omega arith)
read_digits-print_upto (suc fuel) n rest h = elim (Bool-cases (ltb n 10)) [
  | inl small ↦ rw small (
      read_digits-digit 0 n rest (ltb→lt _ _ small)
      ∙ ap (λ (k : ℕ). read_digits k rest) (omega arith))
  | inr big ↦
      rw (big, append_assoc)
        (read_digits-print_upto fuel (n / 10) ((n % 10 + b'0') ∷ rest)
            (omega (arith, pow-suc 10 (suc fuel)))
          ∙ read_digits-digit (n / 10) (n % 10) rest (omega arith)
          ∙ ap (λ (k : ℕ). read_digits k rest) (omega arith))
]

read_digits-stop :
    (n : ℕ) (rest : Bytes) → starts_digit rest ≡ false → read_digits n rest ≡ (n, rest)
unfolding read_digits
read_digits-stop n [] h = refl
read_digits-stop n (c ∷ cs) h = rw h

strtol_of_digit :
    (s : Bytes)
    → starts_digit s ≡ true
    → strtol s
      ≡ some (record {
        negative = false;
        magnitude = min (read_digits 0 s).0 (2 ^ 63 - 1);
        end_text = (read_digits 0 s).1;
      })
unfolding strtol
strtol_of_digit [] h = cc
strtol_of_digit (c ∷ cs) h = ground arith

-- What is printed is read back, and the reading stops behind it.
pub strtol-print_decimal :
    (n : ℕ) (rest : Bytes)
    → n < 2 ^ 63
    → starts_digit rest ≡ false
    → strtol (print_decimal n ++ rest)
      ≡ some (record { negative = false; magnitude = n; end_text = rest })
unfolding print_decimal
strtol-print_decimal n rest h k =
    let (d, t, e, is) = print_upto-digits 20 n rest (omega arith) in
    let r = read_digits-print_upto 20 n rest (omega arith) ∙ read_digits-stop n rest k in
    strtol_of_digit (print_upto 20 n ++ rest) (rw e is) ∙ rw r (ground arith)

-- A printed number is a text of digits.
pub print_decimal-digit :
    (n : ℕ) (rest : Bytes)
    → n < 2 ^ 63
    → (d : ℕ) × (t : Bytes) × (print_decimal n ++ rest ≡ d ∷ t) × (is_digit d ≡ true)
unfolding print_decimal
print_decimal-digit n rest h = print_upto-digits 20 n rest (omega arith)
