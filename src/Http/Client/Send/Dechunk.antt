-- ===== src/Http/Client/Send/Dechunk.antt =====
-- A reader of the chunked coding: the specification that the writes are held against.
use tlsuv.Base.{
  ℕ, zero, suc, ◌+◌, ◌-◌, ◌*◌, ◌/◌, ◌%◌, ◌^◌, ◌≤◌, ◌<◌, ◌≡◌, refl, ap, ◌∙◌, Bytes, Bool, true,
  false, ◌&&◌, Option, none, some, [], ◌∷◌, ◌++◌, append_assoc, length, length-append, take, drop,
  arith, ltb, ltb→lt, leb, ◌==◌, if◌then◌else◌, Bool-cases, inl, inr,
}
use native.Mathlib.Nat.{pow-suc}
use tlsuv.Http.Client.Send.{hex_digit, print_hex_upto, print_hex}

abbrev pub is_hex : ℕ → Bool
is_hex c = if leb b'0' c && leb c b'9' then true else leb b'a' c && leb c b'f'

abbrev hex_digit_value : ℕ → ℕ
hex_digit_value c = if leb c b'9' then c - b'0' else c - b'a' + 10

unfoldable pub read_hex : ℕ → Bytes → ℕ × Bytes
read_hex acc [] = (acc, [])
read_hex acc (c ∷ cs) =
    let more = read_hex (acc * 16 + hex_digit_value c) cs in
    if is_hex c then more else (acc, c ∷ cs)

unfoldable pub skip_crlf : Bytes → Option Bytes
skip_crlf (a ∷ b ∷ rest) = if (a == b'\r') && (b == b'\n') then some rest else none
skip_crlf _ = none

-- A size line: the size, and what follows the line.
unfoldable pub read_size : Bytes → Option (ℕ × Bytes)
unfolding read_hex skip_crlf
read_size s =
    let (n, rest) = read_hex 0 s in elim (skip_crlf rest) [ none ↦ none | some t ↦ some (n, t) ]

-- The bytes of a chunk of `n` bytes and the line end behind them.
unfoldable pub read_chunk : ℕ → Bytes → Option (Bytes × Bytes)
unfolding skip_crlf
read_chunk n s =
    if leb n (length s)
    then elim (skip_crlf (drop n s)) [ none ↦ none | some t ↦ some (take n s, t) ]
    else none

-- Chunks up to the empty one: the data, and what follows. The fuel bounds their number.
unfoldable pub dechunk : ℕ → Bytes → Option (Bytes × Bytes)
dechunk zero s = none
dechunk (suc fuel) s = elim (read_size s) [
  | none ↦ none
  | some (n, t) ↦ elim (n == 0) [
    | true ↦ elim (read_chunk 0 t) [ none ↦ none | some (b, rest) ↦ some ([], rest) ]
    | false ↦ elim (read_chunk n t) [
      | none ↦ none
      | some (b, rest) ↦ elim (dechunk fuel rest) [
        | none ↦ none
        | some (bs, end_text) ↦ some (b ++ bs, end_text)
      ]
    ]
  ]
]

read_hex-digit :
    (acc d : ℕ) (rest : Bytes)
    → d < 16
    → read_hex acc (hex_digit d ∷ rest) ≡ read_hex (acc * 16 + d) rest
unfolding read_hex
read_hex-digit acc d rest h =
    let digit : is_hex (hex_digit d) ≡ true = ground arith in
    let value : hex_digit_value (hex_digit d) ≡ d = ground arith in rw (digit, value)

read_hex-print_upto :
    (fuel n : ℕ) (rest : Bytes)
    → n < 16 ^ suc fuel
    → read_hex 0 (print_hex_upto fuel n ++ rest) ≡ read_hex n rest
unfolding print_hex_upto
read_hex-print_upto zero n rest h =
    read_hex-digit 0 (n % 16) rest (omega arith) ∙ ap (λ (k : ℕ). read_hex k rest) (omega arith)
read_hex-print_upto (suc fuel) n rest h = elim (Bool-cases (ltb n 16)) [
  | inl small ↦
      rw small
        (read_hex-digit 0 n rest (ltb→lt _ _ small) ∙ ap (λ (k : ℕ). read_hex k rest) (omega arith))
  | inr big ↦
      rw (big, append_assoc)
        (read_hex-print_upto fuel (n / 16) (hex_digit (n % 16) ∷ rest)
            (omega (arith, pow-suc 16 (suc fuel)))
          ∙ read_hex-digit (n / 16) (n % 16) rest (omega arith)
          ∙ ap (λ (k : ℕ). read_hex k rest) (omega arith))
]

-- A printed size is read back from its line.
pub read_size-print_hex :
    (n : ℕ) (rest : Bytes)
    → n < 2 ^ 64
    → read_size (print_hex n ++ (b'\r' ∷ b'\n' ∷ rest)) ≡ some (n, rest)
unfolding read_size print_hex
read_size-print_hex n rest h =
    ground (arith, read_hex-print_upto 16 n (b'\r' ∷ b'\n' ∷ rest) (omega arith))

length-print_upto : (fuel k n : ℕ) → n < 16 ^ suc k → length (print_hex_upto fuel n) ≤ suc k
unfolding print_hex_upto
length-print_upto zero k n h = omega arith
length-print_upto (suc fuel) zero n h = ground arith
length-print_upto (suc fuel) (suc k) n h = elim (Bool-cases (ltb n 16)) [
  | inl small ↦ rw small (omega arith)
  | inr big ↦
      rw (big, length-append)
        (omega (arith, length-print_upto fuel k (n / 16) (omega (arith, pow-suc 16 (suc k)))))
]

-- A size below 2^28 has at most seven digits.
pub length-print_hex : (n : ℕ) → n < 2 ^ 28 → length (print_hex n) ≤ 7
unfolding print_hex
length-print_hex n h = length-print_upto 16 6 n h

skip_crlf_here : (rest : Bytes) → skip_crlf (b'\r' ∷ b'\n' ∷ rest) ≡ some rest
unfolding skip_crlf
skip_crlf_here rest = refl
