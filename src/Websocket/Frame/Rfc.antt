-- ===== src/Websocket/Frame/Rfc.antt =====
-- The framing of RFC 6455, section 5.2, as the other end of the connection sees it: how a server
-- reads a client's frame, and what it sends. This is independent of the client's code.
use tlsuv.Base.{
  ℕ, zero, suc, ◌+◌, ◌*◌, ◌^◌, ◌/◌, ◌%◌, bit_xor, Bytes, Bool, ◌&&◌, Option, none, some, [], ◌∷◌,
  ◌++◌, length, ltb, leb, ◌==◌, if◌then◌else◌,
}

-- Some bytes of what arrives, and the others; `none` while there are too few.
unfoldable pub receive : ℕ → Bytes → Option (Bytes × Bytes)
receive zero t = some ([], t)
receive (suc n) [] = none
receive (suc n) (b ∷ t) = elim (receive n t) [
  | none ↦ none
  | some (got, rest) ↦ some (b ∷ got, rest)
]

-- A number in network byte order, of two and of eight bytes.
abbrev pub short_number : Bytes → Option (ℕ × Bytes)
short_number (a ∷ b ∷ t) = some (256 * a + b, t)
short_number _ = none

abbrev pub long_number : Bytes → Option (ℕ × Bytes)
long_number (a ∷ b ∷ c ∷ d ∷ e ∷ f ∷ g ∷ h ∷ t) =
    some
      (2 ^ 56 * a + 2 ^ 48 * b + 2 ^ 40 * c + 2 ^ 32 * d + 2 ^ 24 * e + 2 ^ 16 * f + 256 * g + h, t)
long_number _ = none

-- Section 5.3: the four bytes of the key take turns, beginning with the first.
unfoldable pub unmask : ℕ → ℕ → ℕ → ℕ → Bytes → Bytes
unmask k l m n [] = []
unmask k l m n (b ∷ bs) = bit_xor b k ∷ unmask l m n k bs

pub record Message : Type 0 where
  pub fin : Bool
  pub opcode : ℕ
  pub payload : Bytes
  pub behind : Bytes

-- The payload length, which must be given in as few bytes as will do.
unfoldable pub rfc_length : ℕ → Bytes → Option (ℕ × Bytes)
rfc_length n t =
    if ltb n 126
    then some (n, t)
    else if n == 126
    then elim (short_number t) [
      | none ↦ none
      | some (size, rest) ↦ if ltb 125 size then some (size, rest) else none
    ]
    else elim (long_number t) [
      | none ↦ none
      | some (size, rest) ↦ if ltb 65535 size && ltb size (2 ^ 63) then some (size, rest) else none
    ]

abbrev pub rfc_payload : ℕ → ℕ → Bytes → Option Message
rfc_payload a size (k ∷ l ∷ m ∷ n ∷ masked) = elim (receive size masked) [
  | none ↦ none
  | some (payload, rest) ↦
      some (record {
        fin = leb 128 a;
        opcode = a % 16;
        payload = unmask k l m n payload;
        behind = rest;
      })
]
rfc_payload a size _ = none

-- A frame of a client: no reserved bit is set, and it is masked.
unfoldable pub rfc_read : Bytes → Option Message
rfc_read (a ∷ b ∷ t) =
    if (a / 16 % 8 == 0) && leb 128 b
    then elim (rfc_length (b % 128) t) [ none ↦ none | some (n, rest) ↦ rfc_payload a n rest ]
    else none
rfc_read _ = none

-- The eight bytes of a number, the highest first.
abbrev pub long_bytes : ℕ → Bytes
long_bytes n =
    n / 2 ^ 56 % 256
    ∷ n / 2 ^ 48 % 256
    ∷ n / 2 ^ 40 % 256
    ∷ n / 2 ^ 32 % 256
    ∷ n / 2 ^ 24 % 256
    ∷ n / 2 ^ 16 % 256
    ∷ n / 256 % 256
    ∷ n % 256
    ∷ []

-- A frame of a server, which is not masked.
unfoldable pub server_frame : ℕ → Bytes → Bytes
server_frame op bytes =
    let n = length bytes in
    (128 + op)
    ∷ ((if ltb n 126
          then n ∷ []
          else if ltb n 65536
          then 126 ∷ n / 256 ∷ n % 256 ∷ []
          else 127 ∷ long_bytes n)
        ++ bytes)
