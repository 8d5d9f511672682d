-- ===== src/Base64/Encode.antt =====
-- The unpadded base64url text of RFC 4648, section 5, which src/base64.c reads: the specification.
use tlsuv.Base.{ℕ, ◌+◌, ◌-◌, ◌*◌, ◌/◌, ◌%◌, [], ◌∷◌, Bytes, ltb, ◌==◌, if◌then◌else◌}

-- The digit for a value below 64.
unfoldable pub symbol : ℕ → ℕ
symbol v =
    if ltb v 26
    then v + b'A'
    else if ltb v 52
    then (v - 26) + b'a'
    else if ltb v 62
    then (v - 52) + b'0'
    else if v == 62
    then b'-'
    else b'_'

unfoldable pub encode : Bytes → Bytes
encode [] = []
encode (a ∷ []) = symbol (a / 4) ∷ symbol (a % 4 * 16) ∷ []
encode (a ∷ b ∷ []) = symbol (a / 4) ∷ symbol (a % 4 * 16 + b / 16) ∷ symbol (b % 16 * 4) ∷ []
encode (a ∷ b ∷ c ∷ rest) =
    symbol (a / 4)
    ∷ symbol (a % 4 * 16 + b / 16)
    ∷ symbol (b % 16 * 4 + c / 64)
    ∷ symbol (c % 64)
    ∷ encode rest
