-- ===== src/P11/Load/Ids.antt =====
-- The id of a key, given in hexadecimal: `p11_load_key` of src/p11.c.
use tlsuv.Base.{
  ℕ, ◌+◌, ◌*◌, ◌/◌, ◌%◌, ◌≡◌, ◌≤◌, ◌<◌, refl, Bytes, Option, some, [], ◌∷◌, length, drop, arith,
  leb, if◌then◌else◌, All,
}
use tlsuv.Http.UrlEncode.{hexify}
use tlsuv.Http.UrlEncode.Decode.{hex_value, hex_value-hexify}
use tlsuv.P11.{bytes, cka_id}
use tlsuv.P11.Load.{scan_byte, parse_id, selected, past_id, select, id_length, id_size}

-- Two digits for each byte.
abbrev pub hex_text : Bytes → Bytes
hex_text [] = []
hex_text (b ∷ bs) = hexify (b / 16) ∷ hexify (b % 16) ∷ hex_text bs

hexify_between : (n : ℕ) → n < 16 → (48 ≤ hexify n) × (hexify n ≤ 70)
unfolding hexify
hexify_between n h = ground (arith, h)

scan_byte-digits :
    (c d : ℕ) (s : Bytes) (h l : ℕ)
    → 48 ≤ c
    → c ≤ 70
    → d ≤ 70
    → hex_value c ≡ some h
    → hex_value d ≡ some l
    → scan_byte (c ∷ d ∷ s) ≡ some (h * 16 + l)
unfolding scan_byte
scan_byte-digits c d s h l lo hi hi' e e' = ground (arith, lo, hi, hi', e, e')

scan_byte-hex :
    (b : ℕ) (s : Bytes) → b < 256 → scan_byte (hexify (b / 16) ∷ hexify (b % 16) ∷ s) ≡ some b
scan_byte-hex b s h =
    let one = hexify_between (b / 16) (omega (arith, h)) in
    let two = hexify_between (b % 16) (omega arith) in
    ground (
      arith,
      scan_byte-digits (hexify (b / 16)) (hexify (b % 16)) s (b / 16) (b % 16) one.0 one.1 two.1
          (hex_value-hexify (b / 16) (omega (arith, h))) (hex_value-hexify (b % 16) (omega arith)),
    )

parse_id-hex_text :
    (mem id : Bytes) → All (λ b. b < 256) id → parse_id (length id) mem (hex_text id) ≡ id
unfolding parse_id
parse_id-hex_text mem [] h = refl
parse_id-hex_text mem (b ∷ id) (h, hs) =
    ground (arith, scan_byte-hex b (hex_text id) h, parse_id-hex_text (drop 1 mem) id hs)

length-hex_text : (id : Bytes) → length (hex_text id) ≡ 2 * length id
length-hex_text [] = refl
length-hex_text (b ∷ id) = omega (arith, length-hex_text id)

-- An id that is given with two digits for each byte, in upper case, is the one that is searched for, when it has at
-- most the 32 bytes of the array it is parsed into; a longer one is written past its end.
pub select-hex_text :
    (mem : Bytes) (label : Option Bytes) (b : ℕ) (id : Bytes)
    → All (λ c. c < 256) (b ∷ id)
    → select mem (some (hex_text (b ∷ id))) label ≡ (
        if leb (length (b ∷ id)) id_size then selected ((cka_id, bytes (b ∷ id)) ∷ []) else past_id)
select-hex_text mem label b id h =
    let size : id_length (hex_text (b ∷ id)) ≡ length (b ∷ id) =
      omega (arith, length-hex_text id) in
    rw (size, parse_id-hex_text mem (b ∷ id) h) refl
