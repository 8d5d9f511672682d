-- ===== src/Websocket/Frame/RoundTrip.antt =====
-- The frames of the client against RFC 6455, in both directions.
use tlsuv.Base.{
  ℕ, zero, suc, ◌+◌, ◌*◌, ◌/◌, ◌%◌, ◌^◌, ◌<◌, ◌≡◌, refl, sym, ap, ap₂, ◌∙◌, bit_or, bit_xor_twice,
  bit_or_fields, Bytes, true, some, [], ◌∷◌, ◌++◌, All, length, length-append, take, drop,
  take_prefix, drop_prefix, get_or, ltb, leb, arith, inl, inr, Bool-cases, append_assoc,
}
use native.Mathlib.Nat.{pow-suc}
use tlsuv.Websocket.Frame.{be, from_be, mask_bytes, size_bytes, ws_frame, frame_size, split_at}
use tlsuv.Websocket.Frame.Rfc.{
  receive, short_number, long_number, long_bytes, unmask, rfc_length, rfc_payload, rfc_read,
}

abbrev pub IsByte : ℕ → Type 0
IsByte b = b < 256

pub length-be : (n v : ℕ) → length (be n v) ≡ n
unfolding be
length-be zero v = refl
length-be (suc n) v =
    ground (arith, length-be n (v / 256), length-append (be n (v / 256)) (v % 256 ∷ []))

from_be-append : (acc : ℕ) (s t : Bytes) → from_be acc (s ++ t) ≡ from_be (from_be acc s) t
unfolding from_be
from_be-append acc [] t = refl
from_be-append acc (b ∷ s) t = from_be-append (acc * 256 + b) s t

from_be-last : (k v : ℕ) → k ≡ v / 256 → from_be k (v % 256 ∷ []) ≡ v
unfolding from_be
from_be-last k v e = omega (arith, e)

pub from_be-be : (n v : ℕ) → v < 256 ^ n → from_be 0 (be n v) ≡ v
unfolding be
from_be-be zero v h = unfold from_be in omega (arith, h)
from_be-be (suc n) v h =
    from_be-append 0 (be n (v / 256)) (v % 256 ∷ [])
    ∙ from_be-last (from_be 0 (be n (v / 256))) v
        (from_be-be n (v / 256) (omega (arith, h, pow-suc 256 n)))

length-mask_bytes : (mask : Bytes) (i : ℕ) (s : Bytes) → length (mask_bytes mask i s) ≡ length s
unfolding mask_bytes
length-mask_bytes mask i [] = refl
length-mask_bytes mask i (b ∷ s) = ap suc (length-mask_bytes mask (i + 1) s)

get_byte : (mask : Bytes) (i : ℕ) → All IsByte mask → get_or mask i 0 < 256
get_byte [] i h = omega arith
get_byte (m ∷ ms) zero (h, hs) = h
get_byte (m ∷ ms) (suc i) (h, hs) = get_byte ms i hs

-- The key byte for an index.
abbrev key_byte : Bytes → ℕ → ℕ
key_byte mask i = get_or mask (i % 4) 0

unmask-mask_bytes :
    (mask : Bytes) (i : ℕ) (s : Bytes)
    → All IsByte mask
    → All IsByte s
    → unmask
        (key_byte mask i)
        (key_byte mask (i + 1))
        (key_byte mask (i + 2))
        (key_byte mask (i + 3))
        (mask_bytes mask i s)
      ≡ s
unfolding mask_bytes unmask
unmask-mask_bytes mask i [] h ss = refl
unmask-mask_bytes mask i (b ∷ s) h (hb, hs) =
    let second : (i + 1 + 1) % 4 ≡ (i + 2) % 4 = omega arith in
    let third : (i + 1 + 2) % 4 ≡ (i + 3) % 4 = omega arith in
    let fourth : (i + 1 + 3) % 4 ≡ i % 4 = omega arith in
    ap₂ ◌∷◌ (bit_xor_twice b (get_or mask (i % 4) 0) hb (get_byte mask (i % 4) h))
      (cc (unmask-mask_bytes mask (i + 1) s h hs, second, third, fourth))

receive-append : (s t : Bytes) → receive (length s) (s ++ t) ≡ some (s, t)
unfolding receive
receive-append [] t = refl
receive-append (b ∷ s) t = rw (receive-append s t) refl

pub long_bytes-be : (n : ℕ) → be 8 n ≡ long_bytes n
unfolding be
long_bytes-be n = ground arith

pub short_bytes-be : (n : ℕ) → n < 65536 → be 2 n ≡ n / 256 ∷ n % 256 ∷ []
unfolding be
short_bytes-be n h = ground (arith, h)

short_number-be :
    (n : ℕ) (rest : Bytes) → n < 65536 → short_number (be 2 n ++ rest) ≡ some (n, rest)
unfolding be
short_number-be n rest h = ground (arith, h)

long_number-be : (n : ℕ) (rest : Bytes) → n < 2 ^ 63 → long_number (be 8 n ++ rest) ≡ some (n, rest)
unfolding be
long_number-be n rest h = ground (arith, h)

pub split_at-append : (n : ℕ) (s t : Bytes) → length s ≡ n → split_at n (s ++ t) ≡ some (s, t)
split_at-append n s t e = ground (
  arith,
  e,
  sym (ap (λ (k : ℕ). take k (s ++ t)) e) ∙ take_prefix s t,
  sym (ap (λ (k : ℕ). drop k (s ++ t)) e) ∙ drop_prefix s t,
  length-append s t,
)

-- Numbers of one byte with the highest bit.
or_mask : (n : ℕ) → n < 128 → bit_or 128 n ≡ 128 + n
or_mask n h = bit_or_fields 7 1 n h

-- The length bytes of the client, read by the other end: which first byte, and what follows.
rfc_length-size_bytes :
    (n : ℕ) (rest : Bytes)
    → n < 2 ^ 63
    → (b : ℕ) × (t : Bytes) × (size_bytes n ++ rest ≡ b ∷ t)
      × (leb 128 b ≡ true)
      × (rfc_length (b % 128) t ≡ some (n, rest))
unfolding size_bytes rfc_length
rfc_length-size_bytes n rest h = elim (Bool-cases (ltb n 126)) [
  | inl e ↦ (128 + n, rest, ground (arith, e, or_mask n), ground arith, ground (arith, e))
  | inr e ↦ elim (Bool-cases (leb n 65535)) [
    | inl k ↦ (
      254,
      be 2 n ++ rest,
      ground (arith, e, k, or_mask 126),
      refl,
      ground (arith, e, k, short_number-be n rest),
    )
    | inr k ↦ (
      255,
      be 8 n ++ rest,
      ground (arith, e, k, or_mask 127),
      refl,
      ground (arith, e, k, h, long_number-be n rest),
    )
  ]
]

length-masked :
    (mask s : Bytes) → length mask ≡ 4 → length (mask ++ mask_bytes mask 0 s) ≡ 4 + length s
length-masked mask s m =
    length-append mask (mask_bytes mask 0 s) ∙ ap₂ ◌+◌ m (length-mask_bytes mask 0 s)

rfc_payload-masked :
    (mask s rest : Bytes)
    → length mask ≡ 4
    → All IsByte mask
    → All IsByte s
    → rfc_payload 130 (length s) ((mask ++ mask_bytes mask 0 s) ++ rest)
      ≡ some (record { fin = true; opcode = 2; payload = s; behind = rest })
rfc_payload-masked (k ∷ l ∷ m ∷ n ∷ []) s rest four ms ss =
    let masked = mask_bytes (k ∷ l ∷ m ∷ n ∷ []) 0 s in
    let taken : receive (length s) (masked ++ rest) ≡ some (masked, rest) =
      ap (λ (c : ℕ). receive c (masked ++ rest)) (sym (length-mask_bytes (k ∷ l ∷ m ∷ n ∷ []) 0 s))
      ∙ receive-append masked rest in
    let clear : unmask k l m n masked ≡ s = unmask-mask_bytes (k ∷ l ∷ m ∷ n ∷ []) 0 s ms ss in
    ground (arith, taken, clear)
rfc_payload-masked [] s rest four ms ss = absurd (omega (arith, four))
rfc_payload-masked (k ∷ []) s rest four ms ss = absurd (omega (arith, four))
rfc_payload-masked (k ∷ l ∷ []) s rest four ms ss = absurd (omega (arith, four))
rfc_payload-masked (k ∷ l ∷ m ∷ []) s rest four ms ss = absurd (omega (arith, four))
rfc_payload-masked (k ∷ l ∷ m ∷ n ∷ o ∷ mask) s rest four ms ss = absurd (omega (arith, four))

-- A frame that the client writes for less than 2^63 bytes is read by a server that follows RFC 6455
-- as one whole binary message with the bytes that were given, whatever the four bytes of the mask
-- are, and nothing behind it is touched; and it fills the buffer that was allocated for it.
pub rfc_read-ws_frame :
    (mask bytes rest : Bytes)
    → length mask ≡ 4
    → All IsByte mask
    → All IsByte bytes
    → length bytes < 2 ^ 63
    → (rfc_read (ws_frame mask bytes ++ rest)
        ≡ some (record { fin = true; opcode = 2; payload = bytes; behind = rest }))
      × (length (ws_frame mask bytes) ≡ frame_size (length bytes))
unfolding rfc_read ws_frame
rfc_read-ws_frame mask bytes rest m ms bs h =
    let tail = mask ++ mask_bytes mask 0 bytes in
    let (b, t, starts, masked, size) = rfc_length-size_bytes (length bytes) (tail ++ rest) h in
    (
      ground (
        arith,
        append_assoc (size_bytes (length bytes)) tail rest,
        starts,
        masked,
        size,
        or_mask 2,
        rfc_payload-masked mask bytes rest m ms bs,
      ),
      unfold size_bytes frame_size in
          ground (
            arith,
            m,
            length-append (size_bytes (length bytes)) tail,
            length-masked mask bytes m,
            length-be 2 (length bytes),
            length-be 8 (length bytes),
          ),
    )
