-- ===== src/Base64/RoundTrip.antt =====
-- The decoder undoes the encoding of RFC 4648.
use tlsuv.Base.{
  ℕ, zero, suc, ◌+◌, ◌-◌, ◌*◌, ◌/◌, ◌%◌, ◌≤◌, ◌<◌, ◌≡◌, refl, ◌∙◌, ap, ap₂, true, Bytes, arith, ltb,
  lt→ltb, ◌==◌, ==_iff, length, [], ◌∷◌, ◌++◌, All, bit_or, bit_or_fields, all_below,
  all_below_sound,
}
use tlsuv.Base64.{
  six, symbol, encode, digit_run, first_byte, second_byte, third_byte, decode_tail, decode_loop,
  tlsuv_base64url_decode,
}

symbol_table : all_below 64 (λ v. six (symbol v) == v) ≡ true
unfolding all_below six symbol
symbol_table = refl

six-symbol : (v : ℕ) → v < 64 → six (symbol v) ≡ v
six-symbol v h = (==_iff _ v).0 (all_below_sound 64 _ v symbol_table h)

glue_first : (x y : ℕ) → x < 64 → y < 64 → bit_or (x * 4) (y / 16) % 256 ≡ x * 4 + y / 16
glue_first x y h k = omega (arith, bit_or_fields 2 x (y / 16) (omega arith))

glue_second : (x y : ℕ) → y < 64 → bit_or (x * 16) (y / 4) % 256 ≡ x % 16 * 16 + y / 4
glue_second x y k = omega (arith, bit_or_fields 4 x (y / 4) (omega arith))

glue_third : (x y : ℕ) → y < 64 → bit_or (x * 64) y % 256 ≡ x % 4 * 64 + y
glue_third x y k = omega (arith, bit_or_fields 6 x y (omega arith))

module _ (v w : ℕ) (s : Bytes) (hv : v < 64) (hw : w < 64) where
  first_of_digits : first_byte (symbol v ∷ symbol w ∷ s) ≡ v * 4 + w / 16
  unfolding first_byte
  first_of_digits = rw (six-symbol v hv, six-symbol w hw) (glue_first v w hv hw)

  second_of_digits : (c : ℕ) → second_byte (c ∷ symbol v ∷ symbol w ∷ s) ≡ v % 16 * 16 + w / 4
  unfolding second_byte
  second_of_digits c = rw (six-symbol v hv, six-symbol w hw) (glue_second v w hw)

  third_of_digits : (c d : ℕ) → third_byte (c ∷ d ∷ symbol v ∷ symbol w ∷ s) ≡ v % 4 * 64 + w
  unfolding third_byte
  third_of_digits c d = rw (six-symbol v hv, six-symbol w hw) (glue_third v w hw)

-- The bytes of a block come back from its digits.
module _ (a b c : ℕ) (ha : a < 256) (hb : b < 256) (hc : c < 256) (s : Bytes) where
  first_back : first_byte (symbol (a / 4) ∷ symbol (a % 4 * 16 + b / 16) ∷ s) ≡ a
  first_back =
      omega (arith, first_of_digits (a / 4) (a % 4 * 16 + b / 16) s (omega arith) (omega arith))

  second_back :
      (x : ℕ)
      → second_byte (x ∷ symbol (a % 4 * 16 + b / 16) ∷ symbol (b % 16 * 4 + c / 64) ∷ s) ≡ b
  second_back x = omega (
    arith,
    second_of_digits (a % 4 * 16 + b / 16) (b % 16 * 4 + c / 64) s (omega arith) (omega arith) x,
  )

  third_back :
      (x y : ℕ) → third_byte (x ∷ y ∷ symbol (b % 16 * 4 + c / 64) ∷ symbol (c % 64) ∷ s) ≡ c
  third_back x y =
      omega
        (arith, third_of_digits (b % 16 * 4 + c / 64) (c % 64) s (omega arith) (omega arith) x y)

-- The text goes on with no further digit: it ends, or a padding mark or another byte follows.
abbrev pub Stops : Bytes → Type 0
Stops [] = Unit {0}
Stops (c ∷ cs) = 63 < six c

digit_run-Stops : (rest : Bytes) → Stops rest → digit_run rest ≡ 0
unfolding digit_run
digit_run-Stops [] h = refl
digit_run-Stops (c ∷ cs) h = ground arith

digit_run-symbol : (v : ℕ) (s : Bytes) → v < 64 → digit_run (symbol v ∷ s) ≡ suc (digit_run s)
unfolding digit_run
digit_run-symbol v s h = ground (arith, six-symbol v h)

digit_run-encode :
    (bs rest : Bytes)
    → All (λ x. x < 256) bs
    → Stops rest
    → digit_run (encode bs ++ rest) ≡ length (encode bs)
unfolding encode
digit_run-encode [] rest h k = digit_run-Stops rest k
digit_run-encode (a ∷ []) rest h k =
    simp
      (digit_run-symbol (a / 4) _ (omega arith), digit_run-symbol (a % 4 * 16) rest (omega arith))
      (ap (λ (n : ℕ). suc (suc n)) (digit_run-Stops rest k))
digit_run-encode (a ∷ b ∷ []) rest h k = omega (
  arith,
  digit_run-symbol (a / 4) (symbol (a % 4 * 16 + b / 16) ∷ symbol (b % 16 * 4) ∷ rest)
      (omega arith),
  digit_run-symbol (a % 4 * 16 + b / 16) (symbol (b % 16 * 4) ∷ rest) (omega arith),
  digit_run-symbol (b % 16 * 4) rest (omega arith),
  digit_run-Stops rest k,
)
digit_run-encode (a ∷ b ∷ c ∷ bs) rest h k = omega (
  arith,
  digit_run-symbol (a / 4)
      (symbol (a % 4 * 16 + b / 16)
        ∷ symbol (b % 16 * 4 + c / 64)
        ∷ symbol (c % 64)
        ∷ (encode bs ++ rest))
      (omega arith),
  digit_run-symbol (a % 4 * 16 + b / 16)
      (symbol (b % 16 * 4 + c / 64) ∷ symbol (c % 64) ∷ (encode bs ++ rest)) (omega arith),
  digit_run-symbol (b % 16 * 4 + c / 64) (symbol (c % 64) ∷ (encode bs ++ rest)) (omega arith),
  digit_run-symbol (c % 64) (encode bs ++ rest) (omega arith),
  digit_run-encode bs rest h.1.1.1 k,
)

-- The last block, of one to three bytes.
tail_one : (a : ℕ) (rest : Bytes) → a < 256 → decode_tail (encode (a ∷ []) ++ rest) 2 ≡ a ∷ []
unfolding decode_tail encode
tail_one a rest ha =
    ap (λ (x : ℕ). x ∷ [])
      (omega (arith, first_of_digits (a / 4) (a % 4 * 16) rest (omega arith) (omega arith)))

module _ (a b : ℕ) (ha : a < 256) (hb : b < 256) (rest : Bytes) where
  tail_two : decode_tail (encode (a ∷ b ∷ []) ++ rest) 3 ≡ a ∷ b ∷ []
  unfolding decode_tail encode
  tail_two =
      ap₂ (λ (x y : ℕ). x ∷ y ∷ []) (first_back a b 0 ha hb (omega arith) _)
        (omega (
          arith,
          second_of_digits (a % 4 * 16 + b / 16) (b % 16 * 4) rest (omega arith) (omega arith)
              (symbol (a / 4)),
        ))

  tail_three : (c : ℕ) → c < 256 → decode_tail (encode (a ∷ b ∷ c ∷ []) ++ rest) 4 ≡ a ∷ b ∷ c ∷ []
  unfolding decode_tail encode
  tail_three c hc = cc (
    first_back a b c ha hb hc (symbol (b % 16 * 4 + c / 64) ∷ symbol (c % 64) ∷ rest),
    second_back a b c ha hb hc (symbol (c % 64) ∷ rest) (symbol (a / 4)),
    third_back a b c ha hb hc rest (symbol (a / 4)) (symbol (a % 4 * 16 + b / 16)),
  )

block_step :
    (fuel n a b c : ℕ) (t : Bytes)
    → 0 < n
    → a < 256
    → b < 256
    → c < 256
    → decode_loop
        (suc fuel)
        (symbol (a / 4)
          ∷ symbol (a % 4 * 16 + b / 16)
          ∷ symbol (b % 16 * 4 + c / 64)
          ∷ symbol (c % 64)
          ∷ t)
        (suc (suc (suc (suc n))))
      ≡ a ∷ b ∷ c ∷ decode_loop fuel t n
unfolding decode_loop
block_step fuel n a b c t hn ha hb hc =
    let more : ltb 4 (suc (suc (suc (suc n)))) ≡ true = lt→ltb _ _ (omega arith) in
    let left : suc (suc (suc (suc n))) - 4 ≡ n = omega arith in
    rw (more, left)
      (cc (
        first_back a b c ha hb hc (symbol (b % 16 * 4 + c / 64) ∷ symbol (c % 64) ∷ t),
        second_back a b c ha hb hc (symbol (c % 64) ∷ t) (symbol (a / 4)),
        third_back a b c ha hb hc t (symbol (a / 4)) (symbol (a % 4 * 16 + b / 16)),
      ))

encode-pos : (d : ℕ) (bs : Bytes) → 0 < length (encode (d ∷ bs))
unfolding encode
encode-pos d [] = omega arith
encode-pos d (e ∷ []) = omega arith
encode-pos d (e ∷ f ∷ bs) = omega arith

decode_loop-encode :
    (fuel : ℕ) (bs rest : Bytes)
    → All (λ x. x < 256) bs
    → length (encode bs) ≤ fuel
    → decode_loop fuel (encode bs ++ rest) (length (encode bs)) ≡ bs
unfolding decode_loop encode
decode_loop-encode zero [] rest h k = unfold decode_tail in refl
decode_loop-encode zero (a ∷ []) rest h k = absurd (omega arith)
decode_loop-encode zero (a ∷ b ∷ []) rest h k = absurd (omega arith)
decode_loop-encode zero (a ∷ b ∷ c ∷ bs) rest h k = absurd (omega arith)
decode_loop-encode (suc fuel) [] rest h k = unfold decode_tail in refl
decode_loop-encode (suc fuel) (a ∷ []) rest h k = tail_one a rest h.0
decode_loop-encode (suc fuel) (a ∷ b ∷ []) rest h k = tail_two a b h.0 h.1.0 rest
decode_loop-encode (suc fuel) (a ∷ b ∷ c ∷ []) rest h k = tail_three a b h.0 h.1.0 rest c h.1.1.0
decode_loop-encode (suc fuel) (a ∷ b ∷ c ∷ d ∷ bs) rest h k =
    block_step fuel (length (encode (d ∷ bs))) a b c (encode (d ∷ bs) ++ rest) (encode-pos d bs) h.0
      h.1.0 h.1.1.0
    ∙ ap (λ (t : Bytes). a ∷ b ∷ c ∷ t)
        (decode_loop-encode fuel (d ∷ bs) rest h.1.1.1 (omega arith))

-- Decoding the base64url text of any bytes gives these bytes back, also where padding marks or
-- anything else that is no digit follow the text.
pub decode-encode :
    (bs rest : Bytes)
    → All (λ x. x < 256) bs
    → Stops rest
    → tlsuv_base64url_decode (encode bs ++ rest) ≡ bs
unfolding tlsuv_base64url_decode
decode-encode bs rest h k =
    rw (digit_run-encode bs rest h k)
      (decode_loop-encode (length (encode bs)) bs rest h (omega arith))
