-- ===== src/Bio/Loop.antt =====
-- The loop of `read`: its rounds run out before the fuel does.
use tlsuv.Base.{
  ℕ, zero, suc, ◌+◌, ◌-◌, ◌≤◌, ◌<◌, ◌≡◌, refl, sym, ap, ◌∙◌, ◌⊎◌, inl, inr, List, [], ◌∷◌, ◌++◌,
  append-nil, append_assoc, Bytes, true, false, Option, some, arith, take, drop, length, ltb,
  Bool-cases, take-nil, drop-nil, take-add, ap₂, tests, drop-drop,
}
use tlsuv.Bio.{Bio, Msg, read_round, read_loop}
use tlsuv.Bio.Stream.{Inv, stream}
use tlsuv.Bio.Round.{RoundOk, round-RoundOk}

-- The state and the bytes that the loop ends with, from `total` bytes in `out`.
pub record LoopOk (bio : Bio) (wanted : ℕ) (out : Bytes) (r : Option (Bio × Bytes)) : Type 0 where
  pub final : Bio
  pub taken : Bytes
  pub returns : r ≡ some (final, taken)
  pub takes : taken ≡ out ++ take wanted (stream bio)
  pub leaves : stream final ≡ drop wanted (stream bio)
  pub keeps : Inv final

-- Rounds that are left: one for each message, none when `buf` is full.
abbrev pub rounds : ℕ → List Msg → ℕ
rounds zero q = 0
rounds (suc room) q = length q

List-cases : (q : List Msg) → (q ≡ []) ⊎ ((m : Msg) × (rest : List Msg) × (q ≡ m ∷ rest))
List-cases [] = inl refl
List-cases (m ∷ rest) = inr (m, rest, refl)

stop-LoopOk :
    (bio : Bio) (wanted : ℕ) (out : Bytes)
    → Inv bio
    → (wanted ≡ 0) ⊎ (bio.message_q ≡ [])
    → LoopOk bio wanted out (some (bio, out))
unfolding stream
stop-LoopOk bio wanted out v w = record {
  final = bio;
  taken = out;
  returns = refl;
  takes = sym (ap (◌++◌ out) (none_taken w).0 ∙ append-nil out);
  leaves = (none_taken w).1;
  keeps = v;
}
  where
    none_taken :
        (wanted ≡ 0) ⊎ (bio.message_q ≡ [])
        → (take wanted (stream bio) ≡ []) × (stream bio ≡ drop wanted (stream bio))
    none_taken (inl e) = rw e (refl, refl)
    none_taken (inr e) = rw (e, drop-nil bio.headoffset) (take-nil wanted, sym (drop-nil wanted))

room_front :
    (bio : Bio) (rest : List Msg) (room left : ℕ) (c : Bio × Bytes)
    → RoundOk bio rest room c
    → room ≡ length c.1 + left
    → c.1 ++ take left (stream c.0) ≡ take room (stream bio)
room_front bio rest room left c ok e =
    ap₂ (λ (s t : Bytes). s ++ take left t) ok.copied ok.left
    ∙ take-add (length c.1) left (stream bio)
    ∙ ap (λ (n : ℕ). take n (stream bio)) (sym e)

-- A round and what the loop does after it.
round-LoopOk :
    (bio : Bio) (rest : List Msg) (room left : ℕ) (out : Bytes) (c : Bio × Bytes)
    (r : Option (Bio × Bytes))
    → RoundOk bio rest room c
    → left ≡ room - length c.1
    → LoopOk c.0 left (out ++ c.1) r
    → LoopOk bio room out r
round-LoopOk bio rest room left out c r ok e l =
    let split : room ≡ length c.1 + left = omega (arith, ok.fits_room, e) in
    record {
      final = l.final;
      taken = l.taken;
      returns = l.returns;
      takes =
          l.takes
          ∙ append_assoc out c.1 (take left (stream c.0))
          ∙ ap (◌++◌ out) (room_front bio rest room left c ok split);
      leaves =
          l.leaves
          ∙ ap (drop left) ok.left
          ∙ drop-drop left (length c.1) (stream bio)
          ∙ ap (λ (n : ℕ). drop n (stream bio)) (sym split);
      keeps = l.keeps;
    }

pub rounds-le : (room : ℕ) (q : List Msg) → rounds room q ≤ length q
rounds-le zero q = omega arith
rounds-le (suc room) q = omega arith

rounds-pos : (room : ℕ) (q : List Msg) → 0 < room → rounds room q ≡ length q
rounds-pos zero q h = absurd (omega arith)
rounds-pos (suc room) q h = refl

-- Every round leaves fewer rounds.
rounds-fall :
    (fuel : ℕ) (bio : Bio) (m : Msg) (rest : List Msg) (room left : ℕ) (c : Bio × Bytes)
    → RoundOk bio rest room c
    → bio.message_q ≡ m ∷ rest
    → 0 < room
    → left ≡ room - length c.1
    → rounds room bio.message_q < suc fuel
    → rounds left c.0.message_q < fuel
rounds-fall fuel bio m rest room left c ok first wants e h = by_progress ok.progress
  where
    many : suc (length rest) ≤ fuel
    many = omega (arith, rounds-pos room bio.message_q wants, ap length first)

    by_progress : (c.0.message_q ≡ rest) ⊎ (length c.1 ≡ room) → rounds left c.0.message_q < fuel
    by_progress (inl gone) = rw gone (omega (arith, rounds-le left rest, many))
    by_progress (inr full) =
        let zero_left : left ≡ 0 = omega (arith, e, full) in rw zero_left (omega (arith, many))

module _ (fuel : ℕ) (bio : Bio) (len total : ℕ) (out : Bytes) where
  read_loop-empty : bio.message_q ≡ [] → read_loop (suc fuel) bio len total out ≡ some (bio, out)
  unfolding read_loop
  read_loop-empty e = ground (arith, e)

  read_loop-full : ltb total len ≡ false → read_loop (suc fuel) bio len total out ≡ some (bio, out)
  unfolding read_loop
  read_loop-full e = ground (arith, e)

  read_loop-more :
      (m : Msg) (rest : List Msg)
      → bio.message_q ≡ m ∷ rest
      → ltb total len ≡ true
      → read_loop (suc fuel) bio len total out
        ≡ read_loop fuel
            (read_round bio m rest (len - total)).0
            len
            (total + length (read_round bio m rest (len - total)).1)
            (out ++ (read_round bio m rest (len - total)).1)
  unfolding read_loop
  read_loop-more m rest e h = ground (arith, e, h)

pub read_loop-LoopOk :
    (fuel : ℕ) (bio : Bio) (len total : ℕ) (out : Bytes)
    → Inv bio
    → total ≤ len
    → rounds (len - total) bio.message_q < fuel
    → LoopOk bio (len - total) out (read_loop fuel bio len total out)
read_loop-LoopOk zero bio len total out v h k = absurd (omega arith)
read_loop-LoopOk (suc fuel) bio len total out v h k = elim (List-cases bio.message_q) [
  | inl none_left ↦
      rw (read_loop-empty fuel bio len total out none_left)
        (stop-LoopOk bio (len - total) out v (inr none_left))
  | inr (m, rest, first) ↦ elim (Bool-cases (ltb total len)) [
    | inl more ↦
        let c = read_round bio m rest (len - total) in
        let ok : RoundOk bio rest (len - total) c =
          round-RoundOk bio m rest (len - total) v first (omega tests) in
        rw (read_loop-more fuel bio len total out m rest first more) (
          round-LoopOk bio rest (len - total) (len - (total + length c.1)) out c _ ok (omega arith)
            (read_loop-LoopOk fuel c.0 len (total + length c.1) (out ++ c.1) ok.inv
              (omega (arith, ok.fits_room))
              (rounds-fall fuel bio m rest (len - total) (len - (total + length c.1)) c ok first
                (omega tests) (omega arith) k)))
    | inr full ↦
        rw (read_loop-full fuel bio len total out full)
          (stop-LoopOk bio (len - total) out v (inl (ground arith)))
  ]
]
