-- ===== src/Bio/Laws.antt =====
-- What a `read` hands over and what it leaves: a Bio is a queue of bytes.
use tlsuv.Base.{
  ℕ, suc, ◌+◌, ◌-◌, ◌≡◌, sym, ap, ◌∙◌, [], ◌++◌, Bytes, some, arith, take, drop, length, take-add,
  drop-drop,
}
use tlsuv.Bio.{Bio, read}
use tlsuv.Bio.Stream.{Inv, stream}
use tlsuv.Bio.Loop.{read_loop-LoopOk, rounds-le}

-- Reading always returns: it hands over the first `len` waiting bytes, or all if there are fewer,
-- and these alone leave the Bio, whose counters stay exact.
pub read_lem :
    (bio : Bio) (len : ℕ)
    → Inv bio
    → (final : Bio) × (read bio len ≡ some (final, take len (stream bio)))
      × (stream final ≡ drop len (stream bio))
      × Inv final
unfolding read
read_lem bio len v =
    let l =
      read_loop-LoopOk (suc (length bio.message_q)) bio len 0 [] v (omega arith)
        (omega (arith, rounds-le (len - 0) bio.message_q)) in
    let e : len - 0 ≡ len = omega arith in
    (
      l.final,
      l.returns
          ∙ ap (λ (t : Bytes). some (l.final, t)) (l.takes ∙ ap (λ (n : ℕ). take n (stream bio)) e),
      l.leaves ∙ ap (λ (n : ℕ). drop n (stream bio)) e,
      l.keeps,
    )

-- Two reads in a row give what one read of both sizes gives.
read-read :
    (bio : Bio) (n k : ℕ)
    → Inv bio
    → (one two all : Bio) × (read bio n ≡ some (one, take n (stream bio)))
      × (read one k ≡ some (two, take k (stream one)))
      × (read bio (n + k) ≡ some (all, take n (stream bio) ++ take k (stream one)))
      × (stream two ≡ stream all)
read-read bio n k v =
    let (one, e1, s1, v1) = read_lem bio n v in
    let (two, e2, s2, v2) = read_lem one k v1 in
    let (all, e3, s3, v3) = read_lem bio (n + k) v in
    (
      one,
      two,
      all,
      e1,
      e2,
      e3
          ∙ ap (λ (t : Bytes). some (all, t))
              (sym (take-add n k (stream bio))
                ∙ ap (λ (t : Bytes). take n (stream bio) ++ take k t) (sym s1)),
      s2 ∙ ap (drop k) s1 ∙ drop-drop k n (stream bio) ∙ sym s3,
    )
