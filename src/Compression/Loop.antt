-- ===== src/Compression/Loop.antt =====
-- When the loop of `um_inflate` ends, and when it does not.
use tlsuv.Base.{
  ℕ, zero, suc, ◌<◌, ◌≡◌, refl, Bytes, Bool, true, false, some, List, [], ◌∷◌, drop, length,
  length-drop, arith,
}
use tlsuv.Compression.{
  Encoding, Rc, stream_end, data_error, other_rc, Inflate, Inflater, Output, Ended, failed,
  finished, more_wanted, emit, called, inflate_loop,
}

-- A call on some input that neither fails nor ends the stream takes some of it.
abbrev pub Progresses : Inflate → Type 0
Progresses inflate =
    (e : Encoding) (history : List Bytes) (c : ℕ) (cs : Bytes)
    → (inflate e history (c ∷ cs)).rc ≡ other_rc
    → 0 < (inflate e history (c ∷ cs)).consumed

abbrev pub is_finished : Ended → Bool
is_finished finished = true
is_finished failed = false
is_finished more_wanted = false

-- What holds of the result: the inflater is complete exactly if the result is 1, given that it was
-- not before.
abbrev pub Settled : Output → Type 0
Settled o = o.inflater.complete ≡ is_finished o.ended

Rc-cases :
    (r : Rc) (P : Type 0) → (r ≡ data_error → P) → (r ≡ stream_end → P) → (r ≡ other_rc → P) → P
Rc-cases data_error P a b c = a refl
Rc-cases stream_end P a b c = b refl
Rc-cases other_rc P a b c = c refl

-- Where zlib makes progress, as many rounds as there are bytes are enough, and a stream that is not
-- complete before is marked so exactly if the result is 1.
pub inflate_loop_ends :
    (inflate : Inflate) (fuel : ℕ) (i : Inflater) (input : Bytes) (blocks : List Bytes)
    → Progresses inflate
    → i.complete ≡ false
    → length input < fuel
    → (o : Output) × (inflate_loop inflate fuel i input blocks ≡ some o) × Settled o
unfolding inflate_loop
inflate_loop_ends inflate zero i input blocks progress open_stream h = absurd (omega arith)
inflate_loop_ends inflate (suc fuel) i [] blocks progress open_stream h = (_, refl, open_stream)
inflate_loop_ends inflate (suc fuel) i (c ∷ cs) blocks progress open_stream h =
    let r = inflate i.encoding i.history (c ∷ cs) in
    Rc-cases r.rc _
      (λ e. (
        record { inflater = called i (c ∷ cs) r; blocks = blocks; ended = failed },
        ground (arith, e),
        open_stream,
      ))
      (λ e. (
        record {
          inflater = record (called i (c ∷ cs) r) { complete = true };
          blocks = emit blocks r.produced;
          ended = finished;
        },
        ground (arith, e),
        refl,
      ))
      (λ e.
        let (o, eq, settled) =
          inflate_loop_ends inflate fuel (called i (c ∷ cs) r) (drop r.consumed (c ∷ cs))
            (emit blocks r.produced) progress open_stream
            (omega
              (arith, progress i.encoding i.history c cs e, length-drop r.consumed (c ∷ cs))) in
        (o, ground (arith, e, eq), settled))
