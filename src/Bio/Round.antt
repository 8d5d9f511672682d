-- ===== src/Bio/Round.antt =====
-- One round of the loop of `read`.
use tlsuv.Base.{
  ℕ, ◌+◌, ◌-◌, ◌≤◌, ◌<◌, ◌^◌, ◌%◌, min, ◌≡◌, refl, sym, ap, ◌∙◌, ◌⊎◌, inl, inr, List, [], ◌∷◌, ◌++◌,
  Bytes, arith, take, drop, length, ◌==◌, Bool-cases, ==→eq, ne_of_==, ◌≢◌, length-append,
  length-drop, length-take, drop-append_le, take-append_le, drop-drop, drop_all,
}
use tlsuv.Bio.{Bio, Msg, read_round}
use tlsuv.Bio.Stream.{Inv, Fits, Sized, stream, buffers}

-- What one round of the loop does: `copied` comes off the front of the stream, and either the first
-- message is gone or the room is full.
pub record RoundOk (bio : Bio) (rest : List Msg) (room : ℕ) (r : Bio × Bytes) : Type 0 where
  pub inv : Inv r.0
  pub copied : r.1 ≡ take (length r.1) (stream bio)
  pub left : stream r.0 ≡ drop (length r.1) (stream bio)
  pub fits_room : length r.1 ≤ room
  pub progress : (r.0.message_q ≡ rest) ⊎ (length r.1 ≡ room)

module _ (bio : Bio) (m : Msg) (rest : List Msg) (room : ℕ) (v : Inv bio)
    (first : bio.message_q ≡ m ∷ rest) (wants : 0 < room) where
  abbrev size : ℕ
  size = min room (m.len - bio.headoffset)

  abbrev chunk : Bytes
  chunk = take size (drop bio.headoffset m.buf)

  first-Sized : Sized (m ∷ rest)
  first-Sized = rw first at v.sized

  first_fits : bio.headoffset ≤ m.len
  first_fits = rw first at v.fits

  length-chunk : length chunk ≡ size
  length-chunk = omega (
    arith,
    first-Sized.0,
    length-take size (drop bio.headoffset m.buf),
    length-drop bio.headoffset m.buf,
  )

  stream_split : stream bio ≡ drop bio.headoffset m.buf ++ buffers rest
  unfolding stream
  stream_split = rw first (
      drop-append_le bio.headoffset m.buf (buffers rest) (omega (arith, first-Sized.0, first_fits)))

  chunk_front : chunk ≡ take size (stream bio)
  chunk_front = rw stream_split (
      sym (
        take-append_le size (drop bio.headoffset m.buf) (buffers rest)
          (omega (arith, first-Sized.0, length-drop bio.headoffset m.buf))))

  stream_after : drop size (stream bio) ≡ drop (bio.headoffset + size) m.buf ++ buffers rest
  stream_after = rw stream_split (
      drop-append_le size (drop bio.headoffset m.buf) (buffers rest)
        (omega (arith, first-Sized.0, length-drop bio.headoffset m.buf))
      ∙ ap (λ (t : Bytes). t ++ buffers rest) (drop-drop size bio.headoffset m.buf))

  size-le : size ≤ bio.available
  size-le = omega (
    arith,
    v.counts,
    ap length stream_split,
    first-Sized.0,
    length-append (drop bio.headoffset m.buf) (buffers rest),
    length-drop bio.headoffset m.buf,
  )

  Fits-rest : (q : List Msg) → Fits 0 q
  Fits-rest [] = refl
  Fits-rest (n ∷ q) = omega arith

  available_after :
      (available' : ℕ) (t : Bytes)
      → available' ≡ (bio.available + 2 ^ 64 - size) % 2 ^ 64
      → t ≡ drop size (stream bio)
      → (available' ≡ length t) × (available' < 2 ^ 64)
  available_after a t e h =
      omega
        (arith, e, ap length h, length-drop size (stream bio), v.counts, v.available_word, size-le)

  done-RoundOk :
      bio.headoffset + size ≡ m.len
      → RoundOk bio rest room (
        record {
          available = (bio.available + 2 ^ 64 - size) % 2 ^ 64;
          headoffset = 0;
          qlen = (bio.qlen + 2 ^ 32 - 1) % 2 ^ 32;
          message_q = rest;
        },
        chunk,
      )
  unfolding stream
  done-RoundOk done =
      let after : buffers rest ≡ drop size (stream bio) = sym (
        stream_after
        ∙ ap (λ (t : Bytes). t ++ buffers rest)
            (drop_all (bio.headoffset + size) m.buf (omega (arith, first-Sized.0)))) in
      let avail = available_after _ (buffers rest) refl after in
      record {
        inv = record {
          sized = first-Sized.1;
          fits = Fits-rest rest;
          counts = avail.0;
          queued = omega (arith, v.queued, v.qlen_word, ap length first);
          available_word = avail.1;
          qlen_word = omega arith;
        };
        copied = rw length-chunk chunk_front;
        left = rw length-chunk after;
        fits_room = rw length-chunk (omega arith);
        progress = inl refl;
      }

  more-RoundOk :
      bio.headoffset + size ≢ m.len
      → RoundOk bio rest room (
        record bio {
          available = (bio.available + 2 ^ 64 - size) % 2 ^ 64;
          headoffset = bio.headoffset + size;
        },
        chunk,
      )
  unfolding stream
  more-RoundOk more =
      let after : drop (bio.headoffset + size) (buffers bio.message_q) ≡ drop size (stream bio) =
        sym (drop-drop size bio.headoffset (buffers bio.message_q)) in
      let avail = available_after _ _ refl after in
      record {
        inv = record {
          sized = v.sized;
          fits = rw first (omega (arith, first_fits));
          counts = avail.0;
          queued = v.queued;
          available_word = avail.1;
          qlen_word = v.qlen_word;
        };
        copied = rw length-chunk chunk_front;
        left = rw length-chunk after;
        fits_room = rw length-chunk (omega arith);
        progress = inr (rw length-chunk (omega (arith, more, first_fits)));
      }

  pub round-RoundOk : RoundOk bio rest room (read_round bio m rest room)
  unfolding read_round
  round-RoundOk = elim (Bool-cases (bio.headoffset + size == m.len)) [
    | inl done ↦ rw done (done-RoundOk (omega (arith, ==→eq _ _ done)))
    | inr more ↦ rw more (more-RoundOk (λ e. ne_of_== _ _ more e))
  ]
