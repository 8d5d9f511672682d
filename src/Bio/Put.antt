-- ===== src/Bio/Put.antt =====
-- The empty Bio, and what `put` does to the bytes that wait.
use tlsuv.Base.{
  ℕ, ◌+◌, ◌≤◌, ◌<◌, ◌^◌, ◌≡◌, refl, ap, List, [], ◌∷◌, ◌++◌, append-nil, append_assoc, Bytes, true,
  false, arith, drop, length, All-append, length-append, drop-append_le,
}
use tlsuv.Bio.{Bio, Msg, new, put}
use tlsuv.Bio.Stream.{Inv, Fits, Sized, stream, buffers}

buffers-append : (q r : List Msg) → buffers (q ++ r) ≡ buffers q ++ buffers r
buffers-append [] r = refl
buffers-append (m ∷ q) r = rw (buffers-append q r) (rw append_assoc refl)

Fits-le : (offset : ℕ) (q : List Msg) → Sized q → Fits offset q → offset ≤ length (buffers q)
Fits-le offset [] s f = omega arith
Fits-le offset (m ∷ q) s f = omega (arith, length-append m.buf (buffers q))

Fits-append : (offset : ℕ) (q : List Msg) (m : Msg) → Fits offset q → Fits offset (q ++ m ∷ [])
Fits-append offset [] m f = omega arith
Fits-append offset (n ∷ q) m f = f

pub new-Inv : Inv new
unfolding new stream
new-Inv = omega arith

stream-append :
    (offset : ℕ) (q : List Msg) (m : Msg)
    → Sized q
    → Fits offset q
    → drop offset (buffers (q ++ m ∷ [])) ≡ drop offset (buffers q) ++ m.buf
stream-append offset q m s f =
    rw (buffers-append q (m ∷ []), append-nil)
      (drop-append_le offset (buffers q) m.buf (Fits-le offset q s f))

-- A message that is put is read after all that waits, and the counters stay exact while they fit
-- their types; a failed allocation changes nothing.
pub put_lem :
    (bio : Bio) (buf : Bytes)
    → Inv bio
    → bio.available + length buf < 2 ^ 64
    → bio.qlen + 1 < 2 ^ 32
    → (stream (put true true bio buf).0 ≡ stream bio ++ buf)
      × Inv (put true true bio buf).0
      × (put true false bio buf ≡ (bio, false))
      × (put false true bio buf ≡ (bio, false))
unfolding put stream
put_lem bio buf v h k =
    let m : Msg = record { len = length buf; buf = buf } in
    let e = stream-append bio.headoffset bio.message_q m v.sized v.fits in
    (
      e,
      record {
        sized = All-append (λ m. m.len ≡ length m.buf) bio.message_q (m ∷ []) v.sized (refl, tt);
        fits = Fits-append bio.headoffset bio.message_q m v.fits;
        counts = omega (
          arith,
          v.counts,
          ap length e,
          length-append (drop bio.headoffset (buffers bio.message_q)) buf,
        );
        queued = omega (arith, length-append bio.message_q (m ∷ []));
        available_word = omega arith;
        qlen_word = omega arith;
      },
      refl,
      refl,
    )
