-- ===== src/Bio/Stream.antt =====
-- The abstract view of a Bio: the bytes that wait in it, in order. The invariant that ties the
-- counters to the queue.
use tlsuv.Base.{ℕ, ◌≤◌, ◌<◌, ◌^◌, ◌≡◌, List, [], ◌∷◌, ◌++◌, Bytes, drop, length, All}
use tlsuv.Bio.{Bio, Msg}

abbrev pub buffers : List Msg → Bytes
buffers [] = []
buffers (m ∷ q) = m.buf ++ buffers q

-- What is left to read.
unfoldable pub stream : Bio → Bytes
stream bio = drop bio.headoffset (buffers bio.message_q)

-- The read position lies in the first message.
abbrev pub Fits : ℕ → List Msg → Type 0
Fits offset [] = offset ≡ 0
Fits offset (m ∷ q) = offset ≤ m.len

abbrev pub Sized : List Msg → Type 0
Sized q = All (λ m. m.len ≡ length m.buf) q

pub record Inv (bio : Bio) : Type 0 where
  pub sized : Sized bio.message_q
  pub fits : Fits bio.headoffset bio.message_q
  pub counts : bio.available ≡ length (stream bio)
  pub queued : bio.qlen ≡ length bio.message_q
  pub available_word : bio.available < 2 ^ 64
  pub qlen_word : bio.qlen < 2 ^ 32
