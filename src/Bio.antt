-- ===== src/Bio.antt =====
-- src/bio.c, src/bio.h: a queue of byte messages that is read as one stream.
-- The STAILQ of `struct msg` is a list, its head first; a `msg` owns a copy of the caller's bytes.
pub mod Stream
pub mod Put
mod Round
mod Loop
pub mod Laws
use tlsuv.Base.{
  Option, none, some, ℕ, zero, suc, ◌+◌, ◌-◌, ◌%◌, ◌^◌, min, List, [], ◌∷◌, ◌++◌, Bytes, Bool, true,
  false, take, drop, length, ltb, ◌==◌, if◌then◌else◌, ◌&&◌,
}

-- `struct msg`; `len` is the length of `buf`.
pub record Msg : Type 0 where
  pub len : ℕ
  pub buf : Bytes

pub record Bio : Type 0 where
  pub available : ℕ
  pub headoffset : ℕ
  pub qlen : ℕ
  pub message_q : List Msg

unfoldable pub new : Bio
new = record { available = 0; headoffset = 0; qlen = 0; message_q = [] }

abbrev pub available_bytes : Bio → ℕ
available_bytes bio = bio.available

-- `tlsuv_BIO_put`; the flags say whether the two calls of `malloc` succeed. The result 0 is
-- `true` and -1 is `false`. The counters are a `size_t` and an `unsigned int`.
pub put : Bool → Bool → Bio → Bytes → Bio × Bool
put false buf_fits bio buf = (bio, false)
put true false bio buf = (bio, false)
put true true bio buf = (
  record {
    available = (bio.available + length buf) % 2 ^ 64;
    headoffset = bio.headoffset;
    qlen = (bio.qlen + 1) % 2 ^ 32;
    message_q = bio.message_q ++ (record { len = length buf; buf = buf } ∷ []);
  },
  true,
)

-- One round on the first message `m`, with `room` = `len - total` bytes still wanted.
pub read_round : Bio → Msg → List Msg → ℕ → Bio × Bytes
read_round bio m rest room =
    let recv_size = min room (m.len - bio.headoffset) in
    let copied = take recv_size (drop bio.headoffset m.buf) in
    let offset = bio.headoffset + recv_size in
    let left = (bio.available + 2 ^ 64 - recv_size) % 2 ^ 64 in
    if offset == m.len
    then (
      record {
        available = left;
        headoffset = 0;
        qlen = (bio.qlen + 2 ^ 32 - 1) % 2 ^ 32;
        message_q = rest;
      },
      copied,
    )
    else (record bio { available = left; headoffset = offset }, copied)

-- The loop of `tlsuv_BIO_read` on fuel: `none` when that runs out. `total` bytes are in `out`.
pub read_loop : ℕ → Bio → ℕ → ℕ → Bytes → Option (Bio × Bytes)
read_loop zero bio len total out = none
read_loop (suc fuel) bio len total out = elim bio.message_q [
  | [] ↦ some (bio, out)
  | m ∷ rest ↦ elim (ltb total len) [
    | false ↦ some (bio, out)
    | true ↦
        let (bio', copied) = read_round bio m rest (len - total) in
        read_loop fuel bio' len (total + length copied) (out ++ copied)
  ]
]

-- `tlsuv_BIO_read`: the new state and what stands in `buf`; the result is the length of that,
-- which fits an `int` as `len` does. A round takes a message off or fills `buf`.
pub read : Bio → ℕ → Option (Bio × Bytes)
unfolding read_loop read_round
read bio len = read_loop (suc (length bio.message_q)) bio len 0 []
