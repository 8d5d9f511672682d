-- ===== src/Compression.antt =====
-- src/compression.c: decompression of HTTP bodies by zlib, which is loaded at run time.
-- zlib itself is a parameter, `inflate`. An inflater's `z_stream` is represented by the inputs of
-- the calls made on it so far, since these determine its state.
pub mod Loop
use tlsuv.Base.{
  ℕ, zero, suc, ◌%◌, ◌/◌, ◌^◌, Bytes, Bool, true, false, Option, none, some, List, [], ◌∷◌, ◌++◌,
  drop, get_or, bytes_eq, codes, ◌==◌, not, if◌then◌else◌,
}

-- What `init` learns of the library: whether it and all its functions load, its version string
-- and its compile flags. `built` is the ZLIB_VERSION of the headers.
pub record Library : Type 0 where
  pub loads : Bool
  pub version : Bytes
  pub flags : ℕ

-- `zlib_flags() & NO_GZIP`: bit 16.
abbrev no_gzip : ℕ → Bool
no_gzip flags = flags / 2 ^ 16 % 2 == 1

-- `um_available_encoding`: NULL is `none`.
unfoldable pub available_encoding : Bytes → Library → Option Bytes
available_encoding built lib =
    if not lib.loads
    then none
    else if not (get_or lib.version 0 0 == get_or built 0 0)
    then none
    else if no_gzip lib.flags
    then some (codes "deflate")
    else some (codes "gzip, deflate")

pub data Encoding : Type 0 where
  gzip deflate : Encoding

-- The results of zlib's `inflate` that the source tells apart.
pub data Rc : Type 0 where
  stream_end data_error other_rc : Rc

-- One call of `inflate`: its result, the bytes of input it took, what it wrote, and whether it
-- left a message in `s.msg`.
pub record Inflated : Type 0 where
  pub rc : Rc
  pub consumed : ℕ
  pub produced : Bytes
  pub message : Bool

-- zlib: the result of `inflate` on a stream with that history, given these input bytes.
abbrev pub Inflate : Type 0
Inflate = Encoding → List Bytes → Bytes → Inflated

pub record Inflater : Type 0 where
  pub encoding : Encoding
  pub history : List Bytes
  pub complete : Bool
  pub message : Bool

abbrev fresh : Encoding → Inflater
fresh e = record { encoding = e; history = []; complete = false; message = false }

-- `um_get_inflater`: NULL for an encoding that is not known.
unfoldable pub get_inflater : Bytes → Option Inflater
get_inflater encoding =
    if bytes_eq encoding (codes "gzip")
    then some (fresh gzip)
    else if bytes_eq encoding (codes "deflate")
    then some (fresh deflate)
    else none

-- How `um_inflate` ends: its result -1, 1 or 0.
pub data Ended : Type 0 where
  failed finished more_wanted : Ended

-- The inflater after the call, the blocks handed to the callback, and the result.
pub record Output : Type 0 where
  pub inflater : Inflater
  pub blocks : List Bytes
  pub ended : Ended

-- `if (decomp_count > 0) inflater->cb(…)`
abbrev pub emit : List Bytes → Bytes → List Bytes
emit blocks [] = blocks
emit blocks (b ∷ bs) = blocks ++ ((b ∷ bs) ∷ [])

abbrev pub called : Inflater → Bytes → Inflated → Inflater
called i input r = record i { history = i.history ++ (input ∷ []); message = r.message }

module _ (inflate : Inflate) where
  -- The loop of `um_inflate` over what is left of the input; `none` when the fuel runs out.
  unfoldable pub inflate_loop : ℕ → Inflater → Bytes → List Bytes → Option Output
  inflate_loop zero i input blocks = none
  inflate_loop (suc fuel) i [] blocks =
      some (record { inflater = i; blocks = blocks; ended = more_wanted })
  inflate_loop (suc fuel) i (c ∷ cs) blocks =
      let r = inflate i.encoding i.history (c ∷ cs) in
      let i' = called i (c ∷ cs) r in
      elim r.rc [
        | data_error ↦ some (record { inflater = i'; blocks = blocks; ended = failed })
        | stream_end ↦ some (record {
          inflater = record i' { complete = true };
          blocks = emit blocks r.produced;
          ended = finished;
        })
        | other_rc ↦ inflate_loop fuel i' (drop r.consumed (c ∷ cs)) (emit blocks r.produced)
      ]

-- `um_inflate_state`: -1 is `none`, else the `complete` flag.
unfoldable pub inflate_state : Inflater → Option Bool
inflate_state i = if i.message then none else some i.complete
