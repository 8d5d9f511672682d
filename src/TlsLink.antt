-- ===== src/TlsLink.antt =====
-- The TLS link of src/tls_link.c, between the TCP link and the user's link. The TLS engine is
-- outside: its functions are fields of a record, on a state of their own. The links above and
-- below are outside too; a handler returns the calls that it makes of them, in order.
pub mod Reads
pub mod Writes
use tlsuv.Base.{
  ℕ, zero, suc, ◌+◌, ◌*◌, Bytes, Bool, true, false, ◌||◌, Option, none, some, List, [], ◌∷◌, ◌++◌,
  ltb, ◌==◌, length, if◌then◌else◌,
}
use tlsuv.Http.Types.{Uv, eof, econnaborted, enobufs}

-- `tls_handshake_state` of include/tlsuv/tls_engine.h
pub data HsState : Type 0 where
  hs_before hs_continue hs_complete hs_error : HsState

-- `enum TLS_RESULT`, and what is none of its values.
pub data TlsResult : Type 0 where
  tls_ok tls_err tls_eof tls_read_again tls_more_available tls_has_write tls_unknown : TlsResult

-- The result of the engine's `write`, an `int`: negative, or the number of bytes that wait.
pub data Wrapped : Type 0 where
  wrap_failed : ℕ → Wrapped
  wrapped : ℕ → Wrapped

-- The engine's functions of `tls_engine_api`; `reset` may be missing. The input of `read` may be
-- NULL, and the bound of the output is the last argument before the state.
pub record Engine (E : Type 0) : Type 0 where
  pub handshake_state : E → HsState
  pub handshake : Option Bytes → ℕ → E → E × HsState × Bytes
  pub write : Option Bytes → ℕ → E → E × Wrapped × Bytes
  pub read : Option Bytes → ℕ → E → E × TlsResult × Bytes
  pub reset : Option (E → E)

-- Calls out of the link.
pub data Call : Type 0 where
  read_told : Bytes → Call
  read_failed : Uv → Call
  hs_told : HsState → Call
  alloc_told : ℕ → Call
  parent_write : Bytes → Call
  parent_read_start : Call
  write_told : Option Uv → Call
  close_told : Call

-- `TLS_BUF_SZ`
abbrev pub tls_buf_sz : ℕ
tls_buf_sz = 32 * 1024

-- What `tls_alloc` gives: a buffer of its own in the handshake, one of the link above when that is
-- over, and otherwise the buffer is left as it was.
pub data Alloc : Type 0 where
  own_buffer from_above no_buffer : Alloc

-- `tls_write_cb`: the user's callback, if there is one.
unfoldable pub tls_write_cb : Bool → Option Uv → List Call
tls_write_cb has_cb status = if has_cb then write_told status ∷ [] else []

-- How `tls_write` ends: with an error, with a write to the link below, or, where the engine has
-- nothing to send, with a call of `tls_write_cb` on an argument of the caller's own type.
pub data Written : Type 0 where
  write_refused : ℕ → Written
  write_passed : Bytes → Written
  foreign_argument : Written

module _ {E : Type 0} (engine : Engine E) where
  unfoldable pub tls_alloc : E → Alloc
  tls_alloc e = elim (engine.handshake_state e) [
    | hs_before ↦ own_buffer
    | hs_continue ↦ own_buffer
    | hs_complete ↦ from_above
    | hs_error ↦ no_buffer
  ]

  unfoldable pub reset_engine : E → E
  reset_engine e = elim engine.reset [ none ↦ e | some reset ↦ reset e ]

  abbrev is_continuing : HsState → Bool
  is_continuing hs_continue = true
  is_continuing hs_before = false
  is_continuing hs_complete = false
  is_continuing hs_error = false

  -- `tls_read_start`: an interrupted handshake is reset, and the first flight is sent, also where it
  -- is empty.
  unfoldable pub tls_read_start : E → E × List Call
  tls_read_start e =
      let e' = if is_continuing (engine.handshake_state e) then reset_engine e else e in
      let (e'', st, out) = engine.handshake none tls_buf_sz e' in
      (e'', parent_read_start ∷ parent_write out ∷ [])

  -- What is told of the outcome of a handshake step.
  abbrev told_handshake : HsState → List Call
  told_handshake hs_complete = hs_told hs_complete ∷ []
  told_handshake hs_error = hs_told hs_error ∷ read_failed econnaborted ∷ []
  told_handshake hs_before = []
  told_handshake hs_continue = []

  -- The branch of `tls_read_cb` in the handshake.
  unfoldable pub read_handshake : E → Bytes → E × List Call
  read_handshake e input =
      let (e', st, out) = engine.handshake (some input) tls_buf_sz e in
      (e', (if ltb 0 (length out) then parent_write out ∷ [] else []) ++ told_handshake st)

  -- What is passed on before an error, with a new buffer for the error.
  abbrev passed_on : ℕ → Bytes → List Call
  passed_on bufsize out = if ltb 0 (length out) then read_told out ∷ alloc_told bufsize ∷ [] else []

  -- The loop over the engine's results. `alloc` gives the size of the buffer that the link above
  -- returns when it is asked again, by the number of the round; `len` is the size of the one in use.
  unfoldable pub read_loop : ℕ → (ℕ → ℕ) → ℕ → ℕ → E → Option Bytes → ℕ → Option (E × List Call)
  read_loop zero alloc round bufsize e input len = none
  read_loop (suc fuel) alloc round bufsize e input len =
      let (e', rc, out) = engine.read input len e in
      let rest = read_loop fuel alloc (suc round) bufsize e' none (alloc round) in
      let again =
        if alloc round == 0
        then some (e', read_told out ∷ alloc_told bufsize ∷ read_failed enobufs ∷ [])
        else elim rest [
          | none ↦ none
          | some (e'', calls) ↦ some (e'', read_told out ∷ alloc_told bufsize ∷ calls)
        ] in
      elim rc [
        | tls_ok ↦ some (e', read_told out ∷ [])
        | tls_eof ↦ some (e', passed_on bufsize out ++ (read_failed eof ∷ []))
        | tls_read_again ↦ again
        | tls_more_available ↦ again
        | tls_has_write ↦
            (let (e'', w, flight) = engine.write none tls_buf_sz e' in
              some (e'', parent_write flight ∷ []))
        | tls_err ↦ some (e', passed_on bufsize out ++ (read_failed econnaborted ∷ []))
        | tls_unknown ↦ some (e', passed_on bufsize out ++ (read_failed econnaborted ∷ []))
      ]

  -- `tls_read_cb` on an error from below. The engine is reset without a test for a missing `reset`:
  -- `none` where that is NULL.
  unfoldable pub tls_read_failed : E → Uv → Option (E × List Call)
  tls_read_failed e code =
      if is_continuing (engine.handshake_state e)
      then elim engine.reset [ none ↦ none | some reset ↦ some (reset e, hs_told hs_error ∷ []) ]
      else some (e, read_failed code ∷ [])

  -- `tls_read_cb` on bytes; `none` where the fuel for the loop does not last.
  unfoldable pub tls_read_cb : ℕ → (ℕ → ℕ) → E → Bytes → ℕ → Option (E × List Call)
  unfolding read_handshake read_loop
  tls_read_cb fuel alloc e input bufsize = elim (engine.handshake_state e) [
    | hs_before ↦ some (e, [])
    | hs_continue ↦ if length input == 0 then some (e, []) else some (read_handshake e input)
    | hs_complete ↦ read_loop fuel alloc 0 bufsize e (some input) bufsize
    | hs_error ↦ some (e, [])
  ]

  -- The first loop of `tls_write`: the engine takes the buffers, and says how much waits.
  unfoldable pub wrap_bufs : E → List Bytes → Wrapped → E × Wrapped
  wrap_bufs e [] last = (e, last)
  wrap_bufs e (b ∷ bs) last =
      let (e', w, out) = engine.write (some b) 0 e in
      let rest = wrap_bufs e' bs w in
      elim w [ wrap_failed n ↦ (e', wrap_failed n) | wrapped n ↦ rest ]

  -- `tls_write`
  unfoldable pub tls_write : E → List Bytes → E × Written
  unfolding wrap_bufs
  tls_write e bufs =
      let (e', w) = wrap_bufs e bufs (wrapped 0) in
      elim w [
        | wrap_failed n ↦ (e', write_refused n)
        | wrapped n ↦
            if n == 0
            then (e', foreign_argument)
            else (let (e'', last, out) = engine.write none n e' in
                elim last [
                  | wrap_failed k ↦ (e'', write_refused k)
                  | wrapped k ↦ (e'', write_passed out)
                ])
      ]

  -- `tls_close`
  unfoldable pub tls_close : E → E × List Call
  tls_close e = (reset_engine e, close_told ∷ [])
