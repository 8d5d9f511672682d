-- ===== src/Openssl.antt =====
-- The OpenSSL engine of src/openssl/engine.c. OpenSSL is outside: the operations of an `SSL` object
-- with its two memory BIOs are fields of a record, on a state of their own.
pub mod Alpn
pub mod Identity
pub mod Trust
pub mod Writes
pub mod Reads
pub mod Chains
pub mod Keys
use tlsuv.Base.{
  ℕ, zero, suc, ◌-◌, Bytes, Bool, true, false, ◌||◌, Option, none, some, [], ◌∷◌, ◌++◌, drop,
  length, ltb, if◌then◌else◌,
}
use tlsuv.TlsLink.{
  Engine, HsState, hs_before, hs_continue, hs_complete, hs_error, TlsResult, tls_ok, tls_err,
  tls_eof, tls_more_available, tls_has_write, Wrapped, wrap_failed, wrapped,
}

-- `SSL_get_error`, as far as it is told apart.
pub data SslError : Type 0 where
  error_none want_read want_write other_error : SslError

-- `SSL_get_state`, as far as it is told apart.
pub data SslState : Type 0 where
  st_ok st_before st_other : SslState

-- The result of `SSL_do_handshake`: 1, 0, or a negative number with its error.
pub data HsRc : Type 0 where
  hs_done hs_shut_down : HsRc
  hs_failed : SslError → HsRc

-- The result of `SSL_read_ex`: at least one byte, or no success and the error.
pub data ReadEx : Type 0 where
  read_got : ℕ → Bytes → ReadEx
  read_none : SslError → ReadEx

-- The operations on an `SSL` object, as OpenSSL documents them. `feed` writes to the BIO for input,
-- `drain` reads at most so many bytes from the BIO for output. `write_ex` gives the number of bytes
-- written less one, since success means at least one.
pub record Ssl (S : Type 0) : Type 0 where
  pub feed : Bytes → S → S
  pub do_handshake : S → S × HsRc
  pub get_state : S → SslState
  pub out_pending : S → ℕ
  pub in_pending : S → ℕ
  pub ssl_pending : S → Bool
  pub drain : ℕ → S → S × Bytes
  pub write_ex : Bytes → S → S × Option ℕ
  pub read_ex : ℕ → S → S × ReadEx
  pub is_shut_down : S → Bool
  pub shut_down : S → S
  pub clear : S → Option S
  pub alpn_selected : S → Bytes
  pub get_error : S → ℕ

-- `struct openssl_engine`
pub record OpensslEngine (S : Type 0) : Type 0 where
  pub ssl : S
  pub alpn : Option Bytes
  pub error : ℕ

abbrev pub nonempty : Option Bytes → Bytes
nonempty none = []
nonempty (some b) = b

module _ {S : Type 0} (lib : Ssl S) where
  -- `tls_hs_state`
  unfoldable pub tls_hs_state : OpensslEngine S → HsState
  tls_hs_state e = elim (lib.get_state e.ssl) [
    | st_ok ↦ hs_complete
    | st_before ↦ hs_before
    | st_other ↦ hs_continue
  ]

  -- `BIO_write(eng->in, …)`, which is left out for no bytes.
  abbrev pub feed_input : Option Bytes → S → S
  feed_input none s = s
  feed_input (some []) s = s
  feed_input (some (b ∷ bs)) s = lib.feed (b ∷ bs) s

  -- What is read of the bytes that wait to be sent.
  abbrev pub take_output : ℕ → S → S × Bytes
  take_output maxout s = if ltb 0 (lib.out_pending s) then lib.drain maxout s else (s, [])

  abbrev pub with_error : OpensslEngine S → S → OpensslEngine S
  with_error e s = record e { ssl = s; error = lib.get_error s }

  -- `tls_continue_hs`
  unfoldable pub tls_continue_hs :
      Option Bytes → ℕ → OpensslEngine S → OpensslEngine S × HsState × Bytes
  tls_continue_hs input maxout e =
      let (s, rc) = lib.do_handshake (feed_input input e.ssl) in
      let (s', out) = take_output maxout s in
      elim rc [
        | hs_done ↦ (record e { ssl = s' }, hs_complete, out)
        | hs_shut_down ↦ (with_error e s', hs_error, out)
        | hs_failed err ↦ elim err [
          | want_read ↦ (record e { ssl = s' }, hs_continue, out)
          | want_write ↦ (record e { ssl = s' }, hs_continue, out)
          | error_none ↦ (with_error e s', hs_error, out)
          | other_error ↦ (with_error e s', hs_error, out)
        ]
      ]

  -- The loop of `tls_write`, on fuel: a round writes at least one byte. `false` is a failure.
  unfoldable pub write_loop : ℕ → Bytes → S → S × Bool
  write_loop fuel [] s = (s, true)
  write_loop zero (b ∷ bs) s = (s, false)
  write_loop (suc fuel) (b ∷ bs) s =
      let (s', written) = lib.write_ex (b ∷ bs) s in
      elim written [ none ↦ (s', false) | some k ↦ write_loop fuel (drop k bs) s' ]

  -- `tls_write`; the bytes that still wait are counted after some have been read.
  unfoldable pub tls_write : Option Bytes → ℕ → OpensslEngine S → OpensslEngine S × Wrapped × Bytes
  unfolding write_loop
  tls_write input maxout e =
      let bytes = nonempty input in
      let (s, good) = write_loop (length bytes) bytes e.ssl in
      let (s', out) = take_output maxout s in
      if good
      then (record e { ssl = s' }, wrapped (lib.out_pending s'), out)
      else (with_error e s, wrap_failed 1, [])

  -- The loop of `tls_read`, on fuel: a round reads at least one byte, and `room` bytes are free.
  unfoldable pub fill_loop : ℕ → ℕ → S → S × Bytes × SslError
  fill_loop fuel zero s = (s, [], error_none)
  fill_loop zero (suc room) s = (s, [], error_none)
  fill_loop (suc fuel) (suc room) s =
      let (s', r) = lib.read_ex (suc room) s in
      elim r [
        | read_none err ↦ (s', [], err)
        | read_got b bs ↦
            (let (s'', out, err) = fill_loop fuel (room - length bs) s' in
              (s'', (b ∷ bs) ++ out, err))
      ]

  abbrev pub ok_or_write : S → TlsResult
  ok_or_write s = if ltb 0 (lib.out_pending s) then tls_has_write else tls_ok

  -- The result of `tls_read` after its loop.
  unfoldable pub read_result : OpensslEngine S → S → SslError → OpensslEngine S × TlsResult
  read_result e s err =
      let e' = record e { ssl = s } in
      let ended = if lib.is_shut_down s then (e', tls_eof) else (with_error e s, tls_err) in
      elim err [
        | want_read ↦ (e', ok_or_write s)
        | want_write ↦ ended
        | other_error ↦ ended
        | error_none ↦
            if lib.is_shut_down s
            then (e', tls_eof)
            else if ltb 0 (lib.in_pending s) || lib.ssl_pending s
            then (e', tls_more_available)
            else (e', ok_or_write s)
      ]

  -- `tls_read`
  unfoldable pub tls_read : Option Bytes → ℕ → OpensslEngine S → OpensslEngine S × TlsResult × Bytes
  unfolding fill_loop read_result
  tls_read input maxout e =
      let (s, out, err) = fill_loop maxout maxout (feed_input input e.ssl) in
      let (e', rc) = read_result e s err in (e', rc, out)

  -- `tls_close`; a failure of `SSL_shutdown` is only logged.
  unfoldable pub tls_close : ℕ → OpensslEngine S → OpensslEngine S × Bytes
  tls_close maxout e =
      let (s, out) = take_output maxout (lib.shut_down e.ssl) in (record e { ssl = s }, out)

  -- `tls_reset`; where `SSL_clear` fails the result is -1, which no caller reads.
  unfoldable pub tls_reset : OpensslEngine S → OpensslEngine S
  tls_reset e = elim (lib.clear e.ssl) [ none ↦ e | some s ↦ record e { ssl = s } ]

  -- `openssl_engine_api`, as the TLS link calls it.
  abbrev pub openssl_engine : Engine (OpensslEngine S)
  openssl_engine = record {
    handshake_state = tls_hs_state;
    handshake = tls_continue_hs;
    write = tls_write;
    read = tls_read;
    reset = some tls_reset;
  }
