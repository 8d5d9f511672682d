-- ===== src/Mbedtls.antt =====
-- The mbedTLS engine of src/mbedtls/engine.c, on the byte queues of src/bio.c. mbedTLS is outside: each
-- of its functions is a program that may call `mbed_ssl_recv` and `mbed_ssl_send` before it returns.
-- Memory is taken to be there.
pub mod Streams
pub mod Pkcs7
pub mod Verify
pub mod Pem
pub mod Csr
pub mod Signatures
pub mod Keys
pub mod Identity
use tlsuv.Base.{
  ℕ, zero, suc, ◌+◌, ◌-◌, Bytes, Bool, true, false, ◌||◌, Option, none, some, [], ◌∷◌, ◌++◌, length,
  drop, ltb, ◌==◌, if◌then◌else◌,
}
use tlsuv.Bio
use tlsuv.Bio.{Bio, put, available_bytes}
use tlsuv.TlsLink.{
  Engine, HsState, hs_before, hs_continue, hs_complete, hs_error, TlsResult, tls_ok, tls_err,
  tls_eof, tls_more_available, tls_has_write, Wrapped, wrap_failed, wrapped,
}

-- A function of mbedTLS: it returns, asks for at most so many bytes and goes on with the answer,
-- which is `none` for MBEDTLS_ERR_SSL_WANT_READ, or hands over bytes to be sent.
pub data Io (A : Type 0) : Type 0 where
  done : A → Io A
  recv : ℕ → (Option Bytes → Io A) → Io A
  send : Bytes → Io A → Io A

-- The state of the handshake, as far as it is told apart.
pub data SslState : Type 0 where
  hello_request handshake_over other_state : SslState

-- The result of `mbedtls_ssl_handshake`: 0, a request for bytes, or an error by its absolute value.
pub data HsRc : Type 0 where
  hs_done hs_want_read hs_want_write : HsRc
  hs_failed : ℕ → HsRc

-- The result of `mbedtls_ssl_read`: at least one byte, 0, or an error.
pub data ReadRc : Type 0 where
  read_got : ℕ → Bytes → ReadRc
  read_zero read_want_read read_close_notify : ReadRc
  read_failed : ℕ → ReadRc

-- The result of `mbedtls_ssl_write` on some bytes: the number of those that were written, less one,
-- or an error.
pub data WriteRc : Type 0 where
  wrote : ℕ → WriteRc
  write_failed : ℕ → WriteRc

-- The functions of mbedTLS on a context `M` and a session `N`; `cleared` is a session that was freed
-- or just allocated.
pub record Mbedtls (M N : Type 0) : Type 0 where
  pub state : M → SslState
  pub ssl_handshake : M → Io (M × HsRc)
  pub ssl_write : Bytes → M → Io (M × WriteRc)
  pub ssl_read : ℕ → M → Io (M × ReadRc)
  pub check_pending : M → Bool
  pub close_notify : M → Io M
  pub set_session : N → M → M
  pub get_session : M → Option N
  pub session_reset : M → M
  pub cleared : N

-- `struct mbedtls_engine`
pub record MbedtlsEngine (M N : Type 0) : Type 0 where
  pub ssl : M
  pub session : Option N
  pub input : Bio
  pub output : Bio
  pub error : ℕ

-- `tlsuv_BIO_read`, which always has a result.
abbrev pub bio_read : Bio → ℕ → Bio × Bytes
bio_read bio n = elim (Bio.read bio n) [ none ↦ (bio, []) | some r ↦ r ]

-- `mbed_ssl_recv`
unfoldable pub mbed_ssl_recv : Bio → ℕ → Bio × Option Bytes
mbed_ssl_recv bio n =
    let (bio', b) = bio_read bio n in
    if available_bytes bio == 0 then (bio, none) else (bio', some b)

-- `mbed_ssl_send`, which does not look at the result of `tlsuv_BIO_put`.
unfoldable pub mbed_ssl_send : Bio → Bytes → Bio
mbed_ssl_send bio b = (put true true bio b).0

-- A function of mbedTLS with the two queues.
unfoldable pub run : {A : Type 0} → Io A → Bio → Bio → Bio × Bio × A
unfolding mbed_ssl_recv mbed_ssl_send
run (done a) input output = (input, output, a)
run (recv n next) input output =
    let (input', answer) = mbed_ssl_recv input n in run (next answer) input' output
run (send b next) input output = run next input (mbed_ssl_send output b)

abbrev pub given : Option Bytes → Bytes
given none = []
given (some b) = b

module _ {M N : Type 0} (lib : Mbedtls M N) where
  -- `tlsuv_BIO_put` for some bytes, and nothing for none.
  abbrev pub feed : Option Bytes → Bio → Bio
  feed none bio = bio
  feed (some []) bio = bio
  feed (some (b ∷ bs)) bio = (put true true bio (b ∷ bs)).0

  -- `mbedtls_hs_state`
  unfoldable pub mbedtls_hs_state : MbedtlsEngine M N → HsState
  mbedtls_hs_state e = elim (lib.state e.ssl) [
    | handshake_over ↦ hs_complete
    | hello_request ↦ hs_before
    | other_state ↦ hs_continue
  ]

  -- A session that is there is set before the first step; it is freed then, but still pointed to.
  abbrev pub resume : MbedtlsEngine M N → MbedtlsEngine M N
  resume e = elim (lib.state e.ssl) [
    | handshake_over ↦ e
    | other_state ↦ e
    | hello_request ↦ elim e.session [
      | none ↦ e
      | some s ↦ record e { ssl = lib.set_session s e.ssl; session = some lib.cleared }
    ]
  ]

  -- The result of a step that did not end the handshake.
  abbrev after_step : MbedtlsEngine M N → HsRc → Bytes → MbedtlsEngine M N × HsState × Bytes
  after_step e hs_want_read out = (e, hs_continue, out)
  after_step e hs_want_write out = (e, hs_continue, out)
  after_step e hs_done out = (record e { error = 0 }, hs_error, out)
  after_step e (hs_failed code) out = (record e { error = code }, hs_error, out)

  -- The step itself, behind what is done with the session.
  unfoldable pub hs_step : ℕ → MbedtlsEngine M N → MbedtlsEngine M N × HsState × Bytes
  hs_step maxout e =
      let (inp, outp, (ssl, rc)) = run (lib.ssl_handshake e.ssl) e.input e.output in
      let (outp', out) = bio_read outp maxout in
      let e' = record e { ssl = ssl; input = inp; output = outp' } in
      elim (lib.state ssl) [
        | handshake_over ↦ (e', hs_complete, out)
        | hello_request ↦ after_step e' rc out
        | other_state ↦ after_step e' rc out
      ]

  -- `mbedtls_continue_hs`
  unfoldable pub mbedtls_continue_hs :
      Option Bytes → ℕ → MbedtlsEngine M N → MbedtlsEngine M N × HsState × Bytes
  mbedtls_continue_hs input maxout e =
      hs_step maxout (resume (record e { input = feed input e.input }))

  -- The loop of `mbedtls_write`, on fuel: a round writes at least one byte. `some` is an error.
  unfoldable pub write_loop : ℕ → Bytes → MbedtlsEngine M N → MbedtlsEngine M N × Option ℕ
  write_loop fuel [] e = (e, none)
  write_loop zero (b ∷ bs) e = (e, none)
  write_loop (suc fuel) (b ∷ bs) e =
      let (inp, outp, (ssl, rc)) = run (lib.ssl_write (b ∷ bs) e.ssl) e.input e.output in
      let e' = record e { ssl = ssl; input = inp; output = outp } in
      elim rc [
        | wrote k ↦ write_loop fuel (drop k bs) e'
        | write_failed code ↦ (record e' { error = code }, some code)
      ]

  -- `mbedtls_write`
  unfoldable pub mbedtls_write :
      Option Bytes → ℕ → MbedtlsEngine M N → MbedtlsEngine M N × Wrapped × Bytes
  unfolding write_loop
  mbedtls_write input maxout e =
      let bytes = given input in
      let (e', failed) = write_loop (length bytes) bytes e in
      let (outp, out) = bio_read e'.output maxout in
      elim failed [
        | some code ↦ (e', wrap_failed code, [])
        | none ↦ (record e' { output = outp }, wrapped (available_bytes outp), out)
      ]

  -- The loop of `mbedtls_read`, on fuel: a round that goes on has read at least one byte. There is one
  -- call even where no byte is free.
  unfoldable pub fill_loop : ℕ → ℕ → MbedtlsEngine M N → MbedtlsEngine M N × Bytes × ReadRc
  fill_loop zero room e = (e, [], read_zero)
  fill_loop (suc fuel) room e =
      let (inp, outp, (ssl, rc)) = run (lib.ssl_read room e.ssl) e.input e.output in
      let e' = record e { ssl = ssl; input = inp; output = outp } in
      elim rc [
        | read_zero ↦ (e', [], read_zero)
        | read_want_read ↦ (e', [], read_want_read)
        | read_close_notify ↦ (e', [], read_close_notify)
        | read_failed code ↦ (e', [], read_failed code)
        | read_got b bs ↦
            (let (e'', out, last) = fill_loop fuel (room - suc (length bs)) e' in
              if ltb (suc (length bs)) room
              then (e'', (b ∷ bs) ++ out, last)
              else (e', b ∷ bs, read_got b bs))
      ]

  abbrev pub or_more : MbedtlsEngine M N → TlsResult
  or_more e =
      if ltb 0 (available_bytes e.input) || lib.check_pending e.ssl
      then tls_more_available
      else tls_ok

  -- The result of `mbedtls_read` after its loop.
  unfoldable pub read_result : MbedtlsEngine M N → ReadRc → MbedtlsEngine M N × TlsResult
  read_result e rc = elim rc [
    | read_want_read ↦ (e, (if ltb 0 (available_bytes e.output) then tls_has_write else tls_ok))
    | read_close_notify ↦ (e, tls_eof)
    | read_failed code ↦ (record e { error = code }, tls_err)
    | read_zero ↦ (e, or_more e)
    | read_got b bs ↦ (e, or_more e)
  ]

  -- `mbedtls_read`
  unfoldable pub mbedtls_read :
      Option Bytes → ℕ → MbedtlsEngine M N → MbedtlsEngine M N × TlsResult × Bytes
  unfolding fill_loop read_result
  mbedtls_read input maxout e =
      let (e', out, rc) = fill_loop (suc maxout) maxout (record e { input = feed input e.input }) in
      let (e'', result) = read_result e' rc in (e'', result, out)

  -- `mbedtls_close`
  unfoldable pub mbedtls_close : ℕ → MbedtlsEngine M N → MbedtlsEngine M N × Bytes
  mbedtls_close maxout e =
      let (inp, outp, ssl) = run (lib.close_notify e.ssl) e.input e.output in
      let (outp', out) = bio_read outp maxout in
      (record e { ssl = ssl; input = inp; output = outp' }, out)

  -- `mbedtls_reset`; no caller reads the result.
  unfoldable pub mbedtls_reset : MbedtlsEngine M N → MbedtlsEngine M N
  mbedtls_reset e = record e { ssl = lib.session_reset e.ssl; session = lib.get_session e.ssl }

  -- `mbedtls_engine_api`, as the TLS link calls it.
  abbrev pub mbedtls_engine : Engine (MbedtlsEngine M N)
  mbedtls_engine = record {
    handshake_state = mbedtls_hs_state;
    handshake = mbedtls_continue_hs;
    write = mbedtls_write;
    read = mbedtls_read;
    reset = some mbedtls_reset;
  }
