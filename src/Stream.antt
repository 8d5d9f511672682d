-- ===== src/Stream.antt =====
-- The TLS stream of src/tlsuv.c and the choice of the TLS implementation, src/tls_engine.c. The
-- user's callbacks, the source, the links and the TLS context are outside; a handler returns the
-- calls that it makes of them. A callback does not call back into the stream.
pub mod Laws
use tlsuv.Base.{
  ℕ, ◌^◌, ◌-◌, Bytes, Bool, true, false, not, ◌||◌, Option, none, some, List, [], ◌∷◌, ◌++◌, ltb,
  ◌==◌, if◌then◌else◌,
}
use tlsuv.Http.Types.{Uv, einval, ecanceled, econnaborted, ealready}
use tlsuv.Http.Client.Connect.{Handshake, hs_complete, hs_error, hs_other}

-- Calls out of the stream. A status of 0 is `none`.
pub data Call : Type 0 where
  conn_told : Option Uv → Call
  write_told : Option Uv → Call
  close_told : Call
  src_connecting : Bytes → ℕ → Call
  src_cancelled src_released src_freed : Call
  engine_made engine_freed : Call
  links_chained read_started link_closing : Call
  link_written : Bytes → Call

-- `struct tlsuv_stream_s`. The flags say that `conn_req`, `socket`, `tls_engine` and `close_cb` are
-- not NULL, and that a read callback is set.
pub record Stream : Type 0 where
  pub host : Option Bytes
  pub conn_req : Bool
  pub socket : Bool
  pub engine : Bool
  pub close_cb : Bool
  pub reading : Bool

-- `tlsuv_stream_init`; the context given, or the default one.
unfoldable pub stream_init : Stream
stream_init = record {
  host = none;
  conn_req = false;
  socket = true;
  engine = false;
  close_cb = false;
  reading = false;
}

-- `on_mbed_close`
unfoldable pub on_mbed_close : Stream → Stream × List Call
on_mbed_close s = (
  record s { conn_req = false; socket = false },
  (if s.conn_req then conn_told (some ecanceled) ∷ [] else [])
      ++ ((if s.socket then src_cancelled ∷ src_released ∷ src_freed ∷ [] else [])
          ++ (if s.close_cb then close_told ∷ [] else [])),
)

-- `tlsuv_stream_close`; `on_mbed_close` is called once the links are closed.
unfoldable pub stream_close : Stream → Bool → Stream × List Call
stream_close s cb = (record s { close_cb = cb }, link_closing ∷ [])

-- What the connection callback is told when the handshake ends.
abbrev pub hs_status : Handshake → Option Uv
hs_status hs_complete = none
hs_status hs_error = some econnaborted
hs_status hs_other = some einval

-- `on_tls_hs`
unfoldable pub on_tls_hs : Stream → Handshake → Stream × List Call
on_tls_hs s status =
    if s.conn_req
    then (record s { conn_req = false }, conn_told (hs_status status) ∷ [])
    else (s, [])

-- `on_src_connect`; `none` where it calls through a `conn_req` that is NULL.
unfoldable pub on_src_connect : Stream → Option Uv → Option (Stream × List Call)
on_src_connect s none = some (
  record s { engine = true },
  (if s.engine then engine_freed ∷ [] else []) ++ (engine_made ∷ links_chained ∷ read_started ∷ []),
)
on_src_connect s (some e) =
    if s.conn_req then some (record s { conn_req = false }, conn_told (some e) ∷ []) else none

-- `tlsuv_stream_connect` with its result. `has_req` says that `req` is not NULL; the port is an
-- `int`, with its sign; `rc` is the result of `src->connect`, for which `conn_req` stays.
unfoldable pub stream_connect :
    Stream → Bool → Bytes → Bool → ℕ → Option Uv → Stream × List Call × Option Uv
stream_connect s has_req host negative port rc =
    if not has_req
    then (s, [], some einval)
    else if negative || (port == 0 || ltb (2 ^ 16 - 1) port)
    then (s, [], some einval)
    else if s.conn_req
    then (s, [], some ealready)
    else (
      record s { host = some host; conn_req = true; socket = true },
      src_connecting host port ∷ [],
      rc,
    )

-- `tlsuv_stream_read`
unfoldable pub stream_read : Stream → Stream
stream_read s = record s { reading = true }

-- `tlsuv_stream_write`, and `on_mbed_link_write` when the link is done.
unfoldable pub stream_write : Bytes → List Call
stream_write buf = link_written buf ∷ []

unfoldable pub on_mbed_link_write : Option Uv → List Call
on_mbed_link_write status = write_told status ∷ []

-- `tlsuv_stream_free`
unfoldable pub stream_free : Stream → Stream × List Call
stream_free s = (
  record s { host = none; engine = false; socket = false },
  (if s.engine then engine_freed ∷ [] else []) ++ (if s.socket then src_freed ∷ [] else []),
)

-- src/tls_engine.c: the factory that makes contexts, NULL if none is set.
unfoldable pub default_tls_context : {A B : Type 0} → Option (A → B) → A → Option B
default_tls_context none ca = none
default_tls_context (some factory) ca = some (factory ca)

-- `get_default_tls`: the context is made once.
unfoldable pub get_default_tls : {A B : Type 0} → Option B → Option (A → B) → A → Option B
unfolding default_tls_context
get_default_tls none factory ca = default_tls_context factory ca
get_default_tls (some tls) factory ca = some tls
