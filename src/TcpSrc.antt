-- ===== src/TcpSrc.antt =====
-- The TCP connection source of src/tcp_src.c. libuv is outside: its requests come back by a
-- callback, its results are arguments. A request is told from one that was given up by its `data`,
-- which is NULL for the latter. `connect_cb` does not call back into the source.
pub mod Laws
use tlsuv.Base.{
  ℕ, Bytes, Bool, true, false, not, Option, none, some, List, [], ◌∷◌, ◌++◌, ltb, if◌then◌else◌,
}
use tlsuv.Http.Types.{Uv, ecanceled}

-- Calls out of the source; a status of 0 is `none`.
pub data Call : Type 0 where
  connect_told : Option Uv → Call
  resolve_started tcp_connect_started : Call
  handle_closed link_closed link_started : Call
  nodelay_set : ℕ → Call
  keepalive_set : Bool → ℕ → Call

-- `struct tcp_src_s`. `conn` says whether its handle is closing; `conn_req` and `resolve_req` are
-- not NULL.
pub record TcpSrc : Type 0 where
  pub link : Bool
  pub conn : Option Bool
  pub conn_req : Bool
  pub resolve_req : Bool
  pub keepalive : ℕ
  pub nodelay : ℕ

-- `tcp_src_init` on cleared memory.
unfoldable pub tcp_src_init : TcpSrc
tcp_src_init = record {
  link = true;
  conn = none;
  conn_req = false;
  resolve_req = false;
  keepalive = 0;
  nodelay = 0;
}

-- `tcp_src_free`
unfoldable pub tcp_src_free : TcpSrc → TcpSrc
tcp_src_free ts = record ts { link = false }

-- `tcp_src_nodelay`
unfoldable pub tcp_src_nodelay : TcpSrc → ℕ → TcpSrc × List Call
tcp_src_nodelay ts val =
    (record ts { nodelay = val }, elim ts.conn [ none ↦ [] | some closing ↦ nodelay_set val ∷ [] ])

-- `tcp_src_keepalive`
unfoldable pub tcp_src_keepalive : TcpSrc → Bool → ℕ → TcpSrc × List Call
tcp_src_keepalive ts on val = (
  record ts { keepalive = if on then val else 0 },
  elim ts.conn [ none ↦ [] | some closing ↦ keepalive_set on val ∷ [] ],
)

-- `tcp_connect_cb` on a request whose `data` is the source, or NULL; `closing` is what
-- `uv_is_closing` says of its handle.
unfoldable pub tcp_connect_cb : TcpSrc → Bool → Bool → Option Uv → TcpSrc × List Call
tcp_connect_cb sl false closing status = (sl, if closing then [] else handle_closed ∷ [])
tcp_connect_cb sl true closing none = (
  record sl { conn_req = false; conn = some false },
  nodelay_set 1
      ∷ keepalive_set (ltb 0 sl.keepalive) sl.keepalive
      ∷ link_started
      ∷ connect_told none
      ∷ [],
)
tcp_connect_cb sl true closing (some ecanceled) =
    (record sl { conn_req = false }, handle_closed ∷ [])
tcp_connect_cb sl true closing (some status) =
    (record sl { conn_req = false; conn = none }, handle_closed ∷ connect_told (some status) ∷ [])

-- A failure in `resolve_cb`; the flag says that there are a handle and a request to connect it, in
-- which case the handle is closed.
abbrev resolve_failed : TcpSrc → Uv → Bool → TcpSrc × List Call
resolve_failed sl e made = (
  record sl { resolve_req = false; conn_req = false },
  connect_told (some e) ∷ (if made then handle_closed ∷ [] else []),
)

-- `resolve_cb` with the result of the resolution and of `uv_tcp_init_ex` and `uv_tcp_connect`. The
-- request's `data` is the source, or NULL.
unfoldable pub resolve_cb : TcpSrc → Bool → Option Uv → Option Uv → Option Uv → TcpSrc × List Call
resolve_cb sl false status init started = (sl, [])
resolve_cb sl true (some e) init started = resolve_failed sl e false
resolve_cb sl true none (some e) started = resolve_failed sl e sl.conn_req
resolve_cb sl true none none (some e) = resolve_failed sl e true
resolve_cb sl true none none none =
    (record sl { resolve_req = false; conn_req = true }, tcp_connect_started ∷ [])

-- `link_close_cb`
unfoldable pub link_close_cb : TcpSrc → TcpSrc
link_close_cb tcp = record tcp { conn = none }

-- The link of a connection that is not closing yet is closed, and the call of `link_close_cb` waits.
abbrev close_calls : Option Bool → List Call
close_calls none = []
close_calls (some closing) = if closing then [] else link_closed ∷ []

abbrev keep_conn : Option Bool → Option Bool
keep_conn none = none
keep_conn (some closing) = if closing then none else some false

-- `tcp_src_connect` with the result of `uv_getaddrinfo`, which it returns.
unfoldable pub tcp_src_connect : TcpSrc → Option Uv → TcpSrc × List Call
tcp_src_connect tcp rc = (
  record tcp { conn = keep_conn tcp.conn; resolve_req = elim rc [ none ↦ true | some e ↦ false ] },
  close_calls tcp.conn ++ (resolve_started ∷ []),
)

-- `tcp_src_cancel`: the requests lose their `data`.
unfoldable pub tcp_src_cancel : TcpSrc → TcpSrc × List Call
tcp_src_cancel tl = (
  record tl { resolve_req = false; conn_req = false },
  (if tl.conn_req then handle_closed ∷ [] else []) ++ close_calls tl.conn,
)

-- `tcp_src_release`
unfoldable pub tcp_src_release : TcpSrc → TcpSrc
tcp_src_release tcp = record tcp { conn = none }
