-- ===== src/Websocket.antt =====
-- The WebSocket client of src/websocket.c: its state, setting it up, connecting and closing.
-- The user's callbacks, the links below and the connection source are outside; a handler returns
-- the calls that it makes of them, in order.
pub mod Frame
pub mod Link
pub mod Laws
use tlsuv.Base.{
  ℕ, zero, suc, ◌+◌, ◌-◌, ◌%◌, Bytes, Bool, true, false, not, ◌&&◌, ◌||◌, Option, none, some, List,
  [], ◌∷◌, ◌++◌, codes, ltb, ◌==◌, if◌then◌else◌, map,
}
use tlsuv.Url.{Url, parse_url}
use tlsuv.Http.Headers.{Headers, set_http_header}
use tlsuv.Http.Types.{Req, Uv, Event}
use tlsuv.Http.Request.{http_req_init}
use tlsuv.Http.Client.Config.{scheme_is}

-- What `conn_cb` is called with: 0, -1, or a code of libuv.
pub data ConnStatus : Type 0 where
  conn_ok conn_failed : ConnStatus
  conn_uv : Uv → ConnStatus

-- Calls out of the client.
pub data Call : Type 0 where
  conn_called : ConnStatus → Call
  data_given : Bytes → Call
  data_error : Uv → Call
  write_done : Option Uv → Call
  close_called : Call
  link_written : Bytes → Call
  -- A write that was given more bytes than its buffer holds.
  link_overread : ℕ → Call
  links_chained read_started link_closing : Call
  src_connecting : Bytes → ℕ → Call
  src_cancelled src_freed engine_made engine_freed : Call
  from_request : Event → Call

-- `struct tlsuv_websocket_s`. The flags say that `conn_req`, `tls`, `tls_link.engine`, `src`,
-- `ws_link.data` and `close_cb` are not NULL.
pub record Ws : Type 0 where
  pub req : Option Req
  pub host : Option Bytes
  pub conn_req : Bool
  pub tls : Bool
  pub engine : Bool
  pub src : Bool
  pub link_data : Bool
  pub close_cb : Bool
  pub closed : Bool

-- How a handler ends: with a state and the calls made, with an access that C leaves undefined, or
-- never, where the response's body is compressed and decompression does not return.
pub data Outcome : Type 0 where
  returns : Ws × List Call → Outcome
  null_dereference bad_memory never_returns : Outcome

-- One character of the key, for a random number below 64.
unfoldable pub key_char : ℕ → ℕ
key_char v =
    if ltb v 26
    then b'A' + v
    else if ltb v 52
    then b'a' + v - 26
    else if ltb v 62
    then b'a' + v - 52
    else if v == 62
    then b'+'
    else b'/'

-- The key, from 22 results of `rand`.
unfoldable pub ws_key : List ℕ → Bytes
unfolding key_char
ws_key rand = map (λ v. key_char (v % 64)) rand ++ codes "=="

-- The headers of the upgrade, in the order in which they are set.
unfoldable pub upgrade_headers : Bytes → Headers
upgrade_headers key =
    let h1 = set_http_header [] (codes "Upgrade") (some (codes "websocket")) in
    let h2 = set_http_header h1 (codes "Connection") (some (codes "Upgrade")) in
    let h3 = set_http_header h2 (codes "Sec-WebSocket-Key") (some key) in
    set_http_header h3 (codes "Sec-WebSocket-Version") (some (codes "13"))

-- `tlsuv_websocket_init`, with the results of `rand`. Of the request only the headers count so far:
-- the rest is set when connecting.
unfoldable pub websocket_init : List ℕ → Ws
websocket_init rand = record {
  req = some (record (http_req_init 0 [] [] none) { req_headers = upgrade_headers (ws_key rand) });
  host = none;
  conn_req = false;
  tls = false;
  engine = false;
  src = true;
  link_data = false;
  close_cb = false;
  closed = false;
}

-- `tlsuv_websocket_set_header`; without a request the pointer is NULL.
unfoldable pub websocket_set_header : Ws → Bytes → Bytes → Outcome
websocket_set_header ws name value = elim ws.req [
  | none ↦ null_dereference
  | some r ↦ returns (
    record ws {
      req = some (record r { req_headers = set_http_header r.req_headers name (some value) });
    },
    [],
  )
]

-- The default port and TLS, by the scheme.
unfoldable pub ws_scheme : Bytes → Option (ℕ × Bool)
ws_scheme scheme =
    if scheme_is (codes "ws") scheme
    then some (80, false)
    else if scheme_is (codes "wss") scheme
    then some (443, true)
    else none

-- `http_req_init(ws->req, "GET", path)`, which keeps the headers, and the host's header.
unfoldable pub upgrade_request : Req → Bytes → Bytes → Req
upgrade_request r path host = record (http_req_init r.id (codes "GET") path r.resp_cb) {
  req_headers = set_http_header r.req_headers (codes "host") (some host);
  resp = r.resp;
  inflater = r.inflater;
}

abbrev pub path_or_default : Option Bytes → Bytes
path_or_default none = codes "/"
path_or_default (some path) = path

-- The part of `tlsuv_websocket_connect` behind the checks.
unfoldable pub connect_to : Ws → Bytes → ℕ → Bool → Option Bytes → Outcome
connect_to ws host port ssl path = elim ws.req [
  | none ↦ null_dereference
  | some r ↦
      let tls = ssl || ws.tls in
      returns (
        record ws {
          tls = tls;
          engine = if tls then true else ws.engine;
          req = some (upgrade_request r (path_or_default path) host);
          host = some host;
        },
        (if tls then engine_made ∷ [] else []) ++ (src_connecting host port ∷ []),
      )
]

-- `tlsuv_websocket_connect`; UV_EINVAL is `none`. A URL without a host is refused only after the
-- default TLS context has been taken for wss.
unfoldable pub websocket_connect : Ws → Bytes → Option Outcome
unfolding connect_to
websocket_connect ws text =
    let (good, u) = parse_url text in
    if not good then none else elim u.scheme [
      | none ↦ none
      | some scheme ↦ elim (ws_scheme scheme) [
        | none ↦ none
        | some (default_port, ssl) ↦ elim u.hostname [
          | none ↦ none
          | some host ↦
              some (connect_to ws host (if u.port == 0 then default_port else u.port) ssl u.path)
        ]
      ]
    ]

-- `on_ws_close`
unfoldable pub on_ws_close : Ws → Ws × List Call
on_ws_close ws = (
  record ws {
    req = none;
    host = none;
    engine = if ws.tls then false else ws.engine;
    src = false;
    closed = true;
  },
  (if not ws.closed && ws.close_cb then close_called ∷ [] else [])
      ++ ((if ws.tls && ws.engine then engine_freed ∷ [] else [])
          ++ (if ws.src then src_cancelled ∷ src_freed ∷ [] else [])),
)

-- `ws_close_cb`, once the link is closed.
unfoldable pub ws_close_cb : Ws → Ws × List Call
ws_close_cb ws = let (ws', calls) = on_ws_close ws in (record ws' { link_data = false }, calls)

-- `tlsuv_websocket_close`
unfoldable pub websocket_close : Ws → Bool → Ws × List Call
websocket_close ws cb =
    let ws' = record ws { close_cb = cb } in
    if ws.link_data then (ws', link_closing ∷ []) else on_ws_close ws'

-- `tlsuv_websocket_set_tls`
unfoldable pub websocket_set_tls : Ws → Bool → Ws
websocket_set_tls ws tls = record ws { tls = tls }
