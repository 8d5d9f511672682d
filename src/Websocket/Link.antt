-- ===== src/Websocket/Link.antt =====
-- What the links below the WebSocket client make it do: `src_connect_cb`, `tls_hs_cb`,
-- `ws_read_start`, `ws_read_cb` and `ws_write_cb` of src/websocket.c, and `tlsuv_websocket_write`.
use tlsuv.Base.{
  ℕ, Bytes, Bool, true, false, ◌||◌, Option, none, some, List, [], ◌∷◌, ◌++◌, map, drop, ◌==◌,
  if◌then◌else◌,
}
use tlsuv.Compression.{Inflate}
use tlsuv.Http.Types.{Code, http_code, uv_code, Uv, eof, econnaborted, econnreset}
use tlsuv.Http.Request.Write.{Writer, http_req_write}
use tlsuv.Http.Request.Response.{Execution, Processed, http_req_process}
use tlsuv.Http.Client.Connect.{Handshake, hs_complete, hs_error, hs_other}
use tlsuv.Http.Client.Process.{head_size}
use tlsuv.Http.Client.Read.{is_completed}
use tlsuv.Websocket.Frame.{
  Received, message, peer_closed, pong, ignored, overread, overwrite, read_frame, ws_frame,
}
use tlsuv.Websocket.{
  Ws, Call, conn_called, conn_ok, conn_failed, conn_uv, data_given, data_error, write_done,
  link_written, link_overread, links_chained, read_started, from_request, Outcome, returns,
  null_dereference, bad_memory, never_returns,
}

-- `tlsuv_websocket_write`: with the mask from `rand`. A closed client refuses.
unfoldable pub websocket_write : Ws → Bytes → Bytes → Option Uv × List Call
websocket_write ws mask bytes =
    if ws.closed
    then (some econnreset, write_done (some econnreset) ∷ [])
    else (none, link_written (ws_frame mask bytes) ∷ [])

-- `ws_write_cb`; the flag says that the user's request waits for it.
unfoldable pub ws_write_cb : Ws → Option Uv → Bool → Ws × List Call
ws_write_cb ws nwrote wr = (
  elim nwrote [ none ↦ ws | some e ↦ record ws { closed = true } ],
  if wr then write_done nwrote ∷ [] else [],
)

abbrev pub written : Writer → Call
written w = if w.truncated || w.overrun then link_overread w.len else link_written w.text

-- `ws_read_start`: the request for the upgrade is written. The client has no path prefix here.
unfoldable pub ws_read_start : Ws → Outcome
ws_read_start ws = elim ws.req [
  | none ↦ null_dereference
  | some r ↦
      let (r', w) = http_req_write [] r head_size in
      returns (record ws { req = some r' }, read_started ∷ written w ∷ [])
]

-- Calls made before those of an outcome.
abbrev pub after_calls : List Call → Outcome → Outcome
after_calls before (returns (ws, calls)) = returns (ws, before ++ calls)
after_calls before null_dereference = null_dereference
after_calls before bad_memory = bad_memory
after_calls before never_returns = never_returns

-- `src_connect_cb`; the status 0 is `none`. With TLS the handshake is started first.
unfoldable pub src_connect_cb : Ws → Option Uv → Outcome
src_connect_cb ws (some status) =
    returns (record ws { closed = true }, conn_called (conn_uv status) ∷ [])
src_connect_cb ws none =
    let ws' = record ws { conn_req = true; link_data = true } in
    if ws.tls
    then returns (ws', links_chained ∷ read_started ∷ [])
    else after_calls (links_chained ∷ []) (ws_read_start ws')

abbrev hs_failed : Ws → Outcome
hs_failed ws =
    if ws.conn_req then returns (ws, conn_called (conn_uv econnaborted) ∷ []) else null_dereference

-- `tls_hs_cb`
unfoldable pub tls_hs_cb : Ws → Handshake → Outcome
tls_hs_cb ws hs_complete = ws_read_start ws
tls_hs_cb ws hs_error = hs_failed ws
tls_hs_cb ws hs_other = hs_failed ws

-- The calls made for a frame.
unfoldable pub on_received : Ws → Received → Outcome
on_received ws (message bytes) = returns (ws, data_given bytes ∷ [])
on_received ws peer_closed = returns (ws, data_error eof ∷ [])
on_received ws (pong frame) = returns (ws, link_written frame ∷ [])
on_received ws ignored = returns (ws, [])
on_received ws overread = bad_memory
on_received ws overwrite = bad_memory

abbrev is_switching : Code → Bool
is_switching (http_code n) = n == 101
is_switching (uv_code e) = false

-- The frame at `processed`, if there is anything behind the response.
unfoldable pub at_frame : Bool → Bytes → Ws → ℕ → ℕ → Bytes → Outcome
at_frame signed rand ws processed nread mem =
    if processed == nread
    then returns (ws, [])
    else on_received ws (read_frame signed rand (drop processed mem))

-- The response to the upgrade. Where it cannot be parsed the request is released but `conn_req`
-- stays.
unfoldable pub on_upgrade : Bool → Bytes → Ws → Processed → ℕ → Bytes → Outcome
on_upgrade signed rand ws p nread mem = after_calls (map from_request p.events) (elim p.processed [
  | none ↦ returns (record ws { req = none }, conn_called conn_failed ∷ [])
  | some processed ↦
      if is_completed p.req.state
      then (let ws' = record ws { req = none; conn_req = false } in
          if is_switching p.req.resp.code
          then after_calls (conn_called conn_ok ∷ []) (at_frame signed rand ws' processed nread mem)
          else returns (ws', conn_called conn_failed ∷ []))
      else at_frame signed rand (record ws { req = some p.req }) processed nread mem
])

-- What the link delivers: an error, or a number of bytes in a buffer, with what the parser makes of
-- them where it is asked.
pub data Nread : Type 0 where
  failed : Uv → Nread
  got : ℕ → Bytes → Execution → Nread

-- `ws_read_cb`. `signed` says whether `char` is signed; `rand` is the mask for a pong.
unfoldable pub ws_read_cb : Inflate → Bool → Bytes → Ws → Nread → Outcome
unfolding on_upgrade at_frame
ws_read_cb inflate signed rand ws (failed code) =
    if ws.conn_req
    then returns (record ws { closed = true; conn_req = false }, conn_called (conn_uv code) ∷ [])
    else returns (record ws { closed = true }, data_error code ∷ [])
ws_read_cb inflate signed rand ws (got nread mem run) =
    if ws.conn_req
    then elim ws.req [
      | none ↦ null_dereference
      | some r ↦ elim (http_req_process inflate r run nread) [
        | none ↦ never_returns
        | some p ↦ on_upgrade signed rand ws p nread mem
      ]
    ]
    else at_frame signed rand ws 0 nread mem
