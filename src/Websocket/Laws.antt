-- ===== src/Websocket/Laws.antt =====
-- The life of a WebSocket: the upgrade, failures, and the end.
use tlsuv.Base.{
  ℕ, ◌-◌, ◌≤◌, ◌<◌, ◌^◌, ◌≡◌, ◌≢◌, Bytes, Bool, true, false, none, some, [], ◌∷◌, ◌++◌, map, drop,
  length, arith,
}
use tlsuv.Compression.{Inflate}
use tlsuv.Http.Types.{Req, completed, http_code, econnaborted}
use tlsuv.Http.Request.Response.{Execution, Processed, http_req_process}
use tlsuv.Http.Client.Connect.{hs_error}
use tlsuv.Http.Client.Read.{is_completed}
use tlsuv.Websocket.Frame.Rfc.{server_frame}
use tlsuv.Websocket.Frame.Receive.{read_frame-server_frame}
use tlsuv.Websocket.{
  Ws, conn_called, conn_ok, conn_failed, conn_uv, data_given, from_request, returns,
  null_dereference, key_char,
}
use tlsuv.Websocket.Link.{failed, got, ws_read_cb, tls_hs_cb, on_upgrade, at_frame, on_received}

-- A failed TLS handshake is told twice: `tls_hs_cb` calls the connection callback and leaves it
-- pending, and the error that the TLS link passes on next calls it again, with the same code.
hs_error_told_twice :
    (inflate : Inflate) (signed : Bool) (rand : Bytes) (ws : Ws)
    → ws.conn_req ≡ true
    → (tls_hs_cb ws hs_error ≡ returns (ws, conn_called (conn_uv econnaborted) ∷ []))
      × (ws_read_cb inflate signed rand ws (failed econnaborted)
          ≡ returns (
            record ws { closed = true; conn_req = false },
            conn_called (conn_uv econnaborted) ∷ [],
          ))
unfolding tls_hs_cb ws_read_cb
hs_error_told_twice inflate signed rand ws pending =
    (ground (arith, pending), ground (arith, pending))

-- When a response with the status 101 completes the pending upgrade before the end of the bytes that
-- were received, and a binary frame of a server follows, the user is told that the WebSocket is
-- connected, and then given the payload of that frame.
pub upgrade_then_message :
    (inflate : Inflate) (signed : Bool) (rand mem : Bytes) (ws : Ws) (r : Req) (run : Execution)
    (p : Processed) (nread n : ℕ) (bytes rest : Bytes)
    → ws.conn_req ≡ true
    → ws.req ≡ some r
    → http_req_process inflate r run nread ≡ some p
    → p.processed ≡ some n
    → p.req.state ≡ completed
    → p.req.resp.code ≡ http_code 101
    → n ≢ nread
    → drop n mem ≡ server_frame 2 bytes ++ rest
    → length bytes < 2 ^ 63
    → ws_read_cb inflate signed rand ws (got nread mem run)
      ≡ returns (
        record ws { req = none; conn_req = false },
        map from_request p.events ++ (conn_called conn_ok ∷ data_given bytes ∷ []),
      )
unfolding ws_read_cb on_upgrade at_frame on_received is_completed
upgrade_then_message inflate signed rand mem ws r run p nread n bytes rest up req e good done code
      more frame short =
    ground (
      arith,
      up,
      req,
      e,
      good,
      done,
      code,
      more,
      frame,
      (read_frame-server_frame signed rand bytes rest short).1,
    )

-- After a response that cannot be parsed, the request is gone while the connection callback is
-- still pending: it is called with -1, and the next bytes that come go through a NULL pointer.
upgrade_parse_failure :
    (inflate : Inflate) (signed : Bool) (rand mem mem' : Bytes) (ws : Ws) (r : Req)
    (run run' : Execution) (p : Processed) (nread nread' : ℕ)
    → ws.conn_req ≡ true
    → ws.req ≡ some r
    → http_req_process inflate r run nread ≡ some p
    → p.processed ≡ none
    → (ws_read_cb inflate signed rand ws (got nread mem run)
        ≡ returns
            (record ws { req = none }, map from_request p.events ++ (conn_called conn_failed ∷ [])))
      × (ws_read_cb inflate signed rand (record ws { req = none }) (got nread' mem' run')
          ≡ null_dereference)
unfolding ws_read_cb on_upgrade
upgrade_parse_failure inflate signed rand mem mem' ws r run run' p nread nread' up req e bad =
    (ground (arith, up, req, e, bad), ground (arith, up))

-- The ten values that stand for digits in the alphabet of base64 give the characters of ten others.
key_char-letters : (v : ℕ) → 52 ≤ v → v < 62 → key_char v ≡ key_char (v - 26)
unfolding key_char
key_char-letters v h k = ground (arith, h, k)
