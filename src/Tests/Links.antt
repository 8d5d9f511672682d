-- ===== src/Tests/Links.antt =====
-- Runs and instances for the WebSocket, the TLS link, the TCP source and the stream.
use tlsuv.Base.{
  ℕ, ◌+◌, ◌≡◌, refl, Bytes, true, false, Option, none, some, List, [], ◌∷◌, ◌++◌, codes, arith, map,
  length, concat, take, ◌==◌, if◌then◌else◌,
}
use tlsuv.Compression.{Inflate, other_rc}
use tlsuv.Http.Types.{Req, completed, etimedout, http_code}
use tlsuv.Http.Request.{empty_resp}
use tlsuv.Http.Request.Response.{
  Execution, Processed, on_message_complete, hpe_paused_upgrade, http_req_process, on_tokens,
  on_token, message_cb,
}
use tlsuv.Http.Client.Connect.{hs_error}
use tlsuv.Websocket.Frame.{message, peer_closed, ws_frame, frame_size, read_frame}
use tlsuv.Websocket.Frame.Rfc.{rfc_read, server_frame}
use tlsuv.Websocket.Frame.RoundTrip.{rfc_read-ws_frame}
use tlsuv.Websocket.Frame.Receive.{read_frame-server_frame}
use tlsuv.Websocket.{Ws, conn_called, conn_ok, data_given, from_request, returns}
use tlsuv.Websocket.Link.{got, ws_read_cb}
use tlsuv.Websocket.Laws.{upgrade_then_message}
use tlsuv.TlsLink
use tlsuv.TlsLink.Reads.{Rounds, last_round, one_more, ended_by, plain, errors, Rounds-read_loop}
use tlsuv.TcpSrc.{TcpSrc, tcp_src_init, tcp_src_cancel, resolve_cb, tcp_connect_cb}
use tlsuv.TcpSrc.Laws.{Answers, attempt, result, attempt-told_once}
use tlsuv.TcpSrc.Laws
use tlsuv.Stream.{Stream, stream_connect}
use tlsuv.Stream.Laws.{Steps, done, then_step, step_hs, due, Steps-due}

abbrev four_bytes : Bytes
four_bytes = 1 ∷ 2 ∷ 3 ∷ 4 ∷ []

rfc_read-ws_frame_example :
    (rfc_read (ws_frame four_bytes (codes "hello") ++ [])
      ≡ some (record { fin = true; opcode = 2; payload = codes "hello"; behind = [] }))
    × (length (ws_frame four_bytes (codes "hello")) ≡ frame_size (length (codes "hello")))
rfc_read-ws_frame_example =
    rfc_read-ws_frame four_bytes (codes "hello") [] refl (omega arith) (omega arith) (omega arith)

read_frame-server_frame_example :
    (read_frame true four_bytes (server_frame 1 (codes "hi") ++ server_frame 1 (codes "lost"))
      ≡ message (codes "hi"))
    × (read_frame true four_bytes (server_frame 2 (codes "hi") ++ server_frame 1 (codes "lost"))
        ≡ message (codes "hi"))
    × (read_frame true four_bytes (server_frame 8 (codes "hi") ++ server_frame 1 (codes "lost"))
        ≡ peer_closed)
read_frame-server_frame_example =
    read_frame-server_frame true four_bytes (codes "hi") (server_frame 1 (codes "lost"))
      (omega arith)

abbrev no_zlib : Inflate
no_zlib e history input = record { rc = other_rc; consumed = 0; produced = []; message = false }

abbrev upgrading : Req
upgrading = record {
  id = 0;
  method = codes "GET";
  path = codes "/";
  state = completed;
  req_chunked = false;
  req_body_size = 0;
  body_sent_size = 0;
  req_body = [];
  req_headers = [];
  resp_cb = none;
  inflater = none;
  resp = record empty_resp { code = http_code 101 };
}

abbrev waiting_ws : Ws
waiting_ws = record {
  req = some upgrading;
  host = some (codes "h");
  conn_req = true;
  tls = true;
  engine = true;
  src = true;
  link_data = true;
  close_cb = true;
  closed = false;
}

abbrev switching : Execution
switching = record { tokens = on_message_complete ∷ []; errno = hpe_paused_upgrade 3 }

abbrev switched : Processed
switched = record { req = upgrading; events = []; processed = some 3 }

switching_runs : http_req_process no_zlib upgrading switching 9 ≡ some switched
unfolding http_req_process on_tokens on_token message_cb
switching_runs = refl

abbrev buffer : Bytes
unfolding server_frame
buffer = codes "xyz" ++ (server_frame 2 (codes "hi") ++ codes "..")

upgrade_then_message_example :
    ws_read_cb no_zlib true four_bytes waiting_ws (got 9 buffer switching)
    ≡ returns (
      record waiting_ws { req = none; conn_req = false },
      map from_request switched.events ++ (conn_called conn_ok ∷ data_given (codes "hi") ∷ []),
    )
unfolding server_frame
upgrade_then_message_example =
    upgrade_then_message no_zlib true four_bytes buffer waiting_ws upgrading switching switched 9 3
      (codes "hi") (codes "..") refl refl switching_runs refl refl refl (omega arith) refl
      (omega arith)

-- An engine that hands out a byte of plain text for each byte that it is given, one in a round, and
-- keeps the bytes that it is to send.
abbrev next_byte : Bytes → Bytes × tlsuv.TlsLink.TlsResult × Bytes
next_byte [] = ([], tlsuv.TlsLink.tls_ok, [])
next_byte (b ∷ []) = ([], tlsuv.TlsLink.tls_ok, b ∷ [])
next_byte (b ∷ c ∷ bs) = (c ∷ bs, tlsuv.TlsLink.tls_more_available, b ∷ [])

abbrev taken : Option Bytes → Bytes → Bytes
taken none e = e
taken (some b) e = e ++ b

abbrev flush : Option Bytes → ℕ → Bytes → Bytes × tlsuv.TlsLink.Wrapped × Bytes
flush none n e = ([], tlsuv.TlsLink.wrapped 0, take n e)
flush (some b) n e = (e ++ b, tlsuv.TlsLink.wrapped (length (e ++ b)), [])

abbrev echo : tlsuv.TlsLink.Engine Bytes
echo = record {
  handshake_state =
      λ e. if length e == 0 then tlsuv.TlsLink.hs_complete else tlsuv.TlsLink.hs_continue;
  handshake = λ input n e. (e, tlsuv.TlsLink.hs_error, codes "alert");
  write = flush;
  read = λ input len e. next_byte (taken input e);
  reset = none;
}

abbrev room : ℕ → ℕ
room round = 100

-- The second round asks for a write.
abbrev then_write : Bytes → Bytes × tlsuv.TlsLink.TlsResult × Bytes
then_write [] = ([], tlsuv.TlsLink.tls_ok, [])
then_write (b ∷ []) = ([], tlsuv.TlsLink.tls_has_write, b ∷ [])
then_write (b ∷ c ∷ bs) = (c ∷ bs, tlsuv.TlsLink.tls_more_available, b ∷ [])

abbrev updating : tlsuv.TlsLink.Engine Bytes
updating = record echo { read = λ input len e. then_write (taken input e) }

updating-Rounds :
    Rounds updating room 0 []
      (some (1 ∷ 2 ∷ []))
      100
      ((1 ∷ []) ∷ [])
      (2 ∷ [])
      (ended_by tlsuv.TlsLink.tls_has_write)
updating-Rounds =
    one_more 0 [] (some (1 ∷ 2 ∷ [])) 100 (2 ∷ []) tlsuv.TlsLink.tls_more_available (1 ∷ []) []
      (2 ∷ []) (ended_by tlsuv.TlsLink.tls_has_write) refl refl (omega arith)
      (last_round 1 (2 ∷ []) none 100 [] tlsuv.TlsLink.tls_has_write (2 ∷ []) refl refl)

Rounds-read_loop_example :
    (e' : Bytes) × (calls : List tlsuv.TlsLink.Call) × (tlsuv.TlsLink.read_loop updating 2 room 0
        100 []
        (some (1 ∷ 2 ∷ []))
        100
      ≡ some (e', calls))
    × (concat (plain calls) ≡ 1 ∷ [])
    × (errors calls ≡ [])
Rounds-read_loop_example =
    Rounds-read_loop updating room 0 [] (some (1 ∷ 2 ∷ [])) 100 ((1 ∷ []) ∷ []) (2 ∷ [])
      (ended_by tlsuv.TlsLink.tls_has_write) 2 100 updating-Rounds (omega arith)

abbrev idle_src : TcpSrc
unfolding tcp_src_init
idle_src = tcp_src_init

abbrev refused_answers : Answers
refused_answers = record {
  resolved = none;
  init = none;
  started = none;
  closing = false;
  connected = some etimedout;
}

attempt-told_once_example :
    (tlsuv.TcpSrc.Laws.told (attempt idle_src refused_answers).1 ≡ result refused_answers ∷ [])
    × ((attempt idle_src refused_answers).0.conn_req ≡ false)
    × ((attempt idle_src refused_answers).0.resolve_req ≡ false)
unfolding tcp_src_init
attempt-told_once_example = attempt-told_once idle_src refused_answers refl (ground arith)

abbrev waiting_stream : Stream
waiting_stream = record {
  host = some (codes "h");
  conn_req = true;
  socket = true;
  engine = true;
  close_cb = false;
  reading = false;
}

two_handshakes : Steps waiting_stream (record waiting_stream { conn_req = false }) 1
unfolding tlsuv.Stream.on_tls_hs tlsuv.Stream.Laws.told
two_handshakes =
    then_step waiting_stream (record waiting_stream { conn_req = false })
      (record waiting_stream { conn_req = false }) 1 0 (step_hs waiting_stream hs_error)
      (done (record waiting_stream { conn_req = false }))

Steps-due_example : 1 + due (record waiting_stream { conn_req = false }) ≡ due waiting_stream
Steps-due_example =
    Steps-due waiting_stream (record waiting_stream { conn_req = false }) 1 two_handshakes
