-- ===== src/Http/Client/Process.antt =====
-- `process_requests` of src/http.c: what the async handle runs.
pub mod Order
pub mod Once
use tlsuv.Base.{
  ℕ, Bytes, Bool, true, false, not, ◌&&◌, ◌||◌, Option, none, some, List, [], ◌∷◌, ◌++◌, ltb,
  if◌then◌else◌,
}
use tlsuv.Http.Types.{
  Req, ReqState, headers_sent, body_sent, rank, Uv, Event, link_write, overread, proc_unref,
  timer_idle, timer_connect, src_connect,
}
use tlsuv.Http.Request.Write.{Writer, http_req_write}
use tlsuv.Http.Client.{
  Client, Status, disconnected, connecting, handshaking, connected, ◌then_do◌, announce,
}
use tlsuv.Http.Client.Connect.{src_connect_cb}
use tlsuv.Http.Client.Send.{send_body}

-- The next request becomes active if none is.
unfoldable pub take_next : Client → Client
take_next c = elim c.active [
  | some r ↦ c
  | none ↦ elim c.requests [ [] ↦ c | r ∷ rs ↦ record c { active = some r; requests = rs } ]
]

abbrev pub prefix_bytes : Option Bytes → Bytes
prefix_bytes none = []
prefix_bytes (some p) = p

-- The size of the buffer for the head.
abbrev pub head_size : ℕ
head_size = 8196

-- The write of the head, which reads past the buffer where the head did not fit.
abbrev pub head_write : Writer → Event
head_write w = if w.truncated || w.overrun then overread w.len else link_write w.text

unfoldable pub send_head : Bytes → Req → Req × List Event
send_head prefix req =
    let (req', w) = http_req_write prefix req head_size in
    if ltb (rank req.state) (rank headers_sent)
    then (record req' { state = headers_sent }, head_write w ∷ [])
    else (req, [])

unfoldable pub send_rest : Req → Req × List Event
send_rest req = if ltb (rank req.state) (rank body_sent) then send_body req else (req, [])

-- A connected client and its active request.
unfoldable pub send_request : Bytes → Req → Req × List Event
send_request prefix req =
    let (req', head) = send_head prefix req in
    let (req'', body) = send_rest req' in (req'', head ++ body)

-- The start of a connection; `failed` is the result of `src->connect` where that is not 0.
unfoldable pub start_connect : Client → Option (Uv × Bytes) → Client × List Event
start_connect c failed =
    (
      record c { status = connecting },
      (if ltb 0 c.connect_timeout then timer_connect c.connect_timeout ∷ [] else [])
          ++ (src_connect ∷ []),
    )
    then_do λ c. elim failed [ none ↦ (c, []) | some e ↦ src_connect_cb c (some e) ]

-- With no request left, a connected client waits for the idle time.
unfoldable pub go_idle : Client → Client × List Event
go_idle c = elim c.status [
  | connected ↦ elim c.idle_time [
    | none ↦ (c, proc_unref ∷ [])
    | some t ↦ (c, timer_idle t ∷ proc_unref ∷ [])
  ]
  | disconnected ↦ (c, proc_unref ∷ [])
  | connecting ↦ (c, proc_unref ∷ [])
  | handshaking ↦ (c, proc_unref ∷ [])
]

unfoldable pub serve_active : Client → Req → Option (Uv × Bytes) → Client × List Event
unfolding start_connect send_request
serve_active c r failed = elim c.status [
  | disconnected ↦ start_connect c failed
  | connecting ↦ (c, [])
  | handshaking ↦ (c, [])
  | connected ↦
      let (r', events) = send_request (prefix_bytes c.prefix) r in
      (record c { active = some r' }, events)
]

unfoldable pub process_requests : Client → Option (Uv × Bytes) → Client × List Event
process_requests c failed =
    let c' = take_next c in elim c'.active [ none ↦ go_idle c' | some r ↦ serve_active c' r failed ]
