-- ===== src/Http/Request/Response.antt =====
-- The response side of src/http_req.c: what the callbacks of the llhttp parser do to a request.
-- llhttp is not part of the repository: a run of `llhttp_execute` is given by the callbacks that it
-- makes and its result.
pub mod Delivery
use tlsuv.Base.{
  ℕ, suc, ◌+◌, ◌-◌, Bytes, Bool, true, false, Option, none, some, List, [], ◌∷◌, ◌++◌, map, codes,
  take, length, print_decimal, ltb, ◌==◌, if◌then◌else◌,
}
use tlsuv.Compression.{Inflate, Inflater, Output, inflate_loop, get_inflater, inflate_state}
use tlsuv.Http.Headers.{Headers, set_http_header, add_http_header, resp_header}
use tlsuv.Http.Types.{
  Req, Resp, ReqState, headers_received, completed, http_code, Event, responded, body_given,
  body_data, body_end, Uv, eof, einval,
}

-- The callbacks in `HTTP_PROC`.
pub data Token : Type 0 where
  on_status : ℕ → ℕ → ℕ → Bytes → Token
  on_header_field on_header_value : Bytes → Token
  on_headers_complete : Token
  on_body : Bytes → Token
  on_message_complete : Token

-- `http_status_cb`, with the status code, the two version numbers and the reason.
unfoldable pub status_cb : Req → ℕ → ℕ → ℕ → Bytes → Req
status_cb req code major minor status = record req {
  resp = record (req.resp) {
    code = http_code code;
    http_version = print_decimal major ++ (b'.' ∷ print_decimal minor);
    status = some status;
  };
}

unfoldable pub header_field_cb : Req → Bytes → Req
header_field_cb req f = record req { resp = record (req.resp) { curr_header = some f } }

-- The header that a value belongs to; an empty value, or one with no name before it, is dropped.
abbrev pub with_value : Headers → Option Bytes → Bytes → Headers
with_value hl none v = hl
with_value hl (some name) [] = hl
with_value hl (some name) (c ∷ cs) = add_http_header hl name (c ∷ cs) (length (c ∷ cs))

unfoldable pub header_value_cb : Req → Bytes → Req
header_value_cb req v = record req {
  resp = record (req.resp) {
    headers = with_value req.resp.headers req.resp.curr_header v;
    curr_header = none;
  };
}

-- The headers as the user sees them when the body is compressed.
unfoldable pub decoded_headers : Headers → Headers
decoded_headers hl =
    set_http_header (set_http_header hl (codes "content-length") none) (codes "transfer-encoding")
      (some (codes "chunked"))

-- `req->resp_cb(&req->resp, req->data)`, which may ask for the body.
abbrev pub call_resp_cb : Req → Req × List Event
call_resp_cb req = elim req.resp_cb [
  | none ↦ (req, [])
  | some wants ↦ (
    record req { resp = record (req.resp) { body_cb = wants } },
    responded req.id req.resp.code req.resp.status req.resp.headers ∷ [],
  )
]

abbrev inflater_for : Req → Option Bytes → Option Inflater
inflater_for req none = req.inflater
inflater_for req (some compression) =
    if req.resp.body_cb then get_inflater compression else req.inflater

abbrev received : Req → Option Bytes → Req
received req none = record req { state = headers_received }
received req (some compression) = record req {
  state = headers_received;
  resp = record (req.resp) { headers = decoded_headers req.resp.headers };
}

unfoldable pub headers_complete_cb : Req → Req × List Event
headers_complete_cb req =
    let compression = resp_header req.resp.headers (codes "content-encoding") in
    let (req', events) = call_resp_cb (received req compression) in
    (record req' { inflater = inflater_for req' compression }, events)

abbrev give_end : Req → Uv → List Event
give_end req code = body_given req.id (body_end code) ∷ []

-- The end of the body: UV_EOF, or UV_EINVAL where the compressed stream has not ended.
abbrev pub end_code : Option Inflater → Uv
end_code none = eof
end_code (some i) = elim (inflate_state i) [
  | none ↦ einval
  | some complete ↦ if complete then eof else einval
]

unfoldable pub message_cb : Req → Req × List Event
message_cb req = (
  record req { state = completed },
  (if req.resp.body_cb then body_given req.id (body_end (end_code req.inflater)) ∷ [] else []),
)

module _ (inflate : Inflate) where
  -- `none` where the call of `um_inflate` does not return.
  unfoldable pub body_cb : Req → Bytes → Option (Req × List Event)
  body_cb req body = elim req.inflater [
    | none ↦ some (req, if req.resp.body_cb then body_given req.id (body_data body) ∷ [] else [])
    | some i ↦ elim (inflate_loop inflate (suc (length body)) i body []) [
      | none ↦ none
      | some o ↦ some (
        record req { inflater = some o.inflater },
        map (λ block. body_given req.id (body_data block)) o.blocks,
      )
    ]
  ]

  unfoldable pub on_token : Req → Token → Option (Req × List Event)
  on_token req (on_status code major minor status) =
      some (status_cb req code major minor status, [])
  on_token req (on_header_field f) = some (header_field_cb req f, [])
  on_token req (on_header_value v) = some (header_value_cb req v, [])
  on_token req on_headers_complete = some (headers_complete_cb req)
  on_token req (on_body body) = body_cb req body
  on_token req on_message_complete = some (message_cb req)

  unfoldable pub on_tokens : Req → List Token → Option (Req × List Event)
  on_tokens req [] = some (req, [])
  on_tokens req (t ∷ ts) = elim (on_token req t) [
    | none ↦ none
    | some (req', events) ↦ elim (on_tokens req' ts) [
      | none ↦ none
      | some (req'', later) ↦ some (req'', events ++ later)
    ]
  ]

-- The result of `llhttp_execute` that the source tells apart; an upgrade stops at a position.
pub data Errno : Type 0 where
  hpe_ok hpe_error : Errno
  hpe_paused_upgrade : ℕ → Errno

pub record Execution : Type 0 where
  pub tokens : List Token
  pub errno : Errno

-- `processed`, where -1 is `none`.
abbrev pub processed_of : ℕ → Errno → Option ℕ
processed_of len hpe_ok = some len
processed_of len hpe_error = none
processed_of len (hpe_paused_upgrade position) = some position

-- What `http_req_process` leaves behind: the request, the calls made, and its result.
pub record Processed : Type 0 where
  pub req : Req
  pub events : List Event
  pub processed : Option ℕ

unfoldable pub http_req_process : Inflate → Req → Execution → ℕ → Option Processed
http_req_process inflate req run len = elim (on_tokens inflate req run.tokens) [
  | none ↦ none
  | some (req', events) ↦
      some (record { req = req'; events = events; processed = processed_of len run.errno })
]
