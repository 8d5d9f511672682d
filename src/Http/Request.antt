-- ===== src/Http/Request.antt =====
-- Requests, src/http_req.c and src/http.c: setting them up, giving them headers and a body.
pub mod Write
pub mod Head
pub mod Response
pub mod Fits
pub mod Framing
use tlsuv.Base.{
  ℕ, ◌+◌, ◌*◌, ◌-◌, ◌%◌, ◌^◌, Bytes, Bool, true, false, not, ◌&&◌, ◌||◌, Option, none, some, List,
  [], ◌∷◌, ◌++◌, bytes_eq, case_eq, codes, ltb, ◌==◌, if◌then◌else◌, Strtol, strtol,
}
use tlsuv.Http.Headers.{Headers, Hdr, set_http_header}
use tlsuv.Http.Types.{
  Req, Resp, Chunk, ReqState, created, headers_sent, rank, no_size, http_code, Uv, einval, Event,
  async_send,
}

abbrev pub empty_resp : Resp
empty_resp = record {
  http_version = [];
  code = http_code 0;
  status = none;
  curr_header = none;
  headers = [];
  body_cb = false;
}

-- `http_req_init` on a request that `calloc` cleared, with the callback that `tlsuv_http_req` sets.
unfoldable pub http_req_init : ℕ → Bytes → Bytes → Option Bool → Req
http_req_init id method path resp_cb = record {
  id = id;
  method = method;
  path = path;
  state = created;
  req_chunked = false;
  req_body_size = no_size;
  body_sent_size = 0;
  req_body = [];
  req_headers = [];
  resp_cb = resp_cb;
  inflater = none;
  resp = empty_resp;
}

-- The result of `strtol(value, NULL, 10)` as the word that is stored in `req_body_size`.
unfoldable pub body_size_of : Option Strtol → ℕ
body_size_of none = 0
body_size_of (some r) = if r.negative then (2 ^ 64 - r.magnitude) % 2 ^ 64 else r.magnitude

-- `tlsuv_http_req_header`: the request, and UV_EINVAL where that is returned.
unfoldable pub req_header_length : Req → Bytes → Bytes → Req × Option Uv
unfolding body_size_of
req_header_length req name value =
    if case_eq name (codes "Content-Length")
    then (if req.req_chunked then (req, some einval) else (
      record req {
        req_body_size = body_size_of (strtol value);
        req_chunked = false;
        req_headers = set_http_header req.req_headers name (some value);
      },
      none,
    ))
    else (record req { req_headers = set_http_header req.req_headers name (some value) }, none)

unfoldable pub req_header : Req → Bytes → Bytes → Req × Option Uv
unfolding req_header_length
req_header req name value =
    if case_eq name (codes "transfer-encoding") && bytes_eq value (codes "chunked")
    then (if not (req.req_body_size == no_size)
        then (req, some einval)
        else req_header_length (record req { req_chunked = true }) name value)
    else req_header_length req name value

-- `tlsuv_http_req_end`: the empty chunk that ends a chunked body.
unfoldable pub req_end : Req → Req × List Event
req_end req =
    if req.req_chunked
    then (
      record req { req_body = req.req_body ++ (record { chunk = []; has_cb = false } ∷ []) },
      async_send ∷ [],
    )
    else (req, [])

-- `tlsuv_http_req_data`; the flag says whether a callback is given.
unfoldable pub req_data : Req → Bytes → Bool → Req × List Event × Option Uv
req_data req body has_cb =
    if not (bytes_eq req.method (codes "POST")) && not (bytes_eq req.method (codes "PUT"))
    then (req, [], some einval)
    else if ltb (rank headers_sent) (rank req.state)
    then (req, [], some einval)
    else (
      record req { req_body = req.req_body ++ (record { chunk = body; has_cb = has_cb } ∷ []) },
      async_send ∷ [],
      none,
    )
