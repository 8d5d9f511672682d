-- ===== src/Http/Types.antt =====
-- The request and response records of include/tlsuv/http.h, and what the client does to the world.
use tlsuv.Base.{ℕ, ◌-◌, ◌^◌, Bytes, Bool, Option, List}
use tlsuv.Compression.{Inflater}
use tlsuv.Http.Headers.{Headers}

-- The libuv status codes that the client names, and the others; all are negative.
pub data Uv : Type 0 where
  eof einval ecanceled econnaborted etimedout econnreset enobufs ealready : Uv
  other_code : ℕ → Uv

-- `enum http_request_state`
pub data ReqState : Type 0 where
  created headers_sent body_sent headers_received completed : ReqState

-- The place of a state in the enumeration, for the tests by `<` and `>`.
abbrev pub rank : ReqState → ℕ
rank created = 0
rank headers_sent = 1
rank body_sent = 2
rank headers_received = 3
rank completed = 4

-- `struct body_chunk_s`; `has_cb` says whether a callback waits for it.
pub record Chunk : Type 0 where
  pub chunk : Bytes
  pub has_cb : Bool

-- What stands in `resp.code`: a status from the server or a libuv code.
pub data Code : Type 0 where
  http_code : ℕ → Code
  uv_code : Uv → Code

pub record Resp : Type 0 where
  pub http_version : Bytes
  pub code : Code
  pub status : Option Bytes
  pub curr_header : Option Bytes
  pub headers : Headers
  pub body_cb : Bool

-- `req_body_size` is a `ssize_t`, here as the 64-bit word that comparisons with a `size_t` read.
abbrev pub no_size : ℕ
no_size = 2 ^ 64 - 1

-- `resp_cb` is `none` for NULL; `some wants` is a callback that asks for the body (sets `body_cb`)
-- or does not. `id` stands for the address of the request.
pub record Req : Type 0 where
  pub id : ℕ
  pub method : Bytes
  pub path : Bytes
  pub state : ReqState
  pub req_chunked : Bool
  pub req_body_size : ℕ
  pub body_sent_size : ℕ
  pub req_body : List Chunk
  pub req_headers : Headers
  pub resp_cb : Option Bool
  pub inflater : Option Inflater
  pub resp : Resp

-- What a callback of the user is told about the body: data, or a code at the end.
pub data BodyEvent : Type 0 where
  body_data : Bytes → BodyEvent
  body_end : Uv → BodyEvent

-- Calls out of the client: to the user, to the link below it, to the timer, the async handle and
-- the connection source.
pub data Event : Type 0 where
  responded : ℕ → Code → Option Bytes → Headers → Event
  body_given : ℕ → BodyEvent → Event
  chunk_done : ℕ → Bytes → Uv → Event
  link_write : Bytes → Event
  link_close async_send proc_ref proc_unref : Event
  timer_stop : Event
  timer_connect timer_idle : ℕ → Event
  src_connect src_cancel src_release : Event
  links_made engine_freed : Event
  -- A write that was given more bytes than its buffer holds.
  overread : ℕ → Event
