-- ===== src/Http/Client/Read.antt =====
-- `http_read_cb` of src/http.c: what the link delivers to the client.
pub mod Faults
use tlsuv.Base.{
  ℕ, Bytes, Bool, true, false, not, ◌&&◌, ◌||◌, Option, none, some, List, [], ◌∷◌, ◌++◌, codes,
  bytes_eq, case_eq, ◌==◌, if◌then◌else◌,
}
use tlsuv.Compression.{Inflate}
use tlsuv.Http.Headers.{resp_header}
use tlsuv.Http.Types.{
  Req, Resp, ReqState, created, headers_sent, body_sent, headers_received, completed, Uv, einval,
  Event, async_send,
}
use tlsuv.Http.Request.Response.{Execution, Processed, http_req_process}
use tlsuv.Http.Client.{Client, fail_active_request, close_connection, ◌then_do◌, announce}

-- How a handler ends: with a state and the calls made, or with an access that C leaves undefined,
-- or never, where decompression does not return.
pub data Outcome : Type 0 where
  returns : Client × List Event → Outcome
  null_dereference double_free never_returns : Outcome

-- What the link delivers: an error, or a number of bytes with what the parser makes of them.
pub data Nread : Type 0 where
  failed : Uv → Bytes → Nread
  got : ℕ → Execution → Nread

abbrev connection_is : Bytes → Option Bytes → Bool
connection_is word none = false
connection_is word (some v) = case_eq word v

-- Does the connection serve another request after this response?
unfoldable pub keep_alive : Resp → Bool
keep_alive resp =
    let hdr = resp_header resp.headers (codes "Connection") in
    if bytes_eq resp.http_version (codes "1.1")
    then not (connection_is (codes "close") hdr)
    else if bytes_eq resp.http_version (codes "1.0")
    then connection_is (codes "keep-alive") hdr
    else false

-- The completed request is released; the connection is closed or goes on.
unfoldable pub finish_request : Client → Req → Client × List Event
finish_request c r =
    let c' = record c { active = none } in
    if keep_alive r.resp then (c', async_send ∷ []) else close_connection c'

unfoldable pub is_completed : ReqState → Bool
is_completed completed = true
is_completed created = false
is_completed headers_sent = false
is_completed body_sent = false
is_completed headers_received = false

-- `if (c->active->state == completed)` and what follows. The buffer is freed at the end, also where
-- it was freed before.
unfoldable pub check_completed : Client × List Event → Bool → Outcome
unfolding finish_request is_completed
check_completed (c, events) freed = elim c.active [
  | none ↦ null_dereference
  | some r ↦
      let after =
        if is_completed r.state
        then ((c, events) then_do λ c. finish_request c r)
        else (c, events) in
      if freed then double_free else returns after
]

abbrev pub parse_failure : Bytes
parse_failure = codes "failed to parse HTTP response"

-- After `http_req_process` on the active request.
unfoldable pub after_process : Client → Processed → Outcome
unfolding check_completed
after_process c p =
    let c' = record c { active = some p.req } in
    elim p.processed [
      | none ↦
          check_completed
            ((c', p.events)
              then_do (λ c. fail_active_request c einval parse_failure)
              then_do close_connection)
            true
      | some n ↦ check_completed (c', p.events) false
    ]

unfoldable pub read_active : Inflate → Client → Req → ℕ → Execution → Outcome
unfolding after_process
read_active inflate c r nread run =
    if nread == 0
    then check_completed (c, []) false
    else elim (http_req_process inflate r run nread) [
      | none ↦ never_returns
      | some p ↦ after_process c p
    ]

unfoldable pub http_read_cb : Inflate → Client → Nread → Outcome
unfolding read_active
http_read_cb inflate c (failed code msg) = returns (
    (elim c.active [ none ↦ (c, []) | some r ↦ fail_active_request c code msg ])
    then_do close_connection
    then_do announce (async_send ∷ []))
http_read_cb inflate c (got nread run) = elim c.active [
  | none ↦ returns (c, [])
  | some r ↦ read_active inflate c r nread run
]
