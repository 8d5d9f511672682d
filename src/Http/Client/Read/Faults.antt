-- ===== src/Http/Client/Read/Faults.antt =====
-- What `http_read_cb` does when the response is good, and when it is not.
use tlsuv.Base.{
  ℕ, ◌≤◌, ◌≡◌, ◌≢◌, refl, Bytes, none, some, List, [], ◌∷◌, ◌++◌, arith, if◌then◌else◌,
}
use tlsuv.Compression.{Inflate}
use tlsuv.Http.Types.{Req, completed, body_sent, rank, Uv, Event, async_send}
use tlsuv.Http.Request.Response.{Execution, Processed, http_req_process}
use tlsuv.Http.Client.{
  Client, disconnected, connected, fail_active_request, close_connection, fail_queued,
}
use tlsuv.Http.Client.Process.{
  process_requests, take_next, serve_active, send_request, send_head, send_rest, prefix_bytes,
}
use tlsuv.Http.Client.Read.{
  returns, null_dereference, double_free, failed, got, keep_alive, finish_request, http_read_cb,
}

-- Where bytes of a response cannot be parsed it always ends in an access that C leaves undefined:
-- the active request, which was released and is NULL, is used, or, if it has no callback and so
-- stays, the buffer is freed a second time.
pub read_parse_failure :
    (inflate : Inflate) (c : Client) (r : Req) (nread : ℕ) (run : Execution) (p : Processed)
    → c.active ≡ some r
    → nread ≢ 0
    → http_req_process inflate r run nread ≡ some p
    → p.processed ≡ none
    → http_read_cb inflate c (got nread run)
      ≡ elim p.req.resp_cb [ none ↦ double_free | some wants ↦ null_dereference ]
unfolding http_read_cb fail_active_request close_connection
read_parse_failure inflate c r nread run p active some_bytes e bad =
    ground (arith, active, some_bytes, e, bad)

-- After a response that ends the request, the client has no active request. Where the response
-- allows it the connection is kept and the next request is announced, and otherwise it is closed.
pub read_completed :
    (inflate : Inflate) (c : Client) (r : Req) (nread n : ℕ) (run : Execution) (p : Processed)
    → c.active ≡ some r
    → nread ≢ 0
    → http_req_process inflate r run nread ≡ some p
    → p.processed ≡ some n
    → p.req.state ≡ completed
    → (c' : Client) × (es : List Event) × (http_read_cb inflate c (got nread run)
        ≡ returns (c', p.events ++ es))
      × (c'.active ≡ none)
      × (c'.requests ≡ c.requests)
      × (c'.status ≡ (if keep_alive p.req.resp then c.status else disconnected))
      × (es ≡ (if keep_alive p.req.resp then async_send ∷ [] else (close_connection c).1))
unfolding http_read_cb finish_request close_connection
read_completed inflate c r nread n run p active some_bytes e good done =
    let last = finish_request (record c { active = some p.req }) p.req in
    (
      last.0,
      last.1,
      ground (arith, active, some_bytes, e, good, done),
      ground arith,
      ground arith,
      ground arith,
      ground arith,
    )

-- A sent head and body are not sent again.
nothing_left :
    (prefix : Bytes) (r : Req) → rank body_sent ≤ rank r.state → send_request prefix r ≡ (r, [])
unfolding send_request send_head send_rest
nothing_left prefix r sent = ground (arith, sent)

nothing_served :
    (c : Client) (r : Req)
    → c.active ≡ some r
    → c.status ≡ connected
    → rank body_sent ≤ rank r.state
    → process_requests c none ≡ (record c { active = some r }, [])
unfolding process_requests take_next serve_active
nothing_served c r active up sent =
    ground (arith, active, up, nothing_left (prefix_bytes c.prefix) r sent)

-- An active request without a callback whose head and body are out is not given up: when the
-- connection fails it stays the active one and all others are dropped, and the client, once it is
-- connected again, writes nothing for it.
pub request_without_callback_stuck :
    (inflate : Inflate) (c : Client) (r : Req) (code : Uv) (msg : Bytes)
    → c.active ≡ some r
    → r.resp_cb ≡ none
    → rank body_sent ≤ rank r.state
    → (es : List Event) × (http_read_cb inflate c (failed code msg)
        ≡ returns (record c { active = some r; requests = []; status = disconnected }, es))
      × (process_requests (record c { active = some r; requests = []; status = connected }) none
          ≡ (record c { active = some r; requests = []; status = connected }, []))
unfolding http_read_cb fail_active_request close_connection
request_without_callback_stuck inflate c r code msg active silent sent = (
  (fail_queued c.requests code msg
        ++ (close_connection (record c { active = some r; requests = [] })).1)
      ++ (async_send ∷ []),
  ground (arith, active, silent),
  nothing_served (record c { active = some r; requests = []; status = connected }) r refl refl sent,
)
