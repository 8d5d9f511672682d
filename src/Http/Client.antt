-- ===== src/Http/Client.antt =====
-- The HTTP client of src/http.c: its state, failing its requests and closing its connection.
-- The user's callbacks, the link below the client, its timer, its async handle and its source are
-- outside; a handler returns the calls that it makes of them, in order. A callback does not call
-- back into the client.
pub mod Config
pub mod Connect
pub mod Send
pub mod Process
pub mod Read
pub mod Cancel
pub mod Failing
pub mod Life
use tlsuv.Base.{ℕ, Bytes, Bool, true, false, Option, none, some, List, [], ◌∷◌, ◌++◌, if◌then◌else◌}
use tlsuv.Http.Headers.{Headers}
use tlsuv.Http.Types.{
  Req, Chunk, Uv, uv_code, Event, responded, chunk_done, proc_unref, timer_stop, link_close,
}

-- `enum status`
pub data Status : Type 0 where
  disconnected connecting handshaking connected : Status

-- `struct tlsuv_http_s`. `has_engine` is `engine != NULL`; `next_id` numbers the requests.
-- `connect_timeout` is 0 where no timer is wanted, `idle_time` is `none` where it is negative.
pub record Client : Type 0 where
  pub host : Option Bytes
  pub port : ℕ
  pub prefix : Option Bytes
  pub host_change : Bool
  pub ssl : Bool
  pub has_engine : Bool
  pub headers : Headers
  pub status : Status
  pub connect_timeout : ℕ
  pub idle_time : Option ℕ
  pub active : Option Req
  pub requests : List Req
  pub next_id : ℕ

-- `clear_req_body`: the callbacks of the chunks that were not sent.
unfoldable pub clear_req_body : ℕ → List Chunk → Uv → List Event
clear_req_body id [] code = []
clear_req_body id (c ∷ cs) code =
    let rest = clear_req_body id cs code in
    if c.has_cb then chunk_done id c.chunk code ∷ rest else rest

-- What a failed request is told: by `resp_cb`, and then for each chunk that waits.
unfoldable pub fail_request : Req → Uv → Bytes → List Event
fail_request r code msg =
    responded r.id (uv_code code) (some msg) r.resp.headers ∷ clear_req_body r.id r.req_body code

-- The same for a request in the queue, where `resp_cb` may be NULL.
unfoldable pub fail_one : Req → Uv → Bytes → List Event
fail_one r code msg = elim r.resp_cb [
  | none ↦ clear_req_body r.id r.req_body code
  | some wants ↦
      responded r.id (uv_code code) (some msg) r.resp.headers
      ∷ proc_unref
      ∷ clear_req_body r.id r.req_body code
]

unfoldable pub fail_queued : List Req → Uv → Bytes → List Event
fail_queued [] code msg = []
fail_queued (r ∷ rs) code msg = fail_one r code msg ++ fail_queued rs code msg

-- The active request, if it is there and has a callback; without one it stays.
abbrev pub fail_active : Option Req → Uv → Bytes → Option Req × List Event
fail_active none code msg = (none, [])
fail_active (some r) code msg = elim r.resp_cb [
  | none ↦ (some r, [])
  | some wants ↦ (none, fail_request r code msg)
]

unfoldable pub fail_active_request : Client → Uv → Bytes → Client × List Event
fail_active_request c code msg =
    let (left, events) = fail_active c.active code msg in
    (record c { active = left; requests = [] }, events ++ fail_queued c.requests code msg)

unfoldable pub close_connection : Client → Client × List Event
close_connection c = elim c.status [
  | disconnected ↦ (c, timer_stop ∷ [])
  | connecting ↦ (record c { status = disconnected }, timer_stop ∷ [])
  | handshaking ↦ (record c { status = disconnected }, timer_stop ∷ link_close ∷ [])
  | connected ↦ (record c { status = disconnected }, timer_stop ∷ link_close ∷ [])
]

-- One handler after another, with the calls of both.
infixl 5 ◌then_do◌
abbrev pub ◌then_do◌ : Client × List Event → (Client → Client × List Event) → Client × List Event
(c, events) then_do f = let (c', later) = f c in (c', events ++ later)

abbrev pub announce : List Event → Client → Client × List Event
announce events c = (c, events)
