-- ===== src/Http/Client/Life.antt =====
-- The life of a client: every function of src/http.c that its user, its source, its link or its
-- event loop calls, in any order.
pub mod Numbers
pub mod Keeps
pub mod Response
pub mod Handlers
pub mod Ends
pub mod Removal
pub mod Steps
pub mod Laws
use tlsuv.Base.{
  ℕ, ◌≡◌, Bytes, Bool, true, false, Option, none, some, List, [], ◌∷◌, ◌++◌, ◌==◌, if◌then◌else◌,
}
use tlsuv.Compression.{Inflate}
use tlsuv.Http.Types.{Req, Chunk, Uv, Event}
use tlsuv.Http.Request.{req_header, req_data, req_end}
use tlsuv.Http.Client.{Client}
use tlsuv.Http.Client.Config.{
  http_header, http_set_url, http_set_prefix, http_req, http_connect_timeout, http_idle_keepalive,
}
use tlsuv.Http.Client.Connect.{
  Handshake, src_connect_cb, src_connect_timeout, on_tls_handshake, link_close_cb, idle_timeout,
}
use tlsuv.Http.Client.Send.{req_write_body_cb}
use tlsuv.Http.Client.Process.{process_requests}
use tlsuv.Http.Client.Read.{
  Outcome, Nread, http_read_cb, returns, null_dereference, double_free, never_returns,
}
use tlsuv.Http.Client.Cancel.{
  Cancelled, req_cancel, cancel_all, http_close, cancelled, refused, bad_pointer,
}

-- A call of the client. A request is named by its number, which stands for its address.
pub data Call : Type 0 where
  set_header : Bytes → Option Bytes → Call
  set_url : Bytes → Call
  set_prefix : Option Bytes → Call
  set_connect_timeout : ℕ → Call
  set_idle : Option ℕ → Call
  new_request : Bytes → Bytes → Option Bool → Call
  give_header : ℕ → Bytes → Bytes → Call
  give_data : ℕ → Bytes → Bool → Call
  give_end : ℕ → Call
  cancel_one : ℕ → Bytes → Call
  cancel_every close_client : Bytes → Call
  run_queue source_told : Option (Uv × Bytes) → Call
  source_late : Bytes → Call
  handshake_told : Handshake → Bytes → Call
  link_told : Nread → Call
  chunk_written : ℕ → Chunk → Uv → Call
  links_closed idle_over : Call

unfoldable pub find_queued : List Req → ℕ → Option Req
find_queued [] id = none
find_queued (r ∷ rs) id = let rest = find_queued rs id in if r.id == id then some r else rest

-- The request behind a pointer to it, if the client still has it.
unfoldable pub find_req : Client → ℕ → Option Req
find_req c id = elim c.active [
  | none ↦ find_queued c.requests id
  | some r ↦ if r.id == id then some r else find_queued c.requests id
]

unfoldable pub set_queued : List Req → Req → List Req
set_queued [] new = []
set_queued (r ∷ rs) new =
    let rest = r ∷ set_queued rs new in if r.id == new.id then new ∷ rs else rest

-- The client after a change to the request that stands at the address of `new`.
unfoldable pub set_req : Client → Req → Client
set_req c new = elim c.active [
  | none ↦ record c { requests = set_queued c.requests new }
  | some r ↦
      if r.id == new.id
      then record c { active = some new }
      else record c { requests = set_queued c.requests new }
]

-- A call through a pointer to a request; with a request that is gone it is no run of the program.
unfoldable pub on_request : Client → ℕ → (Req → Req × List Event) → Option (Client × List Event)
on_request c id f = elim (find_req c id) [
  | none ↦ none
  | some r ↦ let (r', es) = f r in some (set_req c r', es)
]

abbrev outcome : Outcome → Option (Client × List Event)
outcome (returns x) = some x
outcome null_dereference = none
outcome double_free = none
outcome never_returns = none

-- A refused cancellation changes nothing.
abbrev cancellation : Client → Cancelled → Option (Client × List Event)
cancellation c (cancelled x) = some x
cancellation c refused = some (c, [])
cancellation c bad_pointer = none

unfoldable pub cancel_found : Client → Bytes → Option Req → Option (Client × List Event)
cancel_found c msg none = none
cancel_found c msg (some r) = cancellation c (req_cancel c r msg)

-- What a call does; `none` where C leaves it undefined or where it does not return.
unfoldable pub handle : Inflate → Client → Call → Option (Client × List Event)
unfolding cancel_found on_request
handle inflate c (set_header name value) = some (http_header c name value, [])
handle inflate c (set_url text) = elim (http_set_url c text) [
  | none ↦ some (c, [])
  | some c' ↦ some (c', [])
]
handle inflate c (set_prefix pfx) = some (http_set_prefix c pfx, [])
handle inflate c (set_connect_timeout t) = some (http_connect_timeout c t, [])
handle inflate c (set_idle t) = some (http_idle_keepalive c t, [])
handle inflate c (new_request method path resp_cb) = some (http_req c method path resp_cb)
handle inflate c (give_header id name value) =
    on_request c id (λ r. ((req_header r name value).0, []))
handle inflate c (give_data id body has_cb) =
    on_request c id (λ r. ((req_data r body has_cb).0, (req_data r body has_cb).1))
handle inflate c (give_end id) = on_request c id req_end
handle inflate c (cancel_one id msg) = cancel_found c msg (find_req c id)
handle inflate c (cancel_every msg) = some (cancel_all c msg)
handle inflate c (close_client msg) = some (http_close c msg)
handle inflate c (run_queue err) = some (process_requests c err)
handle inflate c (source_told err) = some (src_connect_cb c err)
handle inflate c (source_late msg) = some (src_connect_timeout c msg)
handle inflate c (handshake_told h err) = some (on_tls_handshake c h err)
handle inflate c (link_told n) = outcome (http_read_cb inflate c n)
handle inflate c (chunk_written id b code) = some (c, req_write_body_cb id b code)
handle inflate c links_closed = some (link_close_cb c)
handle inflate c idle_over = some (idle_timeout c)

-- A run: from a client, through the calls that it makes, to another.
pub data Reach (inflate : Inflate) (c : Client) : List Event → Client → Type 0 where
  here : Reach inflate c [] c
  further :
      {es : List Event} {c' : Client}
      → Reach inflate c es c'
      → (call : Call) (c'' : Client) (fs : List Event) → handle inflate c' call ≡ some (c'', fs)
      → Reach inflate c (es ++ fs) c''
