-- ===== src/Http/Client/Cancel.antt =====
-- Cancelling requests and closing the client: `tlsuv_http_req_cancel`, `tlsuv_http_cancel_all`,
-- `tlsuv_http_close` and `free_http` of src/http.c.
pub mod Laws
use tlsuv.Base.{
  ℕ, Bytes, Bool, true, false, not, ◌&&◌, ◌||◌, Option, none, some, List, [], ◌∷◌, ◌++◌, ltb, ◌==◌,
  if◌then◌else◌,
}
use tlsuv.Http.Types.{
  Req, Resp, headers_received, rank, Uv, ecanceled, einval, uv_code, Event, responded, body_given,
  body_end, engine_freed, src_release,
}
use tlsuv.Http.Client.{
  Client, clear_req_body, fail_active_request, close_connection, ◌then_do◌, announce,
}

-- `STAILQ_FOREACH` up to the request; requests are compared by address.
unfoldable pub is_queued : List Req → ℕ → Bool
is_queued [] id = false
is_queued (r ∷ rs) id = let rest = is_queued rs id in if r.id == id then true else rest

-- `STAILQ_REMOVE`
unfoldable pub remove_queued : List Req → ℕ → List Req
remove_queued [] id = []
remove_queued (r ∷ rs) id = let rest = r ∷ remove_queued rs id in if r.id == id then rs else rest

abbrev pub is_active : Option Req → ℕ → Bool
is_active none id = false
is_active (some r) id = r.id == id

-- How a cancellation ends.
pub data Cancelled : Type 0 where
  cancelled : Client × List Event → Cancelled
  refused : Cancelled
  -- A call through `r`, which is NULL where the request was not found in the queue, or through a
  -- `resp_cb` that is NULL.
  bad_pointer : Cancelled

-- `resp_cb` is called through `r`, the cursor of the search; `found` says that it is not NULL.
abbrev tell_response :
    Bool → Req → Bytes → List Event → Cancelled → (List Event → Cancelled) → Cancelled
tell_response false r msg cleared bad good = bad
tell_response true r msg cleared bad good = elim r.resp_cb [
  | none ↦ bad
  | some wants ↦
      good (cleared ++ (responded r.id (uv_code ecanceled) (some msg) r.resp.headers ∷ []))
]

-- What is told to the user of a request that has been taken out, at the end of the function.
unfoldable pub tell_cancelled : Bool → Req → Bytes → Client × List Event → Cancelled
tell_cancelled found r msg (c, events) =
    let cleared = events ++ clear_req_body r.id r.req_body ecanceled in
    if ltb (rank r.state) (rank headers_received)
    then tell_response found r msg cleared bad_pointer (λ told. cancelled (c, told))
    else if r.resp.body_cb
    then cancelled (c, cleared ++ (body_given r.id (body_end ecanceled) ∷ []))
    else cancelled (c, cleared)

-- `tlsuv_http_req_cancel` on the request `r`, with the text of UV_ECANCELED.
unfoldable pub req_cancel : Client → Req → Bytes → Cancelled
unfolding tell_cancelled
req_cancel c r msg =
    let found = is_queued c.requests r.id in
    if is_active c.active r.id
    then tell_cancelled found r msg (close_connection (record c { active = none }))
    else if found
    then tell_cancelled found r msg (record c { requests = remove_queued c.requests r.id }, [])
    else refused

-- `tlsuv_http_cancel_all`
unfoldable pub cancel_all : Client → Bytes → Client × List Event
cancel_all c msg = fail_active_request c ecanceled msg then_do close_connection

-- `tlsuv_http_close`
unfoldable pub http_close : Client → Bytes → Client × List Event
http_close c msg = fail_active_request c ecanceled msg then_do close_connection then_do λ c.
    if c.has_engine then (record c { has_engine = false }, engine_freed ∷ []) else (c, [])

-- `free_http`, once the async handle is closed; the flag says that the client owns its source.
unfoldable pub free_http : Client → Bool → Client × List Event
free_http c own_src = (
  record c { headers = []; host = none; prefix = none; active = none; requests = [] },
  (if own_src then src_release ∷ [] else []),
)
