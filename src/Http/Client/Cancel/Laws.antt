-- ===== src/Http/Client/Cancel/Laws.antt =====
-- What cancelling does: to a queued request, to the active one, and to the user.
use tlsuv.Base.{
  ℕ, ◌≡◌, ◌<◌, refl, Bytes, Bool, true, false, Option, none, some, List, [], ◌∷◌, ◌++◌, arith,
}
use tlsuv.Http.Types.{
  Req, Chunk, headers_received, rank, Uv, uv_code, ecanceled, Event, responded, body_given,
}
use tlsuv.Http.Client.{
  Client, fail_active_request, close_connection, fail_active, fail_queued, fail_one, fail_request,
  clear_req_body,
}
use tlsuv.Http.Client.Cancel.{
  is_queued, remove_queued, is_active, cancelled, tell_cancelled, req_cancel, cancel_all,
}

is_queued-append : (rs : List Req) (r : Req) (ss : List Req) → is_queued (rs ++ r ∷ ss) r.id ≡ true
unfolding is_queued
is_queued-append [] r ss = ground arith
is_queued-append (q ∷ rs) r ss = ground (arith, is_queued-append rs r ss)

remove_queued-append :
    (rs : List Req) (r : Req) (ss : List Req)
    → is_queued rs r.id ≡ false
    → remove_queued (rs ++ r ∷ ss) r.id ≡ rs ++ ss
unfolding is_queued remove_queued
remove_queued-append [] r ss h = ground arith
remove_queued-append (q ∷ rs) r ss h = ground (arith, h, remove_queued-append rs r ss)

-- Cancelling a queued request, one that has a callback and no response yet, takes it out of the
-- queue and nothing else, closes nothing, and tells the user: `resp_cb` behind the chunks' callbacks.
pub cancel_queued_lem :
    (c : Client) (r : Req) (before after : List Req) (wants : Bool) (msg : Bytes)
    → c.requests ≡ before ++ r ∷ after
    → is_queued before r.id ≡ false
    → is_active c.active r.id ≡ false
    → rank r.state < rank headers_received
    → r.resp_cb ≡ some wants
    → req_cancel c r msg
      ≡ cancelled (
        record c { requests = before ++ after },
        clear_req_body r.id r.req_body ecanceled
            ++ (responded r.id (uv_code ecanceled) (some msg) r.resp.headers ∷ []),
      )
unfolding req_cancel tell_cancelled
cancel_queued_lem c r before after wants msg queue first other early cb = ground (
  arith,
  queue,
  other,
  early,
  cb,
  is_queued-append before r after,
  remove_queued-append before r after first,
)

-- Has the user been given anything of a body?
unfoldable pub body_told : List Event → Bool
body_told [] = false
body_told (body_given id e ∷ es) = true
body_told (_ ∷ es) = body_told es

body_told-append :
    (es fs : List Event)
    → body_told es ≡ false
    → body_told fs ≡ false
    → body_told (es ++ fs) ≡ false
unfolding body_told
body_told-append [] fs h g = g
body_told-append (body_given id e ∷ es) fs h g = ground (arith, h)
body_told-append (_ ∷ es) fs h g = body_told-append es fs h g

body_told-clear_req_body :
    (id : ℕ) (bs : List Chunk) (code : Uv) → body_told (clear_req_body id bs code) ≡ false
unfolding clear_req_body body_told
body_told-clear_req_body id [] code = refl
body_told-clear_req_body id (b ∷ bs) code = ground (arith, body_told-clear_req_body id bs code)

body_told-fail_queued :
    (rs : List Req) (code : Uv) (msg : Bytes) → body_told (fail_queued rs code msg) ≡ false
unfolding fail_queued fail_one
body_told-fail_queued [] code msg = unfold body_told in refl
body_told-fail_queued (r ∷ rs) code msg =
    body_told-append (fail_one r code msg) _
      (unfold body_told in ground (arith, body_told-clear_req_body r.id r.req_body code))
      (body_told-fail_queued rs code msg)

body_told-fail_active :
    (o : Option Req) (code : Uv) (msg : Bytes) → body_told (fail_active o code msg).1 ≡ false
unfolding body_told fail_request
body_told-fail_active none code msg = refl
body_told-fail_active (some r) code msg =
    ground (arith, body_told-clear_req_body r.id r.req_body code)

body_told-close : (c : Client) → body_told (close_connection c).1 ≡ false
unfolding body_told close_connection
body_told-close c = ground arith

-- Cancelling all requests makes no call of a `body_cb`, whatever their states are: a request in the
-- middle of its response body is not told the end of the body.
cancel_all-body : (c : Client) (msg : Bytes) → body_told (cancel_all c msg).1 ≡ false
unfolding cancel_all fail_active_request
cancel_all-body c msg =
    body_told-append
      ((fail_active c.active ecanceled msg).1 ++ fail_queued c.requests ecanceled msg) _
      (body_told-append (fail_active c.active ecanceled msg).1 _
        (body_told-fail_active c.active ecanceled msg)
        (body_told-fail_queued c.requests ecanceled msg))
      (body_told-close _)
