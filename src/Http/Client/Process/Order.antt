-- ===== src/Http/Client/Process/Order.antt =====
-- The order in which requests are served, and that the head of a request is sent once.
use tlsuv.Base.{
  ℕ, ◌≡◌, refl, ap, sym, ◌∙◌, Bytes, Bool, Option, none, some, List, [], ◌∷◌, ◌++◌, append_assoc,
  take, map, arith, inl, inr, Option-cases,
}
use tlsuv.Http.Types.{Req, Chunk, headers_sent}
use tlsuv.Http.Client.{Client}
use tlsuv.Http.Client.Config.{http_req}
use tlsuv.Http.Client.Process.{
  take_next, send_head, send_rest, send_request, serve_active, process_requests, go_idle,
  start_connect, prefix_bytes,
}
use tlsuv.Http.Client.Send.{send_body, send_chunks, send_chunk}
use tlsuv.Http.Request.{http_req_init}
use tlsuv.Http.Request.Write.{set_length, http_req_write}

abbrev pub active_ids : Option Req → List ℕ
active_ids none = []
active_ids (some r) = r.id ∷ []

-- The requests that wait for a response, the one in progress first.
abbrev pub pending : Client → List ℕ
pending c = active_ids c.active ++ map (λ r. r.id) c.requests

map-append_ids :
    (rs ss : List Req) → map (λ r. r.id) (rs ++ ss) ≡ map (λ r. r.id) rs ++ map (λ r. r.id) ss
map-append_ids [] ss = refl
map-append_ids (r ∷ rs) ss = ap (◌∷◌ r.id) (map-append_ids rs ss)

-- A new request is served after all that wait.
pub pending-http_req :
    (c : Client) (method path : Bytes) (resp_cb : Option Bool)
    → pending (http_req c method path resp_cb).0 ≡ pending c ++ (c.next_id ∷ [])
unfolding http_req http_req_init
pending-http_req c method path resp_cb =
    ap (◌++◌ (active_ids c.active)) (map-append_ids c.requests _)
    ∙ sym (append_assoc (active_ids c.active) (map (λ r. r.id) c.requests) (c.next_id ∷ []))

send_chunk-id : (r : Req) (b : Chunk) → (send_chunk r b).0.id ≡ r.id
unfolding send_chunk
send_chunk-id r b = ground arith

send_chunks-id : (r : Req) (bs : List Chunk) → (send_chunks r bs).0.id ≡ r.id
unfolding send_chunks
send_chunks-id r [] = refl
send_chunks-id r (b ∷ bs) = send_chunks-id (send_chunk r b).0 bs ∙ send_chunk-id r b

set_length-id : (r : Req) → (set_length r).id ≡ r.id
unfolding set_length
set_length-id r = ground arith

pub send_request-id : (prefix : Bytes) (r : Req) → (send_request prefix r).0.id ≡ r.id
unfolding send_request send_head send_rest send_body http_req_write
send_request-id prefix r = ground (
  arith,
  set_length-id r,
  send_chunks-id (record r { req_body = [] }) r.req_body,
  send_chunks-id (record (set_length r) { state = headers_sent; req_body = [] })
      (set_length r).req_body,
)

pub take_next-pending : (c : Client) → pending (take_next c) ≡ pending c
unfolding take_next
take_next-pending c = ground arith

serve-pending :
    (c : Client) (r : Req) → c.active ≡ some r → pending (serve_active c r none).0 ≡ pending c
unfolding serve_active start_connect
serve-pending c r e = ground (arith, e, send_request-id (prefix_bytes c.prefix) r)

none_waits : (c : Client) → (take_next c).active ≡ none → pending c ≡ []
unfolding take_next
none_waits c e = ground (arith, e)

some_waits : (c : Client) (r : Req) → (take_next c).active ≡ some r → take 1 (pending c) ≡ r.id ∷ []
unfolding take_next
some_waits c r e = ground (arith, e)

serve-active_ids :
    (c : Client) (r : Req)
    → c.active ≡ some r
    → active_ids (serve_active c r none).0.active ≡ r.id ∷ []
unfolding serve_active start_connect
serve-active_ids c r e = ground (arith, e, send_request-id (prefix_bytes c.prefix) r)

idle-active : (c : Client) → (go_idle c).0 ≡ c
unfolding go_idle
idle-active c = ground arith

-- Serving the queue, while the source can be reached, loses no request and keeps their order, and
-- the first of those that wait is the active one; there is none only if none waits.
pub pending-process_requests :
    (c : Client)
    → (pending (process_requests c none).0 ≡ pending c)
      × (active_ids (process_requests c none).0.active ≡ take 1 (pending c))
unfolding process_requests
pending-process_requests c = elim (Option-cases (take_next c).active) [
  | inl e ↦ (
    ground (arith, e, idle-active (take_next c), take_next-pending c),
    ground (arith, e, idle-active (take_next c), none_waits c e),
  )
  | inr (r, e) ↦ (
    ground (arith, e, serve-pending (take_next c) r e, take_next-pending c),
    ground (arith, e, serve-active_ids (take_next c) r e, some_waits c r e),
  )
]
