-- ===== src/Http/Client/Process/Once.antt =====
-- The head of a request is written once, and each chunk of its body once.
use tlsuv.Base.{◌≤◌, ◌≡◌, refl, Bytes, List, [], ◌∷◌, arith, ◌⊎◌}
use tlsuv.Http.Types.{Req, Chunk, headers_sent, body_sent, rank}
use tlsuv.Http.Client.Process.{send_head, send_rest, send_request}
use tlsuv.Http.Client.Send.{send_body, send_chunks, send_chunk}
use tlsuv.Http.Request.Write.{http_req_write}

-- The head is out, and no chunk waits that would still be sent.
record IsQuiet (r : Req) : Type 0 where
  head_out : rank headers_sent ≤ rank r.state
  body_out : (rank body_sent ≤ rank r.state) ⊎ (r.req_body ≡ [])

send_head-out : (prefix : Bytes) (r : Req) → rank headers_sent ≤ rank (send_head prefix r).0.state
unfolding send_head http_req_write
send_head-out prefix r = ground arith

send_chunk-state :
    (r : Req) (b : Chunk)
    → ((send_chunk r b).0.req_body ≡ r.req_body)
      × (((send_chunk r b).0.state ≡ r.state) ⊎ ((send_chunk r b).0.state ≡ body_sent))
unfolding send_chunk
send_chunk-state r b = ground arith

send_chunks-out :
    (r : Req) (bs : List Chunk)
    → rank headers_sent ≤ rank r.state
    → ((send_chunks r bs).0.req_body ≡ r.req_body)
      × (rank headers_sent ≤ rank (send_chunks r bs).0.state)
unfolding send_chunks
send_chunks-out r [] h = (refl, h)
send_chunks-out r (b ∷ bs) h =
    ground (arith, h, send_chunk-state r b, send_chunks-out (send_chunk r b).0 bs)

send_rest-IsQuiet : (r : Req) → rank headers_sent ≤ rank r.state → IsQuiet (send_rest r).0
unfolding send_rest send_body
send_rest-IsQuiet r h = ground (arith, h, send_chunks-out (record r { req_body = [] }) r.req_body h)

quiet_head : (prefix : Bytes) (r : Req) → IsQuiet r → send_head prefix r ≡ (r, [])
unfolding send_head
quiet_head prefix r q = ground (arith, q)

quiet_rest : (r : Req) → IsQuiet r → (send_rest r).1 ≡ []
unfolding send_rest send_body send_chunks
quiet_rest r q = ground (arith, q)

-- What is written for the active request is written once: the head, and every chunk that was
-- queued. When the client runs again with nothing added to the request, it writes nothing.
pub send_request_once :
    (prefix : Bytes) (r : Req) → (send_request prefix (send_request prefix r).0).1 ≡ []
unfolding send_request
send_request_once prefix r =
    let r' = (send_rest (send_head prefix r).0).0 in
    let q : IsQuiet r' = send_rest-IsQuiet (send_head prefix r).0 (send_head-out prefix r) in
    rw (quiet_head prefix r' q) (quiet_rest r' q)
