-- ===== src/Http/Client/Life/Steps.antt =====
-- Every call of a client either adds one request behind the others or adds none.
use tlsuv.Base.{
  ℕ, ◌+◌, ◌≡◌, refl, subst, sym, Bytes, Bool, Option, none, some, List, [], ◌∷◌, ◌++◌, map, arith,
  Option-cases, inl, inr, ◌⊎◌,
}
use tlsuv.Compression.{Inflate}
use tlsuv.Http.Types.{Req, Event}
use tlsuv.Http.Request.{req_data, req_end}
use tlsuv.Http.Client.{Client}
use tlsuv.Http.Client.Config.{
  http_header, http_set_url, adopt_url, http_set_prefix, http_req, http_connect_timeout,
  http_idle_keepalive,
}
use tlsuv.Http.Client.Connect.{link_close_cb, idle_timeout}
use tlsuv.Http.Client.Send.{req_write_body_cb}
use tlsuv.Http.Client.Cancel.{Cancelled, cancelled, refused, bad_pointer, req_cancel}
use tlsuv.Http.Client.Process.Order.{pending, pending-http_req}
use tlsuv.Http.Client.Life.Numbers.{told_ids}
use tlsuv.Http.Client.Life.Keeps.{Keeps, quiet, Keeps-close_connection}
use tlsuv.Http.Client.Life.Handlers.{
  Keeps-src_connect_cb, Keeps-src_connect_timeout, Keeps-on_tls_handshake, Keeps-cancel_all,
  Keeps-http_close, Keeps-process_requests,
}
use tlsuv.Http.Client.Life.Ends.{Keeps-http_read_cb}
use tlsuv.Http.Client.Life.Removal.{Keeps-req_cancel}
use tlsuv.Http.Client.Life.{
  Call, set_header, set_url, set_prefix, set_connect_timeout, set_idle, new_request, give_header,
  give_data, give_end, cancel_one, cancel_every, close_client, run_queue, source_told, source_late,
  handshake_told, link_told, chunk_written, links_closed, idle_over, find_queued, find_req,
  set_queued, set_req, on_request, cancel_found, handle,
}

find_queued-id : (rs : List Req) (id : ℕ) (r : Req) → find_queued rs id ≡ some r → r.id ≡ id
unfolding find_queued
find_queued-id [] id r e = ground (arith, e)
find_queued-id (q ∷ rs) id r e = ground (arith, e, find_queued-id rs id r)

find_req-id : (c : Client) (id : ℕ) (r : Req) → find_req c id ≡ some r → r.id ≡ id
unfolding find_req
find_req-id c id r e = ground (arith, e, find_queued-id c.requests id r)

set_queued-ids :
    (rs : List Req) (new : Req) → map (λ r. r.id) (set_queued rs new) ≡ map (λ r. r.id) rs
unfolding set_queued
set_queued-ids [] new = refl
set_queued-ids (r ∷ rs) new = ground (arith, set_queued-ids rs new)

set_req-pending : (c : Client) (new : Req) → pending (set_req c new) ≡ pending c
unfolding set_req
set_req-pending c new = ground (arith, set_queued-ids c.requests new)

set_req-next : (c : Client) (new : Req) → (set_req c new).next_id ≡ c.next_id
unfolding set_req
set_req-next c new = ground arith

set_url-same :
    (c : Client) (text : Bytes) (c' : Client)
    → http_set_url c text ≡ some c'
    → (pending c' ≡ pending c) × (c'.next_id ≡ c.next_id)
unfolding http_set_url adopt_url
set_url-same c text c' e = (ground (arith, e), ground (arith, e))

-- A new request stands behind all others, under the next number.
pub record Adds (c : Client) (x : Client × List Event) : Type 0 where
  pub added : pending x.0 ≡ pending c ++ c.next_id ∷ []
  pub next : x.0.next_id ≡ c.next_id + 1
  pub silent : told_ids x.1 ≡ []

module _ (P : ℕ → Type 0) where
  Keeps-on_request :
      (c : Client) (id : ℕ) (f : Req → Req × List Event) (x : Client × List Event)
      → ((r : Req) → told_ids (f r).1 ≡ [])
      → on_request c id f ≡ some x
      → Keeps P c x
  unfolding on_request
  Keeps-on_request c id f x silent e = elim (Option-cases (find_req c id)) [
    | inl gone ↦ absurd (ground (arith, e, gone))
    | inr (r, there) ↦
        let run : x ≡ (set_req c (f r).0, (f r).1) = ground (arith, e, there) in
        subst (Keeps P c) (sym run) (
          quiet P c (set_req c (f r).0) (f r).1 (set_req-pending c (f r).0) (set_req-next c (f r).0)
            (silent r))
  ]

  Keeps-cancel_found :
      (c : Client) (msg : Bytes) (o : Option Req) (x : Client × List Event)
      → cancel_found c msg o ≡ some x
      → Keeps P c x
  unfolding cancel_found
  Keeps-cancel_found c msg none x e = absurd (ground (arith, e))
  Keeps-cancel_found c msg (some r) x e = by_result (req_cancel c r msg) refl
    where
      by_result : (k : Cancelled) → req_cancel c r msg ≡ k → Keeps P c x
      by_result (cancelled y) k = Keeps-req_cancel P c r msg x (ground (arith, e, k))
      by_result refused k =
          subst (Keeps P c) (ground (arith, e, k))
            (quiet P c c [] refl refl (unfold told_ids in refl))
      by_result bad_pointer k = absurd (ground (arith, e, k))

  same :
      (c c' : Client) (es : List Event) (x : Client × List Event)
      → some (c', es) ≡ some x
      → pending c' ≡ pending c
      → c'.next_id ≡ c.next_id
      → told_ids es ≡ []
      → Keeps P c x ⊎ Adds c x
  same c c' es x e p n s = inl (subst (Keeps P c) (ground (arith, e)) (quiet P c c' es p n s))

  kept :
      (c : Client) (y x : Client × List Event)
      → Keeps P c y
      → some y ≡ some x
      → Keeps P c x ⊎ Adds c x
  kept c y x k e = inl (subst (Keeps P c) (ground (arith, e)) k)

  Adds-http_req :
      (c : Client) (method path : Bytes) (resp_cb : Option Bool)
      → Adds c (http_req c method path resp_cb)
  Adds-http_req c method path resp_cb = record {
    added = pending-http_req c method path resp_cb;
    next = unfold http_req in refl;
    silent = unfold http_req told_ids in refl;
  }

  pub Keeps-handle :
      (inflate : Inflate) (c : Client) (call : Call) (x : Client × List Event)
      → handle inflate c call ≡ some x
      → Keeps P c x ⊎ Adds c x
  unfolding handle told_ids link_close_cb
  Keeps-handle inflate c (set_header name value) x e =
      same c _ [] x e (unfold http_header in refl) (unfold http_header in refl) refl
  Keeps-handle inflate c (set_url text) x e = elim (Option-cases (http_set_url c text)) [
    | inl bad ↦ same c c [] x (ground (arith, e, bad)) refl refl refl
    | inr (c', good) ↦
        same c c' [] x (ground (arith, e, good)) (set_url-same c text c' good).0
          (set_url-same c text c' good).1 refl
  ]
  Keeps-handle inflate c (set_prefix pfx) x e =
      same c _ [] x e (unfold http_set_prefix in refl) (unfold http_set_prefix in refl) refl
  Keeps-handle inflate c (set_connect_timeout t) x e =
      same c _ [] x e (unfold http_connect_timeout in refl) (unfold http_connect_timeout in refl)
        refl
  Keeps-handle inflate c (set_idle t) x e =
      same c _ [] x e (unfold http_idle_keepalive in refl) (unfold http_idle_keepalive in refl) refl
  Keeps-handle inflate c (new_request method path resp_cb) x e =
      inr (subst (Adds c) (ground (arith, e)) (Adds-http_req c method path resp_cb))
  Keeps-handle inflate c (give_header id name value) x e =
      inl (Keeps-on_request c id _ x (λ r. refl) e)
  Keeps-handle inflate c (give_data id body has_cb) x e = inl (
      Keeps-on_request c id (λ r. ((req_data r body has_cb).0, (req_data r body has_cb).1)) x
        (λ r. unfold req_data in ground arith) e)
  Keeps-handle inflate c (give_end id) x e =
      inl (Keeps-on_request c id req_end x (λ r. unfold req_end in ground arith) e)
  Keeps-handle inflate c (cancel_one id msg) x e =
      inl (Keeps-cancel_found c msg (find_req c id) x e)
  Keeps-handle inflate c (cancel_every msg) x e = kept c _ x (Keeps-cancel_all P c msg) e
  Keeps-handle inflate c (close_client msg) x e = kept c _ x (Keeps-http_close P c msg) e
  Keeps-handle inflate c (run_queue err) x e = kept c _ x (Keeps-process_requests P c err) e
  Keeps-handle inflate c (source_told err) x e = kept c _ x (Keeps-src_connect_cb P c err) e
  Keeps-handle inflate c (source_late msg) x e = kept c _ x (Keeps-src_connect_timeout P c msg) e
  Keeps-handle inflate c (handshake_told h err) x e =
      kept c _ x (Keeps-on_tls_handshake P c h err) e
  Keeps-handle inflate c (link_told n) x e =
      inl (Keeps-http_read_cb P inflate c n x (ground (arith, e)))
  Keeps-handle inflate c (chunk_written id b code) x e =
      same c c (req_write_body_cb id b code) x e refl refl
        (unfold req_write_body_cb in ground arith)
  Keeps-handle inflate c links_closed x e = same c c _ x e refl refl refl
  Keeps-handle inflate c idle_over x e =
      kept c (idle_timeout c) x (unfold idle_timeout in Keeps-close_connection P c) e
