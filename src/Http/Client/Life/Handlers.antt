-- ===== src/Http/Client/Life/Handlers.antt =====
-- Each handler of the client adds no request, and its calls concern requests that are pending.
use tlsuv.Base.{
  ℕ, ◌≡◌, refl, subst, sym, Bytes, Option, none, some, List, [], ◌∷◌, ◌++◌, arith, if◌then◌else◌,
  ltb, false,
}
use tlsuv.Http.Types.{
  Req, Chunk, Uv, Event, etimedout, econnaborted, ecanceled, timer_stop, async_send, src_cancel,
  engine_freed, timer_connect, src_connect,
}
use tlsuv.Http.Client.{
  Client, Status, handshaking, connected, ◌then_do◌, fail_active_request, close_connection,
  connecting, disconnected,
}
use tlsuv.Http.Client.Connect.{
  Handshake, hs_complete, hs_error, hs_other, make_links, src_connect_cb, src_connect_timeout,
  on_tls_handshake,
}
use tlsuv.Http.Client.Send.{send_body, send_chunks, send_chunk, chunk_writes, size_line}
use tlsuv.Http.Client.Process.{
  take_next, send_head, send_rest, send_request, start_connect, serve_active, process_requests,
  go_idle, prefix_bytes,
}
use tlsuv.Http.Client.Process.Order.{take_next-pending, send_request-id}
use tlsuv.Http.Client.Cancel.{cancel_all, http_close}
use tlsuv.Http.Client.Life.Numbers.{told_ids, told_ids-append}
use tlsuv.Http.Client.Life.Keeps.{
  Keeps, quiet, Keeps-after, Keeps-announce, Keeps-fail_active_request, Keeps-close_connection,
}

told_ids-send_chunk : (r : Req) (b : Chunk) → told_ids (send_chunk r b).1 ≡ []
unfolding send_chunk chunk_writes size_line told_ids
told_ids-send_chunk r b = ground arith

told_ids-send_chunks : (r : Req) (bs : List Chunk) → told_ids (send_chunks r bs).1 ≡ []
unfolding send_chunks
told_ids-send_chunks r [] = unfold told_ids in refl
told_ids-send_chunks r (b ∷ bs) = rw (
  told_ids-append (send_chunk r b).1 (send_chunks (send_chunk r b).0 bs).1,
  told_ids-send_chunk r b,
  told_ids-send_chunks (send_chunk r b).0 bs,
)

told_ids-send_rest : (r : Req) → told_ids (send_rest r).1 ≡ []
unfolding send_rest send_body told_ids
told_ids-send_rest r = ground (arith, told_ids-send_chunks (record r { req_body = [] }) r.req_body)

told_ids-send_head : (prefix : Bytes) (r : Req) → told_ids (send_head prefix r).1 ≡ []
unfolding send_head told_ids
told_ids-send_head prefix r = ground arith

-- Sending a request calls nobody.
told_ids-send_request : (prefix : Bytes) (r : Req) → told_ids (send_request prefix r).1 ≡ []
unfolding send_request
told_ids-send_request prefix r = rw (
  told_ids-append (send_head prefix r).1 (send_rest (send_head prefix r).0).1,
  told_ids-send_head prefix r,
  told_ids-send_rest (send_head prefix r).0,
)

module _ (P : ℕ → Type 0) where
  pub Keeps-src_connect_cb :
      (c : Client) (err : Option (Uv × Bytes)) → Keeps P c (src_connect_cb c err)
  Keeps-src_connect_cb c none =
      quiet P c (src_connect_cb c none).0 (src_connect_cb c none).1
        (unfold src_connect_cb make_links in ground arith)
        (unfold src_connect_cb make_links in ground arith)
        (unfold src_connect_cb make_links told_ids in ground arith)
  Keeps-src_connect_cb c (some (code, msg)) =
      let down = record c { status = disconnected } in
      unfold src_connect_cb in
      Keeps-announce P c _ _ (async_send ∷ [])
        (Keeps-after P c down _ (timer_stop ∷ []) _
          (quiet P c down (timer_stop ∷ []) refl refl (unfold told_ids in refl))
          (Keeps-fail_active_request P down code msg))
        (unfold told_ids in refl)

  pub Keeps-src_connect_timeout : (c : Client) (msg : Bytes) → Keeps P c (src_connect_timeout c msg)
  unfolding src_connect_timeout
  Keeps-src_connect_timeout c msg =
      Keeps-announce P c _ _ (src_cancel ∷ []) (Keeps-src_connect_cb c (some (etimedout, msg)))
        (unfold told_ids in refl)

  pub Keeps-on_tls_handshake :
      (c : Client) (h : Handshake) (err : Bytes) → Keeps P c (on_tls_handshake c h err)
  unfolding on_tls_handshake
  Keeps-on_tls_handshake c hs_complete err =
      quiet P c _ (async_send ∷ []) refl refl (unfold told_ids in refl)
  Keeps-on_tls_handshake c hs_error err =
      Keeps-after P c (close_connection c).0 _ (close_connection c).1 _ (Keeps-close_connection P c)
        (Keeps-fail_active_request P (close_connection c).0 econnaborted err)
  Keeps-on_tls_handshake c hs_other err = Keeps-close_connection P c

  -- All requests fail, and the connection is closed.
  pub Keeps-fail_and_close :
      (c : Client) (code : Uv) (msg : Bytes)
      → Keeps P c (fail_active_request c code msg then_do close_connection)
  Keeps-fail_and_close c code msg =
      let failed = fail_active_request c code msg in
      Keeps-after P c failed.0 _ failed.1 _ (Keeps-fail_active_request P c code msg)
        (Keeps-close_connection P failed.0)

  pub Keeps-cancel_all : (c : Client) (msg : Bytes) → Keeps P c (cancel_all c msg)
  unfolding cancel_all
  Keeps-cancel_all c msg = Keeps-fail_and_close c ecanceled msg

  pub Keeps-http_close : (c : Client) (msg : Bytes) → Keeps P c (http_close c msg)
  unfolding http_close
  Keeps-http_close c msg =
      let closed = fail_active_request c ecanceled msg then_do close_connection in
      Keeps-after P c closed.0 _ closed.1 _ (Keeps-fail_and_close c ecanceled msg)
        (free_engine closed.0)
    where
      free_engine :
          (c : Client)
          → Keeps P c (
              if c.has_engine
              then (record c { has_engine = false }, engine_freed ∷ [])
              else (c, []))
      free_engine c =
          let last : Client × List Event =
            if c.has_engine
            then (record c { has_engine = false }, engine_freed ∷ [])
            else (c, []) in
          quiet P c last.0 last.1 (ground arith) (ground arith) (unfold told_ids in ground arith)

  Keeps-start_connect : (c : Client) (err : Option (Uv × Bytes)) → Keeps P c (start_connect c err)
  unfolding start_connect
  Keeps-start_connect c err =
      let opening = record c { status = connecting } in
      let timer : List Event =
        if ltb 0 c.connect_timeout then timer_connect c.connect_timeout ∷ [] else [] in
      Keeps-after P c opening _ (timer ++ (src_connect ∷ [])) _
        (quiet P c opening (timer ++ (src_connect ∷ [])) refl refl
          (unfold told_ids in ground arith))
        (result opening err)
    where
      result :
          (c : Client) (err : Option (Uv × Bytes))
          → Keeps P c (elim err [ none ↦ (c, []) | some e ↦ src_connect_cb c (some e) ])
      result c none = quiet P c c [] refl refl (unfold told_ids in refl)
      result c (some e) = Keeps-src_connect_cb c (some e)

  Keeps-serve_active :
      (c : Client) (r : Req) (err : Option (Uv × Bytes))
      → c.active ≡ some r
      → Keeps P c (serve_active c r err)
  Keeps-serve_active c r err e = by_status c.status refl
    where
      waits : serve_active c r err ≡ (c, []) → Keeps P c (serve_active c r err)
      waits run = subst (Keeps P c) (sym run) (quiet P c c [] refl refl (unfold told_ids in refl))

      by_status : (s : Status) → c.status ≡ s → Keeps P c (serve_active c r err)
      by_status disconnected s =
          let run : serve_active c r err ≡ start_connect c err =
            unfold serve_active in ground (arith, s) in
          subst (Keeps P c) (sym run) (Keeps-start_connect c err)
      by_status connecting s = waits (unfold serve_active in ground (arith, s))
      by_status handshaking s = waits (unfold serve_active in ground (arith, s))
      by_status connected s =
          let sent = send_request (prefix_bytes c.prefix) r in
          let run : serve_active c r err ≡ (record c { active = some sent.0 }, sent.1) =
            unfold serve_active in ground (arith, s) in
          subst (Keeps P c) (sym run) (
            quiet P c _ sent.1 (ground (arith, e, send_request-id (prefix_bytes c.prefix) r)) refl
              (told_ids-send_request (prefix_bytes c.prefix) r))

  Keeps-go_idle : (c : Client) → Keeps P c (go_idle c)
  Keeps-go_idle c =
      quiet P c (go_idle c).0 (go_idle c).1 (unfold go_idle in ground arith)
        (unfold go_idle in ground arith) (unfold go_idle told_ids in ground arith)

  pub Keeps-process_requests :
      (c : Client) (err : Option (Uv × Bytes)) → Keeps P c (process_requests c err)
  Keeps-process_requests c err =
      Keeps-after P c (take_next c) _ [] _
        (quiet P c (take_next c) [] (take_next-pending c) (unfold take_next in ground arith)
          (unfold told_ids in refl))
        (serve (take_next c).active refl)
    where
      serve :
          (o : Option Req)
          → (take_next c).active ≡ o
          → Keeps P (take_next c) (process_requests c err)
      serve none e =
          let run : process_requests c err ≡ go_idle (take_next c) =
            unfold process_requests in ground (arith, e) in
          subst (Keeps P (take_next c)) (sym run) (Keeps-go_idle (take_next c))
      serve (some r) e =
          let run : process_requests c err ≡ serve_active (take_next c) r err =
            unfold process_requests in ground (arith, e) in
          subst (Keeps P (take_next c)) (sym run) (Keeps-serve_active (take_next c) r err e)
