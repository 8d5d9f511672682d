-- ===== src/Http/Client/Connect.antt =====
-- Connecting: the source's callback, the links, the TLS handshake, the timers.
use tlsuv.Base.{Bytes, true, false, Option, none, some, List, [], ◌∷◌, ◌++◌, if◌then◌else◌}
use tlsuv.Http.Types.{
  Uv, econnaborted, etimedout, Event, async_send, timer_stop, src_cancel, src_release, links_made,
  engine_freed,
}
use tlsuv.Http.Client.{
  Client, disconnected, connecting, handshaking, connected, fail_active_request, close_connection,
  ◌then_do◌, announce,
}

-- `make_links`: with TLS the handshake comes first; an engine for an older host is given up.
unfoldable pub make_links : Client → Client × List Event
make_links c =
    if c.ssl
    then (
      record c { host_change = false; has_engine = true; status = handshaking },
      (if c.host_change then engine_freed ∷ [] else []) ++ (links_made ∷ []),
    )
    else (record c { status = connected }, links_made ∷ async_send ∷ [])

-- `src_connect_cb`; the status 0 is `none`, and another comes with its text.
unfoldable pub src_connect_cb : Client → Option (Uv × Bytes) → Client × List Event
unfolding make_links
src_connect_cb c none = (c, timer_stop ∷ []) then_do λ c. elim c.status [
  | connecting ↦ make_links c
  | disconnected ↦ (c, src_cancel ∷ [])
  | handshaking ↦ (c, [])
  | connected ↦ (c, [])
]
src_connect_cb c (some (code, msg)) =
    (record c { status = disconnected }, timer_stop ∷ [])
    then_do (λ c. fail_active_request c code msg)
    then_do announce (async_send ∷ [])

-- `src_connect_timeout`, with the text of UV_ETIMEDOUT.
unfoldable pub src_connect_timeout : Client → Bytes → Client × List Event
src_connect_timeout c msg =
    src_connect_cb c (some (etimedout, msg)) then_do announce (src_cancel ∷ [])

-- The states of a handshake that the TLS link reports.
pub data Handshake : Type 0 where
  hs_complete hs_error hs_other : Handshake

-- `on_tls_handshake`, with the engine's text for an error.
unfoldable pub on_tls_handshake : Client → Handshake → Bytes → Client × List Event
on_tls_handshake c hs_complete err = (record c { status = connected }, async_send ∷ [])
on_tls_handshake c hs_error err =
    close_connection c then_do (λ c. fail_active_request c econnaborted err)
on_tls_handshake c hs_other err = close_connection c

-- `link_close_cb`, once the links are closed.
unfoldable pub link_close_cb : Client → Client × List Event
link_close_cb c = (c, src_release ∷ async_send ∷ [])

-- `idle_timeout`
unfoldable pub idle_timeout : Client → Client × List Event
idle_timeout c = close_connection c
