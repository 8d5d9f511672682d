-- ===== src/TcpSrc/Laws.antt =====
-- How often the user of a source is told the result of a connection attempt.
use tlsuv.Base.{
  ◌≡◌, ◌≢◌, refl, Bool, true, false, Option, none, some, List, [], ◌∷◌, ◌++◌, arith, if◌then◌else◌,
}
use tlsuv.Http.Types.{
  Uv, eof, einval, ecanceled, econnaborted, etimedout, econnreset, enobufs, ealready, other_code,
}
use tlsuv.TcpSrc.{TcpSrc, Call, connect_told, resolve_cb, tcp_connect_cb}

-- The results that `connect_cb` is given.
unfoldable pub told : List Call → List (Option Uv)
told [] = []
told (connect_told status ∷ calls) = status ∷ told calls
told (_ ∷ calls) = told calls

-- What libuv answers to one attempt: the resolution, and the calls that it leads to.
pub record Answers : Type 0 where
  pub resolved : Option Uv
  pub init : Option Uv
  pub started : Option Uv
  pub closing : Bool
  pub connected : Option Uv

-- The connection callback, where the attempt has come so far.
unfoldable pub after_resolve : TcpSrc → Answers → TcpSrc × List Call
after_resolve sl a = if sl.conn_req then tcp_connect_cb sl true a.closing a.connected else (sl, [])

-- An attempt from `resolve_cb` to its end, with no cancellation.
unfoldable pub attempt : TcpSrc → Answers → TcpSrc × List Call
unfolding after_resolve
attempt sl a =
    let (sl', calls) = resolve_cb sl true a.resolved a.init a.started in
    let (sl'', later) = after_resolve sl' a in (sl'', calls ++ later)

-- The result of an attempt: the first failure, or success.
abbrev pub result : Answers → Option Uv
result a = elim a.resolved [
  | some e ↦ some e
  | none ↦ elim a.init [
    | some e ↦ some e
    | none ↦ elim a.started [ some e ↦ some e | none ↦ a.connected ]
  ]
]

connect_cb-told :
    (sl : TcpSrc) (closing : Bool) (status : Option Uv)
    → status ≢ some ecanceled
    → (told (tcp_connect_cb sl true closing status).1 ≡ status ∷ [])
      × ((tcp_connect_cb sl true closing status).0.conn_req ≡ false)
      × ((tcp_connect_cb sl true closing status).0.resolve_req ≡ sl.resolve_req)
unfolding tcp_connect_cb told
connect_cb-told sl closing none h = (refl, refl, refl)
connect_cb-told sl closing (some eof) h = (refl, refl, refl)
connect_cb-told sl closing (some einval) h = (refl, refl, refl)
connect_cb-told sl closing (some ecanceled) h = absurd (h refl)
connect_cb-told sl closing (some econnaborted) h = (refl, refl, refl)
connect_cb-told sl closing (some etimedout) h = (refl, refl, refl)
connect_cb-told sl closing (some econnreset) h = (refl, refl, refl)
connect_cb-told sl closing (some enobufs) h = (refl, refl, refl)
connect_cb-told sl closing (some ealready) h = (refl, refl, refl)
connect_cb-told sl closing (some (other_code n)) h = (refl, refl, refl)

-- An attempt that libuv does not cancel is told exactly once, with the first failure or with
-- success, and afterwards no request is pending.
pub attempt-told_once :
    (sl : TcpSrc) (a : Answers)
    → sl.conn_req ≡ false
    → a.connected ≢ some ecanceled
    → (told (attempt sl a).1 ≡ result a ∷ [])
      × ((attempt sl a).0.conn_req ≡ false)
      × ((attempt sl a).0.resolve_req ≡ false)
unfolding attempt resolve_cb told
attempt-told_once sl a idle up = ground (
  arith,
  idle,
  connect_cb-told (record sl { resolve_req = false; conn_req = true }) a.closing a.connected up,
)
