-- ===== src/Stream/Laws.antt =====
-- How often the connection callback of a stream is called.
use tlsuv.Base.{
  ℕ, suc, ◌+◌, ◌≡◌, ◌≢◌, Bytes, Bool, true, false, Option, none, some, List, [], ◌∷◌, arith, ◌^◌,
  ◌-◌, if◌then◌else◌, ◌≤◌,
}
use tlsuv.Http.Types.{Uv, ealready}
use tlsuv.Http.Client.Connect.{Handshake}
use tlsuv.Stream.{
  Stream, Call, conn_told, on_mbed_close, on_tls_hs, on_src_connect, stream_connect, stream_close,
}

-- The calls of the connection callback.
unfoldable pub told : List Call → ℕ
told [] = 0
told (conn_told status ∷ calls) = suc (told calls)
told (_ ∷ calls) = told calls

-- The callbacks that are due.
abbrev pub due : Stream → ℕ
due s = if s.conn_req then 1 else 0

-- What happens to a stream between two connections.
pub data Step : Stream → Stream → ℕ → Type 0 where
  step_hs :
      (s : Stream) (status : Handshake)
      → Step s (on_tls_hs s status).0 (told (on_tls_hs s status).1)
  step_src :
      (s s' : Stream) (calls : List Call) (status : Option Uv)
      → on_src_connect s status ≡ some (s', calls)
      → Step s s' (told calls)
  step_close : (s : Stream) (cb : Bool) → Step s (stream_close s cb).0 (told (stream_close s cb).1)
  step_closed : (s : Stream) → Step s (on_mbed_close s).0 (told (on_mbed_close s).1)

-- Any number of steps, with the number of calls in all.
pub data Steps : Stream → Stream → ℕ → Type 0 where
  done : (s : Stream) → Steps s s 0
  then_step : (s s' s'' : Stream) (n k : ℕ) → Step s s' n → Steps s' s'' k → Steps s s'' (n + k)

Step-due : (s s' : Stream) (n : ℕ) → Step s s' n → n + due s' ≡ due s
unfolding on_tls_hs on_src_connect stream_close on_mbed_close told
Step-due _ _ _ (step_hs s status) = ground arith
Step-due _ _ _ (step_src s s' calls none e) = ground (arith, e)
Step-due _ _ _ (step_src s s' calls (some x) e) = ground (arith, e)
Step-due _ _ _ (step_close s cb) = ground arith
Step-due _ _ _ (step_closed s) = ground arith

-- After any number of steps the connection callback has been called once if it was due at the
-- start and is no longer, and else not at all: never twice, and never without a request.
pub Steps-due : (s s' : Stream) (n : ℕ) → Steps s s' n → n + due s' ≡ due s
Steps-due _ _ _ (done s) = omega arith
Steps-due _ _ _ (then_step s s' s'' n k first rest) =
    omega (arith, Step-due s s' n first, Steps-due s' s'' k rest)

-- When the source refuses to connect, the call returns its error but the request stays: every later
-- attempt with a proper port is refused as one that is already under way.
stream_connect-stuck :
    (s : Stream) (host host' : Bytes) (port port' : ℕ) (e : Uv) (rc : Option Uv)
    → s.conn_req ≡ false
    → port ≢ 0
    → port ≤ 2 ^ 16 - 1
    → port' ≢ 0
    → port' ≤ 2 ^ 16 - 1
    → let (s', calls, result) = stream_connect s true host false port (some e) in
      (result ≡ some e) × (stream_connect s' true host' false port' rc ≡ (s', [], some ealready))
unfolding stream_connect
stream_connect-stuck s host host' port port' e rc idle p q p' q' =
    (ground (arith, idle, p, q), ground (arith, idle, p, q, p', q'))
