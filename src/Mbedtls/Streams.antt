-- ===== src/Mbedtls/Streams.antt =====
-- The queues of the mbedTLS engine are streams of bytes: `mbed_ssl_recv` and `mbed_ssl_send` of
-- src/mbedtls/engine.c over src/bio.c.
use tlsuv.Base.{
  ℕ, ◌+◌, ◌≡◌, ◌<◌, ◌^◌, refl, sym, ap, subst, ◌⊎◌, ◌∙◌, Bytes, Option, none, some, true, [], ◌∷◌,
  ◌++◌, arith, length, take, drop, inl, inr,
}
use tlsuv.Bio.{Bio, put}
use tlsuv.Bio.Stream.{Inv, stream}
use tlsuv.Bio.Laws.{read_lem}
use tlsuv.Bio.Put.{put_lem}
use tlsuv.TlsLink.{HsState, hs_continue, hs_complete, hs_error}
use tlsuv.Mbedtls.{
  Mbedtls, MbedtlsEngine, SslState, handshake_over, HsRc, hs_done, hs_want_read, hs_want_write,
  hs_failed, mbedtls_continue_hs, hs_step, resume, Io, done, recv, send, bio_read, mbed_ssl_recv,
  mbed_ssl_send, run,
}

-- What a function of mbedTLS does with two streams: it is given the first bytes that wait, and what
-- it sends comes behind the bytes that wait to be sent.
unfoldable pub run_streams : {A : Type 0} → Io A → Bytes → Bytes → Bytes × Bytes × A
run_streams (done a) i o = (i, o, a)
run_streams (recv n next) [] o = run_streams (next none) [] o
run_streams (recv n next) (b ∷ bs) o =
    run_streams (next (some (take n (b ∷ bs)))) (drop n (b ∷ bs)) o
run_streams (send b next) i o = run_streams next i (o ++ b)

-- All that is sent fits the counters of the queue.
abbrev pub Roomy : {A : Type 0} → Io A → Bio → Bio → Type 0
Roomy (done a) i o = Unit
Roomy (recv n next) i o = Roomy (next (mbed_ssl_recv i n).1) (mbed_ssl_recv i n).0 o
Roomy (send b next) i o =
    (o.available + length b < 2 ^ 64) × (o.qlen + 1 < 2 ^ 32) × Roomy next i (mbed_ssl_send o b)

bio_read_lem :
    (bio : Bio) (n : ℕ)
    → Inv bio
    → ((bio_read bio n).1 ≡ take n (stream bio))
      × (stream (bio_read bio n).0 ≡ drop n (stream bio))
      × Inv (bio_read bio n).0
bio_read_lem bio n v =
    let (final, e, left, keeps) = read_lem bio n v in rw (e, bio_read) (refl, left, keeps)

mbed_ssl_recv-none :
    (bio : Bio) (n : ℕ) → Inv bio → stream bio ≡ [] → mbed_ssl_recv bio n ≡ (bio, none)
unfolding mbed_ssl_recv
mbed_ssl_recv-none bio n v empty = ground (arith, v.counts, empty)

mbed_ssl_recv-some :
    (bio : Bio) (n b : ℕ) (bs : Bytes)
    → Inv bio
    → stream bio ≡ b ∷ bs
    → mbed_ssl_recv bio n ≡ ((bio_read bio n).0, some (take n (stream bio)))
unfolding mbed_ssl_recv
mbed_ssl_recv-some bio n b bs v there = ground (arith, v.counts, there, (bio_read_lem bio n v).0)

Bytes-cases : (s : Bytes) → (s ≡ []) ⊎ ((b : ℕ) × (bs : Bytes) × (s ≡ b ∷ bs))
Bytes-cases [] = inl refl
Bytes-cases (b ∷ bs) = inr (b, bs, refl)

-- An answer of the queue is one of the stream.
recv_step :
    {A : Type 0}
    → (n : ℕ) (next : Option Bytes → Io A) (i : Bio) (o : Bytes) → Inv i
    → (run_streams (next (mbed_ssl_recv i n).1) (stream (mbed_ssl_recv i n).0) o
        ≡ run_streams (recv n next) (stream i) o)
      × Inv (mbed_ssl_recv i n).0
unfolding run_streams
recv_step n next i o v = elim (Bytes-cases (stream i)) [
  | inl empty ↦
      let e = mbed_ssl_recv-none i n v empty in
      (
        ap (λ r. run_streams (next r.1) (stream r.0) o) e
            ∙ ap (λ s. run_streams (next none) s o) empty
            ∙ ap (λ s. run_streams (recv n next) s o) (sym empty),
        subst (λ r. Inv r.0) (sym e) v,
      )
  | inr (b, bs, there) ↦
      let e = mbed_ssl_recv-some i n b bs v there in
      let (_, left, keeps) = bio_read_lem i n v in
      (
        ap (λ r. run_streams (next r.1) (stream r.0) o) e
            ∙ ap (λ s. run_streams (next (some (take n (stream i)))) s o) left
            ∙ ap (λ s. run_streams (next (some (take n s))) (drop n s) o) there
            ∙ ap (λ s. run_streams (recv n next) s o) (sym there),
        subst (λ r. Inv r.0) (sym e) keeps,
      )
]

-- What the streams are after a function, and what it returns.
abbrev pub Refines : {A : Type 0} → Bio × Bio × A → Bytes × Bytes × A → Type 0
Refines (i, o, a) (is, os, b) = (stream i ≡ is) × (stream o ≡ os) × (a ≡ b) × Inv i × Inv o

-- Each function of mbedTLS runs over the two queues as over two streams of bytes: it is given all
-- bytes from the server once and in order, it is told to wait exactly when none are left, what it
-- sends waits in order behind what it sent before, and the queues stay well formed. The bytes that
-- are sent have to fit the counters of the queue.
pub run-run_streams :
    {A : Type 0}
    → (f : Io A) (i o : Bio) → Inv i
    → Inv o
    → Roomy f i o
    → Refines (run f i o) (run_streams f (stream i) (stream o))
unfolding run run_streams
run-run_streams (done a) i o v w room = (refl, refl, refl, v, w)
run-run_streams (send b next) i o v w (bytes_fit, count_fits, room) =
    let put_ = put_lem o b w bytes_fit count_fits in
    let o' = mbed_ssl_send o b in
    subst (λ s. Refines (run next i o') (run_streams next (stream i) s)) put_.0
      (run-run_streams next i o' v put_.1 room)
run-run_streams (recv n next) i o v w room =
    let (i', answer) = mbed_ssl_recv i n in
    let (same, v') = recv_step n next i (stream o) v in
    subst (λ r. Refines (run (next answer) i' o) r) same
      (run-run_streams (next answer) i' o v' w room)

-- What a step of the handshake comes to.
abbrev pub outcome : SslState → HsRc → HsState
outcome handshake_over rc = hs_complete
outcome _ hs_done = hs_error
outcome _ hs_want_read = hs_continue
outcome _ hs_want_write = hs_continue
outcome _ (hs_failed code) = hs_error

resume_fresh :
    {M N : Type 0}
    → (lib : Mbedtls M N) (e : MbedtlsEngine M N) → e.session ≡ none
    → resume lib e ≡ e
resume_fresh lib e fresh = ground (arith, fresh)

-- A step in terms of what mbedTLS does with the queues.
hs_step_lem :
    {M N : Type 0}
    → (lib : Mbedtls M N) (e : MbedtlsEngine M N) (maxout : ℕ)
    → let (e', st, out) = hs_step lib maxout e in
      let (i, o, (ssl, rc)) = run (lib.ssl_handshake e.ssl) e.input e.output in
      (out ≡ (bio_read o maxout).1)
      × (e'.input ≡ i)
      × (e'.output ≡ (bio_read o maxout).0)
      × (e'.ssl ≡ ssl)
      × (st ≡ outcome (lib.state ssl) rc)
unfolding hs_step
hs_step_lem lib e maxout = ground arith

-- What a step says, sends and keeps, for the streams `i` and `o`.
abbrev pub Stepped :
    {M N : Type 0}
    → Mbedtls M N
    → ℕ
    → M
    → Bytes
    → Bytes
    → MbedtlsEngine M N × HsState × Bytes
    → Type 0
Stepped lib maxout ssl i o (e, st, out) =
    let (i', o', (ssl', rc)) = run_streams (lib.ssl_handshake ssl) i o in
    (out ≡ take maxout o')
    × (stream e.input ≡ i')
    × (stream e.output ≡ drop maxout o')
    × (e.ssl ≡ ssl')
    × (st ≡ outcome (lib.state ssl') rc)
    × Inv e.input
    × Inv e.output

hs_step-Stepped :
    {M N : Type 0}
    → (lib : Mbedtls M N) (e : MbedtlsEngine M N) (maxout : ℕ) → Inv e.input
    → Inv e.output
    → Roomy (lib.ssl_handshake e.ssl) e.input e.output
    → Stepped lib maxout e.ssl (stream e.input) (stream e.output) (hs_step lib maxout e)
hs_step-Stepped lib e maxout v w room =
    let step = hs_step_lem lib e maxout in
    let ran = run-run_streams (lib.ssl_handshake e.ssl) e.input e.output v w room in
    let left = bio_read_lem (run (lib.ssl_handshake e.ssl) e.input e.output).1 maxout ran.4 in
    (
      step.0 ∙ left.0 ∙ ap (take maxout) ran.1,
      ap stream step.1 ∙ ran.0,
      ap stream step.2 ∙ left.1 ∙ ap (drop maxout) ran.1,
      step.3 ∙ ap (λ r. r.0) ran.2,
      step.4 ∙ ap (λ r. outcome (lib.state r.0) r.1) ran.2,
      subst Inv (sym step.1) ran.3,
      subst Inv (sym step.2) left.2,
    )

-- A step of the handshake, without a session to resume: what the engine says, sends and keeps is
-- what mbedTLS does on the stream of bytes from the server, the new ones behind those that waited. At
-- most `maxout` of the bytes to send are handed over, the first ones; the others stay for the next
-- call. The queues stay well formed. What is put into them has to fit their counters.
pub mbedtls_continue_hs-Stepped :
    {M N : Type 0}
    → (lib : Mbedtls M N) (e : MbedtlsEngine M N) (b : ℕ) (bs : Bytes) (maxout : ℕ) → Inv e.input
    → Inv e.output
    → e.session ≡ none
    → e.input.available + length (b ∷ bs) < 2 ^ 64
    → e.input.qlen + 1 < 2 ^ 32
    → Roomy (lib.ssl_handshake e.ssl) (put true true e.input (b ∷ bs)).0 e.output
    → Stepped lib maxout e.ssl
        (stream e.input ++ (b ∷ bs))
        (stream e.output)
        (mbedtls_continue_hs lib (some (b ∷ bs)) maxout e)
unfolding mbedtls_continue_hs
mbedtls_continue_hs-Stepped lib e b bs maxout v w fresh bytes_fit count_fits room =
    let fed = put_lem e.input (b ∷ bs) v bytes_fit count_fits in
    let e1 = record e { input = (put true true e.input (b ∷ bs)).0 } in
    subst
      (λ x.
        Stepped lib maxout e.ssl (stream e.input ++ (b ∷ bs)) (stream e.output)
          (hs_step lib maxout x))
      (sym (resume_fresh lib e1 fresh))
      (subst (λ i. Stepped lib maxout e.ssl i (stream e.output) (hs_step lib maxout e1)) fed.0
        (hs_step-Stepped lib e1 maxout fed.1 w room))
