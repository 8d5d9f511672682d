-- ===== src/Openssl/Reads.antt =====
-- The TLS link on top of the OpenSSL engine, reading.
use tlsuv.Base.{
  ℕ, zero, suc, ◌-◌, ◌≡◌, ◌≢◌, ◌≤◌, ◌<◌, refl, ap, sym, subst, ◌∙◌, Bytes, true, false, Option,
  none, some, List, [], ◌∷◌, ◌++◌, append-nil, append_assoc, length, length-append, concat, ltb,
  ◌||◌, arith, ◌⊎◌, inl, inr,
}
use tlsuv.TlsLink.{
  Engine, hs_complete, TlsResult, tls_ok, tls_more_available, tls_has_write, Call, parent_write,
  read_loop, tls_read_cb, tls_buf_sz,
}
use tlsuv.TlsLink.Reads.{plain, errors, Delivers, last_piece, next_piece, Delivers-read_loop}
use tlsuv.Openssl.{
  Ssl, SslError, error_none, want_read, ReadEx, read_got, read_none, OpensslEngine, feed_input,
  fill_loop, read_result, tls_read, openssl_engine, tls_hs_state, st_ok,
}

read_up :
    {E : Type 0} (engine : Engine E) (fuel : ℕ) (alloc : ℕ → ℕ) (e : E) (input : Bytes)
    (bufsize : ℕ)
    → engine.handshake_state e ≡ hs_complete
    → tls_read_cb engine fuel alloc e input bufsize
      ≡ read_loop engine fuel alloc 0 bufsize e (some input) bufsize
unfolding tls_read_cb
read_up engine fuel alloc e input bufsize up = ground (arith, up)

read_loop-has_write :
    {E : Type 0} (engine : Engine E) (fuel : ℕ) (alloc : ℕ → ℕ) (round bufsize : ℕ) (e e' : E)
    (input : Option Bytes) (len : ℕ) (out : Bytes)
    → engine.read input len e ≡ (e', tls_has_write, out)
    → read_loop engine (suc fuel) alloc round bufsize e input len
      ≡ some (
        (engine.write none tls_buf_sz e').0,
        parent_write (engine.write none tls_buf_sz e').2 ∷ [],
      )
unfolding read_loop
read_loop-has_write engine fuel alloc round bufsize e e' input len out r = ground (arith, r)

session_up :
    {S : Type 0} (lib : Ssl S) (e : OpensslEngine S)
    → lib.get_state e.ssl ≡ st_ok
    → tls_hs_state lib e ≡ hs_complete
unfolding tls_hs_state
session_up lib e up = ground (arith, up)

-- What a read gives of the data that is there.
abbrev pub Reads : Bytes → ℕ → ReadEx → Bytes → Type 0
Reads before n (read_none err) after = (err ≡ want_read) × (before ≡ []) × (after ≡ [])
Reads before n (read_got b bs) after = (before ≡ (b ∷ bs) ++ after) × (length bs < n)

-- What OpenSSL documents of reading, for sessions that are `Calm`: that are up and not closed, have
-- nothing to send, and stay so on what they are still to read, which has no close notify, alert,
-- key update or other message than data. `SSL_read_ex` gives a first part of the data `there`, or
-- asks for more input when there is none; and data that is left is either in the session or in the
-- BIO for input.
pub record Opens {S : Type 0} (lib : Ssl S) (there : S → Bytes) (Calm : S → Type 0) : Type 0 where
  pub reads :
      (s : S) (n : ℕ)
      → Calm s
      → Reads (there s) (suc n) (lib.read_ex (suc n) s).1 (there (lib.read_ex (suc n) s).0)
  pub stays : (s : S) (n : ℕ) → Calm s → Calm (lib.read_ex (suc n) s).0
  pub pends :
      (s : S) → Calm s → (there s ≡ []) ⊎ ((ltb 0 (lib.in_pending s) || lib.ssl_pending s) ≡ true)
  pub not_closed : (s : S) → Calm s → lib.is_shut_down s ≡ false
  pub quiet : (s : S) → Calm s → lib.out_pending s ≡ 0

ReadEx-cases :
    (r : ReadEx)
    → ((err : SslError) × (r ≡ read_none err)) ⊎ ((b : ℕ) × (bs : Bytes) × (r ≡ read_got b bs))
ReadEx-cases (read_none err) = inl (err, refl)
ReadEx-cases (read_got b bs) = inr (b, bs, refl)

module _ {S : Type 0} (lib : Ssl S) (there : S → Bytes) (Calm : S → Type 0)
    (laws : Opens lib there Calm) where
  -- The loop takes a first part of the data: all of it, and asks for more, or as much as there is
  -- room for.
  abbrev Filled : ℕ → S → S × Bytes × SslError → Type 0
  Filled room s (s', out, err) =
      (there s ≡ out ++ there s')
      × (((err ≡ want_read) × (there s' ≡ [])) ⊎ ((err ≡ error_none) × (length out ≡ room)))

  read_one :
      (room : ℕ) (s : S) (r : ReadEx)
      → Calm s
      → (lib.read_ex (suc room) s).1 ≡ r
      → Reads (there s) (suc room) r (there (lib.read_ex (suc room) s).0)
  read_one room s r calm e =
      subst (λ q. Reads (there s) (suc room) q (there (lib.read_ex (suc room) s).0)) e
        (laws.reads s room calm)

  fill_loop-there :
      (fuel room : ℕ) (s : S) → Calm s → room ≤ fuel → Filled room s (fill_loop lib fuel room s)
  unfolding fill_loop
  fill_loop-there fuel zero s calm h = (refl, inr (refl, refl))
  fill_loop-there zero (suc room) s calm h = absurd (omega (arith, h))
  fill_loop-there (suc fuel) (suc room) s calm h =
      let s' = (lib.read_ex (suc room) s).0 in
      let ih =
        λ (k : ℕ) (small : k ≤ fuel). fill_loop-there fuel k s' (laws.stays s room calm) small in
      elim (ReadEx-cases (lib.read_ex (suc room) s).1) [
        | inl (err, e) ↦ let one = read_one room s (read_none err) calm e in ground (arith, e, one)
        | inr (b, bs, e) ↦
            let one = read_one room s (read_got b bs) calm e in
            let rest = ih (room - length bs) (omega (arith, h)) in
            let out = (fill_loop lib fuel (room - length bs) s').1 in
            ground (
              arith,
              e,
              one,
              rest,
              length-append bs out,
              append_assoc bs out (there (fill_loop lib fuel (room - length bs) s').0),
            )
      ]

  fill_loop-Calm : (fuel room : ℕ) (s : S) → Calm s → Calm (fill_loop lib fuel room s).0
  unfolding fill_loop
  fill_loop-Calm fuel zero s calm = calm
  fill_loop-Calm zero (suc room) s calm = calm
  fill_loop-Calm (suc fuel) (suc room) s calm =
      let s' = (lib.read_ex (suc room) s).0 in
      let ih = λ (k : ℕ). fill_loop-Calm fuel k s' (laws.stays s room calm) in
      elim (ReadEx-cases (lib.read_ex (suc room) s).1) [
        | inl (err, e) ↦ rw (e, fill_loop) (laws.stays s room calm)
        | inr (b, bs, e) ↦ rw (e, fill_loop) (ih (room - length bs))
      ]

  -- One call of the engine's `read`: a first part of the data, with TLS_OK if it is all, and
  -- otherwise with TLS_MORE_AVAILABLE and the buffer full.
  abbrev Read : ℕ → S → OpensslEngine S × TlsResult × Bytes → Type 0
  Read maxout s (e', rc, out) =
      (there s ≡ out ++ there e'.ssl)
      × (((rc ≡ tls_ok) × (there e'.ssl ≡ []))
          ⊎ ((rc ≡ tls_more_available) × (length out ≡ maxout)))
      × Calm e'.ssl

  tls_read-Read :
      (input : Option Bytes) (maxout : ℕ) (e : OpensslEngine S)
      → Calm (feed_input lib input e.ssl)
      → Read maxout (feed_input lib input e.ssl) (tls_read lib input maxout e)
  unfolding tls_read read_result
  tls_read-Read input maxout e calm =
      let s = feed_input lib input e.ssl in
      let s' = (fill_loop lib maxout maxout s).0 in
      let filled = fill_loop-there maxout maxout s calm (omega arith) in
      let calm' = fill_loop-Calm maxout maxout s calm in
      let pends = laws.pends s' calm' in
      let not_closed = laws.not_closed s' calm' in
      let quiet = laws.quiet s' calm' in
      let same : (tls_read lib input maxout e).0.ssl ≡ s' = ground (arith, filled, not_closed) in
      (
        ground (arith, filled, pends, not_closed, quiet),
        ground (arith, filled, pends, not_closed, quiet),
        subst Calm (sym same) calm',
      )

  -- All the data that is there after some input, in at most `suc n` pieces.
  abbrev Delivered : (ℕ → ℕ) → ℕ → ℕ → OpensslEngine S → Option Bytes → ℕ → Type 0
  Delivered alloc n round e input len =
      (outs : List Bytes) × (e' : OpensslEngine S) × Delivers (openssl_engine lib) alloc round e
        input len outs e'
      × (concat outs ≡ there (feed_input lib input e.ssl))
      × (there e'.ssl ≡ [])
      × (length outs ≤ suc n)

  Delivered-last :
      (alloc : ℕ → ℕ) (n round : ℕ) (e : OpensslEngine S) (input : Option Bytes) (len : ℕ)
      → Calm (feed_input lib input e.ssl)
      → (tls_read lib input len e).1 ≡ tls_ok
      → there (tls_read lib input len e).0.ssl ≡ []
      → Delivered alloc n round e input len
  Delivered-last alloc n round e input len calm ok all =
      let (e', rc, out) = tls_read lib input len e in
      (
        out ∷ [],
        e',
        last_piece round e input len e' out (ground (arith, ok)),
        ground (arith, tls_read-Read input len e calm, all, append-nil out),
        all,
        omega arith,
      )

  Delivered-next :
      (alloc : ℕ → ℕ) (n round : ℕ) (e : OpensslEngine S) (input : Option Bytes) (len : ℕ)
      → Calm (feed_input lib input e.ssl)
      → (tls_read lib input len e).1 ≡ tls_more_available
      → alloc round ≢ 0
      → Delivered alloc n (suc round) (tls_read lib input len e).0 none (alloc round)
      → Delivered alloc (suc n) round e input len
  Delivered-next alloc n round e input len calm more room (outs, e'', rest, whole, empty, few) =
      let (e', rc, out) = tls_read lib input len e in
      (
        out ∷ outs,
        e'',
        next_piece round e input len e' e'' rc out outs refl (ground (arith, more)) room rest,
        ground (arith, tls_read-Read input len e calm, whole),
        empty,
        omega (arith, few),
      )

  delivers_all :
      (alloc : ℕ → ℕ)
      → ((r : ℕ) → alloc r ≢ 0)
      → (n round : ℕ) (e : OpensslEngine S) (input : Option Bytes) (len : ℕ)
      → Calm (feed_input lib input e.ssl)
      → length (there (feed_input lib input e.ssl)) ≤ n
      → len ≢ 0
      → Delivered alloc n round e input len
  delivers_all alloc room zero round e input len calm h some_room =
      let e' = (tls_read lib input len e).0 in
      let one = tls_read-Read input len e calm in
      elim one.1 [
        | inl (ok, all) ↦ Delivered-last alloc zero round e input len calm ok all
        | inr (more, full) ↦ absurd (
            omega (
              arith,
              h,
              some_room,
              full,
              ap length one.0,
              length-append (tls_read lib input len e).2 (there e'.ssl),
            ))
      ]
  delivers_all alloc room (suc n) round e input len calm h some_room =
      let e' = (tls_read lib input len e).0 in
      let one = tls_read-Read input len e calm in
      let rest = delivers_all alloc room n (suc round) e' none (alloc round) one.2 in
      elim one.1 [
        | inl (ok, all) ↦ Delivered-last alloc (suc n) round e input len calm ok all
        | inr (more, full) ↦ Delivered-next alloc n round e input len calm more (room round) (
            rest
              (omega (
                arith,
                h,
                some_room,
                full,
                ap length one.0,
                length-append (tls_read lib input len e).2 (there e'.ssl),
              ))
              (room round))
      ]

  -- Bytes that come from the server on a session that is up, where neither it nor these bytes have a
  -- message other than data: all the data that they complete is given to the link above, in order, with no
  -- error, where that link has a buffer in each round; nothing is left behind in the engine, and
  -- there are at most as many rounds as bytes of data, and one more.
  pub tls_read_cb-openssl :
      (alloc : ℕ → ℕ)
      → ((r : ℕ) → alloc r ≢ 0)
      → (e : OpensslEngine S) (input : Bytes) (bufsize fuel : ℕ) → lib.get_state e.ssl ≡ st_ok
      → Calm (feed_input lib (some input) e.ssl)
      → bufsize ≢ 0
      → suc (length (there (feed_input lib (some input) e.ssl))) ≤ fuel
      → (e' : OpensslEngine S) × (calls : List Call) × (tls_read_cb
            (openssl_engine lib)
            fuel
            alloc
            e
            input
            bufsize
          ≡ some (e', calls))
        × (concat (plain calls) ≡ there (feed_input lib (some input) e.ssl))
        × (errors calls ≡ [])
        × (there e'.ssl ≡ [])
  tls_read_cb-openssl alloc room e input bufsize fuel up calm some_room enough =
      let n = length (there (feed_input lib (some input) e.ssl)) in
      let (outs, e', pieces, whole, empty, few) =
        delivers_all alloc room n 0 e (some input) bufsize calm (omega arith) some_room in
      let (calls, runs, told, clean) =
        Delivers-read_loop (openssl_engine lib) alloc 0 e (some input) bufsize outs e' fuel bufsize
          pieces (omega (arith, few, enough)) in
      (
        e',
        calls,
        read_up (openssl_engine lib) fuel alloc e input bufsize (session_up lib e up) ∙ runs,
        ap concat told ∙ whole,
        clean,
        empty,
      )

read_has_write :
    {S : Type 0} (lib : Ssl S) (e : OpensslEngine S) (input : Option Bytes) (len : ℕ) (s : S)
    (out : Bytes)
    → fill_loop lib len len (feed_input lib input e.ssl) ≡ (s, out, want_read)
    → 0 < lib.out_pending s
    → tls_read lib input len e ≡ (record e { ssl = s }, tls_has_write, out)
unfolding tls_read read_result
read_has_write lib e input len s out opened waits = ground (arith, opened, waits)

-- Where the session has a message of its own to send after the data that it opened, a key update for
-- instance, the engine says so and the link sends that message; the data is lost.
pub openssl_data_lost :
    {S : Type 0} (lib : Ssl S) (alloc : ℕ → ℕ) (e : OpensslEngine S) (input out : Bytes) (s : S)
    (fuel bufsize : ℕ)
    → lib.get_state e.ssl ≡ st_ok
    → fill_loop lib bufsize bufsize (feed_input lib (some input) e.ssl) ≡ (s, out, want_read)
    → 0 < lib.out_pending s
    → (e' : OpensslEngine S) × (flight : Bytes) × (tls_read_cb
          (openssl_engine lib)
          (suc fuel)
          alloc
          e
          input
          bufsize
        ≡ some (e', parent_write flight ∷ []))
      × ((tls_read lib (some input) bufsize e).2 ≡ out)
openssl_data_lost lib alloc e input out s fuel bufsize up opened waits =
    let engine = openssl_engine lib in
    let e' = record e { ssl = s } in
    let r = read_has_write lib e (some input) bufsize s out opened waits in
    (
      (engine.write none tls_buf_sz e').0,
      (engine.write none tls_buf_sz e').2,
      read_up engine (suc fuel) alloc e input bufsize (session_up lib e up)
          ∙ read_loop-has_write engine fuel alloc 0 bufsize e e' (some input) bufsize out r,
      ap (λ t. t.2) r,
    )
