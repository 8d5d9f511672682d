-- ===== src/Openssl/Writes.antt =====
-- The TLS link on top of the OpenSSL engine, writing.
use tlsuv.Base.{
  ℕ, zero, suc, ◌≡◌, ◌≤◌, refl, ap, sym, Bytes, true, none, some, List, [], ◌∷◌, ◌++◌, append-nil,
  append_assoc, length, take, drop, take_all, drop_all, length-drop, ◌==◌, arith, if◌then◌else◌,
}
use tlsuv.TlsLink.{Engine, wrapped, Written, write_passed, foreign_argument}
use tlsuv.TlsLink
use tlsuv.TlsLink.Writes.{Keeps, flight, tls_write_lem}
use tlsuv.Openssl.{Ssl, OpensslEngine, write_loop, tls_write, take_output, openssl_engine}

-- What OpenSSL documents of writing on a session that is up: `SSL_write_ex` seals a first part of
-- the data, and the sealed bytes wait in the BIO for output until they are read.
pub record Seals {S : Type 0} (lib : Ssl S) (waiting : S → Bytes) (seal : S → Bytes → Bytes)
    : Type 0 where
  pub counts : (s : S) → lib.out_pending s ≡ length (waiting s)
  pub drains :
      (n : ℕ) (s : S)
      → ((lib.drain n s).1 ≡ take n (waiting s)) × (waiting (lib.drain n s).0 ≡ drop n (waiting s))
  pub writes :
      (s : S) (b : ℕ) (bs : Bytes)
      → (k : ℕ) × ((lib.write_ex (b ∷ bs) s).1 ≡ some k)
        × (waiting (lib.write_ex (b ∷ bs) s).0 ≡ waiting s ++ seal s (b ∷ bs))

module _ {S : Type 0} (lib : Ssl S) (waiting : S → Bytes) (seal : S → Bytes → Bytes) where
  -- The sealed bytes of some data, a record for each round of the loop.
  unfoldable pub records : ℕ → Bytes → S → Bytes
  records fuel [] s = []
  records zero (b ∷ bs) s = []
  records (suc fuel) (b ∷ bs) s = elim (lib.write_ex (b ∷ bs) s).1 [
    | none ↦ []
    | some k ↦ seal s (b ∷ bs) ++ records fuel (drop k bs) (lib.write_ex (b ∷ bs) s).0
  ]

  write_loop-records :
      (fuel : ℕ) (bytes : Bytes) (s : S)
      → Seals lib waiting seal
      → length bytes ≤ fuel
      → ((write_loop lib fuel bytes s).1 ≡ true)
        × (waiting (write_loop lib fuel bytes s).0 ≡ waiting s ++ records fuel bytes s)
  unfolding write_loop records
  write_loop-records fuel [] s laws h = (refl, sym (append-nil (waiting s)))
  write_loop-records zero (b ∷ bs) s laws h = absurd (omega (arith, h))
  write_loop-records (suc fuel) (b ∷ bs) s laws h =
      let (k, wrote, after) = laws.writes s b bs in
      let s' = (lib.write_ex (b ∷ bs) s).0 in
      let rest = write_loop-records fuel (drop k bs) s' laws (omega (arith, h, length-drop k bs)) in
      ground (
        arith,
        wrote,
        after,
        rest,
        append_assoc (waiting s) (seal s (b ∷ bs)) (records fuel (drop k bs) s'),
      )

  abbrev pub kept : OpensslEngine S → Bytes
  kept e = waiting e.ssl

  abbrev pub sealed : OpensslEngine S → Bytes → Bytes
  sealed e b = records (length b) b e.ssl

  drain_none : (s : S) → Seals lib waiting seal → waiting (take_output lib 0 s).0 ≡ waiting s
  drain_none s laws = ground (arith, laws.drains 0 s)

  drain_all :
      (s : S)
      → Seals lib waiting seal
      → ((take_output lib (length (waiting s)) s).1 ≡ waiting s)
        × (waiting (take_output lib (length (waiting s)) s).0 ≡ [])
  drain_all s laws = ground (
    arith,
    laws.drains (length (waiting s)) s,
    laws.counts s,
    take_all (length (waiting s)) (waiting s),
    drop_all (length (waiting s)) (waiting s),
  )

  takes_lem :
      (e : OpensslEngine S) (b : Bytes)
      → Seals lib waiting seal
      → (kept (tls_write lib (some b) 0 e).0 ≡ kept e ++ sealed e b)
        × ((tls_write lib (some b) 0 e).1 ≡ wrapped (length (kept (tls_write lib (some b) 0 e).0)))
  unfolding tls_write
  takes_lem e b laws =
      let s = (write_loop lib (length b) b e.ssl).0 in
      let wrote = write_loop-records (length b) b e.ssl laws (omega arith) in
      let same = drain_none s laws in
      ground (arith, wrote, same, laws.counts (take_output lib 0 s).0)

  gives_lem :
      (e : OpensslEngine S)
      → Seals lib waiting seal
      → ((tls_write lib none (length (kept e)) e).2 ≡ kept e)
        × ((tls_write lib none (length (kept e)) e).1 ≡ wrapped 0)
  unfolding tls_write write_loop
  gives_lem e laws =
      let s = (take_output lib (length (waiting e.ssl)) e.ssl).0 in
      let all = drain_all e.ssl laws in ground (arith, all, laws.counts s, ap length all.1)

  -- The engine does what the TLS link relies on: it keeps the sealed bytes of what it is given, says
  -- how many there are, and hands them over when it is asked.
  pub openssl_engine-Keeps : Seals lib waiting seal → Keeps (openssl_engine lib) kept sealed
  openssl_engine-Keeps laws = record {
    takes = λ e b. takes_lem e b laws;
    gives = λ e. gives_lem e laws;
  }

  -- What the link writes over the engine, on a session that is up and has nothing to send yet: the
  -- sealed bytes of all the buffers in order, in one write. If these are empty, as for no data, it
  -- calls its own completion on an argument that belongs to the caller.
  pub tls_write-openssl :
      (e : OpensslEngine S) (bufs : List Bytes)
      → Seals lib waiting seal
      → waiting e.ssl ≡ []
      → (TlsLink.tls_write (openssl_engine lib) e bufs).1 ≡ (
          if length (flight (openssl_engine lib) kept sealed e bufs) == 0
          then foreign_argument
          else write_passed (flight (openssl_engine lib) kept sealed e bufs))
  tls_write-openssl e bufs laws empty =
      tls_write_lem (openssl_engine lib) kept sealed e bufs (openssl_engine-Keeps laws) empty
