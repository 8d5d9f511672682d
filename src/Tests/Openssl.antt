-- ===== src/Tests/Openssl.antt =====
-- Instances for the OpenSSL engine: an OpenSSL that encrypts nothing and takes a byte at a time.
use tlsuv.Base.{
  ℕ, suc, ◌≡◌, ◌≢◌, ◌≤◌, ◌+◌, refl, Bytes, Bool, true, false, none, some, List, [], ◌∷◌, ◌++◌,
  codes, arith, concat, length, take, drop, ◌==◌, if◌then◌else◌, inl, inr, All, ltb, ◌||◌, ◌⊎◌,
}
use tlsuv.TlsLink
use tlsuv.TlsLink.{Call, parent_write, write_passed, foreign_argument, tls_read_cb}
use tlsuv.TlsLink.Reads.{plain, errors}
use tlsuv.TlsLink.Writes.{flight}
use tlsuv.Openssl.{
  Ssl, hs_done, want_read, read_got, read_none, st_ok, OpensslEngine, openssl_engine,
}
use tlsuv.Openssl.Alpn.{rfc_names, alpn_given, rfc_names-alpn_given}
use tlsuv.Openssl.Writes.{Seals, kept, sealed, tls_write-openssl}
use tlsuv.Openssl.Reads.{Opens, Reads, tls_read_cb-openssl}
use tlsuv.Openssl.Chains.{
  X509, VerifyRc, valid, invalid, IsChain, count, pass, place, process_chains, verify_peer_cb,
  process_chains-IsChain, verify_peer_cb-IsChain,
}

-- What waits to be read and to be sent.
abbrev Pipe : Type 0
Pipe = Bytes × Bytes

abbrev plain_ssl : (Pipe → ℕ) → Ssl Pipe
plain_ssl out_pending = record {
  feed = λ b s. (s.0 ++ b, s.1);
  do_handshake = λ s. (s, hs_done);
  get_state = λ s. st_ok;
  out_pending = out_pending;
  in_pending = λ s. length s.0;
  ssl_pending = λ s. false;
  drain = λ n s. ((s.0, drop n s.1), take n s.1);
  write_ex = λ b s. ((s.0, s.1 ++ take 1 b), some 0);
  read_ex = λ n s. elim s.0 [ [] ↦ (s, read_none want_read) | b ∷ bs ↦ ((bs, s.1), read_got b []) ];
  is_shut_down = λ s. false;
  shut_down = λ s. s;
  clear = λ s. none;
  alpn_selected = λ s. codes "h2";
  get_error = λ s. 0;
}

abbrev up : Pipe → OpensslEngine Pipe
up s = record { ssl = s; alpn = none; error = 0 }

abbrev writer : Ssl Pipe
writer = plain_ssl (λ s. length s.1)

abbrev first_byte_sealed : Pipe → Bytes → Bytes
first_byte_sealed s b = take 1 b

writer-Seals : Seals writer (λ s. s.1) first_byte_sealed
writer-Seals = record {
  counts = λ s. refl;
  drains = λ n s. (refl, refl);
  writes = λ s b bs. (0, refl, refl);
}

tls_write-openssl_example :
    (TlsLink.tls_write (openssl_engine writer) (up ([], [])) (codes "ab" ∷ codes "c" ∷ [])).1 ≡ (
      if length (
          flight
            (openssl_engine writer)
            (kept writer (λ s. s.1) first_byte_sealed)
            (sealed writer (λ s. s.1) first_byte_sealed)
            (up ([], []))
            (codes "ab" ∷ codes "c" ∷ []))
        == 0
      then foreign_argument
      else write_passed (
          flight
            (openssl_engine writer)
            (kept writer (λ s. s.1) first_byte_sealed)
            (sealed writer (λ s. s.1) first_byte_sealed)
            (up ([], []))
            (codes "ab" ∷ codes "c" ∷ [])))
tls_write-openssl_example =
    tls_write-openssl writer (λ s. s.1) first_byte_sealed (up ([], []))
      (codes "ab" ∷ codes "c" ∷ []) writer-Seals refl

abbrev reader : Ssl Pipe
reader = plain_ssl (λ s. 0)

read_ex-Reads :
    (s : Pipe) (n : ℕ)
    → Reads s.0 (suc n) (reader.read_ex (suc n) s).1 (reader.read_ex (suc n) s).0.0
read_ex-Reads ([], o) n = (refl, refl, refl)
read_ex-Reads (b ∷ bs, o) n = (refl, omega arith)

some_pends : (s : Pipe) → (s.0 ≡ []) ⊎ ((ltb 0 (length s.0) || false) ≡ true)
some_pends ([], o) = inl refl
some_pends (b ∷ bs, o) = inr (ground arith)

reader-Opens : Opens reader (λ s. s.0) (λ s. Unit)
reader-Opens = record {
  reads = λ s n calm. read_ex-Reads s n;
  stays = λ s n calm. tt;
  pends = λ s calm. some_pends s;
  not_closed = λ s calm. refl;
  quiet = λ s calm. refl;
}

tls_read_cb-openssl_example :
    (e' : OpensslEngine Pipe) × (calls : List Call) × (tls_read_cb
        (openssl_engine reader)
        4
        (λ r. 2)
        (up ([], []))
        (codes "abc")
        2
      ≡ some (e', calls))
    × (concat (plain calls) ≡ codes "abc")
    × (errors calls ≡ [])
    × (e'.ssl.0 ≡ [])
tls_read_cb-openssl_example =
    tls_read_cb-openssl reader (λ s. s.0) (λ s. Unit) reader-Opens (λ r. 2) (λ r. ground arith)
      (up ([], [])) (codes "abc") 2 4 refl tt (ground arith) (omega arith)

rfc_names-alpn_given_example :
    rfc_names 3 (alpn_given (codes "h2" ∷ codes "http/1.1" ∷ []))
    ≡ some (codes "h2" ∷ codes "http/1.1" ∷ [])
rfc_names-alpn_given_example =
    rfc_names-alpn_given (codes "h2" ∷ codes "http/1.1" ∷ []) 3 (ground arith) (omega arith)

-- Certificates are numbers: those below ten are self-signed, and each other one is verified by a
-- store with the certificate ten below it.
abbrev holds : ℕ → List ℕ → VerifyRc
holds n [] = invalid
holds n (c ∷ cs) = if c + 10 == n then valid else holds n cs

abbrev numbers : X509 ℕ
numbers = record {
  is_self_signed = λ c. if c == 1 then true else c == 2;
  verify = λ s untrusted c. holds c s;
}

abbrev bundle : List ℕ
bundle = 21 ∷ 1 ∷ 11 ∷ 2 ∷ 40 ∷ []

process_chains-IsChain_example :
    (count numbers numbers.is_self_signed (concat (process_chains numbers bundle).0)
        + count numbers numbers.is_self_signed (process_chains numbers bundle).1
      ≡ count numbers numbers.is_self_signed bundle)
    × All (IsChain numbers) (process_chains numbers bundle).0
    × (length (process_chains numbers bundle).0 ≡ count numbers numbers.is_self_signed bundle)
process_chains-IsChain_example = process_chains-IsChain numbers numbers.is_self_signed bundle

verify_peer_cb-IsChain_example :
    (s : List ℕ) × IsChain numbers s
    × ((p : ℕ → Bool) → count numbers p s ≤ count numbers p bundle)
    × (numbers.verify s [] 31 ≢ invalid)
unfolding verify_peer_cb process_chains pass place
verify_peer_cb-IsChain_example = verify_peer_cb-IsChain numbers bundle [] 31 refl
