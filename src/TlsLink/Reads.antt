-- ===== src/TlsLink/Reads.antt =====
-- Reading application data through the TLS link.
use tlsuv.Base.{
  ℕ, zero, suc, ◌≡◌, ◌≢◌, ◌≤◌, ◌<◌, refl, Bytes, Bool, true, false, Option, none, some, List, [],
  ◌∷◌, ◌++◌, append-nil, append_assoc, concat, ap, sym, ◌∙◌, length, ltb, arith, ◌⊎◌, if◌then◌else◌,
}
use tlsuv.Http.Types.{Uv, econnaborted, eof, enobufs}
use tlsuv.TlsLink.{
  Engine, hs_continue, hs_error, TlsResult, tls_ok, tls_err, tls_eof, tls_read_again,
  tls_more_available, tls_has_write, tls_unknown, Call, read_told, read_failed, hs_told,
  parent_write, alloc_told, read_loop, tls_read_cb, read_handshake, tls_buf_sz,
}

-- The data and the errors that the link above is given.
unfoldable pub plain : List Call → List Bytes
plain [] = []
plain (read_told b ∷ calls) = b ∷ plain calls
plain (_ ∷ calls) = plain calls

unfoldable pub errors : List Call → List Uv
errors [] = []
errors (read_failed e ∷ calls) = e ∷ errors calls
errors (_ ∷ calls) = errors calls

-- Does the loop go on after this result?
abbrev pub goes_on : TlsResult → Bool
goes_on tls_read_again = true
goes_on tls_more_available = true
goes_on tls_ok = false
goes_on tls_err = false
goes_on tls_eof = false
goes_on tls_has_write = false
goes_on tls_unknown = false

module _ {E : Type 0} (engine : Engine E) (alloc : ℕ → ℕ) where
  -- The engine has these pieces of data for the link, one in each round, the last one with TLS_OK;
  -- it is given the input in the first round, and the link above has a buffer for each round.
  pub data Delivers : ℕ → E → Option Bytes → ℕ → List Bytes → E → Type 0 where
    last_piece :
        (round : ℕ) (e : E) (input : Option Bytes) (len : ℕ) (e' : E) (out : Bytes)
        → engine.read input len e ≡ (e', tls_ok, out)
        → Delivers round e input len (out ∷ []) e'
    next_piece :
        (round : ℕ) (e : E) (input : Option Bytes) (len : ℕ) (e' e'' : E) (rc : TlsResult)
        (out : Bytes) (outs : List Bytes)
        → engine.read input len e ≡ (e', rc, out)
        → goes_on rc ≡ true
        → alloc round ≢ 0
        → Delivers (suc round) e' none (alloc round) outs e''
        → Delivers round e input len (out ∷ outs) e''

  goes_again :
      (rc : TlsResult) → goes_on rc ≡ true → (rc ≡ tls_read_again) ⊎ (rc ≡ tls_more_available)
  goes_again rc h = ground (arith, h)

  -- All the data that the engine has after some input reaches the link above, in order and once, and
  -- no error does, where that link has a buffer for each round; a round for each piece is enough.
  pub Delivers-read_loop :
      (round : ℕ) (e : E) (input : Option Bytes) (len : ℕ) (outs : List Bytes) (e' : E)
      (fuel bufsize : ℕ)
      → Delivers round e input len outs e'
      → length outs ≤ fuel
      → (calls : List Call) × (read_loop engine fuel alloc round bufsize e input len
          ≡ some (e', calls))
        × (plain calls ≡ outs)
        × (errors calls ≡ [])
  unfolding read_loop plain errors
  Delivers-read_loop _ _ _ _ _ _ zero bufsize (last_piece round e input len e' out r) h =
      absurd (omega (arith, h))
  Delivers-read_loop _ _ _ _ _ _ zero bufsize
        (next_piece round e input len e' e'' rc out outs r a b d) h =
      absurd (omega (arith, h))
  Delivers-read_loop _ _ _ _ _ _ (suc fuel) bufsize (last_piece round e input len e' out r) h =
      (read_told out ∷ [], ground (arith, r), refl, refl)
  Delivers-read_loop _ _ _ _ _ _ (suc fuel) bufsize
        (next_piece round e input len e' e'' rc out outs r a b d) h =
      let (calls, runs, data', clean) =
        Delivers-read_loop (suc round) e' none (alloc round) outs e'' fuel bufsize d
          (omega (arith, h)) in
      (
        read_told out ∷ alloc_told bufsize ∷ calls,
        ground (arith, r, a, b, runs, goes_again rc a),
        ground (arith, data'),
        clean,
      )

  -- How a run of rounds ends: with a result that does not ask for another round, or because the link
  -- above has no buffer for it.
  pub data Ending : Type 0 where
    ended_by : TlsResult → Ending
    no_buffer : Ending

  -- The rounds of the engine, with the data of each that is not the last, the data of the last, and
  -- how they end.
  pub data Rounds : ℕ → E → Option Bytes → ℕ → List Bytes → Bytes → Ending → Type 0 where
    last_round :
        (round : ℕ) (e : E) (input : Option Bytes) (len : ℕ) (e' : E) (rc : TlsResult) (out : Bytes)
        → engine.read input len e ≡ (e', rc, out)
        → goes_on rc ≡ false
        → Rounds round e input len [] out (ended_by rc)
    cut_short :
        (round : ℕ) (e : E) (input : Option Bytes) (len : ℕ) (e' : E) (rc : TlsResult) (out : Bytes)
        → engine.read input len e ≡ (e', rc, out)
        → goes_on rc ≡ true
        → alloc round ≡ 0
        → Rounds round e input len [] out no_buffer
    one_more :
        (round : ℕ) (e : E) (input : Option Bytes) (len : ℕ) (e' : E) (rc : TlsResult) (out : Bytes)
        (outs : List Bytes) (last : Bytes) (ending : Ending)
        → engine.read input len e ≡ (e', rc, out)
        → goes_on rc ≡ true
        → alloc round ≢ 0
        → Rounds (suc round) e' none (alloc round) outs last ending
        → Rounds round e input len (out ∷ outs) last ending

  -- What the link above is to get of the last round's data: all of it, but nothing where the engine
  -- has something to send.
  abbrev pub last_data : Ending → Bytes → Bytes
  last_data (ended_by tls_has_write) out = []
  last_data _ out = out

  -- The error that the link above is to be given.
  abbrev pub error_of : Ending → List Uv
  error_of (ended_by tls_eof) = eof ∷ []
  error_of (ended_by tls_err) = econnaborted ∷ []
  error_of (ended_by tls_unknown) = econnaborted ∷ []
  error_of no_buffer = enobufs ∷ []
  error_of _ = []

  ends_here :
      (fuel round bufsize len : ℕ) (e e' : E) (input : Option Bytes) (rc : TlsResult) (out : Bytes)
      → engine.read input len e ≡ (e', rc, out)
      → goes_on rc ≡ false
      → (e'' : E) × (calls : List Call) × (read_loop engine
            (suc fuel)
            alloc
            round
            bufsize
            e
            input
            len
          ≡ some (e'', calls))
        × (concat (plain calls) ≡ last_data (ended_by rc) out)
        × (errors calls ≡ error_of (ended_by rc))
  unfolding read_loop plain errors
  ends_here fuel round bufsize len e e' input tls_ok out r stops =
      (e', read_told out ∷ [], ground (arith, r), append-nil out, refl)
  ends_here fuel round bufsize len e e' input tls_eof [] r stops =
      (e', read_failed eof ∷ [], ground (arith, r), refl, refl)
  ends_here fuel round bufsize len e e' input tls_eof (b ∷ bs) r stops = (
    e',
    read_told (b ∷ bs) ∷ alloc_told bufsize ∷ read_failed eof ∷ [],
    ground (arith, r),
    append-nil (b ∷ bs),
    refl,
  )
  ends_here fuel round bufsize len e e' input tls_err [] r stops =
      (e', read_failed econnaborted ∷ [], ground (arith, r), refl, refl)
  ends_here fuel round bufsize len e e' input tls_err (b ∷ bs) r stops = (
    e',
    read_told (b ∷ bs) ∷ alloc_told bufsize ∷ read_failed econnaborted ∷ [],
    ground (arith, r),
    append-nil (b ∷ bs),
    refl,
  )
  ends_here fuel round bufsize len e e' input tls_unknown [] r stops =
      (e', read_failed econnaborted ∷ [], ground (arith, r), refl, refl)
  ends_here fuel round bufsize len e e' input tls_unknown (b ∷ bs) r stops = (
    e',
    read_told (b ∷ bs) ∷ alloc_told bufsize ∷ read_failed econnaborted ∷ [],
    ground (arith, r),
    append-nil (b ∷ bs),
    refl,
  )
  ends_here fuel round bufsize len e e' input tls_has_write out r stops =
      let (e'', w, flight) = engine.write none tls_buf_sz e' in
      (e'', parent_write flight ∷ [], ground (arith, r), refl, refl)
  ends_here fuel round bufsize len e e' input tls_read_again out r stops = absurd (cc)
  ends_here fuel round bufsize len e e' input tls_more_available out r stops = absurd (cc)

  -- Whatever the engine answers, the link above gets the data of all rounds, in order and once, but
  -- not that of the last round where the engine has something to send, which is lost; then it gets
  -- the error for the last result or for its own missing buffer, and no other. A round of fuel for
  -- each round of the engine is enough.
  pub Rounds-read_loop :
      (round : ℕ) (e : E) (input : Option Bytes) (len : ℕ) (outs : List Bytes) (last : Bytes)
      (ending : Ending) (fuel bufsize : ℕ)
      → Rounds round e input len outs last ending
      → length outs < fuel
      → (e' : E) × (calls : List Call) × (read_loop engine fuel alloc round bufsize e input len
          ≡ some (e', calls))
        × (concat (plain calls) ≡ concat outs ++ last_data ending last)
        × (errors calls ≡ error_of ending)
  unfolding read_loop plain errors
  Rounds-read_loop _ _ _ _ _ _ _ zero bufsize rounds h = absurd (omega (arith, h))
  Rounds-read_loop _ _ _ _ _ _ _ (suc fuel) bufsize (last_round round e input len e' rc out r a) h =
      ends_here fuel round bufsize len e e' input rc out r a
  Rounds-read_loop _ _ _ _ _ _ _ (suc fuel) bufsize (cut_short round e input len e' rc out r a b)
        h =
      (
        e',
        read_told out ∷ alloc_told bufsize ∷ read_failed enobufs ∷ [],
        ground (arith, r, a, b, goes_again rc a),
        append-nil out,
        refl,
      )
  Rounds-read_loop _ _ _ _ _ _ _ (suc fuel) bufsize
        (one_more round e input len e' rc out outs last ending r a b rounds) h =
      let (e'', calls, runs, data', failed) =
        Rounds-read_loop (suc round) e' none (alloc round) outs last ending fuel bufsize rounds
          (omega (arith, h)) in
      (
        e'',
        read_told out ∷ alloc_told bufsize ∷ calls,
        ground (arith, r, a, b, runs, goes_again rc a),
        ap (◌++◌ out) data' ∙ sym (append_assoc out (concat outs) (last_data ending last)),
        failed,
      )

  read_loop-ends :
      (measure : E → ℕ)
      → ((e : E) (len : ℕ)
          → goes_on (engine.read none len e).1 ≡ true
          → measure (engine.read none len e).0 < measure e)
      → (fuel round bufsize len : ℕ) (e : E) → measure e < fuel
      → read_loop engine fuel alloc round bufsize e none len ≢ none
  unfolding read_loop
  read_loop-ends measure falls zero round bufsize len e h = absurd (omega (arith, h))
  read_loop-ends measure falls (suc fuel) round bufsize len e h = ground (
    arith,
    h,
    falls e len,
    read_loop-ends measure falls fuel (suc round) bufsize (alloc round) (engine.read none len e).0,
  )

  -- The loop ends for an engine that, given no input, asks to be called again only while some
  -- measure of its state falls: with fuel for that measure after the first round there is a result.
  read_loop_terminates :
      (measure : E → ℕ)
      → ((e : E) (len : ℕ)
          → goes_on (engine.read none len e).1 ≡ true
          → measure (engine.read none len e).0 < measure e)
      → (fuel round bufsize len : ℕ) (e : E) (input : Option Bytes)
      → suc (measure (engine.read input len e).0) < fuel
      → read_loop engine fuel alloc round bufsize e input len ≢ none
  unfolding read_loop
  read_loop_terminates measure falls zero round bufsize len e input h = absurd (omega (arith, h))
  read_loop_terminates measure falls (suc fuel) round bufsize len e input h = ground (
    arith,
    h,
    read_loop-ends measure falls fuel (suc round) bufsize (alloc round) (engine.read input len e).0,
  )

-- When a step of the handshake fails, the flight that the engine has is still sent; then the owner
-- of the link is told of the failure, and after that the link above is given an error for it too.
handshake_error_told :
    {E : Type 0} (engine : Engine E) (alloc : ℕ → ℕ) (fuel bufsize : ℕ) (e e' : E)
    (input flight : Bytes)
    → engine.handshake_state e ≡ hs_continue
    → length input ≢ 0
    → engine.handshake (some input) tls_buf_sz e ≡ (e', hs_error, flight)
    → tls_read_cb engine fuel alloc e input bufsize
      ≡ some (
        e',
        (if ltb 0 (length flight) then parent_write flight ∷ [] else [])
            ++ (hs_told hs_error ∷ read_failed econnaborted ∷ []),
      )
unfolding tls_read_cb read_handshake
handshake_error_told engine alloc fuel bufsize e e' input flight st some_input step =
    ground (arith, st, some_input, step)
