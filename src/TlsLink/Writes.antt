-- ===== src/TlsLink/Writes.antt =====
-- Writing through the TLS link.
use tlsuv.Base.{
  ℕ, ◌≡◌, refl, ap, sym, ◌∙◌, Bytes, none, some, List, [], ◌∷◌, ◌++◌, append-nil, append_assoc,
  length, arith, ◌==◌, if◌then◌else◌,
}
use tlsuv.TlsLink.{Engine, wrapped, write_passed, foreign_argument, wrap_bufs, tls_write}

-- An engine that seals what it is given and keeps it until it is asked for the sealed bytes: what
-- include/tlsuv/tls_engine.h says of `write`.
pub record Keeps {E : Type 0} (engine : Engine E) (kept : E → Bytes) (seal : E → Bytes → Bytes)
    : Type 0 where
  pub takes :
      (e : E) (b : Bytes)
      → (kept (engine.write (some b) 0 e).0 ≡ kept e ++ seal e b)
        × ((engine.write (some b) 0 e).1 ≡ wrapped (length (kept (engine.write (some b) 0 e).0)))
  pub gives :
      (e : E)
      → ((engine.write none (length (kept e)) e).2 ≡ kept e)
        × ((engine.write none (length (kept e)) e).1 ≡ wrapped 0)

module _ {E : Type 0} (engine : Engine E) (kept : E → Bytes) (seal : E → Bytes → Bytes) where
  -- The sealed bytes of some buffers, one after another.
  unfoldable pub flight : E → List Bytes → Bytes
  flight e [] = []
  flight e (b ∷ bs) = seal e b ++ flight (engine.write (some b) 0 e).0 bs

  wrap_bufs-kept :
      (e : E) (bufs : List Bytes) (last : ℕ)
      → Keeps engine kept seal
      → length (kept e) ≡ last
      → (kept (wrap_bufs engine e bufs (wrapped last)).0 ≡ kept e ++ flight e bufs)
        × ((wrap_bufs engine e bufs (wrapped last)).1
            ≡ wrapped (length (kept (wrap_bufs engine e bufs (wrapped last)).0)))
  unfolding wrap_bufs flight
  wrap_bufs-kept e [] last keeps h = (sym (append-nil (kept e)), ground (arith, h))
  wrap_bufs-kept e (b ∷ bs) last keeps h =
      let e' = (engine.write (some b) 0 e).0 in
      let rest = wrap_bufs-kept e' bs (length (kept e')) keeps refl in
      let (after, size) = keeps.takes e b in
      ground (arith, after, size, rest, append_assoc (kept e) (seal e b) (flight e' bs))

  -- With such an engine that keeps nothing, the sealed bytes of all buffers are written to the link
  -- below in one piece, in order. Where there is nothing to send, the link calls its own completion
  -- on an argument that belongs to the caller.
  pub tls_write_lem :
      (e : E) (bufs : List Bytes)
      → Keeps engine kept seal
      → kept e ≡ []
      → (tls_write engine e bufs).1
        ≡ (if length (flight e bufs) == 0 then foreign_argument else write_passed (flight e bufs))
  unfolding tls_write
  tls_write_lem e bufs keeps empty =
      let e' = (wrap_bufs engine e bufs (wrapped 0)).0 in
      let (after, size) = wrap_bufs-kept e bufs 0 keeps (ap length empty) in
      let all : kept e' ≡ flight e bufs = after ∙ ap (λ t. t ++ flight e bufs) empty in
      ground (arith, size, all, keeps.gives e')
