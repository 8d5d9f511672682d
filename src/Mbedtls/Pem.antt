-- ===== src/Mbedtls/Pem.antt =====
-- Certificates as PEM text: `write_cert_pem` of src/mbedtls/engine.c. What
-- `mbedtls_pem_write_buffer` makes of a certificate's DER, without the NUL, is a parameter; it needs
-- room for the NUL too, and says so.
use tlsuv.Base.{
  ℕ, ◌+◌, ◌-◌, ◌≤◌, ◌≡◌, refl, sym, ap, Bytes, Bool, Option, none, some, List, [], ◌∷◌, ◌++◌,
  append_assoc, append-nil, map, concat, length, length-append, ltb, if◌then◌else◌, arith,
}

-- `c` and the certificates behind it, as far as the loops go.
unfoldable pub to_write : Bool → List Bytes → List Bytes
to_write full_chain [] = []
to_write full_chain (c ∷ cs) = if full_chain then c ∷ cs else c ∷ []

module _ (pem : Bytes → Bytes) where
  -- The first loop: the sum of the lengths, each with its NUL.
  unfoldable pub total_len : List Bytes → ℕ
  total_len [] = 0
  total_len (c ∷ cs) = length (pem c) + 1 + total_len cs

  -- The second loop, from the bytes before `p`: each text is written over the NUL of the one before.
  -- `none` where a text does not fit, which the loop does not look at.
  unfoldable pub write_loop : ℕ → Bytes → List Bytes → Option Bytes
  write_loop room done [] = some done
  write_loop room done (c ∷ cs) =
      let rest = write_loop room (done ++ pem c) cs in
      if ltb (room - length done) (length (pem c) + 1) then none else rest

  -- `write_cert_pem`: the text before the NUL, and `*pemlen`.
  unfoldable pub write_cert_pem : Bool → List Bytes → Option (Bytes × ℕ)
  unfolding to_write total_len write_loop
  write_cert_pem full_chain certs =
      let len = total_len (to_write full_chain certs) in
      elim (write_loop len [] (to_write full_chain certs)) [
        | none ↦ none
        | some text ↦ some (text, len)
      ]

  total_len_lem :
      (certs : List Bytes) → total_len certs ≡ length (concat (map pem certs)) + length certs
  unfolding total_len
  total_len_lem [] = omega arith
  total_len_lem (c ∷ certs) =
      omega (arith, total_len_lem certs, length-append (pem c) (concat (map pem certs)))

  write_loop_lem :
      (room : ℕ) (done : Bytes) (certs : List Bytes)
      → length done + total_len certs ≤ room
      → write_loop room done certs ≡ some (done ++ concat (map pem certs))
  unfolding write_loop total_len
  write_loop_lem room done [] fits = ap some (sym (append-nil done))
  write_loop_lem room done (c ∷ certs) fits = ground (
    arith,
    fits,
    write_loop_lem room (done ++ pem c) certs (omega (arith, fits, length-append done (pem c))),
    append_assoc done (pem c) (concat (map pem certs)),
  )

  -- The buffer has room for every certificate, and in the end it holds their texts one behind the
  -- other. The length that is reported counts a NUL for each certificate, so for a chain of several
  -- it is more than the text and its NUL.
  pub write_cert_pem_lem :
      (full_chain : Bool) (certs : List Bytes)
      → let written = to_write full_chain certs in
        let text = concat (map pem written) in
        write_cert_pem full_chain certs ≡ some (text, length text + length written)
  unfolding write_cert_pem
  write_cert_pem_lem full_chain certs =
      let written = to_write full_chain certs in
      rw
        (
          write_loop_lem (total_len written) [] written (omega arith),
          total_len_lem written,
          write_cert_pem,
        )
        refl
