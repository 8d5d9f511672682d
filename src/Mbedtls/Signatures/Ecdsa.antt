-- ===== src/Mbedtls/Signatures/Ecdsa.antt =====
-- A signature of two numbers in a row becomes the Ecdsa-Sig-Value of RFC 3279.
use tlsuv.Base.{
  ℕ, ◌+◌, ◌≤◌, ◌≡◌, ap, sym, ◌∙◌, Bytes, true, some, [], ◌++◌, length, length-append, append-nil,
  arith, ◌||◌,
}
use tlsuv.P11.{Driver}
use tlsuv.P11.Sign.{halves}
use tlsuv.Openssl.Keys.{HashAlgo}
use tlsuv.Openssl.Keys.Laws.{take-halves}
use tlsuv.Mbedtls.Pkcs7.Der.{der, der_length}
use tlsuv.Mbedtls.Signatures.{
  signature_to_asn1, sig_to_asn1, PkVerifier, verify_signature, TokenKey, signed, token_sign,
  p11_ecdsa_sign, to_asn1_or,
}

module _ (write_mpi : Bytes → Bytes) (ecdsa_max_len : ℕ) where
  -- Ecdsa-Sig-Value ::= SEQUENCE { r INTEGER, s INTEGER }
  unfoldable pub sig_value : Bytes → Bytes → Bytes
  sig_value r s = der 0x30 (write_mpi r ++ write_mpi s)

  pub signature_to_asn1_lem :
      (r s : Bytes)
      → length (sig_value r s) ≤ ecdsa_max_len
      → signature_to_asn1 write_mpi ecdsa_max_len r s ≡ some (sig_value r s)
  unfolding signature_to_asn1 sig_value der
  signature_to_asn1_lem r s fits =
      let len : length (write_mpi r ++ write_mpi s) ≡ length (write_mpi s) + length (write_mpi r) =
        omega (arith, length-append (write_mpi r) (write_mpi s)) in
      ground (
        arith,
        fits,
        len,
        append-nil (write_mpi s),
        length-append (der_length (length (write_mpi r ++ write_mpi s)))
            (write_mpi r ++ write_mpi s),
      )

  sig_to_asn1-append :
      (r s : Bytes)
      → length r ≡ length s
      → length (sig_value r s) ≤ ecdsa_max_len
      → sig_to_asn1 write_mpi ecdsa_max_len (r ++ s) ≡ some (sig_value r s)
  unfolding sig_to_asn1
  sig_to_asn1-append r s same fits =
      let parts : halves (length (r ++ s)) (r ++ s) ≡ (r, s) =
        ap (halves (length (r ++ s))) (sym (append-nil (r ++ s))) ∙ take-halves r s [] same in
      ap (λ p. signature_to_asn1 write_mpi ecdsa_max_len p.0 p.1) parts
      ∙ signature_to_asn1_lem r s fits

  -- What a token signs with an ECDSA key, two numbers of one size, `p11_ecdsa_sign` gives as an
  -- Ecdsa-Sig-Value; and `mbedtls_verify_signature` takes the two numbers as they come or as that
  -- value: for an EC key it accepts them exactly if mbedTLS accepts one of the two.
  pub verify_signature-token_sign :
      {D K : Type 0} (driver : Driver D) (token : TokenKey) (size : ℕ) (before : Bytes) (d d' : D)
      (pk : PkVerifier K) (key : K) (md : HashAlgo) (content hash r s : Bytes)
      → pk.md md content ≡ some hash
      → pk.is_eckey key ≡ true
      → token_sign driver token hash size d ≡ (d', signed (r ++ s))
      → length r ≡ length s
      → length (sig_value r s) ≤ ecdsa_max_len
      → (p11_ecdsa_sign write_mpi ecdsa_max_len driver token size before hash d
          ≡ (d', signed (sig_value r s)))
        × (verify_signature pk write_mpi ecdsa_max_len key md content (r ++ s)
            ≡ some (pk.pk_verify key md hash (r ++ s) || pk.pk_verify key md hash (sig_value r s)))
  unfolding p11_ecdsa_sign verify_signature to_asn1_or
  verify_signature-token_sign driver token size before d d' pk key md content hash r s digest ec out
        same fits =
      let asn1 = sig_to_asn1-append r s same fits in
      (ground (arith, out, asn1), ground (arith, digest, ec, asn1))
