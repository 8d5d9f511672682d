-- ===== src/Mbedtls/Keys/Laws.antt =====
-- What is signed with a key is verified with its public key, also after both went through PEM.
use tlsuv.Base.{
  ℕ, ◌+◌, ◌≡◌, refl, ap, ◌∙◌, Bytes, true, Option, none, some, [], ◌∷◌, ◌++◌, length, length-append,
  arith, inr,
}
use tlsuv.Openssl.Keys.{HashAlgo}
use tlsuv.Mbedtls.Keys.{
  PkLibrary, public_key, verify_signature, privkey_sign, privkey_pubkey, privkey_to_pem, load_key,
  terminated,
}

module _ {K : Type 0} (mbed : PkLibrary K) (public_of : K → K) where
  -- What mbedTLS documents: PEM text is read back, a text of a public key into the key without its
  -- private part, and a signature is verified with the public part.
  pub record Documented : Type 0 where
    pub pubkey_read :
        (k : K) (room : ℕ) (text : Bytes)
        → mbed.write_pubkey_pem k room ≡ some text
        → mbed.parse_public_key (text ++ 0 ∷ []) ≡ some (public_of k)
    pub key_read :
        (k : K) (room : ℕ) (text : Bytes)
        → mbed.write_key_pem k room ≡ inr text
        → mbed.parse_key (text ++ 0 ∷ []) ≡ inr k
    pub sign_verified :
        (k : K) (md : HashAlgo) (hash sig : Bytes) (room : ℕ)
        → mbed.pk_sign k md hash room ≡ some sig
        → mbed.pk_verify (public_of k) md hash sig ≡ true

  terminated-nul : (text : Bytes) (after : ℕ) → terminated (text ++ 0 ∷ []) after ≡ text ++ 0 ∷ []
  terminated-nul [] after = refl
  terminated-nul (b ∷ []) after = refl
  terminated-nul (b ∷ c ∷ text) after = ap (◌∷◌ b) (terminated-nul (c ∷ text) after)

  -- A key that is written as PEM, and loaded again with the length that `privkey_to_pem` reports, is
  -- the key; and what it signs is verified with the public key that it then gives, where that fits
  -- the buffer.
  pub load_key-privkey_to_pem :
      (k : K) (text public_text : Bytes) (len after room : ℕ) (md : HashAlgo) (content sig : Bytes)
      → Documented
      → mbed.seed ≡ none
      → privkey_to_pem mbed k ≡ inr (text, len)
      → mbed.write_pubkey_pem k 4096 ≡ some public_text
      → privkey_sign mbed k md content room ≡ some sig
      → (load_key mbed (text ++ 0 ∷ []) after ≡ inr k)
        × (length (text ++ 0 ∷ []) ≡ len)
        × (privkey_pubkey mbed k ≡ public_key (public_of k))
        × (verify_signature mbed (public_of k) md content sig ≡ true)
  load_key-privkey_to_pem k text public_text len after room md content sig doc seeded written fits
        made =
      let pem : mbed.write_key_pem k 4096 ≡ inr text =
        unfold privkey_to_pem in ground (arith, written) in
      let size : len ≡ length text + 1 = unfold privkey_to_pem in ground (arith, written) in
      let parsed = ap mbed.parse_key (terminated-nul text after) ∙ doc.key_read k 4096 text pem in
      (
        unfold load_key in ground (arith, seeded, parsed),
        omega (arith, size, length-append text (0 ∷ [])),
        unfold privkey_pubkey in ground (arith, fits, doc.pubkey_read k 4096 public_text fits),
        signed (mbed.md md content) refl,
      )
    where
      signed :
          (o : Option Bytes)
          → mbed.md md content ≡ o
          → verify_signature mbed (public_of k) md content sig ≡ true
      signed none e = absurd (unfold privkey_sign in ground (arith, made, e))
      signed (some hash) e =
          unfold verify_signature in
          ground (
            arith,
            e,
            doc.sign_verified k md hash sig room (unfold privkey_sign in ground (arith, made, e)),
          )
