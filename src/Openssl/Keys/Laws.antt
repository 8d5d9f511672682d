-- ===== src/Openssl/Keys/Laws.antt =====
-- What src/openssl/keys.c makes of a key on a token, and of a signature of it.
use tlsuv.Base.{
  ◌∷◌, ◌/◌, ◌≡◌, sym, ap, ◌∙◌, Bytes, true, false, Option, none, some, List, [], ◌++◌, length,
  length-append, take, drop, take_prefix, drop_prefix, append-nil, append_assoc, arith,
  if◌then◌else◌,
}
use tlsuv.P11.{
  cka_id, ckr_ok, rc_ok, minus_one, Template, Driver, Context, KeyContext, ckk_ec, ckm_ecdsa,
}
use tlsuv.P11.Token.{Object, object, text_of, first_match, Searches, Reads, Creates}
use tlsuv.P11.Certs.{cert_query, get_key_cert-store_key_cert}
use tlsuv.P11.Sign.{key_sign, sign_sig, halves}
use tlsuv.Openssl.Keys.{
  HashAlgo, Verifier, PrivateKey, CertCodec, privkey_get_cert, privkey_store_cert, verify_ecdsa_sig,
  verify_signature,
}

half_length : (r s : Bytes) → length r ≡ length s → length (r ++ s) / 2 ≡ length r
half_length r s same = omega (arith, same, length-append r s)

pub take-halves :
    (r s rest : Bytes) → length r ≡ length s → halves (length (r ++ s)) ((r ++ s) ++ rest) ≡ (r, s)
take-halves r s rest same =
    rw
      (
        half_length r s same,
        append_assoc r s rest,
        take_prefix r (s ++ rest),
        drop_prefix r (s ++ rest),
      )
      (ap (λ x. (r, x)) (ap (λ n. take n (s ++ rest)) same ∙ take_prefix s rest))

module _ {D K : Type 0} (driver : Driver D) (lib : Verifier K) where
  -- For an EC key on the token, whose signature is two numbers of the same length: these are the
  -- ones that OpenSSL is given for it; and where the signature is sent as it is, to an EC key, and
  -- is no DER, these are the ones that are checked, and the result is that of the check.
  verify_signature-sign_sig :
      (p11 : Context) (key : KeyContext) (mem digest r s content : Bytes) (d d1 d2 : D) (k : K)
      (md : HashAlgo)
      → key.kind ≡ ckk_ec
      → length r ≡ length s
      → driver.sign_init p11.session ckm_ecdsa key.priv_handle d ≡ (d1, ckr_ok)
      → driver.sign p11.session digest 512 d1 ≡ (d2, ckr_ok, r ++ s)
      → lib.is_ec k ≡ true
      → lib.is_der (r ++ s) ≡ false
      → (sign_sig driver p11 key mem digest d ≡ (d2, r, s))
        × (verify_signature lib k md content (r ++ s)
            ≡ (if lib.ecdsa_verify k (lib.digest md content) r s then rc_ok else minus_one))
  unfolding sign_sig key_sign verify_signature verify_ecdsa_sig
  verify_signature-sign_sig p11 key mem digest r s content d d1 d2 k md kind same ready signs ec
        raw =
      let stored = take-halves r s (drop (length (r ++ s)) mem) same in
      let sent =
        ap (halves (length (r ++ s))) (sym (append-nil (r ++ s))) ∙ take-halves r s [] same in
      (ground (arith, kind, ready, signs, stored), ground (arith, ec, raw, sent))

module _ {D E C : Type 0} (driver : Driver D) (codec : CertCodec C) (objects : D → List Object)
    (search : D → Option Template) where
  -- The first certificate of a store that was set for a key on a token is the one that is got for
  -- the key afterwards, in a store of its own, when the key has an id that no other certificate
  -- there had, the DER of the certificate is read back as it, and no search is open. None is left
  -- open.
  pub privkey_get_cert-privkey_store_cert :
      (key : PrivateKey E) (p11_key : KeyContext) (p11 : Context) (c : C) (cs : List C) (id : Bytes)
      (t : Template) (d : D)
      → Searches driver objects search
      → Reads driver objects search
      → Creates driver objects search
      → key.on_token ≡ some p11_key
      → p11_key.ctx ≡ some p11
      → codec.of_der (codec.to_der c) ≡ some c
      → search d ≡ none
      → object p11_key.priv_handle (objects d) ≡ some t
      → text_of cka_id t ≡ some id
      → first_match (cert_query (some id)) (objects d) ≡ none
      → (privkey_store_cert driver codec key (c ∷ cs) d).1 ≡ rc_ok
      → let d' = (privkey_store_cert driver codec key (c ∷ cs) d).0 in
        let (d'', rc', store) = privkey_get_cert driver codec key d' in
        (rc' ≡ rc_ok) × (store ≡ some (c ∷ [])) × (search d'' ≡ none)
  unfolding privkey_get_cert privkey_store_cert
  privkey_get_cert-privkey_store_cert key p11_key p11 c cs id t d searches reads creates token ctx
        coded idle there has alone taken =
      let done =
        get_key_cert-store_key_cert driver objects search p11 p11_key (codec.to_der c)
          (codec.subject_to_der c) id t d searches reads creates idle there has alone
          (ground (arith, token, ctx, taken)) in
      ground (arith, token, ctx, coded, done)
