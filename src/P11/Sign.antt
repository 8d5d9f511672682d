-- ===== src/P11/Sign.antt =====
-- Signing with a key on the token: `p11_key_sign` of src/p11.c, and its callers in
-- src/openssl/keys.c, `privkey_p11_sign_sig` and `privkey_p11_rsa_enc`.
use tlsuv.Base.{ℕ, ◌/◌, Bytes, Option, none, some, ◌++◌, length, take, drop, ◌==◌, if◌then◌else◌}
use tlsuv.P11.{
  ckr_ok, ckr, Rc, rc_ok, minus_one, Driver, Context, KeyContext, ckk_ec, ckk_rsa, ckm_ecdsa,
  ckm_rsa_pkcs, ckm_rsa_x_509, ckm_rsa_x9_31,
}

-- The mechanism of a signature; `{0}` for another type of key.
abbrev pub sign_mechanism : ℕ → ℕ → ℕ
sign_mechanism kind padding =
    if kind == ckk_ec then ckm_ecdsa else if kind == ckk_rsa then padding else 0

module _ {D : Type 0} (driver : Driver D) where
  -- `p11_key_sign`, with `key->ctx` and `*siglen` for the size of the buffer: the signature, where
  -- the result is 0; nothing is stored otherwise.
  unfoldable pub key_sign : Context → KeyContext → Bytes → ℕ → ℕ → D → D × Rc × Option Bytes
  key_sign p11 key digest size padding d =
      let (d1, rv1) =
        driver.sign_init p11.session (sign_mechanism key.kind padding) key.priv_handle d in
      elim rv1 [
        | ckr code ↦ (d1, minus_one, none)
        | ckr_ok ↦
            (let (d2, rv2, sig) = driver.sign p11.session digest size d1 in
              elim rv2 [ ckr code ↦ (d2, minus_one, none) | ckr_ok ↦ (d2, rc_ok, some sig) ])
      ]

-- A buffer after a function that stores something at its front, or nothing.
abbrev pub buffer_after : Bytes → Option Bytes → Bytes
buffer_after mem none = mem
buffer_after mem (some b) = b ++ drop (length b) mem

-- The size that the caller knows then.
abbrev pub size_after : ℕ → Option Bytes → ℕ
size_after size none = size
size_after size (some b) = length b

-- `r` and `s`, of half the size each.
abbrev pub halves : ℕ → Bytes → Bytes × Bytes
halves size buf = (take (size / 2) buf, take (size / 2) (drop (size / 2) buf))

module _ {D : Type 0} (driver : Driver D) where
  -- `privkey_p11_sign_sig`: `mem` is what its buffer of 512 bytes holds before. The result of
  -- `p11_key_sign` is not looked at.
  unfoldable pub sign_sig : Context → KeyContext → Bytes → Bytes → D → D × Bytes × Bytes
  sign_sig p11 key mem digest d =
      let (d', _, sig) = key_sign driver p11 key digest 512 0 d in
      let (r, s) = halves (size_after 512 sig) (buffer_after mem sig) in (d', r, s)

  -- `privkey_p11_rsa_enc`: `mem` is what the buffer of the caller holds before, of the size of the
  -- key, and `unset` the mechanism for a padding that is not known. The result of `p11_key_sign` is
  -- not looked at: the size of the signature is that of the key then.
  unfoldable pub rsa_enc : Context → KeyContext → ℕ → Bytes → ℕ → ℕ → Bytes → D → D × Bytes × ℕ
  rsa_enc p11 key rsa_size mem unset padding msg d =
      let mech =
        if padding == 1
        then ckm_rsa_pkcs
        else if padding == 3
        then ckm_rsa_x_509
        else if padding == 5
        then ckm_rsa_x9_31
        else unset in
      let (d', _, sig) = key_sign driver p11 key msg rsa_size mech d in
      (d', buffer_after mem sig, size_after rsa_size sig)
