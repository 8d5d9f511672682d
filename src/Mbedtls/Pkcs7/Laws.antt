-- ===== src/Mbedtls/Pkcs7/Laws.antt =====
-- What `parse_pkcs7_certs` makes of a PKCS#7 message that carries certificates.
use tlsuv.Base.{
  ℕ, zero, suc, ◌+◌, ◌-◌, ◌^◌, ◌<◌, ◌≤◌, ◌≡◌, ◌≢◌, refl, ap, sym, ◌∙◌, Bytes, Bool, false, none,
  some, List, [], ◌∷◌, ◌++◌, append-nil, append_assoc, map, concat, length, length-append,
  take_prefix, drop_prefix, All, bytes_eq, if◌then◌else◌, arith, ◌==◌,
}
use tlsuv.Mbedtls.Pkcs7.{
  Asn1, Parsed, invalid_oid, parsed, tag_oid, tag_sequence, tag_set, tag_context, oid_pkcs7_data,
  oid_pkcs7_signed_data, read_certs, expect, expect_oid, expect_int, parse_signed_data,
  parse_pkcs7_certs,
}
use tlsuv.Mbedtls.Pkcs7.Der.{der, der_length, content_info}

length-der : (tag : ℕ) (content : Bytes) → length content + 2 ≤ length (der tag content)
unfolding der der_length
length-der tag content = ground (arith, length-append (der_length (length content)) content)

-- Whether an element with the tag of a certificate comes next.
abbrev pub starts_sequence : Bytes → Bool
starts_sequence [] = false
starts_sequence (t ∷ bs) = t == tag_sequence

module _ {X : Type 0} (mbed : Asn1 X) where
  -- What mbedTLS documents of its readers, on DER.
  pub record Documented : Type 0 where
    pub tag_found :
        (tag : ℕ) (content rest : Bytes)
        → length content < 2 ^ 24
        → mbed.get_tag tag (der tag content ++ rest) ≡ some (length content, content ++ rest)
    pub tag_missed : (tag : ℕ) (bs : Bytes) (t : ℕ) → t ≢ tag → mbed.get_tag tag (t ∷ bs) ≡ none
    pub nothing_left : (tag : ℕ) → mbed.get_tag tag [] ≡ none
    pub int_found :
        (v : ℕ) (rest : Bytes) → v < 128 → mbed.get_int (der 0x02 (v ∷ []) ++ rest) ≡ some rest

  module _ (doc : Documented) where
    expect-der :
        (tag : ℕ) (next : Bytes → Parsed X) (content rest : Bytes)
        → length content < 2 ^ 24
        → expect mbed tag next (der tag content ++ rest) ≡ next (content ++ rest)
    unfolding expect
    expect-der tag next content rest small = rw (doc.tag_found tag content rest small, expect) refl

    expect-der_last :
        (tag : ℕ) (next : Bytes → Parsed X) (content : Bytes)
        → length content < 2 ^ 24
        → expect mbed tag next (der tag content) ≡ next content
    expect-der_last tag next content small =
        ap (expect mbed tag next) (sym (append-nil (der tag content)))
        ∙ expect-der tag next content [] small
        ∙ ap next (append-nil content)

    expect_oid-der :
        (oid : Bytes) (next : Bytes → Parsed X) (content rest : Bytes)
        → length content < 2 ^ 24
        → expect_oid mbed oid next (der tag_oid content ++ rest)
          ≡ (if bytes_eq oid content then invalid_oid else next rest)
    unfolding expect_oid
    expect_oid-der oid next content rest small =
        rw
          (
            doc.tag_found tag_oid content rest small,
            take_prefix content rest,
            drop_prefix content rest,
            expect_oid,
          )
          refl

  -- The elements of certificates, each with what it parses to.
  abbrev pub elements : List (Bytes × X) → List Bytes
  elements certs = map (λ e. der tag_sequence e.0) certs

  abbrev pub Parses : Bytes × X → Type 0
  Parses e = mbed.crt_parse (der tag_sequence e.0) ≡ some e.1

  length-elements : (certs : List (Bytes × X)) → length certs ≤ length (concat (elements certs))
  length-elements [] = omega arith
  length-elements ((b, x) ∷ certs) = omega (
    arith,
    length-elements certs,
    length-der tag_sequence b,
    length-append (der tag_sequence b) (concat (elements certs)),
  )

  no_more :
      Documented
      → (fuel : ℕ) (seen : List X) (after : Bytes) → starts_sequence after ≡ false
      → 0 < fuel
      → read_certs mbed fuel seen after ≡ parsed seen
  unfolding read_certs
  no_more doc zero seen after ends more = absurd (omega arith)
  no_more doc (suc fuel) seen [] ends more = rw (doc.nothing_left tag_sequence, read_certs) refl
  no_more doc (suc fuel) seen (t ∷ bs) ends more =
      rw (doc.tag_missed tag_sequence bs t (ground (arith, ends)), read_certs) refl

  -- One certificate is taken off.
  one_more :
      Documented
      → (fuel : ℕ) (seen : List X) (body rest : Bytes) (x : X) → length body < 2 ^ 24
      → Parses (body, x)
      → read_certs mbed (suc fuel) seen (der tag_sequence body ++ rest)
        ≡ read_certs mbed fuel (seen ++ x ∷ []) rest
  unfolding read_certs
  one_more doc fuel seen body rest x small good =
      let element = der tag_sequence body in
      let whole : length body + (length (element ++ rest) - length (body ++ rest))
          ≡ length element =
        omega (
          arith,
          length-append element rest,
          length-append body rest,
          length-der tag_sequence body,
        ) in
      rw
        (
          doc.tag_found tag_sequence body rest small,
          whole,
          take_prefix element rest,
          good,
          whole,
          drop_prefix element rest,
          read_certs,
        )
        refl

  read_certs-elements :
      Documented
      → (certs : List (Bytes × X)) (fuel : ℕ) (seen : List X) (after : Bytes) → All Parses certs
      → starts_sequence after ≡ false
      → length certs < fuel
      → length (concat (elements certs)) < 2 ^ 24
      → read_certs mbed fuel seen (concat (elements certs) ++ after)
        ≡ parsed (seen ++ map (λ e. e.1) certs)
  read_certs-elements doc [] fuel seen after good ends more small =
      no_more doc fuel seen after ends more ∙ ap parsed (sym (append-nil seen))
  read_certs-elements doc (e ∷ certs) zero seen after good ends more small = absurd (omega arith)
  read_certs-elements doc ((b, x) ∷ certs) (suc fuel) seen after (g, good) ends more small =
      let rest = concat (elements certs) in
      let sizes = length-append (der tag_sequence b) rest in
      let size = length-der tag_sequence b in
      ap (read_certs mbed (suc fuel) seen) (append_assoc (der tag_sequence b) rest after)
      ∙ one_more doc fuel seen b (rest ++ after) x (omega (arith, small, sizes, size)) g
      ∙ read_certs-elements doc certs fuel (seen ++ x ∷ []) after good ends (omega (arith, more))
          (omega (arith, small, sizes))
      ∙ ap parsed (append_assoc seen (x ∷ []) (map (λ e. e.1) certs))

  -- The parts of a message, from the inside out.
  abbrev certificates : List (Bytes × X) → Bytes → Bytes
  certificates certs after = der tag_context (concat (elements certs)) ++ after

  abbrev body_of : Bytes → List (Bytes × X) → Bytes → Bytes
  body_of inner certs after =
      der 0x02 (0x01 ∷ [])
      ++ (der tag_set [] ++ (der tag_sequence (der tag_oid inner) ++ certificates certs after))

  -- All parts of a message are smaller than the message.
  record IsSmall (inner after : Bytes) (certs : List (Bytes × X)) : Type 0 where
    body : length (body_of inner certs after) < 2 ^ 24
    data_oid : length (der tag_oid inner) < 2 ^ 24
    inner_oid : length inner < 2 ^ 24
    chain : length (concat (elements certs)) < 2 ^ 24

  IsSmall-body :
      (inner after : Bytes) (certs : List (Bytes × X))
      → length (body_of inner certs after) < 2 ^ 24
      → IsSmall inner after certs
  IsSmall-body inner after certs small =
      let tail = der tag_sequence (der tag_oid inner) ++ certificates certs after in
      let version = length-append (der 0x02 (0x01 ∷ [])) (der tag_set [] ++ tail) in
      let digests = length-append (der tag_set []) tail in
      let content =
        length-append (der tag_sequence (der tag_oid inner)) (certificates certs after) in
      let chain = length-append (der tag_context (concat (elements certs))) after in
      let size_seq = length-der tag_sequence (der tag_oid inner) in
      let oid' = length-der tag_oid inner in
      let chain' = length-der tag_context (concat (elements certs)) in
      record {
        body = small;
        data_oid = omega (arith, small, version, digests, content, size_seq);
        inner_oid = omega (arith, small, version, digests, content, size_seq, oid');
        chain = omega (arith, small, version, digests, content, chain, chain');
      }

  abbrev last_part : Bytes → Parsed X
  last_part cert_buf = read_certs mbed (length cert_buf + 1) [] cert_buf

  chain_part :
      Documented
      → (inner after : Bytes) (certs : List (Bytes × X)) → IsSmall inner after certs
      → All Parses certs
      → starts_sequence after ≡ false
      → expect mbed tag_context last_part (certificates certs after) ≡ parsed (map (λ e. e.1) certs)
  chain_part doc inner after certs small good ends =
      expect-der doc tag_context last_part (concat (elements certs)) after small.chain
      ∙ read_certs-elements doc certs _ [] after good ends
          (omega (arith, length-elements certs, length-append (concat (elements certs)) after))
          small.chain

  -- What `parse_signed_data` makes of the signed data.
  abbrev signed_result : Bytes → List (Bytes × X) → Parsed X
  signed_result inner certs =
      if bytes_eq oid_pkcs7_data inner then invalid_oid else parsed (map (λ e. e.1) certs)

  signed_part :
      Documented
      → (inner after : Bytes) (certs : List (Bytes × X)) → IsSmall inner after certs
      → length (der tag_sequence (body_of inner certs after)) < 2 ^ 24
      → All Parses certs
      → starts_sequence after ≡ false
      → parse_signed_data mbed (der tag_context (der tag_sequence (body_of inner certs after)))
        ≡ signed_result inner certs
  unfolding parse_signed_data
  signed_part doc inner after certs small outer good ends =
      let chain = certificates certs after in
      let content = der tag_sequence (der tag_oid inner) in
      let at_oid = expect_oid mbed oid_pkcs7_data (expect mbed tag_context last_part) in
      let at_data = expect mbed tag_sequence at_oid in
      let at_set = expect mbed tag_set at_data in
      let at_int = expect_int mbed at_set in
      expect-der_last doc tag_context (expect mbed tag_sequence at_int)
        (der tag_sequence (body_of inner certs after)) outer
      ∙ expect-der_last doc tag_sequence at_int (body_of inner certs after) small.body
      ∙ version at_set (der tag_set [] ++ (content ++ chain))
      ∙ expect-der doc tag_set at_data [] (content ++ chain) (omega arith)
      ∙ expect-der doc tag_sequence at_oid (der tag_oid inner) chain small.data_oid
      ∙ expect_oid-der doc oid_pkcs7_data (expect mbed tag_context last_part) inner chain
          small.inner_oid
      ∙ ap (λ z. if bytes_eq oid_pkcs7_data inner then invalid_oid else z)
          (chain_part doc inner after certs small good ends)
    where
      version :
          (next : Bytes → Parsed X) (rest : Bytes)
          → expect_int mbed next (der 0x02 (0x01 ∷ []) ++ rest) ≡ next rest
      version next rest =
          unfold expect_int in rw (doc.int_found 1 rest (omega arith), expect_int) refl

  -- A message in DER of less than 2^24 bytes, whatever its two OIDs are, with an empty set of digest
  -- algorithms, with certificates that mbedTLS parses and then something that is no certificate: all
  -- certificates are given, in order. It is refused only if
  -- the outer OID is that of plain data, 1.2.840.113549.1.7.1, or the inner one that of signed data,
  -- 1.2.840.113549.1.7.2; no other content type is told from signed data.
  pub parse_pkcs7_certs-content_info :
      Documented
      → (text oid inner after : Bytes) (certs : List (Bytes × X))
      → mbed.base64_decode text ≡ some (content_info oid inner (elements certs) after)
      → length (content_info oid inner (elements certs) after) < 2 ^ 24
      → All Parses certs
      → starts_sequence after ≡ false
      → parse_pkcs7_certs mbed text ≡ (
          if bytes_eq oid_pkcs7_signed_data oid
          then invalid_oid
          else if bytes_eq oid_pkcs7_data inner
          then invalid_oid
          else parsed (map (λ e. e.1) certs))
  parse_pkcs7_certs-content_info doc text oid inner after certs decoded small good ends =
      let body = body_of inner certs after in
      let signed = der tag_context (der tag_sequence body) in
      let whole : length (content_info oid inner (elements certs) after)
          ≡ length (der tag_sequence (der tag_oid oid ++ signed)) =
        unfold content_info in refl in
      let a = length-der tag_sequence (der tag_oid oid ++ signed) in
      let b = length-append (der tag_oid oid) signed in
      let c = length-der tag_context (der tag_sequence body) in
      let d = length-der tag_sequence body in
      let e = length-der tag_oid oid in
      let outer = expect_oid mbed oid_pkcs7_signed_data (parse_signed_data mbed) in
      let start : parse_pkcs7_certs mbed text
          ≡ expect mbed tag_sequence outer (der tag_sequence (der tag_oid oid ++ signed)) =
        unfold parse_pkcs7_certs content_info in rw (decoded, parse_pkcs7_certs) refl in
      let small' = IsSmall-body inner after certs (omega (arith, small, whole, a, b, c, d)) in
      start
      ∙ expect-der_last doc tag_sequence outer (der tag_oid oid ++ signed)
          (omega (arith, small, whole, a))
      ∙ expect_oid-der doc oid_pkcs7_signed_data (parse_signed_data mbed) oid signed
          (omega (arith, small, whole, a, b, e))
      ∙ ap (λ z. if bytes_eq oid_pkcs7_signed_data oid then invalid_oid else z)
          (signed_part doc inner after certs small' (omega (arith, small, whole, a, b, c)) good
            ends)
