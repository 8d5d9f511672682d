-- ===== src/Tests/Certificates.antt =====
-- Certificates, keys and their messages: runs and instances for the TLS engines.
use tlsuv.Base.{
  ℕ, ◌≡◌, refl, Bytes, Bool, true, false, Option, none, some, List, [], ◌∷◌, ◌++◌, map, bytes_eq,
  ◌==◌, ◌&&◌, if◌then◌else◌, arith, codes, ◌↔◌, All,
}
use tlsuv.Openssl.Identity.{OwnKey, SslCalls, OwnContext}
use tlsuv.Openssl.Identity.Pairs
use tlsuv.Mbedtls.Verify.{
  Checker, Crt, Flags, new_checker, accepts_from, internal_cert_verify, check_address, check_by_app,
  has_address, is_address,
}
use tlsuv.Mbedtls.Verify.Laws.{NameGood, Trusted, IssuerGood, accepts_from-leaf}
use tlsuv.Mbedtls.Csr.{subject_name, subject_loop, attribute}
use tlsuv.Mbedtls.Csr.Names.{read_names, read_from, read_names-subject_name}
use tlsuv.Tests.Tokens.{token}
use tlsuv.Mbedtls.Signatures.{Md, md5, TokenKey, p11_rsa_sign, token_sign}
use tlsuv.Mbedtls.Signatures.Rsa.{size_of, digest_info, p11_rsa_sign_lem}
use tlsuv.Mbedtls.Pkcs7.{
  Asn1, parsed, invalid_oid, parse_pkcs7_certs, oid_pkcs7_data, oid_pkcs7_signed_data,
}
use tlsuv.Mbedtls.Pkcs7.Der.{content_info, der, der_length, read_tag, read_tag-der}
use tlsuv.Mbedtls.Pkcs7.Laws.{Documented, parse_pkcs7_certs-content_info}

-- Two certificates, which are not looked at further.
abbrev two_bodies : List (Bytes × Bytes)
two_bodies = (1 ∷ 2 ∷ [], 0x30 ∷ 2 ∷ 1 ∷ 2 ∷ []) ∷ (3 ∷ [], 0x30 ∷ 1 ∷ 3 ∷ []) ∷ []

abbrev two_elements : List Bytes
two_elements = (0x30 ∷ 2 ∷ 1 ∷ 2 ∷ []) ∷ (0x30 ∷ 1 ∷ 3 ∷ []) ∷ []

-- Base64 is left aside: the text is the message itself.
abbrev int_reader : Bytes → Option Bytes
int_reader (t ∷ n ∷ v ∷ bs) = if t == 2 && n == 1 then some bs else none
int_reader _ = none

abbrev der_reader : Asn1 Bytes
der_reader = record {
  base64_decode = some;
  get_tag = read_tag;
  get_int = int_reader;
  crt_parse = some;
}

der_reader-Documented : Documented der_reader
unfolding read_tag der der_length
der_reader-Documented = record {
  tag_found = read_tag-der;
  tag_missed = λ tag bs t other. ground (arith, other);
  nothing_left = λ tag. refl;
  int_found = λ v rest small. refl;
}

-- The content types of RFC 5652: signed data that holds plain data.
abbrev signed_data_oid : Bytes
signed_data_oid = oid_pkcs7_data

abbrev data_oid : Bytes
data_oid = oid_pkcs7_signed_data

abbrev message : Bytes
message = content_info signed_data_oid data_oid two_elements (0x31 ∷ 0 ∷ [])

parse_pkcs7_certs-content_info_example : parse_pkcs7_certs der_reader message ≡ (
    if bytes_eq oid_pkcs7_signed_data signed_data_oid
    then invalid_oid
    else if bytes_eq oid_pkcs7_data data_oid
    then invalid_oid
    else parsed (map (λ e. e.1) two_bodies))
unfolding der der_length content_info
parse_pkcs7_certs-content_info_example =
    parse_pkcs7_certs-content_info der_reader der_reader-Documented message signed_data_oid data_oid
      (0x31 ∷ 0 ∷ []) two_bodies refl (omega arith) (refl, (refl, tt)) refl

-- A stand-in for an `SSL_CTX`: the key and the certificate, which match if their numbers are equal.
abbrev Ssl : Type 0
Ssl = Option ℕ × Option ℕ

abbrev use_key : Option ℕ → Ssl → Ssl × Bool
use_key none s = (s, false)
use_key (some p) (k, none) = ((some p, none), true)
use_key (some p) (k, some x) = if p == x then ((some p, some x), true) else ((k, some x), false)

abbrev use_crt : Option ℕ → Ssl → Ssl
use_crt none s = s
use_crt (some x) (k, y) = (k, some x)

abbrev check : Ssl → Bool
check (some p, some x) = p == x
check _ = false

abbrev simple_ssl : SslCalls Ssl ℕ ℕ
simple_ssl = record {
  use_private_key = use_key;
  use_certificate = λ x s. (use_crt x s, true);
  set0_chain_cert_store = λ xs s. s;
  check_private_key = check;
}

abbrev seven : OwnKey ℕ ℕ
seven = record { address = 1; pkey = some 7; get_certificate = none }

abbrev with_key : OwnContext Ssl ℕ ℕ
with_key = record { ssl = (some 7, none); own_key = some seven; own_cert = none }

abbrev with_both : OwnContext Ssl ℕ ℕ
with_both = record { ssl = (some 7, some 7); own_key = some seven; own_cert = some 7 }

-- A host with an IPv4 address, and a server whose certificate has that address. The application
-- trusts certificates with the number 1.
abbrev app_checks : Checker ℕ
app_checks = new_checker none (some (10 ∷ 0 ∷ 0 ∷ 1 ∷ [])) (some (λ x. x == 1))

abbrev server_crt : Crt ℕ
server_crt = record {
  cert = 1;
  subject_alt_names = record { tag = 0x87; value = 10 ∷ 0 ∷ 0 ∷ 1 ∷ [] } ∷ [];
}

abbrev not_by_name : Flags
not_by_name = record { cn_mismatch = true; not_trusted = true; other = false }

accepts_from-leaf_example : (accepts_from app_checks 0 ((server_crt, not_by_name) ∷ []) ≡ true) ↔ (
    NameGood app_checks server_crt not_by_name
    × Trusted app_checks server_crt not_by_name
    × (false ≡ false)
    × All (IssuerGood app_checks) [])
accepts_from-leaf_example = accepts_from-leaf app_checks server_crt not_by_name []

server_passes : accepts_from app_checks 0 ((server_crt, not_by_name) ∷ []) ≡ true
unfolding accepts_from internal_cert_verify check_address check_by_app has_address is_address
    new_checker
server_passes = refl

read_names-subject_name_example :
    (text : Bytes) × (subject_name ((codes "CN", codes "me") ∷ (codes "O", codes "A B") ∷ [])
      ≡ some text)
    × (read_names text ≡ some ((codes "CN", codes "me") ∷ (codes "O", codes "A B") ∷ []))
unfolding subject_loop attribute
read_names-subject_name_example =
    read_names-subject_name (codes "CN", codes "me") ((codes "O", codes "A B") ∷ []) (ground arith)
      (omega arith)

-- A comma in a value begins another attribute.
comma_splits :
    read_names (codes "CN=me,O=root")
    ≡ some ((codes "CN", codes "me") ∷ (codes "O", codes "root") ∷ [])
unfolding read_names read_from
comma_splits = refl

comma_text : subject_name ((codes "CN", codes "me,O=root") ∷ []) ≡ some (codes "CN=me,O=root")
unfolding subject_name subject_loop attribute
comma_text = refl

-- A hash with more memory behind it, and the driver of the tests.
abbrev md5_hash : Bytes
md5_hash = codes "0123456789abcdef"

abbrev rsa_key : TokenKey
rsa_key = record {
  priv_handle = 4;
  pub_handle = 5;
  sign_mechanism = 1;
  ctx = record { session = 1; slot_id = 7 };
}

abbrev known_size : Option Md → Option ℕ
known_size none = none
known_size (some md) = some (size_of md)

p11_rsa_sign_lem_example :
    p11_rsa_sign token known_size rsa_key (some md5) (md5_hash ++ 0 ∷ 0 ∷ []) ([], none)
    ≡ token_sign token rsa_key (digest_info md5 md5_hash) 4096 ([], none)
p11_rsa_sign_lem_example =
    p11_rsa_sign_lem token known_size rsa_key md5 md5_hash (0 ∷ 0 ∷ []) ([], none) (λ m. refl) refl
