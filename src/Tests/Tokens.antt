-- ===== src/Tests/Tokens.antt =====
-- Instances for keys on a PKCS#11 token: a token that keeps its objects in a list, the newest first.
use tlsuv.Base.{
  ℕ, suc, ◌+◌, ◌≡◌, ◌≤◌, refl, Bytes, true, Option, none, some, List, [], ◌∷◌, ◌++◌, codes, arith,
  length, leb, if◌then◌else◌,
}
use tlsuv.P11.{
  ckr_ok, ckr, rc_ok, Value, get_obj_attr, ulong, flag, bytes, Template, Driver, Context,
  KeyContext, cka_class, cka_id, cka_key_type, cka_ec_params, cka_ec_point, cko_private_key,
  cko_public_key, ckk_ec,
}
use tlsuv.P11.Token.{
  Object, object, matches, first_match, value_of, text_of, Same, Searches, Reads, Creates,
}
use tlsuv.P11.Load.{load_key, select, selected, past_id, parse_id, scan_byte, id_size}
use tlsuv.P11.Load.Ids.{hex_text, select-hex_text}
use tlsuv.P11.Load.Found.{HasTypes, Outcome, load_key_lem}
use tlsuv.P11.Certs.{store_key_cert}
use tlsuv.P11.Generate.{gen_key, find_mechanism, generate}
use tlsuv.P11.Generate.Laws.{Generates, Pair, curve_256, load_key-gen_key}
use tlsuv.Http.UrlEncode.Decode.{hex_value}
use tlsuv.Openssl.Keys.{
  PrivateKey, CertCodec, privkey_get_cert, privkey_store_cert, ec_key, EcLibrary,
}
use tlsuv.Openssl.Keys.Laws.{privkey_get_cert-privkey_store_cert}

-- The objects and the search that is open.
abbrev pub Store : Type 0
Store = List Object × Option Template

abbrev objects : Store → List Object
objects d = d.0

abbrev search : Store → Option Template
search d = d.1

-- A handle above all that are in use.
abbrev free_handle : List Object → ℕ
free_handle [] = 1
free_handle ((h, t) ∷ objs) = suc (h + free_handle objs)

abbrev text_at : ℕ → ℕ → List Object → Option Bytes
text_at h a objs = elim (object h objs) [ none ↦ none | some t ↦ text_of a t ]

abbrev key_type_in : Option Value → Option ℕ
key_type_in none = none
key_type_in (some (ulong k)) = some k
key_type_in (some (flag c)) = none
key_type_in (some (bytes b)) = none

abbrev key_type_at : ℕ → List Object → Option ℕ
key_type_at h objs = elim (object h objs) [
  | none ↦ none
  | some t ↦ key_type_in (value_of cka_key_type t)
]

-- What the token adds to the attributes of a new key.
abbrev public_point : Template
public_point = (cka_ec_point, bytes (4 ∷ 5 ∷ [])) ∷ []

abbrev pub token : Driver Store
token = record {
  initialize = λ d. (d, ckr_ok);
  slot_count = λ d. (d, ckr_ok, 1);
  slot_list = λ n d. (d, ckr_ok, 7 ∷ []);
  open_session = λ s d. (d, ckr_ok, 1);
  login = λ s pin d. (d, ckr_ok);
  mechanism_info = λ s m d. (d, ckr_ok, record { generates = true; max_key_size = 256 });
  generate_random = λ s n d. (d, 1 ∷ 2 ∷ 3 ∷ 4 ∷ 5 ∷ 6 ∷ 7 ∷ 8 ∷ []);
  generate_key_pair = λ s m p q d. (
    (
      (suc (free_handle d.0 + free_handle d.0), q ++ public_point)
          ∷ (free_handle d.0, p ++ public_point)
          ∷ d.0,
      d.1,
    ),
    ckr_ok,
    free_handle d.0,
    suc (free_handle d.0 + free_handle d.0),
  );
  create_object = λ s t d. (((free_handle d.0, t) ∷ d.0, d.1), ckr_ok);
  find_objects_init = λ s q d. ((d.0, some q), ckr_ok);
  find_objects =
      λ s d. elim d.1 [ none ↦ (d, ckr 0x91, none) | some q ↦ (d, ckr_ok, first_match q d.0) ];
  find_objects_final = λ s d. ((d.0, none), ckr_ok);
  attribute_length = λ s h a d. elim (text_at h a d.0) [
    | none ↦ (d, ckr 0x12, 0)
    | some b ↦ (d, ckr_ok, length b)
  ];
  attribute_bytes =
      λ s h a n d. elim (text_at h a d.0) [ none ↦ (d, ckr 0x12, []) | some b ↦ (d, ckr_ok, b) ];
  attribute_key_type =
      λ s h d. elim (key_type_at h d.0) [ none ↦ (d, ckr 0x12, 0) | some k ↦ (d, ckr_ok, k) ];
  sign_init = λ s m h d. (d, ckr_ok);
  sign = λ s digest n d. (d, ckr_ok, (1 ∷ 2 ∷ []) ++ (3 ∷ 4 ∷ []));
}

object_free : (n : ℕ) (objs : List Object) → free_handle objs ≤ n → object n objs ≡ none
unfolding object
object_free n [] h = refl
object_free n ((k, t) ∷ objs) h = ground (arith, h, object_free n objs (omega (arith, h)))

token-Searches : Searches token objects search
token-Searches = record {
  init = λ s q d idle. (refl, refl, refl);
  find = λ s q d open_. ground (arith, open_);
  final = λ s q d open_. (refl, refl, refl);
}

token-Reads : Reads token objects search
token-Reads = record {
  length_of = λ s h a t b d there has. ground (arith, there, has);
  length_keeps = λ s h a d. ground arith;
  bytes_of = λ s h a t b d there has. ground (arith, there, has);
  bytes_keeps = λ s h a n d. ground arith;
  key_type_of = λ s h k t d there typed. ground (arith, there, typed);
  key_type_keeps = λ s h d. ground arith;
}

token-Creates : Creates token objects search
token-Creates = record {
  create = λ s t d taken. (
    refl,
    (
      free_handle d.0,
      record {
        before = [];
        after = d.0;
        was = refl;
        is = refl;
        fresh = object_free (free_handle d.0) d.0 (omega arith);
      },
    ),
  );
}

token-Generates : Generates token objects search
token-Generates = record {
  info_keeps = λ s m d. (refl, refl);
  random_keeps = λ s n d. (refl, refl);
  pair = λ s m p q d done. (
    refl,
    (
      public_point,
      public_point,
      (free_handle d.0, p ++ public_point) ∷ d.0,
      record {
        before = [];
        after = d.0;
        was = refl;
        is = refl;
        fresh = object_free (free_handle d.0) d.0 (omega arith);
      },
      record {
        before = [];
        after = (free_handle d.0, p ++ public_point) ∷ d.0;
        was = refl;
        is = refl;
        fresh =
            object_free (suc (free_handle d.0 + free_handle d.0))
              ((free_handle d.0, p ++ public_point) ∷ d.0) (omega arith);
      },
    ),
  );
}

abbrev session : Context
session = record { session = 1; slot_id = 7 }

abbrev fresh_token : Store
fresh_token = ([], none)

-- secp256r1
abbrev p256 : Bytes
p256 = 0x06 ∷ 0x08 ∷ 0x2a ∷ 0x86 ∷ 0x48 ∷ 0xce ∷ 0x3d ∷ 0x03 ∷ 0x01 ∷ 0x07 ∷ []

load_key-gen_key_example :
    let (d', rc, key) = gen_key token session (some (codes "k")) fresh_token in
    let (d'', rc', key') = load_key token session [] none (some (codes "k")) d' in
    (rc' ≡ rc_ok)
    × ((k : KeyContext) × (key ≡ some k)
        × (key' ≡ some k)
        × (k.kind ≡ ckk_ec)
        × (k.ctx ≡ some session)
        × Pair (objects d'') p256 k)
    × Same token objects search d' d''
unfolding first_match gen_key find_mechanism generate
load_key-gen_key_example =
    load_key-gen_key token objects search session [] p256 107 [] fresh_token token-Searches
      token-Reads token-Generates refl refl refl (curve_256 (omega arith) (omega arith)) refl refl
      refl

-- A token with the two objects of one key.
abbrev private_object : Template
private_object =
    (cka_class, ulong cko_private_key)
    ∷ (cka_id, bytes (0xab ∷ []))
    ∷ (cka_key_type, ulong ckk_ec)
    ∷ []

abbrev public_object : Template
public_object =
    (cka_class, ulong cko_public_key)
    ∷ (cka_id, bytes (0xab ∷ []))
    ∷ (cka_ec_params, bytes (6 ∷ 1 ∷ []))
    ∷ (cka_ec_point, bytes (4 ∷ 5 ∷ []))
    ∷ []

abbrev key_token : Store
key_token = ((1, private_object) ∷ (2, public_object) ∷ [], none)

abbrev the_key : KeyContext
the_key = record { kind = ckk_ec; priv_handle = 1; pub_handle = 2; ctx = some session }

key_token-HasTypes : HasTypes (objects key_token)
unfolding object value_of
key_token-HasTypes h t there private_ = (ckk_ec, ground (arith, there, private_))

load_key_lem_example :
    let (d', rc, key) = load_key token session [] (some (codes "AB")) none key_token in
    Outcome (objects key_token) session ((cka_id, bytes (0xab ∷ [])) ∷ []) rc key
    × Same token objects search key_token d'
unfolding object parse_id scan_byte hex_value
load_key_lem_example =
    load_key_lem token objects search session [] (some (codes "AB")) none
      ((cka_id, bytes (0xab ∷ [])) ∷ []) key_token token-Searches token-Reads refl
      (refl, (refl, tt)) key_token-HasTypes refl

abbrev bytes_as_certs : CertCodec Bytes
bytes_as_certs = record { to_der = λ c. c; subject_to_der = λ c. codes "me"; of_der = λ b. some b }

abbrev token_key : PrivateKey ℕ
token_key = record { pkey = ec_key 0; on_token = some the_key }

privkey_get_cert-privkey_store_cert_example :
    let d' = (privkey_store_cert token bytes_as_certs token_key (codes "cert" ∷ []) key_token).0 in
    let (d'', rc', store) = privkey_get_cert token bytes_as_certs token_key d' in
    (rc' ≡ rc_ok) × (store ≡ some (codes "cert" ∷ [])) × (search d'' ≡ none)
unfolding object value_of first_match matches privkey_store_cert store_key_cert get_obj_attr
privkey_get_cert-privkey_store_cert_example =
    privkey_get_cert-privkey_store_cert token bytes_as_certs objects search token_key the_key
      session (codes "cert") [] (0xab ∷ []) private_object key_token token-Searches token-Reads
      token-Creates refl refl refl refl refl refl refl refl

abbrev two_bytes : Bytes
two_bytes = 0xab ∷ 0x0c ∷ []

select-hex_text_example : select [] (some (hex_text two_bytes)) none ≡ (
    if leb (length two_bytes) id_size then selected ((cka_id, bytes two_bytes) ∷ []) else past_id)
select-hex_text_example = select-hex_text [] none 0xab (0x0c ∷ []) (ground arith)

abbrev bytes_as_keys : EcLibrary Bytes
bytes_as_keys = record {
  ec_parameters = λ a. some a;
  octet_string = λ v. none;
  public_point = λ ec v. some (ec ++ v);
  set_key = λ k. true;
}
