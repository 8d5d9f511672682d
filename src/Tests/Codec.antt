-- ===== src/Tests/Codec.antt =====
-- Runs and instances for base64, the Bio queue, URLs and decompression.
use tlsuv.Base.{
  ℕ, zero, suc, ◌^◌, ◌<◌, ◌≡◌, refl, Bytes, true, false, some, List, [], ◌∷◌, ◌++◌, codes, arith,
  take, drop, strtol,
}
use tlsuv.Base64.{tlsuv_base64url_decode, encode, six}
use tlsuv.Base64.RoundTrip.{decode-encode}
use tlsuv.Bio.{Bio, read}
use tlsuv.Bio.Stream.{Inv, stream}
use tlsuv.Bio.Laws.{read_lem}
use tlsuv.Url.{Url, format, parse_url, parse_scheme, parse_host, parse_port, parse_path, scan}
use tlsuv.Url.Format.{scheme_text, plain_text, query_text}
use tlsuv.Url.Pieces.{Port, parse_url-pieces}
use tlsuv.Url.RoundTrip.{IsUrl, parse_url-format}
use tlsuv.Compression.{
  Encoding, gzip, stream_end, other_rc, Inflate, Inflater, Output, inflate_loop,
}
use tlsuv.Compression.Loop.{inflate_loop_ends, Settled}

decode-encode_example :
    tlsuv_base64url_decode (encode (codes "hello") ++ codes "==") ≡ codes "hello"
unfolding six
decode-encode_example = decode-encode (codes "hello") (codes "==") (omega arith) (omega arith)

abbrev two_messages : Bio
two_messages = record {
  available = 5;
  headoffset = 1;
  qlen = 2;
  message_q = record { len = 3; buf = codes "abc" } ∷ record { len = 3; buf = codes "def" } ∷ [];
}

two_messages-Inv : Inv two_messages
unfolding stream
two_messages-Inv = omega arith

read_lem_example :
    (final : Bio) × (read two_messages 4 ≡ some (final, take 4 (stream two_messages)))
    × (stream final ≡ drop 4 (stream two_messages))
    × Inv final
read_lem_example = read_lem two_messages 4 two_messages-Inv

abbrev sample_url : Url
sample_url = record {
  scheme = some (codes "https");
  hostname = some (codes "example.com");
  port = 8443;
  path = some (codes "/a/b");
  query = some (codes "x=1");
}

sample_url-IsUrl : IsUrl sample_url
sample_url-IsUrl = ground arith

parse_url-format_example : parse_url (format sample_url) ≡ (true, sample_url)
parse_url-format_example = parse_url-format sample_url sample_url-IsUrl

parse_runs : parse_url (codes "https://example.com:8443/a/b?x=1") ≡ (true, sample_url)
unfolding parse_url parse_scheme parse_host parse_port parse_path scan strtol
parse_runs = refl

parse_url-pieces_example :
    (t : Bytes) × (codes "https://example.com:8443/a/b?x=1"
      ≡ scheme_text sample_url.scheme
        ++ (plain_text sample_url.hostname
            ++ (t ++ (plain_text sample_url.path ++ query_text sample_url.query))))
    × (sample_url.port < 2 ^ 16)
    × Port sample_url.port t
parse_url-pieces_example =
    parse_url-pieces (codes "https://example.com:8443/a/b?x=1") sample_url parse_runs

-- A stand-in for zlib that copies one byte a call and ends at a zero byte.
abbrev copying : Inflate
copying e history [] = record { rc = other_rc; consumed = 0; produced = []; message = false }
copying e history (zero ∷ cs) = record {
  rc = stream_end;
  consumed = 1;
  produced = [];
  message = false;
}
copying e history (suc c ∷ cs) = record {
  rc = other_rc;
  consumed = 1;
  produced = suc c ∷ [];
  message = false;
}

abbrev fresh_gzip : Inflater
fresh_gzip = record { encoding = gzip; history = []; complete = false; message = false }

copying-consumes :
    (e : Encoding) (history : List Bytes) (c : ℕ) (cs : Bytes)
    → 0 < (copying e history (c ∷ cs)).consumed
copying-consumes e history zero cs = omega arith
copying-consumes e history (suc c) cs = omega arith

inflate_loop_ends_example :
    (o : Output) × (inflate_loop copying 3 fresh_gzip (5 ∷ 0 ∷ []) [] ≡ some o) × Settled o
inflate_loop_ends_example =
    inflate_loop_ends copying 3 fresh_gzip (5 ∷ 0 ∷ []) []
      (λ e history c cs _. copying-consumes e history c cs) refl (omega arith)
