-- ===== src/Http/Request/Response/Delivery.antt =====
-- What the user gets of a response.
use tlsuv.Base.{
  ℕ, ◌≡◌, ap, ◌∙◌, Bytes, true, Option, none, some, List, [], ◌∷◌, ◌++◌, map, codes, length, arith,
  case_eq, if◌then◌else◌, take_all,
}
use tlsuv.Compression.{Inflate}
use tlsuv.Http.Headers.{Headers, set_http_header, resp_header, add_http_header}
use tlsuv.Http.Headers.Laws.{lookup-set, lookup-unset, Distinct}
use tlsuv.Http.Types.{Req, completed, body_given, body_data, body_end, eof}
use tlsuv.Http.Request.Response.{
  on_header_field, on_header_value, on_body, on_message_complete, decoded_headers, header_field_cb,
  header_value_cb, message_cb, body_cb, on_token, on_tokens,
}

-- A body that is not compressed is handed over piece by piece, in order and unchanged, and then its
-- end is reported, once; the request is completed.
pub plain_body_delivered :
    (inflate : Inflate) (req : Req) (pieces : List Bytes)
    → req.inflater ≡ none
    → req.resp.body_cb ≡ true
    → on_tokens inflate req (map on_body pieces ++ on_message_complete ∷ [])
      ≡ some (
        record req { state = completed },
        map (λ b. body_given req.id (body_data b)) pieces ++ body_given req.id (body_end eof) ∷ [],
      )
unfolding on_tokens on_token body_cb message_cb
plain_body_delivered inflate req [] plain wants = ground (arith, plain, wants)
plain_body_delivered inflate req (b ∷ pieces) plain wants =
    ground (arith, plain, wants, plain_body_delivered inflate req pieces plain wants)

-- For a compressed body the user is shown a chunked transfer with no length, and every other
-- header as the server sent it.
decoded_headers_lem :
    (hl : Headers) (name : Bytes)
    → Distinct hl
    → resp_header (decoded_headers hl) name ≡ (
        if case_eq (codes "transfer-encoding") name
        then some (codes "chunked")
        else if case_eq (codes "content-length") name
        then none
        else resp_header hl name)
unfolding decoded_headers
decoded_headers_lem hl name d =
    lookup-set (set_http_header hl (codes "content-length") none) (codes "transfer-encoding")
      (codes "chunked") name
    ∙ ap
        (λ (o : Option Bytes).
          if case_eq (codes "transfer-encoding") name then some (codes "chunked") else o)
        (lookup-unset hl (codes "content-length") name d)

-- The parser may hand over a name or a value in several pieces when it spans reads. Of a name only
-- the last piece is kept, and of a value only the first.
split_header_truncated :
    (inflate : Inflate) (req : Req) (n1 n2 v2 : Bytes) (c : ℕ) (cs : Bytes)
    → on_tokens inflate req (
        on_header_field n1
        ∷ on_header_field n2
        ∷ on_header_value (c ∷ cs)
        ∷ on_header_value v2
        ∷ [])
      ≡ some (
        record req {
          resp = record (req.resp) {
            headers = record { name = n2; value = c ∷ cs } ∷ req.resp.headers;
            curr_header = none;
          };
        },
        [],
      )
unfolding on_tokens on_token header_field_cb header_value_cb add_http_header
split_header_truncated inflate req n1 n2 v2 c cs = rw (take_all (length cs) cs (omega arith))
