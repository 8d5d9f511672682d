-- ===== src/Tests/HttpParts.antt =====
-- Runs and instances for headers, URL encoding, and requests.
use tlsuv.Base.{
  ◌⊎◌, ◌≡◌, refl, Bytes, true, false, none, some, [], ◌∷◌, ◌++◌, codes, arith, length, map, case_eq,
  if◌then◌else◌, print_decimal,
}
use tlsuv.Compression.{Inflate, other_rc}
use tlsuv.Http.Headers.{Headers, set_http_header, resp_header}
use tlsuv.Http.Headers.Laws.{lookup-set}
use tlsuv.Http.UrlEncode.{write_url_encoded, encode_byte, is_escaped, hexify}
use tlsuv.Http.UrlEncode.Decode.{decode-write_url_encoded, percent_decode}
use tlsuv.Http.Types.{Req, einval, eof, completed, body_given, body_data, body_end}
use tlsuv.Http.Request.{http_req_init, req_header}
use tlsuv.Http.Request.Framing.{IsFramed, conflicts, req_header-IsFramed}
use tlsuv.Http.Request.Write.{http_req_write}
use tlsuv.Http.Request.Head.{head_text, fields, meant_headers}
use tlsuv.Http.Request.Fits.{http_req_write_fits}
use tlsuv.Http.Request.Response.{on_tokens, on_body, on_message_complete}
use tlsuv.Http.Request.Response.Delivery.{plain_body_delivered}

abbrev two_headers : Headers
two_headers =
    record { name = codes "Host"; value = codes "h" }
    ∷ record { name = codes "Accept"; value = codes "a" }
    ∷ []

lookup-set_example :
    resp_header (set_http_header two_headers (codes "ACCEPT") (some (codes "b"))) (codes "accept")
    ≡ (if case_eq (codes "ACCEPT") (codes "accept")
        then some (codes "b")
        else resp_header two_headers (codes "accept"))
lookup-set_example = lookup-set two_headers (codes "ACCEPT") (codes "b") (codes "accept")

decode-write_url_encoded_example :
    percent_decode (write_url_encoded (codes "/a b%")) ≡ some (codes "/a b%")
decode-write_url_encoded_example = decode-write_url_encoded (codes "/a b%") (omega arith)

encode_runs : write_url_encoded (codes "/a b") ≡ codes "/a%20b"
unfolding write_url_encoded encode_byte is_escaped hexify
encode_runs = refl

abbrev get_request : Req
unfolding http_req_init
get_request = http_req_init 1 (codes "GET") (codes "/") (some true)

req_header-IsFramed_example :
    IsFramed (req_header get_request (codes "Transfer-Encoding") (codes "chunked")).0
    × ((req_header get_request (codes "Transfer-Encoding") (codes "chunked")).1 ≡ (
        if conflicts get_request (codes "Transfer-Encoding") (codes "chunked")
        then some einval
        else none))
    × ((conflicts get_request (codes "Transfer-Encoding") (codes "chunked") ≡ false)
        ⊎ ((req_header get_request (codes "Transfer-Encoding") (codes "chunked")).0 ≡ get_request))
unfolding http_req_init
req_header-IsFramed_example =
    req_header-IsFramed get_request (codes "Transfer-Encoding") (codes "chunked") (λ _. refl)

abbrev post_request : Req
unfolding http_req_init
post_request = record (http_req_init 1 (codes "POST") (codes "/") (some true)) {
  req_body = record { chunk = codes "hello"; has_cb = false } ∷ [];
}

abbrev post_head : Bytes
post_head = codes "POST /p/ HTTP/1.1\r\nContent-Length: 5\r\n\r\n"

post_head_runs : head_text (codes "/p") post_request ≡ post_head
unfolding http_req_init head_text fields write_url_encoded encode_byte is_escaped set_http_header
    print_decimal
post_head_runs = refl

http_req_write_fits_example :
    let (req', w) = http_req_write (codes "/p") post_request 8196 in
    (w.text ≡ head_text (codes "/p") post_request)
    × (w.len ≡ length (head_text (codes "/p") post_request))
    × (w.truncated ≡ false)
    × (w.overrun ≡ false)
    × (req'.req_headers ≡ meant_headers post_request)
unfolding post_request
http_req_write_fits_example =
    http_req_write_fits (codes "/p") post_request 8196 (rw post_head_runs (omega arith))
      (omega arith)

abbrev wanting : Req
unfolding http_req_init
wanting = record get_request { resp = record (get_request.resp) { body_cb = true } }

abbrev no_zlib : Inflate
no_zlib e history input = record { rc = other_rc; consumed = 0; produced = []; message = false }

plain_body_delivered_example :
    on_tokens no_zlib wanting
      (map on_body (codes "ab" ∷ codes "c" ∷ []) ++ on_message_complete ∷ [])
    ≡ some (
      record wanting { state = completed },
      map (λ b. body_given wanting.id (body_data b)) (codes "ab" ∷ codes "c" ∷ [])
          ++ body_given wanting.id (body_end eof) ∷ [],
    )
unfolding http_req_init
plain_body_delivered_example =
    plain_body_delivered no_zlib wanting (codes "ab" ∷ codes "c" ∷ []) refl refl
