-- ===== src/Http/Request/Head.antt =====
-- The head of a request as RFC 9112 lays it out: what `http_req_write` of src/http_req.c is meant to
-- write. This is independent of the writer; header lists and URL encoding have laws of their own.
use tlsuv.Base.{
  Bytes, Bool, false, not, ◌&&◌, ◌||◌, some, List, [], ◌∷◌, ◌++◌, bytes_eq, codes, ◌==◌,
  if◌then◌else◌, length, concat, map, print_decimal,
}
use tlsuv.Http.Headers.{Headers, set_http_header}
use tlsuv.Http.UrlEncode.{write_url_encoded}
use tlsuv.Http.Types.{Req, no_size}

-- The methods whose requests have a body.
abbrev pub methods : List Bytes
methods = codes "PATCH" ∷ codes "POST" ∷ codes "PUT" ∷ []

abbrev pub is_one_of : List Bytes → Bytes → Bool
is_one_of [] method = false
is_one_of (m ∷ ms) method = bytes_eq method m || is_one_of ms method

-- The bytes of the body that are queued.
abbrev pub body : Req → Bytes
body req = concat (map (λ c. c.chunk) req.req_body)

-- The body is sent with its length, unless it is sent in chunks or the user gave the length.
abbrev pub meant_headers : Req → Headers
meant_headers req =
    if is_one_of methods req.method && not req.req_chunked && (req.req_body_size == no_size)
    then set_http_header req.req_headers (codes "Content-Length")
        (some (print_decimal (length (body req))))
    else req.req_headers

-- A name, a colon, a blank, the value and a line end for each header; then an empty line.
unfoldable pub fields : Headers → Bytes
fields [] = codes "\r\n"
fields (h ∷ hs) = h.name ++ codes ": " ++ h.value ++ codes "\r\n" ++ fields hs

-- The request line with the client's path prefix, and the fields.
unfoldable pub head_text : Bytes → Req → Bytes
head_text prefix req =
    req.method
    ++ codes " "
    ++ write_url_encoded prefix
    ++ write_url_encoded req.path
    ++ codes " HTTP/1.1\r\n"
    ++ fields (meant_headers req)
