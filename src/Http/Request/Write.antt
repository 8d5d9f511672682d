-- ===== src/Http/Request/Write.antt =====
-- `http_req_write` of src/http_req.c: the head of a request, written into a buffer of `maxlen` bytes.
use tlsuv.Base.{
  ℕ, ◌+◌, ◌%◌, ◌^◌, Bytes, Bool, false, not, ◌&&◌, ◌||◌, some, List, [], ◌∷◌, ◌++◌, bytes_eq, codes,
  ltb, leb, ◌==◌, if◌then◌else◌, length, print_decimal,
}
use tlsuv.Http.Headers.{Headers, Hdr, set_http_header}
use tlsuv.Http.UrlEncode.{write_url_encoded}
use tlsuv.Http.Types.{Req, Chunk, no_size}

-- The writer: the text so far, and `len`, the sum of the results so far. `truncated` says that an
-- `snprintf` cut its text, `overrun` that a write reached past the end of the buffer.
pub record Writer : Type 0 where
  pub text : Bytes
  pub len : ℕ
  pub truncated : Bool
  pub overrun : Bool

abbrev pub start : Writer
start = record { text = []; len = 0; truncated = false; overrun = false }

-- `len += snprintf(buf + len, maxlen - len, …)`. A NUL follows the text, and it counts in the room.
-- Where `len` is past `maxlen` the room wraps to a huge size, so all of the text is stored there.
unfoldable pub print : ℕ → Writer → Bytes → Writer
print maxlen w s = record {
  text = w.text ++ s;
  len = w.len + length s;
  truncated = w.truncated || (leb w.len maxlen && leb maxlen (w.len + length s));
  overrun = w.overrun || ltb maxlen w.len;
}

-- `len += write_url_encoded(buf + len, url)`, which is told no limit.
unfoldable pub print_url : ℕ → Writer → Bytes → Writer
print_url maxlen w url =
    let s = write_url_encoded url in
    record {
      text = w.text ++ s;
      len = w.len + length s;
      truncated = w.truncated;
      overrun = w.overrun || ltb maxlen (w.len + length s);
    }

abbrev pub crlf : Bytes
crlf = codes "\r\n"

-- One header line, `"%s: %s\r\n"`.
abbrev pub header_line : Hdr → Bytes
header_line h = h.name ++ (codes ": " ++ (h.value ++ crlf))

unfoldable pub print_headers : ℕ → Writer → Headers → Writer
print_headers maxlen w [] = w
print_headers maxlen w (h ∷ hs) = print_headers maxlen (print maxlen w (header_line h)) hs

abbrev pub has_body_method : Bytes → Bool
has_body_method method =
    bytes_eq method (codes "POST")
    || (bytes_eq method (codes "PUT") || bytes_eq method (codes "PATCH"))

-- The sum of the lengths, a `size_t`, from what is summed up so far.
unfoldable pub sum_lengths : ℕ → List Chunk → ℕ
sum_lengths req_len [] = req_len
sum_lengths req_len (c ∷ cs) = sum_lengths ((req_len + length c.chunk) % 2 ^ 64) cs

abbrev pub needs_length : Req → Bool
needs_length req =
    has_body_method req.method && (not req.req_chunked && (req.req_body_size == no_size))

-- `sprintf(length_str, "%ld", req_len)` into 16 bytes, of which the NUL takes one.
unfoldable pub overruns_length : Req → Bool
unfolding sum_lengths
overruns_length req = needs_length req && leb (10 ^ 15) (sum_lengths 0 req.req_body)

-- A body that is neither chunked nor given a length gets the length of what is queued. Of 2^63 bytes
-- and more `%ld` makes a negative number, but `length_str` is overrun before that.
unfoldable pub set_length : Req → Req
unfolding sum_lengths
set_length req =
    let n = sum_lengths 0 req.req_body in
    if needs_length req
    then record req {
      req_body_size = n;
      req_headers =
          set_http_header req.req_headers (codes "Content-Length") (some (print_decimal n));
    }
    else req

-- The request line and the head, with the client's path prefix (empty if there is none).
unfoldable pub http_req_write : Bytes → Req → ℕ → Req × Writer
unfolding print_headers
http_req_write prefix req maxlen =
    let w1 = print maxlen start (req.method ++ codes " ") in
    let w2 = print_url maxlen w1 prefix in
    let w3 = print_url maxlen w2 req.path in
    let w4 = print maxlen w3 (codes " HTTP/1.1\r\n") in
    let w5 = record w4 { overrun = w4.overrun || overruns_length req } in
    let req' = set_length req in
    (req', print maxlen (print_headers maxlen w5 req'.req_headers) crlf)
