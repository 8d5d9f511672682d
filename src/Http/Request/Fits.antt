-- ===== src/Http/Request/Fits.antt =====
-- When the head of a request fits its buffer, and when it is written past the end.
use tlsuv.Base.{
  ℕ, ◌+◌, ◌%◌, ◌^◌, ◌||◌, List, concat, map, ◌<◌, ◌≡◌, refl, ap, sym, ◌∙◌, Bytes, false, [], ◌∷◌,
  ◌++◌, append_assoc, append-nil, codes, length, length-append, arith,
}
use tlsuv.Http.Headers.{Headers}
use tlsuv.Http.UrlEncode.{write_url_encoded}
use tlsuv.Http.Types.{Req, Chunk}
use tlsuv.Http.Request.Write.{
  Writer, start, print, print_url, crlf, header_line, print_headers, has_body_method, sum_lengths,
  overruns_length, set_length, http_req_write,
}
use tlsuv.Http.Request.Head.{body, methods, is_one_of, meant_headers, fields, head_text}

-- The lines that the writer makes of the headers, without the empty one.
unfoldable header_text : Headers → Bytes
header_text [] = []
header_text (h ∷ hs) = header_line h ++ header_text hs

fields-text : (hs : Headers) → fields hs ≡ header_text hs ++ crlf
unfolding fields header_text
fields-text [] = refl
fields-text (h ∷ hs) = rw (fields-text hs) (simp append_assoc)

sum_lengths-body :
    (n : ℕ) (cs : List Chunk)
    → n + length (concat (map (λ c. c.chunk) cs)) < 2 ^ 64
    → sum_lengths n cs ≡ n + length (concat (map (λ c. c.chunk) cs))
unfolding sum_lengths
sum_lengths-body n [] h = omega arith
sum_lengths-body n (c ∷ cs) h =
    let rest = concat (map (λ (d : Chunk). d.chunk) cs) in
    let two = length-append c.chunk rest in
    let same : (n + length c.chunk) % 2 ^ 64 ≡ n + length c.chunk = omega (arith, h, two) in
    ap (λ (k : ℕ). sum_lengths k cs) same
    ∙ sum_lengths-body (n + length c.chunk) cs (omega (arith, h, two))
    ∙ omega (arith, two)

-- The writer has stored exactly `s`, and the buffer has room behind it.
record Holds (maxlen : ℕ) (w : Writer) (s : Bytes) : Type 0 where
  text_is : w.text ≡ s
  len_is : w.len ≡ length s
  whole : w.truncated ≡ false
  inside : w.overrun ≡ false

module _ (maxlen : ℕ) (w : Writer) (s : Bytes) (h : Holds maxlen w s) where
  print-Holds : (t : Bytes) → length (s ++ t) < maxlen → Holds maxlen (print maxlen w t) (s ++ t)
  unfolding print
  print-Holds t fits = ground (arith, h, length-append s t)

  print_url-Holds :
      (url : Bytes)
      → length (s ++ write_url_encoded url) < maxlen
      → Holds maxlen (print_url maxlen w url) (s ++ write_url_encoded url)
  unfolding print_url
  print_url-Holds url fits = ground (arith, h, length-append s (write_url_encoded url))

-- A text that fits with what follows it fits.
prefix_fits : {maxlen : ℕ} (s t : Bytes) → length (s ++ t) < maxlen → length s < maxlen
prefix_fits s t h = omega (arith, length-append s t)

print_headers-Holds :
    (maxlen : ℕ) (w : Writer) (s : Bytes) (hs : Headers)
    → Holds maxlen w s
    → length (s ++ header_text hs) < maxlen
    → Holds maxlen (print_headers maxlen w hs) (s ++ header_text hs)
unfolding print_headers header_text
print_headers-Holds maxlen w s [] h fits = rw (append-nil s) h
print_headers-Holds maxlen w s (k ∷ hs) h fits =
    let e = append_assoc s (header_line k) (header_text hs) in
    let all_fits : length ((s ++ header_line k) ++ header_text hs) < maxlen = rw e fits in
    let rest =
      print_headers-Holds maxlen (print maxlen w (header_line k)) (s ++ header_line k) hs
        (print-Holds maxlen w s h (header_line k)
          (prefix_fits (s ++ header_line k) (header_text hs) all_fits))
        all_fits in
    rw e at rest

set_length-line :
    (req : Req) → ((set_length req).method ≡ req.method) × ((set_length req).path ≡ req.path)
unfolding set_length
set_length-line req = ground arith

has_body_method-methods : (m : Bytes) → has_body_method m ≡ is_one_of methods m
has_body_method-methods m = ground arith

set_length-meant :
    (req : Req)
    → length (body req) < 10 ^ 15
    → ((set_length req).req_headers ≡ meant_headers req) × (overruns_length req ≡ false)
unfolding set_length overruns_length
set_length-meant req small =
    let n = sum_lengths-body 0 req.req_body (omega (arith, small)) in
    ground (arith, small, n, has_body_method-methods req.method)

-- The pieces of the head, appended from the left.
abbrev line_text : Bytes → Req → Bytes
line_text prefix req =
    (((req.method ++ codes " ") ++ write_url_encoded prefix) ++ write_url_encoded req.path)
    ++ codes " HTTP/1.1\r\n"

head_text-left :
    (prefix : Bytes) (req : Req)
    → head_text prefix req ≡ (line_text prefix req ++ header_text (meant_headers req)) ++ crlf
unfolding head_text
head_text-left prefix req = rw (fields-text (meant_headers req)) (simp append_assoc)

module _ (prefix : Bytes) (req : Req) (maxlen : ℕ) where
  line_writer : Writer
  line_writer =
      print maxlen
        (print_url maxlen (print_url maxlen (print maxlen start (req.method ++ codes " ")) prefix)
          req.path)
        (codes " HTTP/1.1\r\n")

  line-Holds :
      length (line_text prefix req) < maxlen → Holds maxlen line_writer (line_text prefix req)
  unfolding line_writer
  line-Holds fits =
      let to_path = prefix_fits _ (codes " HTTP/1.1\r\n") fits in
      let to_prefix = prefix_fits _ (write_url_encoded req.path) to_path in
      let to_method = prefix_fits _ (write_url_encoded prefix) to_prefix in
      print-Holds maxlen _ _
        (print_url-Holds maxlen _ _
          (print_url-Holds maxlen _ _
            (print-Holds maxlen start []
              (record { text_is = refl; len_is = refl; whole = refl; inside = refl })
              (req.method ++ codes " ") to_method)
            prefix to_prefix)
          req.path to_path)
        (codes " HTTP/1.1\r\n") fits

  -- The rest of the head, behind the request line.
  head-Holds :
      (hs : Headers) (w : Writer)
      → Holds maxlen w (line_text prefix req)
      → length ((line_text prefix req ++ header_text hs) ++ crlf) < maxlen
      → Holds maxlen
          (print maxlen (print_headers maxlen w hs) crlf)
          ((line_text prefix req ++ header_text hs) ++ crlf)
  head-Holds hs w line fits =
      print-Holds maxlen _ _
        (print_headers-Holds maxlen w (line_text prefix req) hs line (prefix_fits _ crlf fits)) crlf
        fits

  -- `length_str` is not overrun.
  length-Holds :
      length (line_text prefix req) < maxlen
      → overruns_length req ≡ false
      → Holds maxlen
          (record line_writer { overrun = line_writer.overrun || overruns_length req })
          (line_text prefix req)
  length-Holds fits inside =
      let line = line-Holds fits in
      record {
        text_is = line.text_is;
        len_is = line.len_is;
        whole = line.whole;
        inside = ground (arith, line.inside, inside);
      }

-- If the head is shorter than the buffer, and the body that is queued is shorter than 10^15 bytes,
-- the buffer holds the head, whole and as it is meant, nothing is written past the end of a buffer,
-- and the result is the length of the head. The request has the headers that were written.
pub http_req_write_fits :
    (prefix : Bytes) (req : Req) (maxlen : ℕ)
    → length (head_text prefix req) < maxlen
    → length (body req) < 10 ^ 15
    → let (req', w) = http_req_write prefix req maxlen in
      (w.text ≡ head_text prefix req)
      × (w.len ≡ length (head_text prefix req))
      × (w.truncated ≡ false)
      × (w.overrun ≡ false)
      × (req'.req_headers ≡ meant_headers req)
unfolding http_req_write line_writer
http_req_write_fits prefix req maxlen fits small =
    let (headers, inside) = set_length-meant req small in
    let pieces = head_text-left prefix req in
    let all_fits : length ((line_text prefix req ++ header_text (meant_headers req)) ++ crlf)
        < maxlen =
      rw pieces at fits in
    let line =
      length-Holds prefix req maxlen
        (prefix_fits _ (header_text (meant_headers req)) (prefix_fits _ crlf all_fits)) inside in
    let holds = head-Holds prefix req maxlen (meant_headers req) _ line all_fits in
    rw headers (
      holds.text_is ∙ sym pieces,
      holds.len_is ∙ ap length (sym pieces),
      holds.whole,
      holds.inside,
      refl,
    )
