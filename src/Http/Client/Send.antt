-- ===== src/Http/Client/Send.antt =====
-- `send_body` of src/http.c: the chunks of a request's body, written to the link.
pub mod Chunked
pub mod Dechunk
use tlsuv.Base.{
  ℕ, zero, suc, ◌+◌, ◌-◌, ◌/◌, ◌%◌, ◌^◌, Bytes, Bool, true, false, Option, none, some, List, [],
  ◌∷◌, ◌++◌, codes, length, ltb, leb, if◌then◌else◌,
}
use tlsuv.Http.Types.{Req, Chunk, ReqState, body_sent, Uv, Event, link_write, chunk_done, overread}
use tlsuv.Http.Request.Write.{crlf}

abbrev pub hex_digit : ℕ → ℕ
hex_digit d = if ltb d 10 then b'0' + d else b'a' + (d - 10)

unfoldable pub print_hex_upto : ℕ → ℕ → Bytes
print_hex_upto zero n = hex_digit (n % 16) ∷ []
print_hex_upto (suc fuel) n =
    let rest = print_hex_upto fuel (n / 16) ++ hex_digit (n % 16) ∷ [] in
    if ltb n 16 then hex_digit n ∷ [] else rest

-- `%zx`; a `size_t` has at most 16 digits.
unfoldable pub print_hex : ℕ → Bytes
unfolding print_hex_upto
print_hex n = print_hex_upto 16 n

-- The size line goes through a buffer of 10 bytes, with a NUL behind it; a longer one is cut, and
-- the write then reads past the buffer.
unfoldable pub size_line : ℕ → Event
size_line n =
    let text = print_hex n ++ crlf in
    if ltb (length text) 10 then link_write text else overread (length text)

-- One chunk in the chunked coding; an empty one ends the body.
unfoldable pub chunk_writes : Bytes → List Event
chunk_writes [] = link_write (codes "0\r\n\r\n") ∷ []
chunk_writes (b ∷ bs) = size_line (length (b ∷ bs)) ∷ link_write (b ∷ bs) ∷ link_write crlf ∷ []

-- `req->state` after a chunk.
abbrev state_after_chunk : ReqState → Bytes → ReqState
state_after_chunk s [] = body_sent
state_after_chunk s (b ∷ bs) = s

-- One round of the loop on the chunk that it took off.
unfoldable pub send_chunk : Req → Chunk → Req × List Event
unfolding chunk_writes
send_chunk req b =
    let sent = (req.body_sent_size + length b.chunk) % 2 ^ 64 in
    if req.req_chunked
    then (
      record req { body_sent_size = sent; state = state_after_chunk req.state b.chunk },
      chunk_writes b.chunk,
    )
    else (
      record req {
        body_sent_size = sent;
        state = if leb req.req_body_size sent then body_sent else req.state;
      },
      link_write b.chunk ∷ [],
    )

unfoldable pub send_chunks : Req → List Chunk → Req × List Event
send_chunks req [] = (req, [])
send_chunks req (b ∷ bs) =
    let (req', events) = send_chunk req b in
    let (req'', later) = send_chunks req' bs in (req'', events ++ later)

-- The request keeps no chunk: each was handed to the link.
unfoldable pub send_body : Req → Req × List Event
send_body req = send_chunks (record req { req_body = [] }) req.req_body

-- `req_write_body_cb`, when the link is done with a chunk.
unfoldable pub req_write_body_cb : ℕ → Chunk → Uv → List Event
req_write_body_cb id c status = if c.has_cb then chunk_done id c.chunk status ∷ [] else []
