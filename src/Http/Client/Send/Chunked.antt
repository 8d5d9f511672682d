-- ===== src/Http/Client/Send/Chunked.antt =====
-- What a receiver of the chunked coding makes of the writes of `send_body`.
use tlsuv.Base.{
  ℕ, zero, suc, ◌^◌, ◌<◌, ◌≡◌, refl, sym, Bytes, true, false, some, List, [], ◌∷◌, ◌++◌,
  append_assoc, map, codes, length, length-append, concat, arith, ltb, lt→ltb, le→leb, leb,
  take_prefix, drop_prefix, All,
}
use tlsuv.Http.Types.{Req, Chunk, Event, link_write, body_sent}
use tlsuv.Http.Request.Write.{crlf}
use tlsuv.Http.Client.Send.{print_hex, size_line, chunk_writes, send_chunk, send_chunks}
use tlsuv.Http.Client.Send.Dechunk.{
  dechunk, read_size, read_chunk, read_size-print_hex, length-print_hex,
}

-- The bytes that the link gets.
unfoldable pub wire : List Event → Bytes
wire [] = []
wire (link_write s ∷ es) = s ++ wire es
wire (_ ∷ es) = wire es

wire-append : (es fs : List Event) → wire (es ++ fs) ≡ wire es ++ wire fs
unfolding wire
wire-append [] fs = refl
wire-append (link_write s ∷ es) fs =
    rw (wire-append es fs) (sym (append_assoc s (wire es) (wire fs)))
wire-append (_ ∷ es) fs = wire-append es fs

-- A chunk that is written as data: not empty, and its size line fits its buffer.
abbrev pub IsPiece : Bytes → Type 0
IsPiece b = (0 < length b) × (length b < 2 ^ 28)

chunk_writes-wire :
    (b : Bytes) → IsPiece b → wire (chunk_writes b) ≡ print_hex (length b) ++ (crlf ++ (b ++ crlf))
unfolding chunk_writes wire size_line
chunk_writes-wire [] h = absurd (omega arith)
chunk_writes-wire (c ∷ cs) h =
    let n = length (c ∷ cs) in
    let fits : ltb (length (print_hex n ++ crlf)) 10 ≡ true =
      lt→ltb _ _ (omega (arith, length-append (print_hex n) crlf, length-print_hex n h.1)) in
    rw fits (append_assoc (print_hex n) crlf ((c ∷ cs) ++ crlf))

read_chunk-here : (b rest : Bytes) → read_chunk (length b) (b ++ (crlf ++ rest)) ≡ some (b, rest)
unfolding read_chunk
read_chunk-here b rest =
    let room : leb (length b) (length (b ++ (crlf ++ rest))) ≡ true =
      le→leb _ _ (omega (arith, length-append b (crlf ++ rest))) in
    ground (arith, room, drop_prefix b (crlf ++ rest), take_prefix b (crlf ++ rest))

dechunk-piece :
    (fuel : ℕ) (b rest data_bytes after : Bytes)
    → IsPiece b
    → dechunk fuel rest ≡ some (data_bytes, after)
    → dechunk (suc fuel) (print_hex (length b) ++ (crlf ++ (b ++ (crlf ++ rest))))
      ≡ some (b ++ data_bytes, after)
unfolding dechunk
dechunk-piece fuel b rest data_bytes after h e = ground (
  arith,
  read_size-print_hex (length b) (b ++ (crlf ++ rest)) (omega arith),
  read_chunk-here b rest,
  e,
)

size-end : (after : Bytes) → read_size (codes "0\r\n\r\n" ++ after) ≡ some (0, crlf ++ after)
unfolding read_size
size-end after = refl

dechunk-end :
    (fuel : ℕ) (after : Bytes) → dechunk (suc fuel) (codes "0\r\n\r\n" ++ after) ≡ some ([], after)
unfolding dechunk
dechunk-end fuel after = ground (arith, size-end after, read_chunk-here [] after)

abbrev pub end_chunk : Chunk
end_chunk = record { chunk = []; has_cb = false }

send_chunk-piece :
    (req : Req) (b : Chunk)
    → req.req_chunked ≡ true
    → ((send_chunk req b).1 ≡ chunk_writes b.chunk) × ((send_chunk req b).0.req_chunked ≡ true)
unfolding send_chunk
send_chunk-piece req b chunked = ground (arith, chunked)

send_chunk-last :
    (req : Req) → req.req_chunked ≡ true → (send_chunk req end_chunk).0.state ≡ body_sent
unfolding send_chunk
send_chunk-last req chunked = rw chunked

-- The bytes for a piece and what follows them, bracketed for the reader.
wire-piece :
    (b : Bytes) (later : List Event) (after : Bytes)
    → IsPiece b
    → wire (chunk_writes b ++ later) ++ after
      ≡ print_hex (length b) ++ (crlf ++ (b ++ (crlf ++ (wire later ++ after))))
wire-piece b later after h =
    rw (wire-append (chunk_writes b) later, chunk_writes-wire b h) (simp append_assoc)

abbrev datas : List Chunk → Bytes
datas pieces = concat (map (λ b. b.chunk) pieces)

-- Each piece in turn, none of them empty or of 2^28 bytes and more, then the empty chunk: the
-- receiver reads the bytes of the pieces, and stops where the next message begins. The request has then sent its body.
pub dechunk-send_chunks :
    (req : Req) (pieces : List Chunk) (after : Bytes) (fuel : ℕ)
    → req.req_chunked ≡ true
    → All (λ b. IsPiece b.chunk) pieces
    → length pieces < fuel
    → (dechunk fuel (wire (send_chunks req (pieces ++ end_chunk ∷ [])).1 ++ after)
        ≡ some (concat (map (λ b. b.chunk) pieces), after))
      × ((send_chunks req (pieces ++ end_chunk ∷ [])).0.state ≡ body_sent)
unfolding send_chunks
dechunk-send_chunks req pieces after zero chunked h k = absurd (omega arith)
dechunk-send_chunks req [] after (suc fuel) chunked h k =
    let e = (send_chunk-piece req end_chunk chunked).0 in
    (rw e (unfold wire chunk_writes in dechunk-end fuel after), send_chunk-last req chunked)
dechunk-send_chunks req (b ∷ pieces) after (suc fuel) chunked h k =
    let req' = (send_chunk req b).0 in
    let e = send_chunk-piece req b chunked in
    let ih = dechunk-send_chunks req' pieces after fuel e.1 h.1 (omega arith) in
    let w = wire-piece b.chunk (send_chunks req' (pieces ++ end_chunk ∷ [])).1 after h.0 in
    (rw (e.0, w) (dechunk-piece fuel b.chunk _ (datas pieces) after h.0 ih.0), ih.1)
