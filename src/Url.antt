-- ===== src/Url.antt =====
-- `tlsuv_parse_url` of src/http.c, with `struct tlsuv_url_s` of include/tlsuv/http.h.
-- A pointer into the text and its length are one field: the bytes that they delimit, or `none`
-- for NULL. Text is the bytes before the NUL of the C string.
pub mod Format
pub mod Pieces
pub mod RoundTrip
use tlsuv.Base.{
  ℕ, ◌+◌, ◌^◌, ◌-◌, Bytes, Bool, true, false, not, ◌&&◌, ◌||◌, Option, none, some, List, [], ◌∷◌,
  ◌++◌, ltb, leb, ◌==◌, if◌then◌else◌, strtol, Strtol,
}
pub use Format.{Url}
unfoldable pub use Format.{format}

-- `sscanf(p, "%*[^…]%n", &count)` with the bytes that `stop` refuses: the text that it passes over,
-- and the text behind that.
unfoldable pub scan : (ℕ → Bool) → Bytes → Bytes × Bytes
scan stop [] = ([], [])
scan stop (c ∷ cs) =
    let (passed, rest) = scan stop cs in if stop c then ([], c ∷ cs) else (c ∷ passed, rest)

abbrev pub is_colon : ℕ → Bool
is_colon c = c == b':'

abbrev pub ends_host : ℕ → Bool
ends_host c = c == b':' || c == b'/'

abbrev pub is_query : ℕ → Bool
is_query c = c == b'?'

-- `p[0] == ':' && p[1] == '/' && p[2] == '/'`, and what follows these.
abbrev pub after_scheme_mark : Bytes → Option Bytes
after_scheme_mark (a ∷ b ∷ c ∷ rest) =
    if (a == b':') && (b == b'/') && (c == b'/') then some rest else none
after_scheme_mark _ = none

-- The scheme and the rest of the text. On the empty text `sscanf` fails, and no mark follows.
unfoldable pub parse_scheme : Bytes → Option Bytes × Bytes
parse_scheme p =
    let (passed, rest) = scan is_colon p in
    elim (after_scheme_mark rest) [ none ↦ (none, p) | some q ↦ (some passed, q) ]

-- `count > 0`: the host is not empty.
abbrev pub host_of : Bytes → Option Bytes
host_of [] = none
host_of (c ∷ cs) = some (c ∷ cs)

unfoldable pub parse_host : Bytes → Option Bytes × Bytes
parse_host p = let (passed, rest) = scan ends_host p in (host_of passed, rest)

-- The port behind a colon; `none` for the results -1. Without a colon the port is 0.
pub port_text : Option Bytes → Bytes → Option (ℕ × Bytes)
port_text none p = none
port_text (some host) p = elim (strtol p) [
  | none ↦ none
  | some r ↦
      if not r.negative && (ltb 0 r.magnitude && leb r.magnitude (2 ^ 16 - 1))
      then some (r.magnitude, r.end_text)
      else none
]

unfoldable pub parse_port : Option Bytes → Bytes → Option (ℕ × Bytes)
unfolding port_text
parse_port host [] = some (0, [])
parse_port host (c ∷ cs) = if is_colon c then port_text host cs else some (0, c ∷ cs)

-- The query behind the path.
abbrev pub query_of : Bytes → Option Bytes
query_of [] = none
query_of (c ∷ cs) = if is_query c then some cs else none

-- From the test for the end of the text on: whether the text is well formed, path and query.
unfoldable pub parse_path : Bytes → Bool × Option Bytes × Option Bytes
parse_path [] = (true, none, none)
parse_path (c ∷ cs) =
    let (passed, rest) = scan is_query (c ∷ cs) in
    if c == b'/' then (true, some passed, query_of rest) else (false, none, none)

-- The result 0 is `true` and -1 is `false`; a field that is not reached stays NULL or 0.
unfoldable pub parse_url : Bytes → Bool × Url
parse_url urlstr =
    let (scheme, p) = parse_scheme urlstr in
    let (hostname, q) = parse_host p in
    elim (parse_port hostname q) [
      | none ↦ (
        false,
        record { scheme = scheme; hostname = hostname; port = 0; path = none; query = none },
      )
      | some (port, r) ↦
          let (good, path, query) = parse_path r in
          (
            good,
            record {
              scheme = scheme;
              hostname = hostname;
              port = port;
              path = path;
              query = query;
            },
          )
    ]
