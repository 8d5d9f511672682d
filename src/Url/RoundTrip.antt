-- ===== src/Url/RoundTrip.antt =====
-- Parsing the text of a URL gives the URL back.
use tlsuv.Base.{
  ℕ, ◌^◌, ◌<◌, ◌≡◌, refl, ap, ◌∙◌, Bytes, Bool, true, false, Option, none, some, [], ◌∷◌, ◌++◌,
  append_assoc, arith, All, ◌==◌, starts_digit, print_decimal, strtol-print_decimal, Bool-cases,
  inl, inr, sym, ==→eq,
}
use tlsuv.Url.Format.{Url, format, scheme_text, plain_text, query_text, port_suffix}
use tlsuv.Url.{
  scan, is_colon, ends_host, is_query, parse_scheme, parse_host, parse_port, parse_path, parse_url,
}

-- The scan ends before this text.
abbrev StopsAt : (ℕ → Bool) → Bytes → Type 0
StopsAt stop [] = Unit {0}
StopsAt stop (c ∷ cs) = stop c ≡ true

abbrev pub Avoids : (ℕ → Bool) → Bytes → Type 0
Avoids stop s = All (λ c. stop c ≡ false) s

scan-append :
    (stop : ℕ → Bool) (s rest : Bytes)
    → Avoids stop s
    → StopsAt stop rest
    → scan stop (s ++ rest) ≡ (s, rest)
unfolding scan
scan-append stop [] [] h k = refl
scan-append stop [] (c ∷ cs) h k = ground (arith, k)
scan-append stop (c ∷ s) rest h k = ground (arith, h, scan-append stop s rest h.1 k)

-- A URL that its text determines: a scheme with no colon, a host with no colon or slash, a path
-- that begins with a slash and holds no question mark, a query only behind a path.
abbrev PathOk : Option Bytes → Option Bytes → Type 0
PathOk none none = Unit {0}
PathOk none (some q) = ⊥
PathOk (some []) q = ⊥
PathOk (some (c ∷ cs)) q = (c ≡ b'/') × Avoids is_query cs

abbrev HostOk : Option Bytes → Type 0
HostOk none = ⊥
HostOk (some []) = ⊥
HostOk (some (c ∷ cs)) = Avoids ends_host (c ∷ cs)

abbrev SchemeOk : Option Bytes → Type 0
SchemeOk none = ⊥
SchemeOk (some s) = Avoids is_colon s

pub record IsUrl (u : Url) : Type 0 where
  pub scheme_ok : SchemeOk u.scheme
  pub host_ok : HostOk u.hostname
  pub port_ok : u.port < 2 ^ 16
  pub path_ok : PathOk u.path u.query

parse_scheme-text :
    (s p : Bytes) → Avoids is_colon s → parse_scheme (scheme_text (some s) ++ p) ≡ (some s, p)
unfolding parse_scheme
parse_scheme-text s p h = ground (
  arith,
  append_assoc s (b':' ∷ b'/' ∷ b'/' ∷ []) p,
  scan-append is_colon s (b':' ∷ b'/' ∷ b'/' ∷ p) h refl,
)

parse_host-text :
    (c : ℕ) (s p : Bytes)
    → Avoids ends_host (c ∷ s)
    → StopsAt ends_host p
    → parse_host ((c ∷ s) ++ p) ≡ (some (c ∷ s), p)
unfolding parse_host
parse_host-text c s p h k = rw (scan-append ends_host (c ∷ s) p h k)

abbrev tail_text : Option Bytes → Option Bytes → Bytes
tail_text path query = plain_text path ++ query_text query

-- What follows the port begins with no digit and no colon.
tail-start :
    (host path query : Option Bytes)
    → PathOk path query
    → (starts_digit (tail_text path query) ≡ false)
      × (StopsAt ends_host (tail_text path query))
      × (parse_port host (tail_text path query) ≡ some (0, tail_text path query))
unfolding parse_port
tail-start host none none h = (refl, tt, refl)
tail-start host none (some q) h = absurd h
tail-start host (some []) q h = absurd h
tail-start host (some (c ∷ cs)) q h = ground (arith, h)

parse_path-text :
    (path query : Option Bytes)
    → PathOk path query
    → parse_path (tail_text path query) ≡ (true, path, query)
unfolding parse_path
parse_path-text none none h = refl
parse_path-text none (some q) h = absurd h
parse_path-text (some []) q h = absurd h
parse_path-text (some (c ∷ cs)) none h =
    ground (arith, h, scan-append is_query (c ∷ cs) [] (ground (arith, h)) tt)
parse_path-text (some (c ∷ cs)) (some q) h =
    ground (arith, h, scan-append is_query (c ∷ cs) (b'?' ∷ q) (ground (arith, h)) refl)

parse_port-digits :
    (host : Bytes) (port : ℕ) (p : Bytes)
    → 0 < port
    → port < 2 ^ 16
    → starts_digit p ≡ false
    → parse_port (some host) (b':' ∷ (print_decimal port ++ p)) ≡ some (port, p)
unfolding parse_port
parse_port-digits host port p pos h k = ground (arith, strtol-print_decimal port p (omega arith) k)

parse_port-text :
    (host : Bytes) (port : ℕ) (path query : Option Bytes)
    → port < 2 ^ 16
    → PathOk path query
    → parse_port (some host) (port_suffix port ++ tail_text path query)
      ≡ some (port, tail_text path query)
unfolding port_suffix
parse_port-text host port path query h k = elim (Bool-cases (port == 0)) [
  | inl absent ↦
      let e : port ≡ 0 = ==→eq _ _ absent in
      rw absent (
        (tail-start (some host) path query k).2
        ∙ ap (λ (n : ℕ). some (n, tail_text path query)) (sym e))
  | inr present ↦ rw present (
      parse_port-digits host port (tail_text path query) (ground arith) h
        (tail-start none path query k).0)
]

port-StopsAt :
    (port : ℕ) (path query : Option Bytes)
    → PathOk path query
    → StopsAt ends_host (port_suffix port ++ tail_text path query)
unfolding port_suffix
port-StopsAt port path query k = elim (Bool-cases (port == 0)) [
  | inl absent ↦ rw absent (tail-start none path query k).1
  | inr present ↦ rw present refl
]

-- The parts in turn.
parse_url-parts :
    (urlstr p q r : Bytes) (scheme hostname path query : Option Bytes) (port : ℕ)
    → parse_scheme urlstr ≡ (scheme, p)
    → parse_host p ≡ (hostname, q)
    → parse_port hostname q ≡ some (port, r)
    → parse_path r ≡ (true, path, query)
    → parse_url urlstr ≡ (
      true,
      record { scheme = scheme; hostname = hostname; port = port; path = path; query = query },
    )
unfolding parse_url
parse_url-parts urlstr p q r scheme hostname path query port h1 h2 h3 h4 =
    ground (arith, h1, h2, h3, h4)

fields-format :
    (scheme hostname path query : Option Bytes) (port : ℕ)
    → SchemeOk scheme
    → HostOk hostname
    → port < 2 ^ 16
    → PathOk path query
    → let u : Url = record {
      scheme = scheme;
      hostname = hostname;
      port = port;
      path = path;
      query = query;
    } in
      parse_url (format u) ≡ (true, u)
unfolding format
fields-format none hostname path query port s h b k = absurd s
fields-format (some s') none path query port s h b k = absurd h
fields-format (some s') (some []) path query port s h b k = absurd h
fields-format (some s') (some (c ∷ cs)) path query port s h b k =
    parse_url-parts _ _ _ _ _ _ _ _ _ (parse_scheme-text s' _ s)
      (parse_host-text c cs _ h (port-StopsAt port path query k))
      (parse_port-text (c ∷ cs) port path query b k) (parse_path-text path query k)

-- A URL with a scheme, a host, a port below 65536 (0 for none), and a path and query that fit
-- together comes back from its text, every field of it.
pub parse_url-format : (u : Url) → IsUrl u → parse_url (format u) ≡ (true, u)
parse_url-format u v =
    fields-format u.scheme u.hostname u.path u.query u.port v.scheme_ok v.host_ok v.port_ok
      v.path_ok
