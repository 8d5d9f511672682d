-- ===== src/Http/Client/Config.antt =====
-- The client's base URL, prefix and headers, and new requests: `tlsuv_http_set_url`,
-- `tlsuv_http_init_with_src`, `tlsuv_http_req` and the setters of src/http.c.
pub mod Laws
use tlsuv.Base.{
  ℕ, ◌+◌, Bytes, Bool, true, false, not, Option, none, some, List, [], ◌∷◌, ◌++◌, codes, take,
  length, case_eq, ◌==◌, if◌then◌else◌,
}
use tlsuv.Url.{Url, parse_url}
use tlsuv.Http.Headers.{Headers, set_http_header}
use tlsuv.Http.Types.{Event, timer_stop, proc_ref, async_send}
use tlsuv.Http.Request.{http_req_init}
use tlsuv.Http.Client.{Client, disconnected}

-- `strncasecmp(name, scheme, scheme_len) == 0`, where the scheme has `scheme_len` bytes.
unfoldable pub scheme_is : Bytes → Bytes → Bool
scheme_is name scheme = case_eq (take (length scheme) name) scheme

-- The default port of a scheme, and whether it asks for TLS.
unfoldable pub scheme_port : Bytes → Option (ℕ × Bool)
scheme_port scheme =
    if scheme_is (codes "http") scheme
    then some (80, false)
    else if scheme_is (codes "https") scheme
    then some (443, true)
    else none

-- `tlsuv_http_header`
unfoldable pub http_header : Client → Bytes → Option Bytes → Client
http_header c name value = record c { headers = set_http_header c.headers name value }

-- The part of `tlsuv_http_set_url` behind the checks. `ssl` is set for https, and never cleared.
unfoldable pub adopt_url : Client → Bytes → ℕ → Bool → Url → Client
adopt_url c host default_port tls u = record c {
  ssl = if tls then true else c.ssl;
  host_change = elim c.host [ none ↦ c.host_change | some old ↦ true ];
  host = some host;
  headers =
      set_http_header (set_http_header c.headers (codes "Host") none) (codes "Host") (some host);
  port = if u.port == 0 then default_port else u.port;
  prefix = elim u.path [ none ↦ c.prefix | some path ↦ some path ];
}

-- The result UV_EINVAL is `none`. A URL whose host is missing is refused before `ssl` is touched.
unfoldable pub http_set_url : Client → Bytes → Option Client
unfolding adopt_url
http_set_url c text =
    let (good, u) = parse_url text in
    if not good then none else elim u.scheme [
      | none ↦ none
      | some scheme ↦ elim u.hostname [
        | none ↦ none
        | some host ↦ elim (scheme_port scheme) [
          | none ↦ none
          | some (default_port, tls) ↦ some (adopt_url c host default_port tls u)
        ]
      ]
    ]

-- `http_set_prefix`; NULL is `none`.
unfoldable pub http_set_prefix : Client → Option Bytes → Client
http_set_prefix c pfx = record c { prefix = pfx }

-- A client before its URL is set, as `tlsuv_http_init_with_src` prepares it.
abbrev pub blank : Client
blank = record {
  host = none;
  port = 0;
  prefix = none;
  host_change = false;
  ssl = false;
  has_engine = false;
  headers = [];
  status = disconnected;
  connect_timeout = 0;
  idle_time = some 0;
  active = none;
  requests = [];
  next_id = 0;
}

-- `encodings` is what zlib offers.
unfoldable pub http_init_with_src : Bytes → Option Bytes → Option Client
http_init_with_src url encodings = elim (http_set_url blank url) [
  | none ↦ none
  | some c ↦
      let c' = http_header c (codes "Connection") (some (codes "keep-alive")) in
      some
        (elim encodings [ none ↦ c' | some e ↦ http_header c' (codes "Accept-Encoding") (some e) ])
]

-- `LIST_FOREACH` over the client's headers, each set on the request.
unfoldable pub copy_headers : Headers → Headers → Headers
copy_headers [] into = into
copy_headers (h ∷ hs) into = copy_headers hs (set_http_header into h.name (some h.value))

-- `tlsuv_http_req`: the new request goes to the end of the queue.
unfoldable pub http_req : Client → Bytes → Bytes → Option Bool → Client × List Event
http_req c method path resp_cb =
    let r = http_req_init c.next_id method path resp_cb in
    (
      record c {
        requests = c.requests ++ (record r { req_headers = copy_headers c.headers [] } ∷ []);
        next_id = c.next_id + 1;
      },
      timer_stop ∷ proc_ref ∷ async_send ∷ [],
    )

unfoldable pub http_connect_timeout : Client → ℕ → Client
http_connect_timeout c millis = record c { connect_timeout = millis }

unfoldable pub http_idle_keepalive : Client → Option ℕ → Client
http_idle_keepalive c millis = record c { idle_time = millis }
