-- ===== src/Tests/ClientLife.antt =====
-- A run of the HTTP client: a request is made, the source is asked for a connection,
-- and refuses.
use tlsuv.Base.{◌≡◌, refl, none, some, List, [], ◌∷◌, ◌++◌, codes, true, false}
use tlsuv.Compression.{Inflate, other_rc}
use tlsuv.Url.{parse_url, parse_scheme, parse_host, parse_port, parse_path, scan}
use tlsuv.Http.Headers.{set_http_header, has_header, replace_first}
use tlsuv.Http.Types.{econnreset, Event}
use tlsuv.Http.Client.{Client}
use tlsuv.Http.Client.Config.{
  blank, http_init_with_src, http_set_url, adopt_url, scheme_port, scheme_is, http_header, http_req,
}
use tlsuv.Http.Client.Process.{process_requests}
use tlsuv.Http.Client.Life.{Reach, here, further, handle, new_request, run_queue, source_told}
use tlsuv.Http.Client.Connect.{src_connect_cb}
use tlsuv.Http.Client.Life.Laws.{IsNumbered, IsNumbered-reach}

abbrev no_inflate : Inflate
no_inflate e history input = record { rc = other_rc; consumed = 0; produced = []; message = false }

abbrev started : Client
started = record blank {
  host = some (codes "h");
  port = 80;
  headers =
      record { name = codes "Connection"; value = codes "keep-alive" }
      ∷ record { name = codes "Host"; value = codes "h" }
      ∷ [];
}

started_runs : http_init_with_src (codes "http://h") none ≡ some started
unfolding http_init_with_src http_set_url adopt_url scheme_port scheme_is http_header
    set_http_header has_header replace_first parse_url parse_scheme parse_host parse_port parse_path
    scan
started_runs = refl

module _ (c : Client) where
  abbrev made : Client × List Event
  made = http_req c (codes "GET") (codes "/") (some true)

  abbrev waiting : Client × List Event
  waiting = process_requests made.0 none

  abbrev refused : Client × List Event
  refused = src_connect_cb waiting.0 (some (econnreset, codes "reset"))

  abbrev calls : List Event
  calls = (made.1 ++ waiting.1) ++ refused.1

  attempt : Reach no_inflate c calls refused.0
  unfolding handle
  attempt =
      further
        (further (further here (new_request (codes "GET") (codes "/") (some true)) _ _ refl)
          (run_queue none) _ _ refl)
        (source_told (some (econnreset, codes "reset"))) _ _ refl

IsNumbered-reach_example : IsNumbered (refused started).0 (calls started)
IsNumbered-reach_example =
    IsNumbered-reach no_inflate (codes "http://h") none started (refused started).0 (calls started)
      started_runs (attempt started)
