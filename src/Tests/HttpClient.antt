-- ===== src/Tests/HttpClient.antt =====
-- Runs and instances for the HTTP client.
use tlsuv.Base.{
  ◌≡◌, refl, true, false, none, some, List, [], ◌∷◌, ◌++◌, codes, arith, map, take, concat,
}
use tlsuv.Compression.{Inflate, other_rc}
use tlsuv.Http.Types.{Req, Chunk, completed, body_sent}
use tlsuv.Http.Request.{empty_resp}
use tlsuv.Http.Request.Response.{
  Execution, Processed, on_message_complete, hpe_ok, hpe_error, http_req_process, on_tokens,
  on_token, message_cb,
}
use tlsuv.Http.Client.{Client, connected}
use tlsuv.Http.Client.Config.{blank}
use tlsuv.Http.Client.Send.{send_chunks}
use tlsuv.Http.Client.Send.Chunked.{wire, end_chunk, dechunk-send_chunks}
use tlsuv.Http.Client.Send.Dechunk.{dechunk}
use tlsuv.Http.Client.Process.{process_requests}
use tlsuv.Http.Client.Process.Order.{pending, active_ids, pending-process_requests}
use tlsuv.Http.Client.Read.{null_dereference, double_free, got, http_read_cb}
use tlsuv.Http.Client.Read.Faults.{read_parse_failure}

abbrev get_one : Req
get_one = record {
  id = 1;
  method = codes "GET";
  path = codes "/";
  state = body_sent;
  req_chunked = false;
  req_body_size = 0;
  body_sent_size = 0;
  req_body = [];
  req_headers = [];
  resp_cb = some true;
  inflater = none;
  resp = empty_resp;
}

-- The same without a callback, and one that is chunked.
abbrev silent_one : Req
silent_one = record get_one { resp_cb = none }

abbrev chunked_one : Req
chunked_one = record get_one { req_chunked = true }

-- A client that is connected and works on the first request; another waits.
abbrev busy : Client
busy = record blank {
  status = connected;
  active = some get_one;
  requests = record get_one { id = 2 } ∷ [];
  next_id = 3;
}

abbrev no_zlib : Inflate
no_zlib e history input = record { rc = other_rc; consumed = 0; produced = []; message = false }

abbrev two_pieces : List Chunk
two_pieces =
    record { chunk = codes "hello"; has_cb = true }
    ∷ record { chunk = codes "w"; has_cb = false }
    ∷ []

dechunk-send_chunks_example :
    (dechunk 3 (wire (send_chunks chunked_one (two_pieces ++ end_chunk ∷ [])).1 ++ codes "GET")
      ≡ some (concat (map (λ b. b.chunk) two_pieces), codes "GET"))
    × ((send_chunks chunked_one (two_pieces ++ end_chunk ∷ [])).0.state ≡ body_sent)
dechunk-send_chunks_example =
    dechunk-send_chunks chunked_one two_pieces (codes "GET") 3 refl (omega arith) (omega arith)

pending-process_requests_example :
    (pending (process_requests busy none).0 ≡ pending busy)
    × (active_ids (process_requests busy none).0.active ≡ take 1 (pending busy))
pending-process_requests_example = pending-process_requests busy

abbrev bad_run : Execution
bad_run = record { tokens = []; errno = hpe_error }

abbrev bad_result : Processed
bad_result = record { req = get_one; events = []; processed = none }

bad_run_runs : http_req_process no_zlib get_one bad_run 5 ≡ some bad_result
unfolding http_req_process on_tokens
bad_run_runs = refl

read_parse_failure_example :
    http_read_cb no_zlib busy (got 5 bad_run)
    ≡ elim bad_result.req.resp_cb [ none ↦ double_free | some wants ↦ null_dereference ]
read_parse_failure_example =
    read_parse_failure no_zlib busy get_one 5 bad_run bad_result refl (omega arith) bad_run_runs
      refl

abbrev end_run : Execution
end_run = record { tokens = on_message_complete ∷ []; errno = hpe_ok }

abbrev end_result : Processed
end_result = record { req = record get_one { state = completed }; events = []; processed = some 5 }

end_run_runs : http_req_process no_zlib get_one end_run 5 ≡ some end_result
unfolding http_req_process on_tokens on_token message_cb
end_run_runs = refl

abbrev stuck : Client
stuck = record busy { active = some silent_one }

abbrev second : Req
second = record get_one { id = 2 }
