-- ===== src/Tests/Mbedtls.antt =====
-- Instances for the mbedTLS engine: a function that asks for two bytes and answers.
use tlsuv.Base.{
  ℕ, suc, ◌==◌, ◌++◌, refl, true, false, none, some, codes, arith, length, [], if◌then◌else◌,
}
use tlsuv.Bio.{Bio, new, put}
use tlsuv.Bio.Stream.{Inv, stream}
use tlsuv.Bio.Put.{new-Inv, put_lem}
use tlsuv.Mbedtls.{
  Io, done, recv, send, given, run, Mbedtls, MbedtlsEngine, hello_request, other_state,
  handshake_over, hs_done, wrote, read_zero, mbedtls_continue_hs,
}
use tlsuv.Mbedtls.Streams.{
  Refines, run_streams, run-run_streams, Stepped, mbedtls_continue_hs-Stepped,
}

abbrev ask_two : Io ℕ
ask_two = recv 2 (λ answer. send (codes "ok") (done (length (given answer))))

abbrev three_waiting : Bio
unfolding new
three_waiting = (put true true new (codes "abc")).0

three_waiting-Inv : Inv three_waiting
unfolding new
three_waiting-Inv = (put_lem new (codes "abc") new-Inv (omega arith) (omega arith)).1

run-run_streams_example :
    Refines
      (run ask_two three_waiting new)
      (run_streams ask_two (stream three_waiting) (stream new))
unfolding new
run-run_streams_example =
    run-run_streams ask_two three_waiting new three_waiting-Inv new-Inv
      (omega arith, omega arith, tt)

-- A context is the number of the steps that were taken; the second ends the handshake.
abbrev two_steps : Mbedtls ℕ ℕ
two_steps = record {
  state = λ m. if m == 0 then hello_request else if m == 1 then other_state else handshake_over;
  ssl_handshake = λ m. recv 2 (λ answer. send (codes "ok") (done (suc m, hs_done)));
  ssl_write = λ b m. send b (done (m, wrote (length b)));
  ssl_read = λ n m. done (m, read_zero);
  check_pending = λ m. false;
  close_notify = λ m. done m;
  set_session = λ s m. m;
  get_session = λ m. none;
  session_reset = λ m. 0;
  cleared = 0;
}

abbrev connecting : MbedtlsEngine ℕ ℕ
connecting = record { ssl = 1; session = none; input = new; output = new; error = 0 }

mbedtls_continue_hs-Stepped_example :
    Stepped two_steps 100 1
      (stream new ++ codes "d")
      (stream new)
      (mbedtls_continue_hs two_steps (some (codes "d")) 100 connecting)
unfolding new
mbedtls_continue_hs-Stepped_example =
    mbedtls_continue_hs-Stepped two_steps connecting 100 [] 100 new-Inv new-Inv refl (omega arith)
      (omega arith) (omega arith, omega arith, tt)
