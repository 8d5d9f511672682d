-- ===== src/Http/Client/Life/Ends.antt =====
-- How requests end: the handlers `http_read_cb` and `tlsuv_http_req_cancel` add no request, and
-- their calls concern requests that are pending.
use tlsuv.Base.{
  ℕ, ◌≡◌, refl, subst, sym, Bool, true, false, Option, none, some, List, [], ◌∷◌, All, arith,
  Option-cases, inl, inr, if◌then◌else◌, ◌==◌,
}
use tlsuv.Compression.{Inflate}
use tlsuv.Http.Types.{Req, Event, async_send}
use tlsuv.Http.Request.Response.{Execution, Processed, http_req_process}
use tlsuv.Http.Client.{Client, ◌then_do◌, fail_active_request, close_connection, announce}
use tlsuv.Http.Client.Read.{
  returns, Nread, failed, got, keep_alive, finish_request, is_completed, check_completed,
  after_process, read_active, http_read_cb,
}
use tlsuv.Http.Client.Process.Order.{pending}
use tlsuv.Http.Client.Life.Numbers.{told_ids, Ascending}
use tlsuv.Http.Client.Life.Response.{Own-http_req_process}
use tlsuv.Http.Client.Life.Keeps.{
  Keeps, quiet, Keeps-after, Keeps-announce, Keeps-fail_active_request, Keeps-close_connection,
  Keeps-drop_active,
}

module _ (P : ℕ → Type 0) where
  Keeps-finish_request : (c : Client) (r : Req) → Keeps P c (finish_request c r)
  unfolding finish_request
  Keeps-finish_request c r =
      let c' = record c { active = none } in
      Keeps-after P c c' _ [] _ (Keeps-drop_active P c) (last c' (keep_alive r.resp))
    where
      last :
          (c' : Client) (kept : Bool)
          → Keeps P c' (if kept then (c', async_send ∷ []) else close_connection c')
      last c' true = quiet P c' c' (async_send ∷ []) refl refl (unfold told_ids in refl)
      last c' false = Keeps-close_connection P c'

  Keeps-check_completed :
      (c₀ c : Client) (es : List Event) (freed : Bool) (x : Client × List Event)
      → Keeps P c₀ (c, es)
      → check_completed (c, es) freed ≡ returns x
      → Keeps P c₀ x
  Keeps-check_completed c₀ c es freed x k e = elim (Option-cases c.active) [
    | inl gone ↦ absurd (unfold check_completed in ground (arith, e, gone))
    | inr (r, there) ↦
        let run : x ≡ (
            if is_completed r.state then ((c, es) then_do λ c. finish_request c r) else (c, es)) =
          unfold check_completed in ground (arith, e, there) in
        subst (Keeps P c₀) (sym run) (pick r (is_completed r.state))
  ]
    where
      pick :
          (r : Req) (done : Bool)
          → Keeps P c₀ (if done then ((c, es) then_do λ c. finish_request c r) else (c, es))
      pick r true = Keeps-after P c₀ c _ es _ k (Keeps-finish_request c r)
      pick r false = k

  -- The active request after the parser has run.
  Keeps-processed :
      (inflate : Inflate) (c : Client) (r : Req) (run : Execution) (len : ℕ) (p : Processed)
      → c.active ≡ some r
      → http_req_process inflate r run len ≡ some p
      → Keeps P c (record c { active = some p.req }, p.events)
  Keeps-processed inflate c r run len p active e =
      let own = Own-http_req_process P inflate r run len p e in
      let same : pending (record c { active = some p.req }) ≡ pending c =
        ground (arith, active, own.0) in
      record {
        within = λ h. subst (All P) (sym same) h;
        told = λ h. own.1 (ground (arith, active, h));
        sorted = λ h. subst Ascending (sym same) h;
        next = refl;
      }

  Keeps-after_process :
      (inflate : Inflate) (c : Client) (r : Req) (nread : ℕ) (run : Execution) (p : Processed)
      (x : Client × List Event)
      → c.active ≡ some r
      → http_req_process inflate r run nread ≡ some p
      → after_process c p ≡ returns x
      → Keeps P c x
  unfolding after_process check_completed
  Keeps-after_process inflate c r nread run p x active out e = elim (Option-cases p.processed) [
    | inl bad ↦ absurd (ground (arith, e, bad))
    | inr (n, good) ↦
        Keeps-check_completed c (record c { active = some p.req }) p.events false x
          (Keeps-processed inflate c r run nread p active out) (ground (arith, e, good))
  ]

  Keeps-read_active :
      (inflate : Inflate) (c : Client) (r : Req) (nread : ℕ) (run : Execution)
      (x : Client × List Event)
      → c.active ≡ some r
      → read_active inflate c r nread run ≡ returns x
      → Keeps P c x
  unfolding read_active
  Keeps-read_active inflate c r nread run x active e = by_size (nread == 0) refl
    where
      by_size : (empty : Bool) → (nread == 0) ≡ empty → Keeps P c x
      by_size true z =
          Keeps-check_completed c c [] false x (quiet P c c [] refl refl (unfold told_ids in refl))
            (ground (arith, e, z))
      by_size false z = elim (Option-cases (http_req_process inflate r run nread)) [
        | inl stuck ↦ absurd (ground (arith, e, z, stuck))
        | inr (p, out) ↦
            Keeps-after_process inflate c r nread run p x active out (ground (arith, e, z, out))
      ]

  pub Keeps-http_read_cb :
      (inflate : Inflate) (c : Client) (n : Nread) (x : Client × List Event)
      → http_read_cb inflate c n ≡ returns x
      → Keeps P c x
  Keeps-http_read_cb inflate c (failed code msg) x e =
      let run : x
          ≡ (by_active c.active then_do close_connection then_do announce (async_send ∷ [])) =
        unfold http_read_cb in ground (arith, e) in
      subst (Keeps P c) (sym run) (
        Keeps-announce P c _ _ (async_send ∷ [])
          (Keeps-after P c (by_active c.active).0 _ (by_active c.active).1 _
            (Keeps-by_active c.active) (Keeps-close_connection P (by_active c.active).0))
          (unfold told_ids in refl))
    where
      by_active : Option Req → Client × List Event
      by_active none = (c, [])
      by_active (some r) = fail_active_request c code msg

      Keeps-by_active : (o : Option Req) → Keeps P c (by_active o)
      Keeps-by_active none = quiet P c c [] refl refl (unfold told_ids in refl)
      Keeps-by_active (some r) = Keeps-fail_active_request P c code msg
  Keeps-http_read_cb inflate c (got nread run) x e = elim (Option-cases c.active) [
    | inl idle ↦
        let run' : x ≡ (c, []) = unfold http_read_cb in ground (arith, e, idle) in
        subst (Keeps P c) (sym run') (quiet P c c [] refl refl (unfold told_ids in refl))
    | inr (r, active) ↦
        Keeps-read_active inflate c r nread run x active
          (unfold http_read_cb in ground (arith, e, active))
  ]
