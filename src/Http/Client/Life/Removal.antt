-- ===== src/Http/Client/Life/Removal.antt =====
-- `tlsuv_http_req_cancel` takes out one request, and its calls concern requests that are pending.
use tlsuv.Base.{
  ℕ, ◌≡◌, ◌<◌, refl, subst, sym, ◌∙◌, ap, Bytes, Bool, true, false, Option, none, some, List, [],
  ◌∷◌, ◌++◌, map, All, All-append, All-split, arith, inl, inr, if◌then◌else◌, ◌==◌, ltb, ◌⊎◌,
  append-nil,
}
use tlsuv.Http.Types.{
  Req, Event, ecanceled, responded, uv_code, body_given, body_end, rank, headers_received,
}
use tlsuv.Http.Client.{Client, close_connection, clear_req_body}
use tlsuv.Http.Client.Cancel.{
  is_queued, remove_queued, is_active, cancelled, tell_cancelled, req_cancel,
}
use tlsuv.Http.Client.Process.Order.{pending, active_ids}
use tlsuv.Http.Client.Life.Numbers.{
  told_ids, told_ids-append, told_ids-clear_req_body, Ascending, Ascending-split,
}
use tlsuv.Http.Client.Life.Keeps.{Keeps, Keeps-after, Keeps-close_connection, Keeps-drop_active}

abbrev ids : List Req → List ℕ
ids rs = map (λ r. r.id) rs

module _ (P : ℕ → Type 0) where
  All-is_queued : (rs : List Req) (id : ℕ) → is_queued rs id ≡ true → All P (ids rs) → P id
  unfolding is_queued
  All-is_queued [] id q h = ground (arith, q)
  All-is_queued (r ∷ rs) id q (h, hs) = by_head (r.id == id) refl (λ p. All-is_queued rs id p hs)
    where
      by_head : (b : Bool) → (r.id == id) ≡ b → (is_queued rs id ≡ true → P id) → P id
      by_head true e rest = subst P (ground (arith, e)) h
      by_head false e rest = rest (ground (arith, q, e))

  All-is_active : (o : Option Req) (id : ℕ) → is_active o id ≡ true → All P (active_ids o) → P id
  All-is_active none id q h = ground (arith, q)
  All-is_active (some r) id q h = subst P (ground (arith, q)) h.0

  All-remove_queued : (rs : List Req) (id : ℕ) → All P (ids rs) → All P (ids (remove_queued rs id))
  unfolding remove_queued
  All-remove_queued [] id h = tt
  All-remove_queued (r ∷ rs) id (h, hs) = by_head (r.id == id) (All-remove_queued rs id hs)
    where
      by_head :
          (b : Bool)
          → All P (ids (remove_queued rs id))
          → All P (ids (if b then rs else r ∷ remove_queued rs id))
      by_head true rest = hs
      by_head false rest = (h, rest)

Ascending-remove_queued :
    (rs : List Req) (id : ℕ) → Ascending (ids rs) → Ascending (ids (remove_queued rs id))
unfolding remove_queued Ascending
Ascending-remove_queued [] id h = tt
Ascending-remove_queued (r ∷ rs) id (h, hs) =
    by_head (r.id == id)
      (All-remove_queued (λ j. r.id < j) rs id h, Ascending-remove_queued rs id hs)
  where
    by_head :
        (b : Bool)
        → Ascending (ids (r ∷ remove_queued rs id))
        → Ascending (ids (if b then rs else r ∷ remove_queued rs id))
    by_head true rest = hs
    by_head false rest = rest

-- The active request before the queue that is left.
Ascending-before :
    (is js ks : List ℕ)
    → ((P : ℕ → Type 0) → All P js → All P ks)
    → Ascending ks
    → Ascending (is ++ js)
    → Ascending (is ++ ks)
unfolding Ascending
Ascending-before [] js ks sub k h = k
Ascending-before (i ∷ is) js ks sub k (h, hs) =
    let (a, b) = All-split (λ j. i < j) is js h in
    (All-append (λ j. i < j) is ks a (sub (λ j. i < j) b), Ascending-before is js ks sub k hs)

module _ (P : ℕ → Type 0) where
  Keeps-remove_queued :
      (c : Client) (id : ℕ) → Keeps P c (record c { requests = remove_queued c.requests id }, [])
  Keeps-remove_queued c id = record {
    within = λ h.
        let (a, b) = All-split P (active_ids c.active) (ids c.requests) h in
        All-append P (active_ids c.active) _ a (All-remove_queued P c.requests id b);
    told = λ h. unfold told_ids in tt;
    sorted = λ h.
        Ascending-before (active_ids c.active) (ids c.requests) _
          (λ Q. All-remove_queued Q c.requests id)
          (Ascending-remove_queued c.requests id
            (Ascending-split (active_ids c.active) (ids c.requests) h).1)
          h;
    next = refl;
  }

  calls_at_end :
      (c : Client) (es : List Event) (found : Bool) (r : Req) (msg : Bytes)
      (x : Client × List Event)
      → tell_cancelled found r msg (c, es) ≡ cancelled x
      → (fs : List Event) × (x ≡ (c, (es ++ clear_req_body r.id r.req_body ecanceled) ++ fs))
        × ((fs ≡ []) ⊎ (told_ids fs ≡ r.id ∷ []))
  calls_at_end c es found r msg x e = (
    if ltb (rank r.state) (rank headers_received)
        then responded r.id (uv_code ecanceled) (some msg) r.resp.headers ∷ []
        else if r.resp.body_cb
        then body_given r.id (body_end ecanceled) ∷ []
        else [],
    unfold tell_cancelled in
        ground (arith, e, append-nil (es ++ clear_req_body r.id r.req_body ecanceled)),
    unfold told_ids in ground arith,
  )

  told_at_end :
      (c c' : Client) (es fs : List Event) (r : Req)
      → ((fs ≡ []) ⊎ (told_ids fs ≡ r.id ∷ []))
      → (x : Client × List Event) → x ≡ (c, (es ++ clear_req_body r.id r.req_body ecanceled) ++ fs)
      → Keeps P c' (c, es)
      → (All P (pending c') → P r.id)
      → Keeps P c' x
  told_at_end c c' es fs r last x run k own =
      let cleared = clear_req_body r.id r.req_body ecanceled in
      subst (Keeps P c') (sym run) record {
        within = k.within;
        told = λ h. subst (All P) (sym (told_ids-append (es ++ cleared) fs)) (
            All-append P _ (told_ids fs)
              (subst (All P)
                (sym (
                  told_ids-append es cleared
                  ∙ ap (◌++◌ (told_ids es)) (told_ids-clear_req_body r.id r.req_body ecanceled)
                  ∙ append-nil (told_ids es)))
                (k.told h))
              (elim last [
                | inl nothing ↦
                    subst (λ gs. All P (told_ids gs)) (sym nothing) (unfold told_ids in tt)
                | inr one ↦ subst (All P) (sym one) (own h, tt)
              ]));
        sorted = k.sorted;
        next = k.next;
      }

  Keeps-tell_cancelled :
      (c₀ c : Client) (es : List Event) (found : Bool) (r : Req) (msg : Bytes)
      (x : Client × List Event)
      → Keeps P c₀ (c, es)
      → (All P (pending c₀) → P r.id)
      → tell_cancelled found r msg (c, es) ≡ cancelled x
      → Keeps P c₀ x
  Keeps-tell_cancelled c₀ c es found r msg x k own e =
      let (fs, run, last) = calls_at_end c es found r msg x e in
      told_at_end c c₀ es fs r last x run k own

  pub Keeps-req_cancel :
      (c : Client) (r : Req) (msg : Bytes) (x : Client × List Event)
      → req_cancel c r msg ≡ cancelled x
      → Keeps P c x
  Keeps-req_cancel c r msg x e =
      by_place (is_active c.active r.id) (is_queued c.requests r.id) refl refl
    where
      by_place :
          (active queued : Bool)
          → is_active c.active r.id ≡ active
          → is_queued c.requests r.id ≡ queued
          → Keeps P c x
      by_place true queued a q =
          let c' = record c { active = none } in
          Keeps-tell_cancelled c (close_connection c').0 (close_connection c').1 queued r msg x
            (Keeps-after P c c' _ [] _ (Keeps-drop_active P c) (Keeps-close_connection P c'))
            (λ h. All-is_active P c.active r.id a (All-split P (active_ids c.active) _ h).0)
            (unfold req_cancel in ground (arith, e, a, q))
      by_place false true a q =
          Keeps-tell_cancelled c (record c { requests = remove_queued c.requests r.id }) [] true r
            msg x (Keeps-remove_queued c r.id)
            (λ h. All-is_queued P c.requests r.id q (All-split P (active_ids c.active) _ h).1)
            (unfold req_cancel in ground (arith, e, a, q))
      by_place false false a q = absurd (unfold req_cancel in ground (arith, e, a, q))
