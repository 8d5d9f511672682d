-- ===== src/Http/Client/Life/Keeps.antt =====
-- What every handler of a client does to the numbers of its requests: it adds none.
use tlsuv.Base.{
  ℕ, ◌≡◌, subst, sym, ◌∙◌, Bytes, Option, none, some, List, [], ◌∷◌, ◌++◌, map, refl, All,
  All-append, All-split, append-nil, arith, ◌⊎◌, inl, inr,
}
use tlsuv.Http.Types.{Req, Uv, Event}
use tlsuv.Http.Client.{
  Client, fail_one, fail_request, fail_queued, fail_active, fail_active_request, close_connection,
}
use tlsuv.Http.Client.Process.Order.{pending, active_ids}
use tlsuv.Http.Client.Life.Numbers.{
  told_ids, told_ids-append, told_ids-clear_req_body, Ascending, Ascending-split,
}

module _ (P : ℕ → Type 0) where
  -- A property of the pending requests' numbers stays, and the calls are about such requests; the
  -- order of the numbers stays, and no number is taken.
  pub record Keeps (c : Client) (x : Client × List Event) : Type 0 where
    pub within : All P (pending c) → All P (pending x.0)
    pub told : All P (pending c) → All P (told_ids x.1)
    pub sorted : Ascending (pending c) → Ascending (pending x.0)
    pub next : x.0.next_id ≡ c.next_id

  -- A step that leaves the pending requests alone and calls none of their callbacks.
  pub quiet :
      (c c' : Client) (es : List Event)
      → pending c' ≡ pending c
      → c'.next_id ≡ c.next_id
      → told_ids es ≡ []
      → Keeps c (c', es)
  quiet c c' es same next silent = record {
    within = λ h. subst (All P) (sym same) h;
    told = λ h. subst (All P) (sym silent) tt;
    sorted = λ h. subst Ascending (sym same) h;
    next = next;
  }

  -- One step after another.
  pub Keeps-after :
      (c c' c'' : Client) (es fs : List Event)
      → Keeps c (c', es)
      → Keeps c' (c'', fs)
      → Keeps c (c'', es ++ fs)
  Keeps-after c c' c'' es fs k l = record {
    within = λ h. l.within (k.within h);
    told = λ h.
        subst (All P) (sym (told_ids-append es fs))
          (All-append P (told_ids es) (told_ids fs) (k.told h) (l.told (k.within h)));
    sorted = λ h. l.sorted (k.sorted h);
    next = l.next ∙ k.next;
  }

  -- Calls that are made at the end.
  pub Keeps-announce :
      (c c' : Client) (es fs : List Event)
      → Keeps c (c', es)
      → told_ids fs ≡ []
      → Keeps c (c', es ++ fs)
  Keeps-announce c c' es fs k silent = Keeps-after c c' c' es fs k (quiet c' c' fs refl refl silent)

  All-fail_queued :
      (rs : List Req) (code : Uv) (msg : Bytes)
      → All P (map (λ r. r.id) rs)
      → All P (told_ids (fail_queued rs code msg))
  unfolding fail_queued
  All-fail_queued [] code msg h = unfold told_ids in tt
  All-fail_queued (r ∷ rs) code msg (h, hs) =
      subst (All P) (sym (told_ids-append (fail_one r code msg) (fail_queued rs code msg))) (
        All-append P (told_ids (fail_one r code msg)) _
          (unfold fail_one told_ids in
            ground (arith, h, told_ids-clear_req_body r.id r.req_body code))
          (All-fail_queued rs code msg hs))

  All-fail_active :
      (o : Option Req) (code : Uv) (msg : Bytes)
      → All P (active_ids o)
      → All P (told_ids (fail_active o code msg).1) × All P (active_ids (fail_active o code msg).0)
  unfolding fail_request told_ids
  All-fail_active none code msg h = (tt, tt)
  All-fail_active (some r) code msg h =
      ground (arith, h, told_ids-clear_req_body r.id r.req_body code)

  left_ids :
      (o : Option Req) (code : Uv) (msg : Bytes)
      → (active_ids (fail_active o code msg).0 ≡ active_ids o)
        ⊎ (active_ids (fail_active o code msg).0 ≡ [])
  left_ids none code msg = inl refl
  left_ids (some r) code msg = ground arith

  pub Keeps-fail_active_request :
      (c : Client) (code : Uv) (msg : Bytes) → Keeps c (fail_active_request c code msg)
  unfolding fail_active_request
  Keeps-fail_active_request c code msg =
      let all_split = All-split P (active_ids c.active) (map (λ r. r.id) c.requests) in
      let left = active_ids (fail_active c.active code msg).0 in
      record {
        within = λ h. All-append P left [] (All-fail_active c.active code msg (all_split h).0).1 tt;
        told = λ h.
            subst (All P)
              (sym (
                told_ids-append (fail_active c.active code msg).1
                  (fail_queued c.requests code msg)))
              (All-append P (told_ids (fail_active c.active code msg).1) _
                (All-fail_active c.active code msg (all_split h).0).0
                (All-fail_queued c.requests code msg (all_split h).1));
        sorted = λ h. subst Ascending (sym (append-nil left)) (elim (left_ids c.active code msg) [
          | inl e ↦ subst Ascending (sym e) (Ascending-split (active_ids c.active) _ h).0
          | inr e ↦ subst Ascending (sym e) (unfold Ascending in tt)
        ]);
        next = refl;
      }

  pub Keeps-close_connection : (c : Client) → Keeps c (close_connection c)
  Keeps-close_connection c =
      quiet c (close_connection c).0 (close_connection c).1
        (unfold close_connection in ground arith) (unfold close_connection in ground arith)
        (unfold close_connection told_ids in ground arith)

  -- The active request is taken out.
  pub Keeps-drop_active : (c : Client) → Keeps c (record c { active = none }, [])
  Keeps-drop_active c = record {
    within = λ h. (All-split P (active_ids c.active) _ h).1;
    told = λ h. unfold told_ids in tt;
    sorted = λ h. (Ascending-split (active_ids c.active) _ h).1;
    next = refl;
  }
