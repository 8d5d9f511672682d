-- ===== src/Http/Client/Life/Response.antt =====
-- What the parser's callbacks do for a request concerns this request.
use tlsuv.Base.{
  ℕ, ◌≡◌, subst, sym, Bytes, some, List, [], ◌∷◌, ◌++◌, map, All, All-append, arith, Option-cases,
  inl, inr, suc, length,
}
use tlsuv.Compression.{Inflate, inflate_loop}
use tlsuv.Http.Types.{Req, Event, body_given, body_data}
use tlsuv.Http.Request.Response.{
  Token, on_status, on_header_field, on_header_value, on_headers_complete, on_body,
  on_message_complete, status_cb, header_field_cb, header_value_cb, headers_complete_cb, message_cb,
  body_cb, on_token, on_tokens, Execution, Processed, http_req_process, processed_of,
}
use tlsuv.Http.Client.Life.Numbers.{told_ids, told_ids-append}

module _ (P : ℕ → Type 0) where
  -- The request keeps its number, and the calls are about it.
  pub Own : Req → Req × List Event → Type 0
  Own req x = (x.0.id ≡ req.id) × (P req.id → All P (told_ids x.1))

  All-blocks :
      (id : ℕ) (bs : List Bytes)
      → P id
      → All P (told_ids (map (λ b. body_given id (body_data b)) bs))
  unfolding told_ids
  All-blocks id [] p = tt
  All-blocks id (b ∷ bs) p = (p, All-blocks id bs p)

  module _ (inflate : Inflate) where
    Own-body_cb :
        (req : Req) (body : Bytes) (x : Req × List Event)
        → body_cb inflate req body ≡ some x
        → Own req x
    unfolding body_cb Own told_ids
    Own-body_cb req body x e = (
      ground (arith, e),
      λ p. elim (Option-cases req.inflater) [
        | inl plain ↦ ground (arith, e, p, plain)
        | inr (i, coded) ↦
            elim (Option-cases (inflate_loop inflate (suc (length body)) i body [])) [
              | inl stuck ↦ ground (arith, e, coded, stuck)
              | inr (o, out) ↦ ground (arith, e, coded, out, All-blocks req.id o.blocks p)
            ]
      ],
    )

    Own-on_token :
        (req : Req) (t : Token) (x : Req × List Event) → on_token inflate req t ≡ some x → Own req x
    unfolding on_token Own
    Own-on_token req (on_status code major minor status) x e = (
      unfold status_cb in ground (arith, e),
      λ p. unfold status_cb told_ids in ground (arith, e, p),
    )
    Own-on_token req (on_header_field f) x e = (
      unfold header_field_cb in ground (arith, e),
      λ p. unfold header_field_cb told_ids in ground (arith, e, p),
    )
    Own-on_token req (on_header_value v) x e = (
      unfold header_value_cb in ground (arith, e),
      λ p. unfold header_value_cb told_ids in ground (arith, e, p),
    )
    Own-on_token req on_headers_complete x e = (
      unfold headers_complete_cb in ground (arith, e),
      λ p. unfold headers_complete_cb told_ids in ground (arith, e, p),
    )
    Own-on_token req (on_body body) x e = Own-body_cb req body x e
    Own-on_token req on_message_complete x e = (
      unfold message_cb in ground (arith, e),
      λ p. unfold message_cb told_ids in ground (arith, e, p),
    )

    after :
        (req : Req) (first rest x : Req × List Event)
        → Own req first
        → Own first.0 rest
        → x ≡ (rest.0, first.1 ++ rest.1)
        → Own req x
    unfolding Own
    after req first rest x (a, b) (c, d) e = (
      ground (arith, a, c, e),
      λ p.
          subst (λ y. All P (told_ids y.1)) (sym e)
            (subst (All P) (sym (told_ids-append first.1 rest.1))
              (All-append P (told_ids first.1) (told_ids rest.1) (b p) (d (subst P (sym a) p)))),
    )

    Own-on_tokens :
        (req : Req) (ts : List Token) (x : Req × List Event)
        → on_tokens inflate req ts ≡ some x
        → Own req x
    unfolding on_tokens Own
    Own-on_tokens req [] x e = (ground (arith, e), λ p. unfold told_ids in ground (arith, e, p))
    Own-on_tokens req (t ∷ ts) x e = elim (Option-cases (on_token inflate req t)) [
      | inl stuck ↦ ground (arith, e, stuck)
      | inr (first, f) ↦ elim (Option-cases (on_tokens inflate first.0 ts)) [
        | inl stuck ↦ ground (arith, e, f, stuck)
        | inr (rest, g) ↦
            after req first rest x (Own-on_token req t first f) (Own-on_tokens first.0 ts rest g)
              (ground (arith, e, f, g))
      ]
    ]

    pub Own-http_req_process :
        (req : Req) (run : Execution) (len : ℕ) (p : Processed)
        → http_req_process inflate req run len ≡ some p
        → (p.req.id ≡ req.id) × (P req.id → All P (told_ids p.events))
    unfolding http_req_process Own
    Own-http_req_process req run len p e = elim (Option-cases (on_tokens inflate req run.tokens)) [
      | inl stuck ↦ ground (arith, e, stuck)
      | inr (x, f) ↦ of_pieces x (Own-on_tokens req run.tokens x f) (ground (arith, e, f))
    ]
      where
        of_pieces :
            (x : Req × List Event)
            → Own req x
            → p ≡ record { req = x.0; events = x.1; processed = processed_of len run.errno }
            → (p.req.id ≡ req.id) × (P req.id → All P (told_ids p.events))
        of_pieces x (a, b) eq =
            (ground (arith, a, eq), λ h. subst (λ q. All P (told_ids q.events)) (sym eq) (b h))
