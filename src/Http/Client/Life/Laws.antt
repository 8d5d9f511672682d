-- ===== src/Http/Client/Life/Laws.antt =====
-- What holds of every run of a client: its requests keep the order in which they were made.
use tlsuv.Base.{
  ℕ, ◌<◌, ◌≡◌, subst, sym, Bytes, Option, some, List, [], ◌∷◌, ◌++◌, All, All-append, All-map,
  arith, inl, inr,
}
use tlsuv.Compression.{Inflate}
use tlsuv.Http.Types.{Event}
use tlsuv.Http.Client.{Client}
use tlsuv.Http.Client.Config.{http_set_url, adopt_url, http_header, http_init_with_src}
use tlsuv.Http.Client.Process.Order.{pending}
use tlsuv.Http.Client.Life.{Call, handle, Reach, here, further}
use tlsuv.Http.Client.Life.Numbers.{told_ids, told_ids-append, Ascending, Ascending-append}
use tlsuv.Http.Client.Life.Steps.{Keeps-handle}

-- The numbers of the pending requests ascend, and the next number is above them and above those of
-- all requests that were told something.
pub record IsNumbered (c : Client) (es : List Event) : Type 0 where
  pub sorted : Ascending (pending c)
  pub below : All (λ i. i < c.next_id) (pending c)
  pub told_below : All (λ i. i < c.next_id) (told_ids es)

IsNumbered-handle :
    (inflate : Inflate) (c : Client) (es : List Event) (call : Call) (c' : Client) (fs : List Event)
    → IsNumbered c es
    → handle inflate c call ≡ some (c', fs)
    → IsNumbered c' (es ++ fs)
IsNumbered-handle inflate c es call c' fs h e =
    elim (Keeps-handle (λ i. i < c.next_id) inflate c call (c', fs) e) [
      | inl k ↦ record {
        sorted = k.sorted h.sorted;
        below = subst (λ n. All (λ i. i < n) (pending c')) (sym k.next) (k.within h.below);
        told_below =
            subst (λ n. All (λ i. i < n) (told_ids (es ++ fs))) (sym k.next)
              (subst (All (λ i. i < c.next_id)) (sym (told_ids-append es fs)) (
                All-append (λ i. i < c.next_id) (told_ids es) (told_ids fs) h.told_below
                  (k.told h.below)));
      }
      | inr a ↦
          let more : (i : ℕ) → i < c.next_id → i < c'.next_id =
            λ i l. subst (λ n. i < n) (sym a.next) (omega (arith, l)) in
          record {
            sorted =
                subst Ascending (sym a.added)
                  (Ascending-append (pending c) c.next_id h.sorted h.below);
            below = subst (All (λ i. i < c'.next_id)) (sym a.added) (
                All-append (λ i. i < c'.next_id) (pending c) (c.next_id ∷ [])
                  (All-map (λ i. i < c.next_id) (λ i. i < c'.next_id) (pending c) more h.below)
                  (subst (λ n. c.next_id < n) (sym a.next) (omega arith), tt));
            told_below = subst (All (λ i. i < c'.next_id)) (sym (told_ids-append es fs)) (
                All-append (λ i. i < c'.next_id) (told_ids es) (told_ids fs)
                  (All-map (λ i. i < c.next_id) (λ i. i < c'.next_id) (told_ids es) more
                    h.told_below)
                  (subst (All (λ i. i < c'.next_id)) (sym a.silent) tt));
          }
    ]

IsNumbered-onward :
    (inflate : Inflate) (c c' : Client) (es : List Event)
    → IsNumbered c []
    → Reach inflate c es c'
    → IsNumbered c' es
IsNumbered-onward inflate c _ _ h here = h
IsNumbered-onward inflate c _ _ h (further {es} {c'} run call c'' fs e) =
    IsNumbered-handle inflate c' es call c'' fs (IsNumbered-onward inflate c c' es h run) e

init-pending :
    (url : Bytes) (encodings : Option Bytes) (c : Client)
    → http_init_with_src url encodings ≡ some c
    → pending c ≡ []
unfolding http_init_with_src http_set_url adopt_url http_header
init-pending url encodings c e = ground (arith, e)

-- Of a client from `tlsuv_http_init_with_src`, after any calls in any order: the requests that are
-- pending, the active one first, are in the order in which they were made, without repetition, and
-- `resp_cb` and `body_cb` were called for requests only that have been made.
pub IsNumbered-reach :
    (inflate : Inflate) (url : Bytes) (encodings : Option Bytes) (c c' : Client) (es : List Event)
    → http_init_with_src url encodings ≡ some c
    → Reach inflate c es c'
    → IsNumbered c' es
IsNumbered-reach inflate url encodings c c' es start run =
    let none_yet = init-pending url encodings c start in
    IsNumbered-onward inflate c c' es
      record {
        sorted = subst Ascending (sym none_yet) (unfold Ascending in tt);
        below = subst (All (λ i. i < c.next_id)) (sym none_yet) tt;
        told_below = unfold told_ids in tt;
      }
      run
