-- ===== src/Http/Client/Life/Numbers.antt =====
-- Lists of request numbers: which requests a list of calls is about, and ascending numbers.
use tlsuv.Base.{ℕ, ◌<◌, ◌≡◌, refl, ap, List, [], ◌∷◌, ◌++◌, All, All-append, All-split, arith}
use tlsuv.Http.Types.{Event, responded, body_given, Chunk, Uv}
use tlsuv.Http.Client.{clear_req_body}

-- The requests whose `resp_cb` or `body_cb` is called.
unfoldable pub told_ids : List Event → List ℕ
told_ids [] = []
told_ids (responded id code status headers ∷ es) = id ∷ told_ids es
told_ids (body_given id e ∷ es) = id ∷ told_ids es
told_ids (_ ∷ es) = told_ids es

pub told_ids-append : (es fs : List Event) → told_ids (es ++ fs) ≡ told_ids es ++ told_ids fs
unfolding told_ids
told_ids-append [] fs = refl
told_ids-append (responded id code status headers ∷ es) fs = ap (◌∷◌ id) (told_ids-append es fs)
told_ids-append (body_given id e ∷ es) fs = ap (◌∷◌ id) (told_ids-append es fs)
told_ids-append (_ ∷ es) fs = told_ids-append es fs

pub told_ids-clear_req_body :
    (id : ℕ) (bs : List Chunk) (code : Uv) → told_ids (clear_req_body id bs code) ≡ []
unfolding clear_req_body told_ids
told_ids-clear_req_body id [] code = refl
told_ids-clear_req_body id (b ∷ bs) code = ground (arith, told_ids-clear_req_body id bs code)

-- Each number is less than those behind it.
unfoldable pub Ascending : List ℕ → Type 0
Ascending [] = Unit
Ascending (i ∷ is) = All (λ j. i < j) is × Ascending is

-- A new number at the end.
pub Ascending-append :
    (is : List ℕ) (n : ℕ) → Ascending is → All (λ i. i < n) is → Ascending (is ++ n ∷ [])
unfolding Ascending
Ascending-append [] n a b = (tt, tt)
Ascending-append (i ∷ is) n (a, b) (h, k) =
    (All-append (λ j. i < j) is (n ∷ []) a (h, tt), Ascending-append is n b k)

-- The first numbers and the ones behind them.
pub Ascending-split : (is js : List ℕ) → Ascending (is ++ js) → Ascending is × Ascending js
unfolding Ascending
Ascending-split [] js a = (tt, a)
Ascending-split (i ∷ is) js (a, b) =
    let (c, d) = Ascending-split is js b in (((All-split (λ j. i < j) is js a).0, c), d)
