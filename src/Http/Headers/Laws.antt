-- ===== src/Http/Headers/Laws.antt =====
-- A header list is a map from names, up to letter case, to values.
use tlsuv.Base.{
  Bytes, true, false, Option, none, some, [], ◌∷◌, ◌≡◌, refl, sym, ◌∙◌, case_eq, arith,
  case_eq_comm, case_eq_trans, if◌then◌else◌, Bool-cases, inl, inr, All,
}
use tlsuv.Http.Headers.{
  Headers, has_header, remove_first, replace_first, set_http_header, resp_header,
}

-- Names that match are matched by the same names.
case_eq_same : (a b m : Bytes) → case_eq a b ≡ true → case_eq a m ≡ case_eq b m
case_eq_same a b m h = elim (Bool-cases (case_eq a m)) [
  | inl e ↦ e ∙ sym (case_eq_trans b a m (case_eq_comm b a ∙ h) e)
  | inr e ↦ elim (Bool-cases (case_eq b m)) [
    | inl f ↦ cc (case_eq_trans a b m h f)
    | inr f ↦ e ∙ sym f
  ]
]

lookup-replace_first :
    (hl : Headers) (n v m : Bytes)
    → has_header hl n ≡ true
    → resp_header (replace_first hl n v) m ≡ (if case_eq n m then some v else resp_header hl m)
unfolding has_header replace_first resp_header
lookup-replace_first [] n v m h = cc
lookup-replace_first (k ∷ hl) n v m h = ground (
  arith,
  case_eq_same k.name n m,
  case_eq_same n m k.name,
  case_eq_comm n k.name,
  case_eq_comm m k.name,
  lookup-replace_first hl n v m,
)

-- No two entries have names that match.
abbrev Apart : Bytes → Headers → Type 0
Apart n hl = All (λ k. case_eq n k.name ≡ false) hl

abbrev pub Distinct : Headers → Type 0
Distinct [] = Unit
Distinct (h ∷ hl) = Apart h.name hl × Distinct hl

absent_of_Apart :
    (n m : Bytes) (hl : Headers) → case_eq n m ≡ true → Apart n hl → resp_header hl m ≡ none
unfolding resp_header
absent_of_Apart n m [] e h = refl
absent_of_Apart n m (k ∷ hl) e h =
    ground
      (arith, h, case_eq_same n m k.name e, case_eq_comm k.name m, absent_of_Apart n m hl e h.1)

lookup-absent : (hl : Headers) (n : Bytes) → has_header hl n ≡ false → resp_header hl n ≡ none
unfolding has_header resp_header
lookup-absent [] n h = refl
lookup-absent (k ∷ hl) n h = ground (arith, lookup-absent hl n)

-- After setting a name every spelling of it finds the new value, and other names find what they
-- found before.
pub lookup-set :
    (hl : Headers) (n v m : Bytes)
    → resp_header (set_http_header hl n (some v)) m
      ≡ (if case_eq n m then some v else resp_header hl m)
unfolding set_http_header
lookup-set hl n v m = elim (Bool-cases (has_header hl n)) [
  | inl old ↦ rw old (lookup-replace_first hl n v m old)
  | inr new ↦ rw new (unfold resp_header in refl)
]

lookup-remove_first :
    (hl : Headers) (n m : Bytes)
    → Distinct hl
    → resp_header (remove_first hl n) m ≡ (if case_eq n m then none else resp_header hl m)
unfolding remove_first resp_header
lookup-remove_first [] n m d = ground arith
lookup-remove_first (k ∷ hl) n m d = ground (
  arith,
  d,
  case_eq_same k.name n m,
  case_eq_same n m k.name,
  case_eq_comm n k.name,
  case_eq_comm m k.name,
  absent_of_Apart k.name m hl,
  lookup-remove_first hl n m,
)

-- Where no two names match, a name that is unset is gone and the others stay.
pub lookup-unset :
    (hl : Headers) (n m : Bytes)
    → Distinct hl
    → resp_header (set_http_header hl n none) m ≡ (if case_eq n m then none else resp_header hl m)
unfolding set_http_header
lookup-unset hl n m d = lookup-remove_first hl n m d

Apart-replace_first : (a n v : Bytes) (hl : Headers) → Apart a hl → Apart a (replace_first hl n v)
unfolding replace_first
Apart-replace_first a n v [] h = tt
Apart-replace_first a n v (k ∷ hl) h = ground (arith, h, Apart-replace_first a n v hl)

Apart-remove_first : (a n : Bytes) (hl : Headers) → Apart a hl → Apart a (remove_first hl n)
unfolding remove_first
Apart-remove_first a n [] h = tt
Apart-remove_first a n (k ∷ hl) h = ground (arith, h, Apart-remove_first a n hl)

Apart-absent : (n : Bytes) (hl : Headers) → has_header hl n ≡ false → Apart n hl
unfolding has_header
Apart-absent n [] h = tt
Apart-absent n (k ∷ hl) h = ground (arith, case_eq_comm k.name n, Apart-absent n hl)

Distinct-replace_first :
    (n v : Bytes) (hl : Headers) → Distinct hl → Distinct (replace_first hl n v)
unfolding replace_first
Distinct-replace_first n v [] d = tt
Distinct-replace_first n v (k ∷ hl) d =
    ground (arith, d, Apart-replace_first k.name n v hl, Distinct-replace_first n v hl)

Distinct-remove_first : (n : Bytes) (hl : Headers) → Distinct hl → Distinct (remove_first hl n)
unfolding remove_first
Distinct-remove_first n [] d = tt
Distinct-remove_first n (k ∷ hl) d =
    ground (arith, d, Apart-remove_first k.name n hl, Distinct-remove_first n hl)

-- Setting and unsetting keep the names distinct.
set-Distinct :
    (hl : Headers) (n : Bytes) (v : Option Bytes) → Distinct hl → Distinct (set_http_header hl n v)
unfolding set_http_header
set-Distinct hl n none d = Distinct-remove_first n hl d
set-Distinct hl n (some v) d = ground (arith, d, Distinct-replace_first n v hl, Apart-absent n hl)
