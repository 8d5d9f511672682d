-- ===== src/Mbedtls/Csr/Names.antt =====
-- The subject text of a certificate request is read back as the attributes.
use tlsuv.Base.{
  ℕ, ◌<◌, ◌≡◌, ◌≢◌, refl, ap, sym, ◌∙◌, Bytes, true, false, Option, none, some, List, [], ◌∷◌, ◌++◌,
  append_assoc, append-nil, length, if◌then◌else◌, ◌==◌, All, arith,
}
use tlsuv.Mbedtls.Csr.{attribute, subject_loop, subject_name, name_size}

-- A reader of `id=value,id=value`: the text that is still to be stored, and whether a value is
-- being read, behind its id.
pub data Reading : Type 0 where
  in_id : Bytes → Reading
  in_value : Bytes → Bytes → Reading

abbrev put_first : Bytes × Bytes → Option (List (Bytes × Bytes)) → Option (List (Bytes × Bytes))
put_first a none = none
put_first a (some as_) = some (a ∷ as_)

-- A space between a comma and an id is skipped; a backslash starts an escape, which is not read here.
unfoldable pub read_from : Reading → Bytes → Option (List (Bytes × Bytes))
read_from (in_id id) [] = none
read_from (in_id []) (c ∷ s) =
    let skipped = read_from (in_id []) s in
    let at_value = read_from (in_value [] []) s in
    let longer = read_from (in_id (c ∷ [])) s in
    if c == b' ' then skipped else if c == b'=' then at_value else longer
read_from (in_id (d ∷ id)) (c ∷ s) =
    let at_value = read_from (in_value (d ∷ id) []) s in
    let longer = read_from (in_id ((d ∷ id) ++ c ∷ [])) s in if c == b'=' then at_value else longer
read_from (in_value id val) [] = some ((id, val) ∷ [])
read_from (in_value id val) (c ∷ s) =
    let next = put_first (id, val) (read_from (in_id []) s) in
    let longer = read_from (in_value id (val ++ c ∷ [])) s in
    if c == b',' then next else if c == b'\\' then none else longer

unfoldable pub read_names : Bytes → Option (List (Bytes × Bytes))
unfolding read_from
read_names text = read_from (in_id []) text

-- An id without a sign of its own, and a value without a comma or a backslash.
abbrev pub IsIdByte : ℕ → Type 0
IsIdByte c = (c ≢ b'=') × (c ≢ b' ')

abbrev pub IsValueByte : ℕ → Type 0
IsValueByte c = (c ≢ b',') × (c ≢ b'\\')

abbrev pub IsPlain : Bytes × Bytes → Type 0
IsPlain (id, val) = All IsIdByte id × All IsValueByte val

is_not : (c d : ℕ) → c ≢ d → (c == d) ≡ false
is_not c d h = ground (arith, h)

id_byte :
    (done : Bytes) (c : ℕ) (s : Bytes)
    → IsIdByte c
    → read_from (in_id done) (c ∷ s) ≡ read_from (in_id (done ++ c ∷ [])) s
unfolding read_from
id_byte [] c s (h, k) = rw (is_not c b' ' k, is_not c b'=' h) refl
id_byte (d ∷ done) c s (h, k) = rw (is_not c b'=' h) refl

-- An id is read up to its sign.
read_from-id :
    (done id s : Bytes)
    → All IsIdByte id
    → read_from (in_id done) (id ++ b'=' ∷ s) ≡ read_from (in_value (done ++ id) []) s
unfolding read_from
read_from-id [] [] s h = refl
read_from-id (d ∷ done) [] s h =
    ap (λ id. read_from (in_value id []) s) (sym (append-nil (d ∷ done)))
read_from-id done (c ∷ id) s (h, hs) =
    id_byte done c (id ++ b'=' ∷ s) h
    ∙ read_from-id (done ++ c ∷ []) id s hs
    ∙ ap (λ id. read_from (in_value id []) s) (append_assoc done (c ∷ []) id)

-- A value is read up to the comma, or to the end.
read_from-value :
    (id done val s : Bytes)
    → All IsValueByte val
    → read_from (in_value id done) (val ++ s) ≡ read_from (in_value id (done ++ val)) s
unfolding read_from
read_from-value id done [] s h = ap (λ val. read_from (in_value id val) s) (sym (append-nil done))
read_from-value id done (c ∷ val) s (h, hs) =
    ground (arith, h, read_from-value id (done ++ c ∷ []) val s hs, append_assoc done (c ∷ []) val)

read_from-attribute :
    (a : Bytes × Bytes) (s : Bytes)
    → IsPlain a
    → read_from (in_id []) (attribute a ++ s) ≡ read_from (in_value a.0 a.1) s
unfolding attribute
read_from-attribute (id, val) s (h, k) =
    ap (read_from (in_id [])) (append_assoc id (b'=' ∷ val) s)
    ∙ read_from-id [] id (val ++ s) h
    ∙ read_from-value id [] val s k

read_from-subject_loop :
    (a : Bytes × Bytes) (as_ : List (Bytes × Bytes))
    → All IsPlain (a ∷ as_)
    → read_from (in_id []) (subject_loop true (a ∷ as_)) ≡ some (a ∷ as_)
unfolding subject_loop
read_from-subject_loop a [] (h, hs) = read_from-attribute a [] h ∙ (unfold read_from in refl)
read_from-subject_loop a (b ∷ bs) (h, hs) =
    read_from-attribute a (subject_loop false (b ∷ bs)) h ∙ after a (read_from-subject_loop b bs hs)
  where
    after :
        (a : Bytes × Bytes)
        → read_from (in_id []) (subject_loop true (b ∷ bs)) ≡ some (b ∷ bs)
        → read_from (in_value a.0 a.1) (subject_loop false (b ∷ bs)) ≡ some (a ∷ b ∷ bs)
    after a e = unfold read_from in ap (put_first a) e

-- Attributes whose text fits, with ids and values in which no sign of the syntax stands, are read
-- back from the subject text, all of them and in order.
pub read_names-subject_name :
    (a : Bytes × Bytes) (as_ : List (Bytes × Bytes))
    → All IsPlain (a ∷ as_)
    → length (subject_loop true (a ∷ as_)) < name_size
    → (text : Bytes) × (subject_name (a ∷ as_) ≡ some text) × (read_names text ≡ some (a ∷ as_))
unfolding subject_name read_names
read_names-subject_name a as_ plain fits =
    (subject_loop true (a ∷ as_), ground (arith, fits), read_from-subject_loop a as_ plain)
