-- ===== src/P11/Token.antt =====
-- What PKCS#11 documents of a token: its objects, and the search that a session has open.
use tlsuv.Base.{
  ℕ, ◌≡◌, refl, Bytes, Bool, true, false, Option, none, some, List, [], ◌∷◌, ◌++◌, length, ◌==◌,
  arith, not, sym, ap, ◌∙◌, take_prefix, Bool-cases, inl, inr, if◌then◌else◌, bytes_eq,
}
use tlsuv.P11.{
  ckr_ok, Value, ulong, flag, bytes, Template, Driver, Context, get_obj_attr, find_one, rc_ok,
  zeros, cka_key_type,
}

-- An object: its handle and the attributes of it that can be read and searched for.
abbrev pub Object : Type 0
Object = ℕ × Template

abbrev pub value_eq : Value → Value → Bool
value_eq (ulong m) (ulong n) = m == n
value_eq (flag true) (flag c) = c
value_eq (flag false) (flag c) = not c
value_eq (bytes b) (bytes c) = bytes_eq b c
value_eq _ _ = false

-- The value of an attribute, where there is one.
unfoldable pub value_of : ℕ → Template → Option Value
value_of a [] = none
value_of a ((b, v) ∷ t) = let rest = value_of a t in if a == b then some v else rest

-- Whether an object has all the attributes of a search.
unfoldable pub matches : Template → Template → Bool
matches [] t = true
matches ((a, v) ∷ q) t =
    let rest = matches q t in
    elim (value_of a t) [ none ↦ false | some w ↦ if value_eq v w then rest else false ]

unfoldable pub first_match : Template → List Object → Option ℕ
first_match q [] = none
first_match q ((h, t) ∷ objs) =
    let rest = first_match q objs in if matches q t then some h else rest

-- The attributes of the object with a handle.
unfoldable pub object : ℕ → List Object → Option Template
object h [] = none
object h ((k, t) ∷ objs) = let rest = object h objs in if h == k then some t else rest

abbrev pub text_of : ℕ → Template → Option Bytes
text_of a t = elim (value_of a t) [
  | none ↦ none
  | some v ↦ elim v [ ulong n ↦ none | flag c ↦ none | bytes b ↦ some b ]
]

-- The objects of a token with one more, which may come anywhere in the order of a search.
pub record Added (old new : List Object) (h : ℕ) (t : Template) : Type 0 where
  pub before : List Object
  pub after : List Object
  pub was : old ≡ before ++ after
  pub is : new ≡ before ++ ((h, t) ∷ after)
  pub fresh : object h old ≡ none

module _ {D : Type 0} (driver : Driver D) (objects : D → List Object)
    (search : D → Option Template) where
  abbrev pub Same : D → D → Type 0
  Same d d' = (objects d' ≡ objects d) × (search d' ≡ search d)

  -- On a token that is present and has no error of its own: a search gives the first object that has
  -- the attributes which it was opened with, and is open until it is ended. Reading attributes
  -- changes nothing.
  pub record Searches : Type 0 where
    pub init :
        (s : ℕ) (q : Template) (d : D)
        → search d ≡ none
        → ((driver.find_objects_init s q d).1 ≡ ckr_ok)
          × (search (driver.find_objects_init s q d).0 ≡ some q)
          × (objects (driver.find_objects_init s q d).0 ≡ objects d)
    pub find :
        (s : ℕ) (q : Template) (d : D)
        → search d ≡ some q
        → ((driver.find_objects s d).1 ≡ ckr_ok)
          × ((driver.find_objects s d).2 ≡ first_match q (objects d))
          × Same d (driver.find_objects s d).0
    pub final :
        (s : ℕ) (q : Template) (d : D)
        → search d ≡ some q
        → ((driver.find_objects_final s d).1 ≡ ckr_ok)
          × (search (driver.find_objects_final s d).0 ≡ none)
          × (objects (driver.find_objects_final s d).0 ≡ objects d)

  pub record Reads : Type 0 where
    pub length_of :
        (s h a : ℕ) (t : Template) (b : Bytes) (d : D)
        → object h (objects d) ≡ some t
        → text_of a t ≡ some b
        → ((driver.attribute_length s h a d).1 ≡ ckr_ok)
          × ((driver.attribute_length s h a d).2 ≡ length b)
    pub length_keeps : (s h a : ℕ) (d : D) → Same d (driver.attribute_length s h a d).0
    pub bytes_of :
        (s h a : ℕ) (t : Template) (b : Bytes) (d : D)
        → object h (objects d) ≡ some t
        → text_of a t ≡ some b
        → ((driver.attribute_bytes s h a (length b) d).1 ≡ ckr_ok)
          × ((driver.attribute_bytes s h a (length b) d).2 ≡ b)
    pub bytes_keeps : (s h a n : ℕ) (d : D) → Same d (driver.attribute_bytes s h a n d).0
    pub key_type_of :
        (s h k : ℕ) (t : Template) (d : D)
        → object h (objects d) ≡ some t
        → value_of cka_key_type t ≡ some (ulong k)
        → ((driver.attribute_key_type s h d).1 ≡ ckr_ok) × ((driver.attribute_key_type s h d).2 ≡ k)
    pub key_type_keeps : (s h : ℕ) (d : D) → Same d (driver.attribute_key_type s h d).0

  -- An object that is created has the attributes that it is given, where the token takes it.
  pub record Creates : Type 0 where
    pub create :
        (s : ℕ) (t : Template) (d : D)
        → (driver.create_object s t d).1 ≡ ckr_ok
        → (search (driver.create_object s t d).0 ≡ search d)
          × ((h : ℕ) × Added (objects d) (objects (driver.create_object s t d).0) h t)

  pub find_one_lem :
      (p11 : Context) (q : Template) (d : D)
      → Searches
      → search d ≡ none
      → ((find_one driver p11 q d).1 ≡ ckr_ok)
        × ((find_one driver p11 q d).2 ≡ first_match q (objects d))
        × Same d (find_one driver p11 q d).0
  unfolding find_one
  find_one_lem p11 q d laws idle =
      let d1 = (driver.find_objects_init p11.session q d).0 in
      let d2 = (driver.find_objects p11.session d1).0 in
      let one = laws.init p11.session q d idle in
      let two = laws.find p11.session q d1 one.1 in
      let three = laws.final p11.session q d2 (two.2.1 ∙ one.1) in
      rw (one.0, two.0, three.0, find_one)
        (refl, two.1 ∙ ap (first_match q) one.2, (three.2 ∙ two.2.0 ∙ one.2, three.1 ∙ sym idle))

  pub get_obj_attr-some :
      (p11 : Context) (h a : ℕ) (t : Template) (b : Bytes) (d : D)
      → Reads
      → object h (objects d) ≡ some t
      → text_of a t ≡ some b
      → ((get_obj_attr driver p11 h a d).1 ≡ rc_ok)
        × ((get_obj_attr driver p11 h a d).2 ≡ some b)
        × Same d (get_obj_attr driver p11 h a d).0
  unfolding get_obj_attr
  get_obj_attr-some p11 h a t b d laws there has =
      let d1 = (driver.attribute_length p11.session h a d).0 in
      let one = laws.length_of p11.session h a t b d there has in
      let same = laws.length_keeps p11.session h a d in
      let two = laws.bytes_of p11.session h a t b d1 (ap (object h) same.0 ∙ there) has in
      let same' = laws.bytes_keeps p11.session h a (length b) d1 in
      ground (arith, one, two, same, same', take_prefix b (zeros (length b)))

  pub get_obj_attr-Same :
      (p11 : Context) (h a : ℕ) (d : D) → Reads → Same d (get_obj_attr driver p11 h a d).0
  unfolding get_obj_attr
  get_obj_attr-Same p11 h a d laws =
      let (d1, rv, len) = driver.attribute_length p11.session h a d in
      ground (arith, laws.length_keeps p11.session h a d, laws.bytes_keeps p11.session h a len d1)

first_match-Added :
    (q : Template) (h : ℕ) (t : Template) (before after : List Object)
    → first_match q (before ++ after) ≡ none
    → matches q t ≡ true
    → first_match q (before ++ ((h, t) ∷ after)) ≡ some h
unfolding first_match
first_match-Added q h t [] after absent present = ground (arith, present)
first_match-Added q h t ((k, u) ∷ before) after absent present = elim (Bool-cases (matches q u)) [
  | inl e ↦ absurd (ground (arith, absent, e))
  | inr e ↦
      ground
        (arith, e, absent, first_match-Added q h t before after (ground (arith, e, absent)) present)
]

object-Added :
    (k h : ℕ) (t u : Template) (before after : List Object)
    → object h (before ++ after) ≡ none
    → object k (before ++ after) ≡ some u
    → object k (before ++ ((h, t) ∷ after)) ≡ some u
unfolding object
object-Added k h t u [] after fresh there = ground (arith, fresh, there)
object-Added k h t u ((j, v) ∷ before) after fresh there =
    ground (arith, fresh, there, object-Added k h t u before after)

object-Added_new :
    (h : ℕ) (t : Template) (before after : List Object)
    → object h (before ++ after) ≡ none
    → object h (before ++ ((h, t) ∷ after)) ≡ some t
unfolding object
object-Added_new h t [] after fresh = ground arith
object-Added_new h t ((j, v) ∷ before) after fresh =
    ground (arith, fresh, object-Added_new h t before after)

first_match-insert :
    (q : Template) (h : ℕ) (t : Template) (before after : List Object)
    → matches q t ≡ false
    → first_match q (before ++ ((h, t) ∷ after)) ≡ first_match q (before ++ after)
unfolding first_match
first_match-insert q h t [] after other = ground (arith, other)
first_match-insert q h t ((k, u) ∷ before) after other =
    ground (arith, first_match-insert q h t before after other)

-- An object that a search does not match makes no difference to it.
pub first_match-other :
    (q : Template) (old new : List Object) (h : ℕ) (t : Template)
    → Added old new h t
    → matches q t ≡ false
    → first_match q new ≡ first_match q old
first_match-other q old new h t add other =
    ap (first_match q) add.is
    ∙ first_match-insert q h t add.before add.after other
    ∙ ap (first_match q) (sym add.was)

-- The only object that a search can match is found.
pub found_new :
    (q : Template) (old new : List Object) (h : ℕ) (t : Template)
    → Added old new h t
    → first_match q old ≡ none
    → matches q t ≡ true
    → first_match q new ≡ some h
found_new q old new h t add absent present =
    ap (first_match q) add.is
    ∙ first_match-Added q h t add.before add.after (ap (first_match q) (sym add.was) ∙ absent)
        present

-- What was there is still there.
pub object_stays :
    (k : ℕ) (u : Template) (old new : List Object) (h : ℕ) (t : Template)
    → Added old new h t
    → object k old ≡ some u
    → object k new ≡ some u
object_stays k u old new h t add there =
    ap (object k) add.is
    ∙ object-Added k h t u add.before add.after (ap (object h) (sym add.was) ∙ add.fresh)
        (ap (object k) (sym add.was) ∙ there)

pub object_new :
    (old new : List Object) (h : ℕ) (t : Template) → Added old new h t → object h new ≡ some t
object_new old new h t add =
    ap (object h) add.is
    ∙ object-Added_new h t add.before add.after (ap (object h) (sym add.was) ∙ add.fresh)
