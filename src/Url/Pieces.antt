-- ===== src/Url/Pieces.antt =====
-- Every accepted text is the pieces that the fields delimit, one behind the other.
use tlsuv.Base.{
  ℕ, ◌⊎◌, ◌+◌, ◌-◌, ◌*◌, ◌^◌, ◌<◌, ◌≡◌, refl, ap, sym, ◌∙◌, Bytes, Bool, true, false, All, subst,
  Option, none, some, [], ◌∷◌, ◌++◌, append_assoc, arith, ◌==◌, Bool-cases, inl, inr, Option-cases,
  Strtol, strtol, read_digits, skip_space, read_sign, is_space, is_digit,
}
use tlsuv.Url.Format.{Url, scheme_text, plain_text, query_text}
use tlsuv.Url.{
  scan, is_colon, ends_host, is_query, host_of, query_of, after_scheme_mark, parse_scheme,
  parse_host, port_text, parse_port, parse_path, parse_url,
}

scan-split : (stop : ℕ → Bool) (s : Bytes) → (scan stop s).0 ++ (scan stop s).1 ≡ s
unfolding scan
scan-split stop [] = refl
scan-split stop (c ∷ cs) = elim (Bool-cases (stop c)) [
  | inl ends ↦ rw ends
  | inr passes ↦ rw passes (ap (◌∷◌ c) (scan-split stop cs))
]

-- The number that decimal digits make, on from what is read already.
unfoldable pub decimal : ℕ → Bytes → ℕ
decimal acc [] = acc
decimal acc (c ∷ cs) = decimal (acc * 10 + (c - b'0')) cs

-- What may stand for a port: a colon, blanks, perhaps a plus sign, and digits that make the port.
pub record IsPortText (port : ℕ) (t : Bytes) : Type 0 where
  pub blanks : Bytes
  pub sign : Bytes
  pub digits : Bytes
  pub parts : t ≡ b':' ∷ (blanks ++ (sign ++ digits))
  pub are_blanks : All (λ c. is_space c ≡ true) blanks
  pub is_plus : (sign ≡ []) ⊎ (sign ≡ b'+' ∷ [])
  pub are_digits : All (λ c. is_digit c ≡ true) digits
  pub value : decimal 0 digits ≡ port

skip_space-split :
    (s : Bytes) → (t : Bytes) × (s ≡ t ++ skip_space s) × All (λ c. is_space c ≡ true) t
unfolding skip_space
skip_space-split [] = ([], refl, tt)
skip_space-split (c ∷ cs) = elim (Bool-cases (is_space c)) [
  | inl blank ↦
      let (t, e, all) = skip_space-split cs in (c ∷ t, rw blank (ap (◌∷◌ c) e), (blank, all))
  | inr other ↦ ([], rw other refl, tt)
]

read_sign-split :
    (s : Bytes)
    → (read_sign s).0 ≡ false
    → (t : Bytes) × (s ≡ t ++ (read_sign s).1) × ((t ≡ []) ⊎ (t ≡ b'+' ∷ []))
read_sign-split [] h = ([], refl, inl refl)
read_sign-split (c ∷ cs) h = elim (Bool-cases (c == b'-')) [
  | inl minus ↦ absurd (ground (arith, h, minus))
  | inr other ↦ elim (Bool-cases (c == b'+')) [
    | inl plus ↦ (b'+' ∷ [], ground (arith, other, plus), inr refl)
    | inr neither ↦ ([], rw (other, neither) refl, inl refl)
  ]
]

read_digits-split :
    (acc : ℕ) (s : Bytes)
    → (t : Bytes) × (s ≡ t ++ (read_digits acc s).1)
      × All (λ c. is_digit c ≡ true) t
      × (decimal acc t ≡ (read_digits acc s).0)
unfolding read_digits decimal
read_digits-split acc [] = ([], refl, tt, refl)
read_digits-split acc (c ∷ cs) = elim (Bool-cases (is_digit c)) [
  | inl digit ↦
      let (t, e, all, n) = read_digits-split (acc * 10 + (c - b'0')) cs in
      (c ∷ t, rw digit (ap (◌∷◌ c) e), (digit, all), rw digit n)
  | inr other ↦ ([], rw other refl, tt, rw other refl)
]

strtol-split :
    (s : Bytes) (r : Strtol)
    → strtol s ≡ some r
    → r.negative ≡ false
    → r.magnitude < 2 ^ 16
    → (t : Bytes) × (s ≡ t ++ r.end_text) × IsPortText r.magnitude (b':' ∷ t)
unfolding strtol
strtol-split s r h plus small =
    let (t1, e1, all1) = skip_space-split s in
    let (t2, e2, sign) = read_sign-split (skip_space s) (ground (arith, h, plus)) in
    let (t3, e3, all3, n) = read_digits-split 0 (read_sign (skip_space s)).1 in
    let last : (read_digits 0 (read_sign (skip_space s)).1).1 ≡ r.end_text = ground (arith, h) in
    let value : (read_digits 0 (read_sign (skip_space s)).1).0 ≡ r.magnitude =
      ground (arith, h, small, plus) in
    (
      t1 ++ (t2 ++ t3),
      e1
          ∙ ap (◌++◌ t1) (e2 ∙ ap (◌++◌ t2) (e3 ∙ ap (◌++◌ t3) last) ∙ sym (append_assoc t2 t3 _))
          ∙ sym (append_assoc t1 (t2 ++ t3) _),
      record {
        blanks = t1;
        sign = t2;
        digits = t3;
        parts = refl;
        are_blanks = all1;
        is_plus = sign;
        are_digits = all3;
        value = n ∙ value;
      },
    )

after_scheme_mark-split : (s q : Bytes) → after_scheme_mark s ≡ some q → s ≡ b':' ∷ b'/' ∷ b'/' ∷ q
after_scheme_mark-split [] q h = cc
after_scheme_mark-split (a ∷ []) q h = cc
after_scheme_mark-split (a ∷ b ∷ []) q h = cc
after_scheme_mark-split (a ∷ b ∷ c ∷ s) q h = ground (arith, h)

parse_scheme-split : (s : Bytes) → scheme_text (parse_scheme s).0 ++ (parse_scheme s).1 ≡ s
unfolding parse_scheme
parse_scheme-split s = elim (Option-cases (after_scheme_mark (scan is_colon s).1)) [
  | inl no_mark ↦ ground (arith, no_mark)
  | inr (q, mark) ↦ ground (
    arith,
    mark,
    append_assoc (scan is_colon s).0 (b':' ∷ b'/' ∷ b'/' ∷ []) q,
    after_scheme_mark-split (scan is_colon s).1 q mark,
    scan-split is_colon s,
  )
]

host_of-text : (s : Bytes) → plain_text (host_of s) ≡ s
host_of-text [] = refl
host_of-text (c ∷ cs) = refl

parse_host-split : (s : Bytes) → plain_text (parse_host s).0 ++ (parse_host s).1 ≡ s
unfolding parse_host
parse_host-split s = rw (host_of-text (scan ends_host s).0) (scan-split ends_host s)

port_text-split :
    (host : Option Bytes) (q r : Bytes) (port : ℕ)
    → port_text host q ≡ some (port, r)
    → (t : Bytes) × (q ≡ t ++ r) × (port < 2 ^ 16) × IsPortText port (b':' ∷ t)
unfolding port_text
port_text-split none q r port h = cc
port_text-split (some host) q r port h = elim (Option-cases (strtol q)) [
  | inl bad ↦ absurd (ground (arith, h, bad))
  | inr (n, e) ↦
      let small : n.magnitude < 2 ^ 16 = ground (arith, h, e) in
      let same : n.magnitude ≡ port = ground (arith, h, e) in
      let (t, split, text) = strtol-split q n e (ground (arith, h, e)) small in
      (
        t,
        split ∙ ap (◌++◌ t) (ground (arith, h, e)),
        omega (arith, same, small),
        subst (λ k. IsPortText k (b':' ∷ t)) same text,
      )
]

-- The text of the port: none, and then the port is 0, or a colon and the number.
abbrev pub Port : ℕ → Bytes → Type 0
Port port t = ((port ≡ 0) × (t ≡ [])) ⊎ IsPortText port t

parse_port-split :
    (host : Option Bytes) (q r : Bytes) (port : ℕ)
    → parse_port host q ≡ some (port, r)
    → (t : Bytes) × (q ≡ t ++ r) × (port < 2 ^ 16) × Port port t
unfolding parse_port
parse_port-split host [] r port h =
    ([], ground (arith, h), ground (arith, h), inl (ground (arith, h), refl))
parse_port-split host (c ∷ cs) r port h = elim (Bool-cases (is_colon c)) [
  | inl colon ↦
      let (t, split, small, text) = port_text-split host cs r port (rw colon at h) in
      (b':' ∷ t, ground (arith, colon, split), small, inr text)
  | inr other ↦
      ([], ground (arith, h, other), ground (arith, h, other), inl (ground (arith, h, other), refl))
]

query_of-text : (s : Bytes) → query_text (query_of (scan is_query s).1) ≡ (scan is_query s).1
unfolding scan
query_of-text [] = refl
query_of-text (c ∷ cs) = ground (arith, query_of-text cs)

parse_path-split :
    (r : Bytes) (path query : Option Bytes)
    → parse_path r ≡ (true, path, query)
    → r ≡ plain_text path ++ query_text query
unfolding parse_path
parse_path-split [] path query h = ground (arith, h)
parse_path-split (c ∷ cs) path query h =
    ground (arith, h, scan-split is_query (c ∷ cs), query_of-text (c ∷ cs))

-- If parsing succeeds, the text is the scheme with its mark, the host, what stands for the port,
-- the path and the query behind its mark, in this order and with nothing between them. What stands
-- for the port is nothing, and then the port is 0, or a colon, blanks, perhaps a plus sign, and
-- digits that make the port, which is below 65536.
pub parse_url-pieces :
    (s : Bytes) (u : Url)
    → parse_url s ≡ (true, u)
    → (t : Bytes) × (s
        ≡ scheme_text u.scheme
          ++ (plain_text u.hostname ++ (t ++ (plain_text u.path ++ query_text u.query))))
      × (u.port < 2 ^ 16)
      × Port u.port t
unfolding parse_url
parse_url-pieces s u h =
    let p = (parse_scheme s).1 in
    let host = (parse_host p).0 in
    let q = (parse_host p).1 in
    elim (Option-cases (parse_port host q)) [
      | inl bad ↦ absurd (ground (arith, h, bad))
      | inr ((port, r), e) ↦
          let (t, split, small, text) = parse_port-split host q r port e in
          let good : parse_path r ≡ (true, u.path, u.query) = ground (arith, h, e) in
          let tail : r ≡ plain_text u.path ++ query_text u.query =
            parse_path-split r u.path u.query good in
          let scheme_is : (parse_scheme s).0 ≡ u.scheme = ground (arith, h, e) in
          let host_is : host ≡ u.hostname = ground (arith, h, e) in
          let port_is : port ≡ u.port = ground (arith, h, e) in
          (
            t,
            cc (parse_scheme-split s, parse_host-split p, split, tail, scheme_is, host_is),
            omega arith,
            subst (λ k. Port k t) port_is text,
          )
    ]
