-- ===== src/Http/Client/Config/Laws.antt =====
-- What `tlsuv_http_set_url` makes of a URL.
use tlsuv.Base.{◌≡◌, refl, Bytes, true, some, ◌++◌, case_eq_refl, take, length, [], ◌∷◌, ap, arith}
use tlsuv.Http.Client.{Client}
use tlsuv.Http.Client.Config.{scheme_is, adopt_url, http_set_url}

take-length-append : (xs ys : Bytes) → take (length xs) (xs ++ ys) ≡ xs
take-length-append [] ys = refl
take-length-append (x ∷ xs) ys = ap (◌∷◌ x) (take-length-append xs ys)

-- Every prefix of a name, the empty one too, is taken for the scheme of that name.
scheme_is-prefix : (scheme rest : Bytes) → scheme_is (scheme ++ rest) scheme ≡ true
unfolding scheme_is
scheme_is-prefix scheme rest = rw (take-length-append scheme rest) (case_eq_refl scheme)

-- Setting a URL never turns TLS off: a client that has used https stays with TLS for a http URL.
http_set_url-ssl :
    (c c' : Client) (text : Bytes) → http_set_url c text ≡ some c' → c.ssl ≡ true → c'.ssl ≡ true
unfolding http_set_url adopt_url
http_set_url-ssl c c' text e h = ground (arith, e, h)
