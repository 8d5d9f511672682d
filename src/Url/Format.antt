-- ===== src/Url/Format.antt =====
-- `struct tlsuv_url_s` of include/tlsuv/http.h, and the text of a URL: the specification.
use tlsuv.Base.{ℕ, Bytes, Option, none, some, [], ◌∷◌, ◌++◌, print_decimal, ◌==◌, if◌then◌else◌}

pub record Url : Type 0 where
  pub scheme : Option Bytes
  pub hostname : Option Bytes
  pub port : ℕ
  pub path : Option Bytes
  pub query : Option Bytes

abbrev pub scheme_text : Option Bytes → Bytes
scheme_text none = []
scheme_text (some s) = s ++ (b':' ∷ b'/' ∷ b'/' ∷ [])

abbrev pub plain_text : Option Bytes → Bytes
plain_text none = []
plain_text (some s) = s

abbrev pub query_text : Option Bytes → Bytes
query_text none = []
query_text (some s) = b'?' ∷ s

unfoldable pub port_suffix : ℕ → Bytes
port_suffix port = if port == 0 then [] else b':' ∷ print_decimal port

unfoldable pub format : Url → Bytes
format u =
    scheme_text u.scheme
    ++ (plain_text u.hostname ++ (port_suffix u.port ++ (plain_text u.path ++ query_text u.query)))
