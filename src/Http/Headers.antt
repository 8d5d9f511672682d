-- ===== src/Http/Headers.antt =====
-- Header lists of src/http_req.c: `um_header_list` with its first entry at the head. Names are
-- compared by `strcasecmp`.
pub mod Laws
use tlsuv.Base.{
  true, false, Bytes, Option, none, some, List, [], ◌∷◌, take, ℕ, case_eq, if◌then◌else◌, Bool,
}

pub record Hdr : Type 0 where
  pub name : Bytes
  pub value : Bytes

abbrev pub Headers : Type 0
Headers = List Hdr

-- `add_http_header`: always a new entry, with at most `vallen` bytes of the value.
unfoldable pub add_http_header : Headers → Bytes → Bytes → ℕ → Headers
add_http_header hl name value vallen = record { name = name; value = take vallen value } ∷ hl

-- `LIST_FOREACH` up to the first entry of that name: is there one?
unfoldable pub has_header : Headers → Bytes → Bool
has_header [] name = false
has_header (h ∷ hl) name =
    let rest = has_header hl name in if case_eq h.name name then true else rest

unfoldable pub remove_first : Headers → Bytes → Headers
remove_first [] name = []
remove_first (h ∷ hl) name =
    let rest = h ∷ remove_first hl name in if case_eq h.name name then hl else rest

-- The first entry of that name keeps its place and the spelling of its name.
unfoldable pub replace_first : Headers → Bytes → Bytes → Headers
replace_first [] name value = []
replace_first (h ∷ hl) name value =
    let rest = h ∷ replace_first hl name value in
    if case_eq h.name name then record h { value = value } ∷ hl else rest

-- `set_http_header`; a value NULL is `none`.
unfoldable pub set_http_header : Headers → Bytes → Option Bytes → Headers
unfolding has_header remove_first replace_first
set_http_header hl name none = remove_first hl name
set_http_header hl name (some value) =
    if has_header hl name
    then replace_first hl name value
    else record { name = name; value = value } ∷ hl

-- `tlsuv_http_resp_header`.
unfoldable pub resp_header : Headers → Bytes → Option Bytes
resp_header [] name = none
resp_header (h ∷ hl) name =
    let rest = resp_header hl name in if case_eq h.name name then some h.value else rest
