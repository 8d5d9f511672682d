-- ===== src/Http/Request/Framing.antt =====
-- A request body has a length or is chunked, never both.
use tlsuv.Base.{
  ◌⊎◌, ◌≡◌, Bytes, Bool, true, false, none, some, codes, case_eq, bytes_eq, arith, ◌==◌,
  case_eq_comm, case_eq_trans, ◌&&◌, ◌||◌, not, if◌then◌else◌, inl, inr, Bool-cases, ◌∙◌,
}
use tlsuv.Http.Types.{Req, einval, no_size}
use tlsuv.Http.Request.{req_header}

abbrev pub IsFramed : Req → Type 0
IsFramed req = req.req_chunked ≡ true → req.req_body_size ≡ no_size

-- No name is both.
names_differ :
    (name : Bytes)
    → case_eq name (codes "transfer-encoding") ≡ true
    → case_eq name (codes "Content-Length") ≡ false
names_differ name h = elim (Bool-cases (case_eq name (codes "Content-Length"))) [
  | inl e ↦
      let both : case_eq (codes "transfer-encoding") (codes "Content-Length") ≡ true =
        case_eq_trans (codes "transfer-encoding") name (codes "Content-Length")
          (case_eq_comm (codes "transfer-encoding") name ∙ h) e in
      cc both
  | inr e ↦ e
]

abbrev asks_chunked : Bytes → Bytes → Bool
asks_chunked name value =
    case_eq name (codes "transfer-encoding") && bytes_eq value (codes "chunked")

-- The call asks for a framing that contradicts the one that is set.
abbrev pub conflicts : Req → Bytes → Bytes → Bool
conflicts req name value =
    (asks_chunked name value && not (req.req_body_size == no_size))
    || (case_eq name (codes "Content-Length") && req.req_chunked)

-- Setting a header keeps the framing well formed: a body is never both chunked and of a given
-- length. The call is refused exactly where it asks for the framing that contradicts the one
-- that is set, and then it changes nothing.
pub req_header-IsFramed :
    (req : Req) (name value : Bytes)
    → IsFramed req
    → IsFramed (req_header req name value).0
      × ((req_header req name value).1 ≡ (if conflicts req name value then some einval else none))
      × ((conflicts req name value ≡ false) ⊎ ((req_header req name value).0 ≡ req))
unfolding req_header
req_header-IsFramed req name value f = elim (Bool-cases (asks_chunked name value)) [
  | inl chunks ↦
      let apart = names_differ name (ground (arith, chunks)) in ground (arith, f, chunks, apart)
  | inr other ↦ ground (arith, f, other)
]
