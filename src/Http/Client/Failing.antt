-- ===== src/Http/Client/Failing.antt =====
-- Who is told when the requests of a client fail.
use tlsuv.Base.{ℕ, ◌≡◌, Option, none, some, List, [], ◌∷◌, ◌++◌}
use tlsuv.Http.Types.{Req, Code, Event, responded}
use tlsuv.Http.Client.{Client}

-- The calls of `resp_cb` in a list of events: which request, and with what code.
unfoldable pub told : List Event → List (ℕ × Code)
told [] = []
told (responded id code status headers ∷ es) = (id, code) ∷ told es
told (_ ∷ es) = told es

-- The requests that have a `resp_cb`, each with the code.
abbrev with_callback : Req → Code → List (ℕ × Code)
with_callback r code = elim r.resp_cb [ none ↦ [] | some wants ↦ (r.id, code) ∷ [] ]

unfoldable pub callbacks : List Req → Code → List (ℕ × Code)
callbacks [] code = []
callbacks (r ∷ rs) code = with_callback r code ++ callbacks rs code

abbrev pub active_list : Option Req → List Req
active_list none = []
active_list (some r) = r ∷ []

-- The active request is there and has no `resp_cb`.
abbrev pub HasNone : Option Req → Type 0
HasNone o = (r : Req) × (o ≡ some r) × (r.resp_cb ≡ none)
