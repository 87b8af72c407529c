-- ===== src/Main.antt =====
-- main.go: the answer to a request up to the handler that it runs. Redirects to a clean path are
-- left out.
pub mod Table
pub mod Mux
pub mod Guarded
pub mod Registered
pub mod Start
pub mod Tests
unfoldable pub use Table.*
use delivery_api.Base.{
  ℕ, ◌||◌, Option, none, some, List, [], ◌∷◌, Str, codes, if◌then◌else◌, is_empty, str_eq, any_of,
}
use delivery_api.Db.{Database}
use delivery_api.Handlers.Access.{
  Env, Request, Caller, Admission, admitted, refused, Gate, with_auth, with_auth_or_query_token,
  admin_auth, service_auth,
}
use delivery_api.Main.Mux.{match_request}

-- The configuration that the answer depends on; `secret` is what AdminAuth reads.
pub record Site : Type 0 where
  pub env : Env
  pub allowed_origins : List Str
  pub service_key : Str
  pub secret : Str

pub record Call : Type 0 where
  pub method : Str
  pub path : List Str
  pub request : Request

pub data Outcome : Type 0 where
  ran : Handler → Caller → Outcome
  answered : ℕ → Outcome

pub record Answer : Type 0 where
  pub allow_origin : Option Str
  pub outcome : Outcome

abbrev nobody : Caller
nobody = record { session_user = []; key_user = []; key_id = 0 }

abbrev pub run_if : Handler → Admission → Outcome
run_if h (admitted c) = ran h c
run_if h (refused status text) = answered status

-- The handler of "GET /", which every path of a GET fits; for other methods ServeMux answers 405.
abbrev pub root : Call → Outcome
root call =
    if str_eq call.method (codes "GET") || str_eq call.method (codes "HEAD")
    then (elim call.path [
      | [] ↦ answered 404
      | s ∷ ss ↦ elim ss [
        | [] ↦ if is_empty s then answered 200 else answered 404
        | _ ↦ answered 404
      ]
    ])
    else answered 405

module _ (db : Database) where
  pub guarded : Site → Request → Guard → Handler → Gate db → Gate db × Outcome
  guarded site req unguarded h g = (g, ran h nobody)
  guarded site req by_auth h g = let (g', a) = with_auth db site.env req g in (g', run_if h a)
  guarded site req by_query_token h g =
      let (g', a) = with_auth_or_query_token db site.env req g in (g', run_if h a)
  guarded site req by_service h g =
      (g, if service_auth site.service_key req then ran h nobody else answered 401)
  guarded site req by_admin h g =
      (g, if admin_auth site.secret req then ran h nobody else answered 401)

  pub serve_mux : Site → Call → Gate db → Gate db × Outcome
  unfolding routes guarded
  serve_mux site call g =
      elim (match_request (λ (r : Route). r.pattern) call.method call.path
        (routes site.service_key)) [
          | some r ↦ guarded site call.request r.guard r.handler g
          | none ↦ (g, root call)
        ]

  -- corsMiddleware
  pub serve : Site → Call → Gate db → Gate db × Answer
  unfolding serve_mux str_eq
  serve site call g =
      let origin = call.request.header (codes "Origin") in
      let allowed = if any_of (str_eq origin) site.allowed_origins then some origin else none in
      if str_eq call.method (codes "OPTIONS")
      then (g, record { allow_origin = allowed; outcome = answered 204 })
      else (let (g', o) = serve_mux site call g in
          (g', record { allow_origin = allowed; outcome = o }))
