-- ===== src/Main/Registered.antt =====
-- The registration of the routes, and which of them serves a request.
use delivery_api.Base.{
  ◌≡◌, ◌⊎◌, ◌∙◌, sym, ap, refl, inl, inr, true, false, some, [], ◌∷◌, Str, codes, Option-cases,
  is_some, any_of, str_eq,
}
use mathlib.Core.List.{Mem}
use delivery_api.Db.{Database}
use delivery_api.Handlers.Access.{Gate}
use delivery_api.Main.Mux.{register_all, match_request}
use delivery_api.Main.Mux.Search.{serves, match_request-serves, match_request-Mem}
use delivery_api.Main.{Route, routes, Site, Call, root, guarded, serve_mux, serve}

-- No two routes of main conflict: their registration does not panic, with the services' key or
-- without it.
pub routes-register_all :
    (key : Str) → register_all (λ (r : Route). r.pattern) [] (routes key) ≡ some (routes key)
unfolding routes register_all str_eq
routes-register_all [] = refl
routes-register_all (c ∷ key) = refl

-- A request that is no preflight goes to the guard and the handler of one of the routes that main
-- registers, whose method and path fit the request, where a GET fits a HEAD. If no route fits, the
-- root answers.
pub serve-route :
    (db : Database) (site : Site) (call : Call) (g : Gate db)
    → str_eq call.method (codes "OPTIONS") ≡ false
    → ((any_of (λ r. serves call.method call.path r.pattern) (routes site.service_key) ≡ false)
        × ((serve db site call g).1.outcome ≡ root call))
      ⊎ ((r : Route) × Mem r (routes site.service_key)
          × (serves call.method call.path r.pattern ≡ true)
          × ((serve db site call g).1.outcome
              ≡ (guarded db site call.request r.guard r.handler g).1))
unfolding serve serve_mux
serve-route db site call g other =
    let (found_iff, found_serves) =
      match_request-serves (λ (r : Route). r.pattern) call.method call.path
        (routes site.service_key) in
    elim (Option-cases
      (match_request (λ (r : Route). r.pattern) call.method call.path (routes site.service_key))) [
        | inl nothing ↦
            inl (sym found_iff ∙ ap is_some nothing, rw (other, serve_mux, nothing) refl)
        | inr (r, found) ↦ inr (
          r,
          match_request-Mem (λ (x : Route). x.pattern) call.method call.path
              (routes site.service_key) r found,
          found_serves r found,
          rw (other, serve_mux, found) refl,
        )
      ]
