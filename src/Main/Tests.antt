-- ===== src/Main/Tests.antt =====
-- Requests to the service.
use delivery_api.Base.{
  ◌↔◌, some, none, map, trim_space, ◌≡◌, ◌⊎◌, refl, true, false, [], ◌∷◌, codes, any_of, str_eq,
}
use delivery_api.Listed.{list_db}
use delivery_api.Handlers.Access.{Request, admin_auth, secret_equals}
use delivery_api.Handlers.Access.Tests
use delivery_api.Main.Mux.{match_request}
use delivery_api.Main.Mux.Search.{serves}
use mathlib.Core.List.{Mem}
use delivery_api.Smtp.Dkim.Tests.{crypto}
use delivery_api.Queue.Tests.{store}
use delivery_api.Config.{load_env_file, join}
use delivery_api.Main.Start.{World, main, serve-main_origins}
use delivery_api.Main.{Handler, Route, routes, Site, Call, root, guarded, serve}
use delivery_api.Main.Guarded.{IsAllowed, access, serve-IsAllowed}
use delivery_api.Main.Registered.{serve-route}

abbrev site : Site
site = record {
  env = Tests.env;
  allowed_origins = codes "https://my.lisaos.dev" ∷ [];
  service_key = codes "k";
  secret = codes "s";
}

abbrev operator : Request
operator = record Tests.request { header = λ name. codes "s" }

abbrev call : Call
call = record {
  method = codes "GET";
  path = codes "api" ∷ codes "admin" ∷ codes "stats" ∷ [];
  request = operator;
}

serve-IsAllowed_example :
    IsAllowed list_db site operator Tests.gate
      (access Handler.admin_stats)
      (record { session_user = []; key_user = []; key_id = 0 })
unfolding serve match_request str_eq admin_auth secret_equals
serve-IsAllowed_example =
    serve-IsAllowed list_db site call Tests.gate Handler.admin_stats
      (record { session_user = []; key_user = []; key_id = 0 }) refl

serve-route_example :
    ((any_of (λ r. serves call.method call.path r.pattern) (routes site.service_key) ≡ false)
      × ((serve list_db site call Tests.gate).1.outcome ≡ root call))
    ⊎ ((r : Route) × Mem r (routes site.service_key)
        × (serves call.method call.path r.pattern ≡ true)
        × ((serve list_db site call Tests.gate).1.outcome
            ≡ (guarded list_db site operator r.guard r.handler Tests.gate).1))
unfolding str_eq
serve-route_example = serve-route list_db site call Tests.gate refl

abbrev world : World
world = record {
  getenv = λ name. codes "r, s";
  read = λ path. none;
  queue_made_at = 0;
  queue_started_at = 1;
  make_client = λ text. false;
  access = Tests.env;
}

serve-main_origins_example :
    let site_of_main = (main list_db crypto world store).site in
    ((serve list_db site_of_main call Tests.gate).1.allow_origin ≡ some (codes "s"))
    ↔ ((codes "s" ≡ codes "s") × Mem (codes "s") (map trim_space (codes "r" ∷ codes " s" ∷ [])))
unfolding load_env_file join
serve-main_origins_example =
    serve-main_origins list_db crypto world store (codes "r") (codes " s" ∷ [])
      (((λ e. cc), tt), (((λ e. cc), ((λ e. cc), tt)), tt)) refl (λ e. cc) call Tests.gate
      (codes "s")
