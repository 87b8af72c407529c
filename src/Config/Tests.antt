-- ===== src/Config/Tests.antt =====
-- An environment with the old secret, and a file of variables.
use delivery_api.Base.{
  ◌≡◌, false, refl, none, some, [], ◌∷◌, Str, codes, if◌then◌else◌, str_eq, split,
}
use delivery_api.Listed.{list_db}
use delivery_api.Handlers.Access.{Request, admin_auth, gateway_user_id, require_internal_secret}
use delivery_api.Handlers.Access.Tests
use delivery_api.Config.{load_env_file, load_from}
use delivery_api.Config.File.{first_set, values_of, load_env_file-first_set}
use delivery_api.Config.Secrets.{guards_of, load_from-gateway_user_id}

abbrev legacy : Str → Str
legacy key = if str_eq key (codes "SERVICE_API_KEY") then codes "k" else []

abbrev file : Str
file = codes "# limits\nPORT = 80\nPORT=90"

load_env_file-first_set_example :
    load_env_file (some file) legacy (codes "PORT")
    ≡ first_set (legacy (codes "PORT") ∷ values_of (codes "PORT") (split b'\n' file))
load_env_file-first_set_example = load_env_file-first_set file legacy (codes "PORT")

abbrev request : Request
request = record Tests.request { header = λ name. codes "k" }

load_from-gateway_user_id_example :
    let cfg = some (guards_of (load_from legacy (λ path. none))) in
    (gateway_user_id cfg request ≡ codes "k")
    × (require_internal_secret list_db cfg request ≡ none)
    × ((other : Request) → admin_auth (legacy (codes "INTERNAL_SHARED_SECRET")) other ≡ false)
unfolding str_eq
load_from-gateway_user_id_example =
    load_from-gateway_user_id list_db legacy (λ path. none) request refl (λ e. cc) refl
