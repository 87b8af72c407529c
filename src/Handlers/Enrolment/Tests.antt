-- ===== src/Handlers/Enrolment/Tests.antt =====
-- A tenant with one key.
use delivery_api.Base.{ℕ, ◌≡◌, refl, none, some, [], codes, str_eq, if◌then◌else◌, true, false}
use delivery_api.Models.{key_model}
use delivery_api.Listed.{list_db, list_table-IsLive}
use delivery_api.Handlers.Reply.{reply}
use delivery_api.Handlers.Access.{
  Config, Request, Env, Gate, admitted, refused, api_key_auth, internal_tenant_status,
  require_internal_secret, secret_equals,
}
use delivery_api.Handlers.Enrolment.{
  create_api_key, enroll_delivery, unenroll_delivery, generate_api_key,
}
use delivery_api.Handlers.Enrolment.Tenants.{
  internal_tenant_status-enroll_delivery, enroll_delivery_again,
}
use delivery_api.Handlers.Enrolment.Lifetime.{created, api_key_auth-create_api_key}

abbrev cfg : Config
cfg = record { internal_shared_secret = codes "s"; accounts_url = [] }

abbrev request : Request
request = record {
  header =
      λ name. if str_eq name (codes "Authorization") then codes "Bearer cd_live_r" else codes "s";
  cookie = none;
  token = [];
}

abbrev env : Env
env = record { cfg = some cfg; now = 1; stored_at = 2; hash = λ s. s; get = λ url token. none }

abbrev gate : Gate list_db
gate = record { keys = []; sessions = []; cache = [] }

internal_tenant_status-enroll_delivery_example :
    (internal_tenant_status list_db
        (some cfg)
        request
        (codes "u")
        (enroll_delivery list_db (λ s. s) (codes "r") 5 (codes "u") []).0
      ≡ reply 200 true)
    × (internal_tenant_status list_db
          (some cfg)
          request
          (codes "u")
          (unenroll_delivery list_db (codes "u") []).0
        ≡ reply 200 false)
unfolding require_internal_secret secret_equals str_eq
internal_tenant_status-enroll_delivery_example =
    internal_tenant_status-enroll_delivery list_db (list_table-IsLive key_model) (codes "u") refl
      (some cfg) request refl (λ s. s) (codes "r") 5 []

enroll_delivery_again_example :
    let after = (enroll_delivery list_db (λ s. s) (codes "r") 5 (codes "u") []).0 in
    enroll_delivery list_db (λ s. s) (codes "q") 6 (codes "u") after ≡ (after, reply 200 none)
enroll_delivery_again_example =
    enroll_delivery_again list_db (list_table-IsLive key_model) (codes "u") refl (λ s. s)
      (codes "r") (codes "q") 5 6 []

api_key_auth-create_api_key_example :
    let stored =
      created list_db
        (list_table-IsLive key_model)
        env
        (codes "r")
        (codes "n")
        (codes "u")
        refl
        refl
        []
        refl in
    ((id : ℕ) × ((create_api_key list_db (λ s. s) (codes "r") (some (codes "n")) (codes "u") []).1
        ≡ reply 201 (id, codes "n", codes "cd_live_r"))
      × ((api_key_auth list_db env request (record gate { keys = stored })).1
          ≡ admitted (record { session_user = []; key_user = codes "u"; key_id = id })))
    × ((api_key_auth list_db env request
          (record gate { keys = (unenroll_delivery list_db (codes "u") stored).0 })).1
        ≡ refused 401 (codes "invalid api key"))
unfolding generate_api_key str_eq
api_key_auth-create_api_key_example =
    api_key_auth-create_api_key list_db (list_table-IsLive key_model) env (codes "r") (codes "n")
      (codes "u") refl refl [] refl request gate refl
