-- ===== src/Handlers/Access/Tests.antt =====
-- A request with a token that the accounts service knows.
use delivery_api.Base.{
  ◌≡◌, ◌⊎◌, refl, ◌∷◌, Str, trim_right_by, none, some, [], codes, str_eq, if◌then◌else◌,
}
use delivery_api.Listed.{list_db}
use delivery_api.Handlers.Access.Remembered.{
  Validations, IsConfirmed, validate_cat_token-IsConfirmed,
}
use delivery_api.Handlers.Access.{
  resolved, store, lookup, validate_cat_token, Request, Env, Gate, with_auth,
}
use delivery_api.Handlers.Access.Vouchers.{IsJustified, with_auth-IsJustified}

abbrev pub env : Env
env = record {
  cfg = some (record { internal_shared_secret = codes "s"; accounts_url = codes "http://a/" });
  now = 1;
  stored_at = 2;
  hash = λ s. s;
  get = λ url token. some (200, some (codes "u", []));
}

abbrev pub request : Request
request = record {
  header = λ name. if str_eq name (codes "Authorization") then codes "Bearer cat_x" else [];
  cookie = none;
  token = [];
}

abbrev pub gate : Gate list_db
gate = record { keys = []; sessions = []; cache = [] }

with_auth-IsJustified_example :
    IsJustified list_db env request gate (with_auth list_db env request gate).1
with_auth-IsJustified_example = with_auth-IsJustified list_db env request gate

abbrev history : Validations
history = (env, codes "cat_x") ∷ []

validate_cat_token-IsConfirmed_example :
    ((url : Str) × (resolved (env.get url (codes "cat_x")) ≡ some (codes "u")))
    ⊎ IsConfirmed (codes "cat_x") (codes "u") 1 history
unfolding validate_cat_token lookup store resolved str_eq trim_right_by
validate_cat_token-IsConfirmed_example =
    validate_cat_token-IsConfirmed history env (codes "cat_x") (codes "u") refl
