-- ===== src/Handlers/Access.antt =====
-- Who a request acts for: internal/handlers/helpers.go, cat_token.go, internal.go and the sessions
-- of auth.go, with internal/middleware. The handler behind a guard is left out: a guard says for
-- whom it would run, or what is answered instead. The accounts service is an argument.
pub mod Vouchers
pub mod Remembered
pub mod Tests
use delivery_api.Base.{
  ℕ, ◌+◌, ◌*◌, ◌^◌, Bool, true, false, not, ◌&&◌, ◌||◌, Option, none, some, List, [], ◌∷◌, ◌++◌,
  Str, codes, ltb, ◌==◌, if◌then◌else◌, is_empty, str_eq, has_prefix, trim_prefix, trim_right_by,
  find_where, reject,
}
use delivery_api.Models.{ApiKey}
use delivery_api.Db.{Database}
use delivery_api.Handlers.Reply.{Reply, reply, error}

pub record Config : Type 0 where
  pub internal_shared_secret : Str
  pub accounts_url : Str

-- A header that is missing reads as the empty text; `token` is the query's.
pub record Request : Type 0 where
  pub header : Str → Str
  pub cookie : Option Str
  pub token : Str

pub record SessionData : Type 0 where
  pub user_id : Str
  pub email : Str
  pub name : Str
  pub expires_at : ℕ

pub record CatTokenEntry : Type 0 where
  pub user_id : Str
  pub expires : ℕ

abbrev pub cat_token_cache_ttl : ℕ
cat_token_cache_ttl = 60 * 10 ^ 9

-- What a guard takes from outside: the configuration, if any, the clock when it tests an expiry
-- and when it writes a time, HashAPIKey, and what GET of a URL with a token answers: `none` for an
-- error, or the status with the decoded ID and UUID, if the body can be decoded.
pub record Env : Type 0 where
  pub cfg : Option Config
  pub now : ℕ
  pub stored_at : ℕ
  pub hash : Str → Str
  pub get : Str → Str → Option (ℕ × Option (Str × Str))

-- The values that a guard puts into the context of the request.
pub record Caller : Type 0 where
  pub session_user : Str
  pub key_user : Str
  pub key_id : ℕ

pub data Admission : Type 0 where
  admitted : Caller → Admission
  refused : ℕ → Str → Admission

abbrev pub as_user : Str → Caller
as_user id = record { session_user = id; key_user = []; key_id = 0 }

abbrev pub as_key : ApiKey → Caller
as_key k = record { session_user = []; key_user = k.user_id; key_id = k.id }

-- GetUserIDFromContext
abbrev pub get_user_id_from_context : Caller → Str
get_user_id_from_context c = if is_empty c.session_user then c.key_user else c.session_user

unfoldable pub secret_equals : Str → Str → Bool
unfolding str_eq
secret_equals a b = str_eq a b

pub gateway_user_id : Option Config → Request → Str
unfolding secret_equals
gateway_user_id none req = []
gateway_user_id (some cfg) req =
    if is_empty cfg.internal_shared_secret
    then []
    else if not (secret_equals (req.header (codes "X-Internal-Secret")) cfg.internal_shared_secret)
    then []
    else req.header (codes "X-Auth-User-ID")

abbrev pub keyed {ℓ} : {A : Type ℓ} → Str → Str × A → Bool
keyed name entry = str_eq entry.0 name

unfoldable pub get_session : ℕ → List (Str × SessionData) → Request → Option SessionData
get_session now sessions req = elim req.cookie [
  | none ↦ none
  | some value ↦ elim (find_where (keyed value) sessions) [
    | none ↦ none
    | some entry ↦ if ltb entry.1.expires_at now then none else some entry.1
  ]
]

unfoldable pub get_session_user_id : ℕ → List (Str × SessionData) → Request → Str
unfolding get_session
get_session_user_id now sessions req = elim (get_session now sessions req) [
  | none ↦ []
  | some s ↦ s.user_id
]

abbrev pub CatTokenCache : Type 0
CatTokenCache = List (Str × CatTokenEntry)

pub lookup : ℕ → Str → CatTokenCache → Option Str
lookup now token cache = elim (find_where (keyed token) cache) [
  | none ↦ none
  | some entry ↦ if ltb entry.1.expires now then none else some entry.1.user_id
]

pub store : ℕ → Str → Str → CatTokenCache → CatTokenCache
store at token user_id cache =
    (token, record { user_id = user_id; expires = at + cat_token_cache_ttl })
    ∷ reject (keyed token) cache

-- What the answer of the accounts service says.
pub resolved : Option (ℕ × Option (Str × Str)) → Option Str
resolved none = none
resolved (some (status, body)) = if not (status == 200) then none else elim body [
  | none ↦ none
  | some ids ↦
      let uid = if is_empty ids.0 then ids.1 else ids.0 in if is_empty uid then none else some uid
]

pub validate_cat_token : Env → Str → CatTokenCache → CatTokenCache × Option Str
unfolding lookup store resolved
validate_cat_token env token cache = elim env.cfg [
  | none ↦ (cache, none)
  | some cfg ↦
      if is_empty cfg.accounts_url then (cache, none) else elim (lookup env.now token cache) [
        | some uid ↦ (cache, some uid)
        | none ↦
            let url = trim_right_by (λ c. c == b'/') cfg.accounts_url ++ codes "/api/accounts/me" in
            elim (resolved (env.get url token)) [
              | none ↦ (cache, none)
              | some uid ↦ (store env.stored_at token uid cache, some uid)
            ]
      ]
]

abbrev pub authorization : Request → Str
authorization req = req.header (codes "Authorization")

unfoldable pub bearer : Request → Str
unfolding trim_prefix
bearer req = trim_prefix (authorization req) (codes "Bearer ")

module _ (db : Database) where
  -- The state that the guards share.
  pub record Gate : Type 0 where
    pub keys : db.keys.State
    pub sessions : List (Str × SessionData)
    pub cache : CatTokenCache

  abbrev pub key_hashed : Str → ApiKey → Bool
  key_hashed hash k = str_eq k.key_hash hash

  abbrev pub is_expired : ℕ → ApiKey → Bool
  is_expired now k = elim k.expires_at [ none ↦ false | some at ↦ ltb at now ]

  unfoldable pub api_key_auth : Env → Request → Gate → Gate × Admission
  api_key_auth env req g =
      if not (has_prefix (authorization req) (codes "Bearer "))
      then (g, refused 401 (codes "missing api key"))
      else elim (db.keys.first (key_hashed (env.hash (bearer req))) g.keys) [
        | none ↦ (g, refused 401 (codes "invalid api key"))
        | some key ↦
            if is_expired env.now key then (g, refused 401 (codes "api key expired")) else (
              record g {
                keys =
                    (db.keys.update (λ k. k.id == key.id)
                      (λ k. record k { last_used_at = some env.stored_at }) g.keys).0;
              },
              admitted (as_key key),
            )
      ]

  abbrev unauthenticated : Admission
  unauthenticated = refused 401 (codes "authentication required")

  -- The fourth source.
  pub cat_auth : Env → Request → Gate → Gate × Admission
  unfolding validate_cat_token
  cat_auth env req g =
      if has_prefix (authorization req) (codes "Bearer cat_")
      then (let r = validate_cat_token env (bearer req) g.cache in
          (
            record g { cache = r.0 },
            elim r.1 [ none ↦ unauthenticated | some uid ↦ admitted (as_user uid) ],
          ))
      else (g, unauthenticated)

  pub with_auth : Env → Request → Gate → Gate × Admission
  unfolding gateway_user_id get_session_user_id api_key_auth cat_auth
  with_auth env req g =
      let gateway = gateway_user_id env.cfg req in
      let session = get_session_user_id env.now g.sessions req in
      if not (is_empty gateway)
      then (g, admitted (as_user gateway))
      else if not (is_empty session)
      then (g, admitted (as_user session))
      else if has_prefix (authorization req) (codes "Bearer cd_live_")
      then api_key_auth env req g
      else cat_auth env req g

  -- The request with the token of the query for a missing header.
  abbrev pub with_query_token : Request → Request
  with_query_token req =
      if is_empty (authorization req) && not (is_empty req.token)
      then record req {
        header = λ name.
            if str_eq name (codes "Authorization")
            then codes "Bearer " ++ req.token
            else req.header name;
      }
      else req

  unfoldable pub with_auth_or_query_token : Env → Request → Gate → Gate × Admission
  unfolding with_auth
  with_auth_or_query_token env req g = with_auth env (with_query_token req) g

  -- requireInternalSecret; `none` lets the request pass.
  unfoldable pub require_internal_secret : Option Config → Request → Option (ℕ × Str)
  require_internal_secret none req = some (503, codes "internal endpoints disabled")
  require_internal_secret (some cfg) req =
      if is_empty cfg.internal_shared_secret
      then some (503, codes "internal endpoints disabled")
      else if not
          (secret_equals (req.header (codes "X-Internal-Secret")) cfg.internal_shared_secret)
      then some (401, codes "unauthorized")
      else none

  -- InternalTenantStatus, with the user of the query.
  unfoldable pub internal_tenant_status : Option Config → Request → Str → db.keys.State → Reply Bool
  unfolding require_internal_secret
  internal_tenant_status cfg req user keys = elim (require_internal_secret cfg req) [
    | some e ↦ error e.0 e.1
    | none ↦
        if is_empty user
        then error 400 (codes "user_id required")
        else elim (db.keys.count (λ k. str_eq k.user_id user) keys) [
          | none ↦ error 500 (codes "query failed")
          | some n ↦ reply 200 (ltb 0 n)
        ]
  ]

-- AdminAuth; the secret is the variable of the environment.
unfoldable pub admin_auth : Str → Request → Bool
admin_auth secret req =
    if is_empty secret then false else secret_equals (req.header (codes "X-Internal-Secret")) secret

-- ServiceAuth
pub service_auth : Str → Request → Bool
service_auth key req = str_eq (authorization req) (codes "Bearer " ++ key)
