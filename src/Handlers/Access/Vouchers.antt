-- ===== src/Handlers/Access/Vouchers.antt =====
-- On whose word WithAuth lets a request act for a user.
use delivery_api.Base.{
  ℕ, ◌≤◌, ◌≡◌, ◌≢◌, refl, inl, inr, true, false, Option, none, some, Option-cases, Bool-cases, [],
  ◌∷◌, ◌++◌, Str, codes, arith, is_empty, is_empty_iff, trim_right_by, str_eq, str_eq_iff,
  has_prefix, find_where, ltb, ◌==◌,
}
use delivery_api.Models.{ApiKey}
use delivery_api.Db.{Database}
use delivery_api.Handlers.Access.{
  Config, Request, SessionData, CatTokenEntry, Env, Caller, Admission, admitted, refused, as_user,
  as_key, secret_equals, gateway_user_id, keyed, get_session, get_session_user_id, CatTokenCache,
  lookup, resolved, validate_cat_token, authorization, bearer, Gate, key_hashed, is_expired,
  api_key_auth, cat_auth, with_auth, admin_auth, service_auth, require_internal_secret,
}

-- The accounts service named the user, now or before the entry was cached that is still valid.
pub data IsResolved (now : ℕ) (get : Str → Str → Option (ℕ × Option (Str × Str)))
    (cache : CatTokenCache) (token uid : Str) : Type 0 where
  remembered :
      (e : Str × CatTokenEntry)
      → find_where (keyed token) cache ≡ some e
      → now ≤ e.1.expires
      → uid ≡ e.1.user_id
      → IsResolved now get cache token uid
  answered : (url : Str) → resolved (get url token) ≡ some uid → IsResolved now get cache token uid

pub data IsVouched (db : Database) (env : Env) (req : Request) (g : Gate db) : Caller → Type 0 where
  by_gateway :
      (cfg : Config)
      → env.cfg ≡ some cfg
      → cfg.internal_shared_secret ≢ []
      → req.header (codes "X-Internal-Secret") ≡ cfg.internal_shared_secret
      → req.header (codes "X-Auth-User-ID") ≢ []
      → IsVouched db env req g (as_user (req.header (codes "X-Auth-User-ID")))
  by_session :
      (value : Str) (s : Str × SessionData)
      → req.cookie ≡ some value
      → find_where (keyed value) g.sessions ≡ some s
      → env.now ≤ s.1.expires_at
      → s.1.user_id ≢ []
      → IsVouched db env req g (as_user s.1.user_id)
  by_key :
      (k : ApiKey)
      → find_where (key_hashed db (env.hash (bearer req))) (db.keys.rows g.keys) ≡ some k
      → is_expired db env.now k ≡ false
      → IsVouched db env req g (as_key k)
  by_accounts :
      (uid : Str)
      → IsResolved env.now env.get g.cache (bearer req) uid
      → IsVouched db env req g (as_user uid)

abbrev pub IsAnswer :
    ℕ → (Str → Str → Option (ℕ × Option (Str × Str))) → CatTokenCache → Str → Option Str → Type 0
IsAnswer now get cache token none = Unit
IsAnswer now get cache token (some uid) = IsResolved now get cache token uid

lookup-IsAnswer :
    (env : Env) (token : Str) (cache : CatTokenCache) (uid : Str)
    → lookup env.now token cache ≡ some uid
    → IsResolved env.now env.get cache token uid
unfolding lookup
lookup-IsAnswer env token cache uid h = elim (Option-cases (find_where (keyed token) cache)) [
  | inl e ↦ ground arith
  | inr (entry, e) ↦ remembered entry e (ground arith) (ground arith)
]

pub validate_cat_token-IsAnswer :
    (env : Env) (token : Str) (cache : CatTokenCache)
    → IsAnswer env.now env.get cache token (validate_cat_token env token cache).1
unfolding validate_cat_token lookup
validate_cat_token-IsAnswer env token cache = elim (Option-cases env.cfg) [
  | inl e ↦ rw (validate_cat_token, e) tt
  | inr (cfg, e) ↦ elim (Bool-cases (is_empty cfg.accounts_url)) [
    | inl off ↦ rw (validate_cat_token, e, off) tt
    | inr on ↦ elim (Option-cases (lookup env.now token cache)) [
      | inr (uid, hit) ↦
          rw (validate_cat_token, e, on, hit) (lookup-IsAnswer env token cache uid hit)
      | inl miss ↦
          let url = trim_right_by (λ c. c == b'/') cfg.accounts_url ++ codes "/api/accounts/me" in
          elim (Option-cases (resolved (env.get url token))) [
            | inl silent ↦ rw (validate_cat_token, e, on, miss, silent) tt
            | inr (uid, named) ↦ rw (validate_cat_token, e, on, miss, named) (answered url named)
          ]
    ]
  ]
]

module _ (db : Database) (env : Env) (req : Request) (g : Gate db) where
  -- An admission is vouched for, and a refusal is a 401.
  abbrev pub IsJustified : Admission → Type 0
  IsJustified (admitted c) = IsVouched db env req g c
  IsJustified (refused code text) = code ≡ 401

  api_key_auth-IsJustified : IsJustified (api_key_auth db env req g).1
  unfolding api_key_auth
  api_key_auth-IsJustified =
      let token = bearer req in
      elim (Bool-cases (has_prefix (authorization req) (codes "Bearer "))) [
        | inr bare ↦ rw (api_key_auth, bare) refl
        | inl bearer ↦ elim (Option-cases (db.keys.first (key_hashed db (env.hash token)) g.keys)) [
          | inl unknown ↦ rw (api_key_auth, bearer, unknown) refl
          | inr (k, e) ↦ elim (Bool-cases (is_expired db env.now k)) [
            | inl old ↦ rw (api_key_auth, bearer, e, old) refl
            | inr fresh ↦
                rw (api_key_auth, bearer, e, fresh)
                  (by_key k
                    (ground (arith, db.keys.first_law (key_hashed db (env.hash token)) g.keys))
                    fresh)
          ]
        ]
      ]

  cat_auth-IsJustified : IsJustified (cat_auth db env req g).1
  unfolding cat_auth
  cat_auth-IsJustified =
      let token = bearer req in
      let answer = validate_cat_token-IsAnswer env token g.cache in
      elim (Bool-cases (has_prefix (authorization req) (codes "Bearer cat_"))) [
        | inr other ↦ rw (cat_auth, other) refl
        | inl cat ↦ elim (Option-cases (validate_cat_token env token g.cache).1) [
          | inl e ↦ rw (cat_auth, cat, e) refl
          | inr (uid, e) ↦ rw (cat_auth, cat, e) (by_accounts uid (rw e at answer))
        ]
      ]

  gateway-IsVouched :
      is_empty (gateway_user_id env.cfg req) ≡ false
      → IsVouched db env req g (as_user (gateway_user_id env.cfg req))
  unfolding gateway_user_id secret_equals
  gateway-IsVouched h = elim (Option-cases env.cfg) [
    | inl e ↦ absurd (ground arith)
    | inr (cfg, e) ↦
        let open_gate : is_empty cfg.internal_shared_secret ≡ false = ground arith in
        let same : str_eq (req.header (codes "X-Internal-Secret")) cfg.internal_shared_secret
            ≡ true =
          ground arith in
        let names : gateway_user_id env.cfg req ≡ req.header (codes "X-Auth-User-ID") =
          ground arith in
        rw names (
          by_gateway cfg e (ground (arith, is_empty_iff cfg.internal_shared_secret))
            ((str_eq_iff _ _).0 same)
            (ground (arith, is_empty_iff (req.header (codes "X-Auth-User-ID")))))
  ]

  session-IsVouched :
      is_empty (get_session_user_id env.now g.sessions req) ≡ false
      → IsVouched db env req g (as_user (get_session_user_id env.now g.sessions req))
  unfolding get_session_user_id get_session
  session-IsVouched h = elim (Option-cases req.cookie) [
    | inl e ↦ absurd (ground arith)
    | inr (value, e) ↦ elim (Option-cases (find_where (keyed value) g.sessions)) [
      | inl gone ↦ absurd (ground arith)
      | inr (s, found) ↦
          let valid : ltb s.1.expires_at env.now ≡ false = ground arith in
          let names : get_session_user_id env.now g.sessions req ≡ s.1.user_id = ground arith in
          rw names
            (by_session value s e found (ground arith) (ground (arith, is_empty_iff s.1.user_id)))
    ]
  ]

  -- A request is let through only for a user whom the gateway names with the shared secret, whose
  -- session is stored and unexpired, whose API key is stored and unexpired, or whom the accounts
  -- service has named for the token; any other request is answered 401.
  pub with_auth-IsJustified : IsJustified (with_auth db env req g).1
  unfolding with_auth
  with_auth-IsJustified = elim (Bool-cases (is_empty (gateway_user_id env.cfg req))) [
    | inr named ↦ rw (with_auth, named) (gateway-IsVouched named)
    | inl unnamed ↦ elim (Bool-cases (is_empty (get_session_user_id env.now g.sessions req))) [
      | inr known ↦ rw (with_auth, unnamed, known) (session-IsVouched known)
      | inl unknown ↦ elim (Bool-cases (has_prefix (authorization req) (codes "Bearer cd_live_"))) [
        | inl key ↦ rw (with_auth, unnamed, unknown, key) api_key_auth-IsJustified
        | inr other ↦ rw (with_auth, unnamed, unknown, other) cat_auth-IsJustified
      ]
    ]
  ]

pub admin_auth_sound :
    (secret : Str) (req : Request)
    → admin_auth secret req ≡ true
    → (secret ≢ []) × (req.header (codes "X-Internal-Secret") ≡ secret)
unfolding admin_auth secret_equals
admin_auth_sound [] req h = cc
admin_auth_sound (c ∷ s) req h = (λ e. cc, (str_eq_iff _ (c ∷ s)).0 h)

pub service_auth_sound :
    (key : Str) (req : Request)
    → service_auth key req ≡ true
    → authorization req ≡ codes "Bearer " ++ key
unfolding service_auth
service_auth_sound key req h = (str_eq_iff _ _).0 h

-- The guards of the gateway and of internal callers let the secret pass that is configured.
module _ (cfg : Config) (req : Request) (set : cfg.internal_shared_secret ≢ [])
    (sent : req.header (codes "X-Internal-Secret") ≡ cfg.internal_shared_secret) where
  secret-sent :
      (is_empty cfg.internal_shared_secret ≡ false)
      × (secret_equals (req.header (codes "X-Internal-Secret")) cfg.internal_shared_secret ≡ true)
  unfolding secret_equals
  secret-sent = (ground (arith, is_empty_iff cfg.internal_shared_secret), (str_eq_iff _ _).1 sent)

  pub gateway_user_id_sent : gateway_user_id (some cfg) req ≡ req.header (codes "X-Auth-User-ID")
  unfolding gateway_user_id
  gateway_user_id_sent = rw (secret-sent.0, secret-sent.1) refl

  pub require_internal_secret_sent :
      (db : Database) → require_internal_secret db (some cfg) req ≡ none
  unfolding require_internal_secret
  require_internal_secret_sent db = rw (secret-sent.0, secret-sent.1) refl

pub admin_auth_unset : (req : Request) → admin_auth [] req ≡ false
unfolding admin_auth
admin_auth_unset req = refl
