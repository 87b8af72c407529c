-- ===== src/Handlers/SignIn.antt =====
-- The sign-in of internal/handlers/auth.go, with IsSecure of internal/config/config.go: the redirect
-- to the accounts service, its callback, and the session that a browser then has. The two maps are
-- behind locks, which are never held across a request to the accounts service, so that a call of a
-- handler is one step on them. That service, the random numbers and the clock are arguments.
pub mod Once
pub mod Tokens
pub mod Ledger
pub mod Refine
pub mod Lifetime
pub mod Tests
use delivery_api.Base.{
  ℕ, ◌+◌, ◌*◌, ◌^◌, Bool, true, false, Option, none, some, get_or, List, [], ◌∷◌, ◌++◌, Str, codes,
  ltb, ◌==◌, if◌then◌else◌, is_empty, str_eq, has_prefix, reject,
}
use delivery_api.Handlers.Access.{SessionData, Request, keyed, get_session}

-- The members of the configuration that signing in reads.
pub record OauthConfig : Type 0 where
  pub oauth_url : Str
  pub oauth_client_id : Str
  pub oauth_client_secret : Str
  pub oauth_redirect_uri : Str
  pub app_url : Str

unfoldable pub is_secure : OauthConfig → Bool
unfolding has_prefix
is_secure c = has_prefix c.app_url (codes "https")

-- A decoded object of JSON: its members that are strings.
abbrev pub Fields : Type 0
Fields = Str → Option Str

-- The accounts service: POST of a URL with an object, and GET of a URL with a token. An error is
-- `none`; a body that cannot be decoded has no members. `encode` is the encoding of a query.
pub record Accounts : Type 0 where
  pub post : Str → List (Str × Str) → Option (ℕ × Fields)
  pub get : Str → Str → Option (ℕ × Fields)
  pub encode : List (Str × Str) → Str

pub data Cookie : Type 0 where
  set : Str → Bool → ℕ → Cookie
  cleared : Cookie

pub data Answer : Type 0 where
  redirected : Str → Option Cookie → Answer
  shown : Option (Str × Str × Str) → Answer

pub record SignedIn : Type 0 where
  pub states : Str → Option ℕ
  pub sessions : List (Str × SessionData)

abbrev pub state_ttl : ℕ
state_ttl = 10 * 60 * 10 ^ 9

abbrev pub session_seconds : ℕ
session_seconds = 30 * 24 * 60 * 60

abbrev pub session_ttl : ℕ
session_ttl = session_seconds * 10 ^ 9

abbrev pub put {ℓ} : {A : Type ℓ} → Str → Option A → (Str → Option A) → Str → Option A
put key value m k = if str_eq key k then value else m k

-- The entries of the states that are not past at `now`.
abbrev pub swept : ℕ → (Str → Option ℕ) → Str → Option ℕ
swept now m k = elim (m k) [ none ↦ none | some exp ↦ if ltb exp now then none else some exp ]

abbrev pub login_params : OauthConfig → Str → List (Str × Str)
login_params cfg state =
    (codes "client_id", cfg.oauth_client_id)
    ∷ (codes "redirect_uri", cfg.oauth_redirect_uri)
    ∷ (codes "response_type", codes "code")
    ∷ (codes "scope", codes "profile email")
    ∷ (codes "state", state)
    ∷ []

unfoldable pub login_url : OauthConfig → Accounts → Str → Str
login_url cfg accounts state =
    cfg.oauth_url ++ codes "/oauth/authorize?" ++ accounts.encode (login_params cfg state)

-- LoginRedirect: `at` is the clock when the state is stored, `now` when the states are swept.
pub login_redirect : OauthConfig → Accounts → Str → ℕ → ℕ → SignedIn → SignedIn × Answer
unfolding login_url str_eq
login_redirect cfg accounts state at now st = (
  record {
    states = swept now (put state (some (at + state_ttl)) st.states);
    sessions = st.sessions;
  },
  redirected (login_url cfg accounts state) none,
)

abbrev pub body_of : Option (ℕ × Fields) → Option Fields
body_of none = none
body_of (some r) = if r.0 == 200 then some r.1 else none

unfoldable pub exchange_code : OauthConfig → Accounts → Str → Option Fields
exchange_code cfg accounts code = body_of (
    accounts.post (cfg.oauth_url ++ codes "/oauth/token") (
      (codes "grant_type", codes "authorization_code")
      ∷ (codes "code", code)
      ∷ (codes "client_id", cfg.oauth_client_id)
      ∷ (codes "client_secret", cfg.oauth_client_secret)
      ∷ (codes "redirect_uri", cfg.oauth_redirect_uri)
      ∷ []))

unfoldable pub fetch_user_info : OauthConfig → Accounts → Str → Option Fields
fetch_user_info cfg accounts token = body_of (accounts.get (cfg.oauth_url ++ codes "/api/me") token)

abbrev pub text_of : Fields → Str → Str
text_of fields name = get_or (fields name) []

pub data Identity : Type 0 where
  unnamed : Str → Identity
  named : Str → Str → Str → Identity

abbrev pub name_of : Fields → Str
name_of info =
    let name = text_of info (codes "name") in
    if is_empty name
    then text_of info (codes "first_name") ++ codes " " ++ text_of info (codes "last_name")
    else name

-- Whom the accounts service names for a code: the word of the failure, or the user's id, name and
-- address.
unfoldable pub identify : OauthConfig → Accounts → Str → Identity
unfolding exchange_code fetch_user_info
identify cfg accounts code = elim (exchange_code cfg accounts code) [
  | none ↦ unnamed (codes "token_exchange")
  | some token ↦
      let access = text_of token (codes "access_token") in
      if is_empty access
      then unnamed (codes "no_token")
      else elim (fetch_user_info cfg accounts access) [
        | none ↦ unnamed (codes "user_info")
        | some info ↦
            let id = text_of info (codes "id") in
            if is_empty id
            then unnamed (codes "bad_user")
            else named id (name_of info) (text_of info (codes "email"))
      ]
]

abbrev pub failed_with : OauthConfig → Str → Answer
failed_with cfg word = redirected (cfg.app_url ++ codes "/?error=" ++ word) none

abbrev pub new_session : Str → Str → Str → ℕ → SessionData
new_session id name email at = record {
  user_id = id;
  name = name;
  email = email;
  expires_at = at + session_ttl;
}

abbrev pub welcomed : OauthConfig → Str → Answer
welcomed cfg token =
    redirected (cfg.app_url ++ codes "/dashboard")
      (some (set token (is_secure cfg) session_seconds))

abbrev pub is_stale : ℕ → Option ℕ → Bool
is_stale now none = true
is_stale now (some exp) = ltb exp now

-- The sessions after the answer of the accounts service, and the answer to the browser.
pub conclude :
    OauthConfig → Str → ℕ → Identity → List (Str × SessionData) → List (Str × SessionData) × Answer
conclude cfg token at (unnamed word) sessions = (sessions, failed_with cfg word)
conclude cfg token at (named id name email) sessions =
    ((token, new_session id name email at) ∷ reject (keyed token) sessions, welcomed cfg token)

-- AuthCallback: `now` is the clock when the state is tested, `at` when the session is made; `token`
-- is the new session's.
pub auth_callback : OauthConfig → Accounts → Str → Str → Str → ℕ → ℕ → SignedIn → SignedIn × Answer
unfolding identify conclude str_eq
auth_callback cfg accounts code state token now at st =
    if is_empty code
    then (st, failed_with cfg (codes "missing_code"))
    else if is_stale now (st.states state)
    then (
      record { states = put state none st.states; sessions = st.sessions },
      failed_with cfg (codes "invalid_state"),
    )
    else (let r = conclude cfg token at (identify cfg accounts code) st.sessions in
        (record { states = put state none st.states; sessions = r.0 }, r.1))

pub auth_me : ℕ → Request → SignedIn → Answer
unfolding get_session
auth_me now req st = elim (get_session now st.sessions req) [
  | none ↦ shown none
  | some s ↦ shown (some (s.user_id, s.name, s.email))
]

pub auth_logout : OauthConfig → Option Str → SignedIn → SignedIn × Answer
auth_logout cfg none st = (st, redirected cfg.app_url (some cleared))
auth_logout cfg (some token) st = (
  record { states = st.states; sessions = reject (keyed token) st.sessions },
  redirected cfg.app_url (some cleared),
)

-- A call of a handler with what it takes from outside, in the order of the handlers' arguments.
pub data Call : Type 0 where
  login : Str → ℕ → ℕ → Call
  callback : Str → Str → Str → ℕ → ℕ → Call
  me : ℕ → Request → Call
  logout : Option Str → Call

pub serve : OauthConfig → Accounts → Call → SignedIn → SignedIn × Answer
unfolding login_redirect auth_callback auth_me auth_logout
serve cfg accounts (login state at now) st = login_redirect cfg accounts state at now st
serve cfg accounts (callback code state token now at) st =
    auth_callback cfg accounts code state token now at st
serve cfg accounts (me now req) st = (st, auth_me now req st)
serve cfg accounts (logout cookie) st = auth_logout cfg cookie st

-- The answers to a sequence of calls.
abbrev pub serve_all : OauthConfig → Accounts → List Call → SignedIn → List Answer
unfolding serve
serve_all cfg accounts [] st = []
serve_all cfg accounts (c ∷ cs) st =
    let r = serve cfg accounts c st in r.1 ∷ serve_all cfg accounts cs r.0
