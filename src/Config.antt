-- ===== src/Config.antt =====
-- internal/config/config.go. The environment is a function from names to values: a variable that is
-- unset reads as the empty text. Files are arguments; a line is shorter than the scanner's buffer.
pub mod Numbers
pub mod File
pub mod Secrets
pub mod Origins
pub mod Tests
use delivery_api.Base.{
  ℕ, ◌+◌, ◌-◌, ◌*◌, ◌%◌, ◌^◌, Bool, true, false, ◌&&◌, ◌||◌, Option, none, some, List, [], ◌∷◌,
  ◌++◌, Str, codes, ltb, leb, if◌then◌else◌, is_empty, str_eq, has_prefix, trim_space, take, drop,
  length, member, index, split, map,
}

pub env : (Str → Str) → Str → Str → Str
env getenv key fallback = let v = getenv key in if is_empty v then fallback else v

-- One round of the loop over the letters: n*10 + digit of a 64-bit integer, as its residue.
abbrev pub add_digit : ℕ → ℕ → ℕ
add_digit n c = if leb b'0' c && leb c b'9' then (n * 10 + (c - b'0')) % 2 ^ 64 else n

pub read_digits : ℕ → Str → ℕ
read_digits n [] = n
read_digits n (c ∷ s) = read_digits (add_digit n c) s

-- The residue stands for a number above zero.
abbrev pub is_positive : ℕ → Bool
is_positive n = ltb 0 n && ltb n (2 ^ 63)

-- WarmupMaxPerHour
pub warmup_max_per_hour : (Str → Str) → ℕ
unfolding env read_digits
warmup_max_per_hour getenv =
    let v = env getenv (codes "WARMUP_MAX_PER_HOUR") [] in
    let n = read_digits 0 v in if is_empty v then 50 else if is_positive n then n else 50

-- loadFCMCredentials; `read` is ReadFile.
pub load_fcm_credentials : (Str → Str) → (Str → Option Str) → Str
load_fcm_credentials getenv read =
    let v = getenv (codes "FCM_CREDENTIALS_JSON") in
    let path = getenv (codes "FCM_CREDENTIALS_FILE") in
    if is_empty v
    then (if is_empty path then [] else elim (read path) [ none ↦ [] | some b ↦ b ])
    else v

-- InternalSharedSecret
pub internal_shared_secret : (Str → Str) → Str
unfolding env
internal_shared_secret getenv =
    env getenv (codes "INTERNAL_SHARED_SECRET") (env getenv (codes "SERVICE_API_KEY") [])

-- The origins that ALLOWED_ORIGINS lists, or the usual ones.
abbrev default_origins : List Str
default_origins =
    codes "https://my.lisaos.dev"
    ∷ codes "http://localhost:60200"
    ∷ codes "http://localhost:3000"
    ∷ codes "http://localhost:1420"
    ∷ codes "tauri://localhost"
    ∷ codes "http://tauri.localhost"
    ∷ codes "https://tauri.localhost"
    ∷ []

-- strings.Join
unfoldable pub join : Str → List Str → Str
join sep [] = []
join sep (part ∷ []) = part
join sep (part ∷ next ∷ parts) = part ++ (sep ++ join sep (next ∷ parts))

pub allowed_origins : (Str → Str) → List Str
unfolding env join trim_space split
allowed_origins getenv =
    map trim_space
      (split b',' (env getenv (codes "ALLOWED_ORIGINS") (join (codes ",") default_origins)))

pub record Config : Type 0 where
  pub port : Str
  pub app_url : Str
  pub allowed_origins : List Str
  pub db_driver : Str
  pub db_host : Str
  pub db_port : Str
  pub db_name : Str
  pub db_user : Str
  pub db_pass : Str
  pub oauth_url : Str
  pub oauth_client_id : Str
  pub oauth_client_secret : Str
  pub oauth_redirect_uri : Str
  pub accounts_url : Str
  pub service_api_key : Str
  pub internal_shared_secret : Str
  pub shared_sending_domain : Str
  pub smtp_relay_port : Str
  pub dkim_selector : Str
  pub warmup_max_per_hour : ℕ
  pub server_ip : Str
  pub hostname : Str
  pub cloudflare_token : Str
  pub vapid_public_key : Str
  pub vapid_private_key : Str
  pub vapid_subject : Str
  pub fcm_credentials_json : Str

-- Load, after the file of variables is read.
pub load_from : (Str → Str) → (Str → Option Str) → Config
unfolding allowed_origins warmup_max_per_hour load_fcm_credentials internal_shared_secret
load_from getenv read = record {
  port = env getenv (codes "PORT") (codes "8005");
  app_url = env getenv (codes "APP_URL") (codes "http://localhost:8005");
  allowed_origins = allowed_origins getenv;
  db_driver = env getenv (codes "DB_DRIVER") (codes "postgres");
  db_host = env getenv (codes "DB_HOST") (codes "localhost");
  db_port = env getenv (codes "DB_PORT") (codes "5432");
  db_name = env getenv (codes "DB_NAME") (codes "construct_delivery");
  db_user = env getenv (codes "DB_USER") (codes "postgres");
  db_pass = env getenv (codes "DB_PASS") [];
  oauth_url = env getenv (codes "OAUTH_URL") (codes "https://api.lisaos.dev");
  oauth_client_id = env getenv (codes "OAUTH_CLIENT_ID") (codes "construct_delivery");
  oauth_client_secret = env getenv (codes "OAUTH_CLIENT_SECRET") [];
  oauth_redirect_uri =
      env getenv (codes "OAUTH_REDIRECT_URI") (codes "http://localhost:8005/api/auth/callback");
  accounts_url = env getenv (codes "ACCOUNTS_URL") (codes "https://my.lisaos.dev");
  service_api_key = env getenv (codes "SERVICE_API_KEY") [];
  internal_shared_secret = internal_shared_secret getenv;
  shared_sending_domain = env getenv (codes "SHARED_SENDING_DOMAIN") (codes "delivery.lisaos.dev");
  smtp_relay_port = env getenv (codes "SMTP_RELAY_PORT") (codes "587");
  dkim_selector = env getenv (codes "DKIM_SELECTOR") (codes "cd");
  warmup_max_per_hour = warmup_max_per_hour getenv;
  server_ip = env getenv (codes "SERVER_IP") [];
  hostname = env getenv (codes "HOSTNAME") (codes "mail.lisaos.dev");
  cloudflare_token = env getenv (codes "CLOUDFLARE_API_TOKEN") [];
  vapid_public_key = env getenv (codes "VAPID_PUBLIC_KEY") [];
  vapid_private_key = env getenv (codes "VAPID_PRIVATE_KEY") [];
  vapid_subject = env getenv (codes "VAPID_SUBJECT") [];
  fcm_credentials_json = load_fcm_credentials getenv read;
}

-- What a line sets: the name and the value, if it sets any.
pub assignment : Str → Option (Str × Str)
unfolding trim_space has_prefix index
assignment text =
    let line = trim_space text in
    if is_empty line || has_prefix line (codes "#") then none else elim (index line b'=') [
      | none ↦ none
      | some i ↦ some (trim_space (take i line), trim_space (drop (i + 1) line))
    ]

-- os.Setenv; it refuses an empty name, and a byte 0. A name from a line has no "=".
pub setenv : Str → Str → (Str → Str) → Str → Str
unfolding str_eq
setenv key val getenv name =
    if is_empty key || (member 0 key || member 0 val)
    then getenv name
    else if str_eq key name
    then val
    else getenv name

pub load_line : Str → (Str → Str) → Str → Str
unfolding assignment setenv
load_line text getenv = elim (assignment text) [
  | none ↦ getenv
  | some (key, val) ↦ if is_empty (getenv key) then setenv key val getenv else getenv
]

pub load_lines : List Str → (Str → Str) → Str → Str
unfolding load_line
load_lines [] getenv = getenv
load_lines (line ∷ lines) getenv = load_lines lines (load_line line getenv)

-- loadEnvFile, with what the file holds, if it can be opened.
unfoldable pub load_env_file : Option Str → (Str → Str) → Str → Str
unfolding load_lines split
load_env_file none getenv = getenv
load_env_file (some text) getenv = load_lines (split b'\n' text) getenv

-- Load
pub load : (Str → Str) → (Str → Option Str) → Config
unfolding load_from load_env_file
load getenv read = load_from (load_env_file (read (codes ".env")) getenv) read

-- strings.Index of "://"
pub index_scheme : Str → Option ℕ
unfolding has_prefix
index_scheme [] = none
index_scheme (c ∷ s) =
    let later = index_scheme s in
    if has_prefix (c ∷ s) (codes "://")
    then some 0
    else elim later [ none ↦ none | some i ↦ some (i + 1) ]

-- The host of APP_URL, as CookieDomain reads it.
pub host_of : Str → Str
unfolding index_scheme index
host_of url =
    let rest : Str = elim (index_scheme url) [ none ↦ url | some i ↦ drop (i + 3) url ] in
    elim (index rest b':') [ none ↦ rest | some i ↦ take i rest ]

-- CookieDomain
pub cookie_domain : Config → Str
unfolding host_of split join str_eq
cookie_domain c =
    let host = host_of c.app_url in
    let parts = split b'.' host in
    if str_eq host (codes "localhost") || str_eq host (codes "127.0.0.1")
    then []
    else if leb 2 (length parts)
    then codes "." ++ join (codes ".") (drop (length parts - 2) parts)
    else []
