-- ===== src/Main/Start.antt =====
-- main.go: the parts that main makes before the server listens, and what the configuration makes of
-- the answers. Connecting to the database is left out; the store is an argument, and so are the
-- environment and the files, the clock, and whether the library of Firebase makes a client.
use delivery_api.Base.{
  ℕ, ◌≡◌, ◌≢◌, ◌↔◌, refl, sym, ap, inl, inr, Bool, Bool-cases, true, Option, none, some, List, [],
  ◌∷◌, Str, codes, map, if◌then◌else◌, is_empty, str_eq, str_eq_iff, any_of, any_of-Mem, Mem-any_of,
  All, Lacks, trim_space, subst,
}
use mathlib.Core.List.{Mem}
use delivery_api.Db.{Database, Store}
use delivery_api.Smtp.Dkim.{Crypto, Signer, has_loadable_key, load_dkim_keys}
use delivery_api.Queue.{Worker, new}
use delivery_api.Queue.Recovery.{start}
use delivery_api.Hub.{Hub, new_hub}
use delivery_api.Push.{WebPush}
use delivery_api.Push.Drivers.{new_fcm}
use delivery_api.Config.{load, load_env_file, join}
use delivery_api.Config.Secrets.{guards_of}
use delivery_api.Config.Origins.{load-allowed_origins}
use delivery_api.Handlers.Access.{Env, Gate}
use delivery_api.Main.{Site, Call, serve}

-- What main is given.
pub record World : Type 0 where
  pub getenv : Str → Str
  pub read : Str → Option Str
  pub queue_made_at : ℕ
  pub queue_started_at : ℕ
  pub make_client : Str → Bool
  pub access : Env

module _ (db : Database) (crypto : Crypto) where
  -- `cloudflare` is the token of the client, and `hostname` the name that the sender greets with.
  pub record Program : Type 0 where
    pub signer : Signer crypto
    pub hostname : Str
    pub worker : Worker db
    pub hub : Hub
    pub web_push : WebPush
    pub has_fcm : Bool
    pub cloudflare : Option Str
    pub site : Site

  -- main
  pub main : World → Store db → Program
  main w store =
      let cfg = load w.getenv w.read in
      let getenv = load_env_file (w.read (codes ".env")) w.getenv in
      record {
        signer = load_dkim_keys crypto (db.domains.find (has_loadable_key crypto) store.domains) [];
        hostname = cfg.hostname;
        worker =
            start db w.queue_started_at
              (record { store = store; queue = new cfg.warmup_max_per_hour w.queue_made_at });
        hub = new_hub;
        web_push = record {
          public_key = cfg.vapid_public_key;
          private_key = cfg.vapid_private_key;
          subject = cfg.vapid_subject;
        };
        has_fcm = new_fcm w.make_client cfg.fcm_credentials_json;
        cloudflare = if is_empty cfg.cloudflare_token then none else some cfg.cloudflare_token;
        site = record {
          env = record (w.access) { cfg = some (guards_of cfg) };
          allowed_origins = cfg.allowed_origins;
          service_key = cfg.service_api_key;
          secret = getenv (codes "INTERNAL_SHARED_SECRET");
        };
      }

module _ (db : Database) where
  any_of-str_eq_iff : (s : Str) (l : List Str) → (any_of (str_eq s) l ≡ true) ↔ Mem s l
  any_of-str_eq_iff s l = (
    λ h.
        (let (t, m, e) = Mem-any_of (str_eq s) l h in
          subst (λ x. Mem x l) (sym ((str_eq_iff s t).0 e)) m),
    λ m. any_of-Mem (str_eq s) s l m ((str_eq_iff s s).1 refl),
  )

  serve-allow_origin :
      (site : Site) (call : Call) (g : Gate db)
      → let origin = call.request.header (codes "Origin") in
        (serve db site call g).1.allow_origin
        ≡ (if any_of (str_eq origin) site.allowed_origins then some origin else none)
  unfolding serve
  serve-allow_origin site call g = elim (Bool-cases (str_eq call.method (codes "OPTIONS"))) [
    | inl e ↦ rw (serve, e) refl
    | inr e ↦ rw (serve, e) refl
  ]

  -- The header that allows an origin has the request's origin, and only if it is listed.
  serve-allow_origin_iff :
      (site : Site) (call : Call) (g : Gate db) (o : Str)
      → ((serve db site call g).1.allow_origin ≡ some o)
        ↔ ((call.request.header (codes "Origin") ≡ o) × Mem o site.allowed_origins)
  serve-allow_origin_iff site call g o =
      let origin = call.request.header (codes "Origin") in
      let (to, from) = any_of-str_eq_iff origin site.allowed_origins in
      rw (serve-allow_origin site call g)
        (elim (Bool-cases (any_of (str_eq origin) site.allowed_origins)) [
          | inl listed ↦ rw listed (
            λ e.
                (let same : call.request.header (codes "Origin") ≡ o = cc in
                  (same, subst (λ x. Mem x site.allowed_origins) same (to listed))),
            λ h. ap some h.0,
          )
          | inr not_listed ↦ rw not_listed (
            λ e. cc,
            λ h. (let yes = from (subst (λ x. Mem x site.allowed_origins) (sym h.0) h.1) in cc),
          )
        ])

  -- When ALLOWED_ORIGINS, as the environment or the file of variables gives it, is not empty and
  -- lists texts that hold no comma, with commas between them, the program answers a request, whatever
  -- it is, with the header that allows an origin exactly if this is the request's own origin and one
  -- of the texts without the white space around it.
  pub serve-main_origins :
      (crypto : Crypto) (w : World) (store : Store db) (part : Str) (parts : List Str)
      → let getenv = load_env_file (w.read (codes ".env")) w.getenv in
        All (Lacks b',') (part ∷ parts)
        → getenv (codes "ALLOWED_ORIGINS") ≡ join (codes ",") (part ∷ parts)
        → getenv (codes "ALLOWED_ORIGINS") ≢ []
        → (call : Call) (g : Gate db) (o : Str)
        → ((serve db (main db crypto w store).site call g).1.allow_origin ≡ some o)
          ↔ ((call.request.header (codes "Origin") ≡ o) × Mem o (map trim_space (part ∷ parts)))
  unfolding main
  serve-main_origins crypto w store part parts h listed set call g o =
      subst
        (λ l.
          ((serve db (main db crypto w store).site call g).1.allow_origin ≡ some o)
          ↔ ((call.request.header (codes "Origin") ≡ o) × Mem o l))
        (load-allowed_origins w.getenv w.read part parts h listed set)
        (serve-allow_origin_iff (main db crypto w store).site call g o)
