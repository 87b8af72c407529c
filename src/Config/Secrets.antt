-- ===== src/Config/Secrets.antt =====
-- The two secrets that requests between services carry.
use delivery_api.Base.{
  ◌≡◌, ◌≢◌, Option, none, sym, ◌∙◌, refl, arith, false, some, [], Str, codes, is_empty,
  is_empty_iff,
}
use delivery_api.Handlers.Access.{
  Request, admin_auth, gateway_user_id, require_internal_secret, secret_equals,
}
use delivery_api.Handlers.Access
use delivery_api.Db.{Database}
use delivery_api.Handlers.Access.Vouchers.{
  gateway_user_id_sent, require_internal_secret_sent, admin_auth_unset,
}
use delivery_api.Config.{Config, env, internal_shared_secret, load_from}

internal_shared_secret_legacy :
    (getenv : Str → Str)
    → getenv (codes "INTERNAL_SHARED_SECRET") ≡ []
    → getenv (codes "SERVICE_API_KEY") ≢ []
    → internal_shared_secret getenv ≡ getenv (codes "SERVICE_API_KEY")
unfolding internal_shared_secret env
internal_shared_secret_legacy getenv unset set =
    let named : is_empty (getenv (codes "SERVICE_API_KEY")) ≡ false =
      ground (arith, is_empty_iff (getenv (codes "SERVICE_API_KEY"))) in
    rw (unset, named) refl

-- The part of the configuration that the guards read.
abbrev pub guards_of : Config → Access.Config
guards_of c = record {
  internal_shared_secret = c.internal_shared_secret;
  accounts_url = c.accounts_url;
}

-- Where INTERNAL_SHARED_SECRET is unset and SERVICE_API_KEY is set, a request with this key as its
-- secret is taken for the gateway's user, and passes where an internal caller is asked for; but no
-- request passes AdminAuth.
pub load_from-gateway_user_id :
    (db : Database) (getenv : Str → Str) (read : Str → Option Str) (req : Request)
    → getenv (codes "INTERNAL_SHARED_SECRET") ≡ []
    → getenv (codes "SERVICE_API_KEY") ≢ []
    → req.header (codes "X-Internal-Secret") ≡ getenv (codes "SERVICE_API_KEY")
    → let cfg = some (guards_of (load_from getenv read)) in
      (gateway_user_id cfg req ≡ req.header (codes "X-Auth-User-ID"))
      × (require_internal_secret db cfg req ≡ none)
      × ((other : Request) → admin_auth (getenv (codes "INTERNAL_SHARED_SECRET")) other ≡ false)
unfolding load_from
load_from-gateway_user_id db getenv read req unset set sent =
    let cfg = guards_of (load_from getenv read) in
    let same = internal_shared_secret_legacy getenv unset set in
    let set' : cfg.internal_shared_secret ≢ [] = λ e. set (sym same ∙ e) in
    (
      gateway_user_id_sent cfg req set' (sent ∙ sym same),
      require_internal_secret_sent cfg req set' (sent ∙ sym same) db,
      λ other. rw unset (admin_auth_unset other),
    )
