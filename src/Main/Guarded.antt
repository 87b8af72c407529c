-- ===== src/Main/Guarded.antt =====
-- Which requests reach a handler.
use delivery_api.Base.{
  ◌≡◌, ◌≢◌, refl, sym, ◌∙◌, ap, inl, inr, arith, Bool, true, false, ◌&&◌, not, subst, Option-cases,
  Bool-cases, [], ◌∷◌, ◌++◌, Str, codes, is_empty, is_empty_iff, str_eq, all_of,
}
use delivery_api.Db.{Database}
use delivery_api.Handlers.Access.{
  Request, Caller, Admission, admitted, refused, Gate, with_auth_or_query_token, with_query_token,
  admin_auth, service_auth,
}
use delivery_api.Handlers.Access.Vouchers.{
  IsVouched, IsJustified, with_auth-IsJustified, admin_auth_sound, service_auth_sound,
}
use delivery_api.Main.Mux.{match_request}
use delivery_api.Main.Mux.Search.{match_request-kept}
use delivery_api.Main.{
  Handler, Guard, unguarded, by_auth, by_query_token, by_service, by_admin, Route, routes, Site,
  Call, ran, run_if, root, guarded, serve_mux, serve,
}

-- Who may use a handler, by its name.
pub data Access : Type 0 where
  everyone users sockets services operators : Access

abbrev pub access : Handler → Access
access Handler.health = everyone
access Handler.login_redirect = everyone
access Handler.auth_callback = everyone
access Handler.auth_me = everyone
access Handler.auth_logout = everyone
access Handler.internal_tenant_status = everyone
access Handler.service_notify = everyone
access Handler.vapid_public_key = everyone
access Handler.ws_stream_notifications = sockets
access Handler.service_send = services
access Handler.admin_stats = operators
access Handler.admin_list_messages = operators
access Handler.admin_list_domains = operators
access Handler.admin_get_domain = operators
access Handler.admin_get_domain_dns = operators
access Handler.admin_get_domain_messages = operators
access Handler.admin_verify_domain = operators
access Handler.admin_list_keys = operators
access Handler.admin_list_tenants = operators
access Handler.admin_list_notifications = operators
access Handler.admin_notification_stats = operators
access Handler.admin_send_test_notification = operators
access _ = users

module _ (db : Database) where
  -- What a handler of each kind is given.
  abbrev pub IsAllowed : Site → Request → Gate db → Access → Caller → Type 0
  IsAllowed site req g everyone c = Unit
  IsAllowed site req g users c = IsVouched db site.env req g c
  IsAllowed site req g sockets c = IsVouched db site.env (with_query_token db req) g c
  IsAllowed site req g services c =
      (site.service_key ≢ [])
      × (req.header (codes "Authorization") ≡ codes "Bearer " ++ site.service_key)
  IsAllowed site req g operators c =
      (site.secret ≢ []) × (req.header (codes "X-Internal-Secret") ≡ site.secret)

abbrev granted : Guard → Access
granted unguarded = everyone
granted by_auth = users
granted by_query_token = sockets
granted by_service = services
granted by_admin = operators

-- The guard is the one that the handler needs, and the services' needs a key.
abbrev agrees : Guard → Access → Bool
agrees unguarded everyone = true
agrees by_auth users = true
agrees by_query_token sockets = true
agrees by_service services = true
agrees by_admin operators = true
agrees _ _ = false

agrees_sound : (gd : Guard) (a : Access) → agrees gd a ≡ true → a ≡ granted gd
agrees_sound unguarded everyone h = refl
agrees_sound unguarded _ h = cc
agrees_sound by_auth users h = refl
agrees_sound by_auth _ h = cc
agrees_sound by_query_token sockets h = refl
agrees_sound by_query_token _ h = cc
agrees_sound by_service services h = refl
agrees_sound by_service _ h = cc
agrees_sound by_admin operators h = refl
agrees_sound by_admin _ h = cc

abbrev needs_key : Guard → Bool
needs_key by_service = true
needs_key _ = false

abbrev is_kept : Str → Route → Bool
is_kept key r = agrees r.guard (access r.handler) && not (needs_key r.guard && is_empty key)

routes-kept : (key : Str) → all_of (is_kept key) (routes key) ≡ true
unfolding routes
routes-kept [] = refl
routes-kept (c ∷ key) = refl

run_if-IsJustified :
    (db : Database) (site : Site) (req : Request) (g : Gate db) (a : Admission) (h h' : Handler)
    (c : Caller)
    → IsJustified db site.env req g a
    → run_if h a ≡ ran h' c
    → (h ≡ h') × IsVouched db site.env req g c
run_if-IsJustified db site req g (refused status text) h h' c just same = cc
run_if-IsJustified db site req g (admitted d) h h' c just same =
    (cc, subst (IsVouched db site.env req g) (cc) just)

guarded-IsAllowed :
    (db : Database) (site : Site) (req : Request) (gd : Guard) (h h' : Handler) (g : Gate db)
    (c : Caller)
    → (needs_key gd && is_empty site.service_key) ≡ false
    → (guarded db site req gd h g).1 ≡ ran h' c
    → (h ≡ h') × IsAllowed db site req g (granted gd) c
unfolding guarded with_auth_or_query_token
guarded-IsAllowed db site req unguarded h h' g c key same = (cc, tt)
guarded-IsAllowed db site req by_auth h h' g c key same =
    run_if-IsJustified db site req g _ h h' c (with_auth-IsJustified db site.env req g) same
guarded-IsAllowed db site req by_query_token h h' g c key same =
    let req' = with_query_token db req in
    run_if-IsJustified db site req' g _ h h' c (with_auth-IsJustified db site.env req' g) same
guarded-IsAllowed db site req by_service h h' g c key same =
    let named : site.service_key ≢ [] =
      λ e. absurd (ground (arith, is_empty_iff site.service_key)) in
    elim (Bool-cases (service_auth site.service_key req)) [
      | inl ok ↦ (ground arith, (named, service_auth_sound site.service_key req ok))
      | inr bad ↦ absurd (ground arith)
    ]
guarded-IsAllowed db site req by_admin h h' g c key same =
    elim (Bool-cases (admin_auth site.secret req)) [
      | inl ok ↦ (ground arith, admin_auth_sound site.secret req ok)
      | inr bad ↦ absurd (ground arith)
    ]

root-ne-ran : (call : Call) (h : Handler) (c : Caller) → root call ≢ ran h c
root-ne-ran call h c same = ground arith

serve_mux-IsAllowed :
    (db : Database) (site : Site) (call : Call) (g : Gate db) (h : Handler) (c : Caller)
    → (serve_mux db site call g).1 ≡ ran h c
    → IsAllowed db site call.request g (access h) c
unfolding serve_mux
serve_mux-IsAllowed db site call g h c same =
    let find =
      match_request (λ (r : Route). r.pattern) call.method call.path (routes site.service_key) in
    elim (Option-cases find) [
      | inl nothing ↦ absurd (root-ne-ran call h c (rw (nothing, serve_mux) at same))
      | inr (r, found) ↦
          let kept : is_kept site.service_key r ≡ true =
            match_request-kept (is_kept site.service_key) (λ r. r.pattern) call.method call.path
              (routes site.service_key) r (routes-kept site.service_key) found in
          let (named, allowed) =
            guarded-IsAllowed db site call.request r.guard r.handler h g c (ground arith)
              (rw (found, serve_mux) at same) in
          let right : access h ≡ granted r.guard =
            ap access (sym named) ∙ agrees_sound r.guard (access r.handler) (ground arith) in
          subst (λ a. IsAllowed db site call.request g a c) (sym right) allowed
    ]

-- A handler runs only behind the guard that it needs. An operators' handler runs only for requests
-- with the secret, which is not empty; ServiceSend only for those with the services' key, which is
-- not empty; a user's handler only for a caller whom the gateway, a session, an API key or the
-- accounts service vouches for, and the web socket's for one whom the token of the query may vouch
-- for.
pub serve-IsAllowed :
    (db : Database) (site : Site) (call : Call) (g : Gate db) (h : Handler) (c : Caller)
    → (serve db site call g).1.outcome ≡ ran h c
    → IsAllowed db site call.request g (access h) c
unfolding serve serve_mux
serve-IsAllowed db site call g h c same = elim (Bool-cases (str_eq call.method (codes "OPTIONS"))) [
  | inl preflight ↦ let e = rw preflight at same in cc
  | inr other ↦ serve_mux-IsAllowed db site call g h c (ground arith)
]
