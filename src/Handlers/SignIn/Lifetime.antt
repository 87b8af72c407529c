-- ===== src/Handlers/SignIn/Lifetime.antt =====
-- From the callback to the log-out: for whom the session of a browser speaks.
use delivery_api.Base.{
  ℕ, ◌+◌, ◌≡◌, refl, inl, inr, arith, false, none, some, List, [], ◌∷◌, Str, is_empty, Bool-cases,
  ltb, find_where, str_eq_refl, reject, if◌then◌else◌, str_eq,
}
use delivery_api.Handlers.Access.{SessionData, Request, keyed, get_session, get_session_user_id}
use delivery_api.Handlers.SignIn.{
  OauthConfig, Accounts, SignedIn, is_stale, named, identify, conclude, session_ttl, auth_callback,
  auth_logout, new_session,
}

find_where-reject :
    (token : Str) (xs : List (Str × SessionData))
    → find_where (keyed token) (reject (keyed token) xs) ≡ none
find_where-reject token [] = refl
find_where-reject token (x ∷ xs) = elim (Bool-cases (str_eq x.0 token)) [
  | inl gone ↦ rw gone (find_where-reject token xs)
  | inr kept ↦ rw (kept, kept) (find_where-reject token xs)
]

module _ (cfg : OauthConfig) (accounts : Accounts) (code state token : Str) (now at : ℕ)
    (st : SignedIn) where
  abbrev pub signed : SignedIn
  signed = (auth_callback cfg accounts code state token now at st).0

  signed-sessions :
      (id name email : Str)
      → is_empty code ≡ false
      → is_stale now (st.states state) ≡ false
      → identify cfg accounts code ≡ named id name email
      → signed.sessions ≡ (token, new_session id name email at) ∷ reject (keyed token) st.sessions
  unfolding auth_callback conclude
  signed-sessions id name email full fresh who = rw (signed, auth_callback, full, fresh, who) refl

  -- When a callback has a code, a state that is stored and not past, and a user whom the accounts
  -- service names, a request with the new session's cookie acts for that user for thirty days and
  -- for no one later; once logged out, for no one.
  pub get_session_user_id-auth_callback :
      (id name email : Str) (req : Request) (later : ℕ)
      → is_empty code ≡ false
      → is_stale now (st.states state) ≡ false
      → identify cfg accounts code ≡ named id name email
      → req.cookie ≡ some token
      → (get_session_user_id later signed.sessions req
          ≡ (if ltb (at + session_ttl) later then [] else id))
        × (get_session_user_id later (auth_logout cfg req.cookie signed).0.sessions req ≡ [])
  unfolding get_session_user_id get_session auth_logout
  get_session_user_id-auth_callback id name email req later full fresh who cookie =
      let opened = signed-sessions id name email full fresh who in
      (
        rw (get_session_user_id, get_session, cookie, opened, str_eq_refl token) (ground arith),
        rw
            (
              cookie,
              auth_logout,
              get_session_user_id,
              get_session,
              cookie,
              find_where-reject token signed.sessions,
            )
            refl,
      )
