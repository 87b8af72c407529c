-- ===== src/Handlers/SignIn/Once.antt =====
-- How often a state of the redirect signs a browser in.
use delivery_api.Base.{
  ℕ, ◌+◌, ◌≤◌, ◌≡◌, refl, inl, inr, arith, Bool, true, false, ◌&&◌, Option, none, some, is_some,
  List, [], ◌∷◌, Str, if◌then◌else◌, is_empty, str_eq, str_eq_iff, sym, ap, Bool-cases,
  Option-cases,
}
use delivery_api.Handlers.SignIn.{
  OauthConfig, Accounts, Answer, redirected, SignedIn, put, swept, state_ttl, is_stale, identify,
  conclude, login_redirect, auth_callback, auth_logout, Call, serve, set,
}

-- The answer brings a session.
abbrev pub is_welcome : Answer → Bool
is_welcome (redirected url (some (set token secure age))) = true
is_welcome _ = false

-- The logins that send the state out, and the callbacks with it that bring a session.
abbrev pub issues : Str → Call → Bool
issues state (Call.login s at now) = str_eq s state
issues state _ = false

abbrev pub uses : Str → Call → Bool
uses state (Call.callback code s token now at) = str_eq s state
uses state _ = false

abbrev pub one_if : Bool → ℕ
one_if b = if b then 1 else 0

abbrev pub issued : Str → List Call → ℕ
issued state [] = 0
issued state (c ∷ cs) = one_if (issues state c) + issued state cs

module _ (cfg : OauthConfig) (accounts : Accounts) where
  abbrev pub welcomes : Str → List Call → SignedIn → ℕ
  welcomes state [] st = 0
  welcomes state (c ∷ cs) st =
      let r = serve cfg accounts c st in
      one_if (uses state c && is_welcome r.1) + welcomes state cs r.0

  abbrev held : Str → SignedIn → ℕ
  held state st = one_if (is_some (st.states state))

  swept-held :
      (now : ℕ) (m : Str → Option ℕ) (state : Str)
      → one_if (is_some (swept now m state)) ≤ one_if (is_some (m state))
  swept-held now m state = ground arith

  put-held :
      (key state : Str) (exp : ℕ) (m : Str → Option ℕ)
      → one_if (is_some (put key (some exp) m state))
        ≤ one_if (str_eq key state) + one_if (is_some (m state))
  put-held key state exp m = elim (Bool-cases (str_eq key state)) [
    | inl same ↦ rw (same) (omega arith)
    | inr other ↦ rw (other) (omega arith)
  ]

  cleared-held :
      (key state : Str) (m : Str → Option ℕ)
      → one_if (is_some (put key none m state)) ≤ one_if (is_some (m state))
  cleared-held key state m = elim (Bool-cases (str_eq key state)) [
    | inl same ↦ rw (same) (omega arith)
    | inr other ↦ rw (other) (omega arith)
  ]

  -- A callback that finds its state unexpired takes it away.
  spent-held :
      (b : Bool) (key state : Str) (now : ℕ) (m : Str → Option ℕ)
      → is_stale now (m key) ≡ false
      → one_if (str_eq key state && b) + one_if (is_some (put key none m state))
        ≤ one_if (is_some (m state))
  spent-held b key state now m fresh = elim (Bool-cases (str_eq key state)) [
    | inr other ↦ rw (other) (omega arith)
    | inl same ↦
        let e = (str_eq_iff key state).0 same in
        elim (Option-cases (m key)) [
          | inl gone ↦ absurd (ground arith)
          | inr (exp, found) ↦ elim (Bool-cases b) [
            | inl on ↦ rw (same, on, sym (ap m e), found) (omega arith)
            | inr off ↦ rw (same, off) (omega arith)
          ]
        ]
  ]

  &&_no : (b : Bool) → one_if (b && false) ≡ 0
  &&_no true = refl
  &&_no false = refl

  callback-held :
      (state : Str) (code s token : Str) (now at : ℕ) (st : SignedIn)
      → let r = auth_callback cfg accounts code s token now at st in
        one_if (str_eq s state && is_welcome r.1) + held state r.0 ≤ held state st
  unfolding auth_callback
  callback-held state code s token now at st = elim (Bool-cases (is_empty code)) [
    | inl bare ↦ rw (auth_callback, bare) (omega (arith, &&_no (str_eq s state)))
    | inr full ↦ elim (Bool-cases (is_stale now (st.states s))) [
      | inl stale ↦
          rw (auth_callback, full, stale)
            (omega (arith, &&_no (str_eq s state), cleared-held s state st.states))
      | inr fresh ↦
          rw (auth_callback, full, fresh)
            (let r = conclude cfg token at (identify cfg accounts code) st.sessions in
              spent-held (is_welcome r.1) s state now st.states fresh)
    ]
  ]

  serve-held :
      (state : Str) (c : Call) (st : SignedIn)
      → one_if (uses state c && is_welcome (serve cfg accounts c st).1)
          + held state (serve cfg accounts c st).0
        ≤ one_if (issues state c) + held state st
  unfolding serve login_redirect auth_logout
  serve-held state (Call.login s at now) st =
      let m = put s (some (at + state_ttl)) st.states in
      omega (arith, swept-held now m state, put-held s state (at + state_ttl) st.states)
  serve-held state (Call.callback code s token now at) st =
      omega (arith, callback-held state code s token now at st)
  serve-held state (Call.me now req) st = omega arith
  serve-held state (Call.logout none) st = omega arith
  serve-held state (Call.logout (some token)) st = omega arith

  welcomes-held :
      (state : Str) (cs : List Call) (st : SignedIn)
      → welcomes state cs st ≤ issued state cs + held state st
  welcomes-held state [] st = omega arith
  welcomes-held state (c ∷ cs) st =
      omega (arith, serve-held state c st, welcomes-held state cs (serve cfg accounts c st).0)

  -- From a start without that state, no more callbacks with a state bring a session than logins have
  -- sent the state out, whatever the calls and their order.
  pub welcomes-issued :
      (state : Str) (cs : List Call) (st : SignedIn)
      → st.states state ≡ none
      → welcomes state cs st ≤ issued state cs
  welcomes-issued state cs st h =
      let start : held state st ≡ 0 = rw h refl in omega (arith, welcomes-held state cs st)
