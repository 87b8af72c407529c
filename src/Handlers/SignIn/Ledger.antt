-- ===== src/Handlers/SignIn/Ledger.antt =====
-- Two maps that are never swept, as the specification of the sign-in.
use delivery_api.Base.{
  ℕ, ◌+◌, ◌≤◌, ◌<◌, ◌≡◌, ◌⊎◌, refl, sym, ◌∙◌, ap, inl, inr, arith, true, Option, none, some, List,
  [], ◌∷◌, Str, if◌then◌else◌, is_empty, str_eq, str_eq_iff, Bool-cases, Option-cases, ltb,
  find_where, reject, codes,
}
use delivery_api.Handlers.Access.{SessionData, keyed}
use delivery_api.Handlers.SignIn.{
  OauthConfig, Accounts, Answer, redirected, shown, SignedIn, put, swept, state_ttl, is_stale,
  Identity, unnamed, named, identify, login_url, Call, welcomed, failed_with, cleared, new_session,
}

-- When each state that was ever sent out and not used becomes stale, and the session of each token.
pub record Ledger : Type 0 where
  pub states : Str → Option ℕ
  pub sessions : Str → Option SessionData

abbrev pub user_of : SessionData → Str × Str × Str
user_of s = (s.user_id, s.name, s.email)

abbrev pub show_session : ℕ → Option SessionData → Answer
show_session now none = shown none
show_session now (some s) = if ltb s.expires_at now then shown none else shown (some (user_of s))

module _ (cfg : OauthConfig) (accounts : Accounts) where
  abbrev pub record_named :
      Str → ℕ → Identity → (Str → Option SessionData) → (Str → Option SessionData) × Answer
  record_named token at (unnamed word) m = (m, failed_with cfg word)
  record_named token at (named id name email) m =
      (put token (some (new_session id name email at)) m, welcomed cfg token)

  -- What each call promises.
  abbrev pub promise : Call → Ledger → Ledger × Answer
  promise (Call.login state at now) l = (
    record { states = put state (some (at + state_ttl)) l.states; sessions = l.sessions },
    redirected (login_url cfg accounts state) none,
  )
  promise (Call.callback code state token now at) l =
      if is_empty code
      then (l, failed_with cfg (codes "missing_code"))
      else if is_stale now (l.states state)
      then (
        record { states = put state none l.states; sessions = l.sessions },
        failed_with cfg (codes "invalid_state"),
      )
      else (let r = record_named token at (identify cfg accounts code) l.sessions in
          (record { states = put state none l.states; sessions = r.0 }, r.1))
  promise (Call.me now req) l =
      (l, elim req.cookie [ none ↦ shown none | some v ↦ show_session now (l.sessions v) ])
  promise (Call.logout none) l = (l, redirected cfg.app_url (some cleared))
  promise (Call.logout (some token)) l = (
    record { states = l.states; sessions = put token none l.sessions },
    redirected cfg.app_url (some cleared),
  )

  abbrev pub promise_all : List Call → Ledger → List Answer
  promise_all [] l = []
  promise_all (c ∷ cs) l = let r = promise c l in r.1 ∷ promise_all cs r.0

-- The clock of the calls never goes back.
abbrev pub IsTimed : ℕ → List Call → Type 0
IsTimed t [] = Unit
IsTimed t (Call.login state at now ∷ cs) = (t ≤ at) × (at ≤ now) × IsTimed now cs
IsTimed t (Call.callback code state token now at ∷ cs) = (t ≤ now) × (now ≤ at) × IsTimed at cs
IsTimed t (Call.me now req ∷ cs) = (t ≤ now) × IsTimed now cs
IsTimed t (Call.logout cookie ∷ cs) = IsTimed t cs

-- The expiry that is kept, and the one that is promised: a swept one is past.
abbrev pub Agrees : ℕ → Option ℕ → Option ℕ → Type 0
Agrees t kept said = (kept ≡ said) ⊎ ((exp : ℕ) × (kept ≡ none) × (said ≡ some exp) × (exp < t))

abbrev pub session_at : Str → List (Str × SessionData) → Option SessionData
session_at key [] = none
session_at key (x ∷ xs) = let rest = session_at key xs in if str_eq x.0 key then some x.1 else rest

pub record Matches (t : ℕ) (st : SignedIn) (l : Ledger) : Type 0 where
  pub states : (k : Str) → Agrees t (st.states k) (l.states k)
  pub sessions : (k : Str) → session_at k st.sessions ≡ l.sessions k

pub Agrees-later : (t now : ℕ) (a b : Option ℕ) → t ≤ now → Agrees t a b → Agrees now a b
Agrees-later t now a b h (inl e) = inl e
Agrees-later t now a b h (inr (exp, k, s, past)) = inr (exp, k, s, omega arith)

pub Agrees-put :
    (t : ℕ) (key : Str) (v : Option ℕ) (m l : Str → Option ℕ)
    → ((k : Str) → Agrees t (m k) (l k))
    → (k : Str) → Agrees t (put key v m k) (put key v l k)
Agrees-put t key v m l h k = elim (Bool-cases (str_eq key k)) [
  | inl same ↦ rw same (inl refl)
  | inr other ↦ rw other (h k)
]

pub Agrees-swept :
    (t now : ℕ) (m : Str → Option ℕ) (said : Option ℕ) (k : Str)
    → t ≤ now
    → Agrees t (m k) said
    → Agrees now (swept now m k) said
Agrees-swept t now m said k h (inr (exp, gone, s, past)) =
    inr (exp, rw (swept, gone) refl, s, omega arith)
Agrees-swept t now m said k h (inl e) = elim (Option-cases (m k)) [
  | inl gone ↦ inl (rw (swept, gone) (sym gone ∙ e))
  | inr (exp, found) ↦ elim (Bool-cases (ltb exp now)) [
    | inl past ↦ inr (exp, rw (swept, found, past) refl, sym e ∙ found, ground arith)
    | inr ahead ↦ inl (rw (swept, found, ahead) (sym found ∙ e))
  ]
]

pub is_stale-Agrees :
    (t now : ℕ) (a b : Option ℕ) → t ≤ now → Agrees t a b → is_stale now a ≡ is_stale now b
is_stale-Agrees t now a b h (inl e) = ap (is_stale now) e
is_stale-Agrees t now a b h (inr (exp, gone, s, past)) = rw (gone, s) (ground arith)

str_eq_subst : (a b c : Str) → str_eq a b ≡ true → str_eq a c ≡ str_eq b c
str_eq_subst a b c h = ap (λ x. str_eq x c) ((str_eq_iff a b).0 h)

pub session_at-reject :
    (token : Str) (xs : List (Str × SessionData)) (k : Str)
    → session_at k (reject (keyed token) xs) ≡ put token none (λ k. session_at k xs) k
session_at-reject token [] k = ground arith
session_at-reject token ((name, s) ∷ xs) k = elim (Bool-cases (str_eq name token)) [
  | inl gone ↦
      rw (gone, session_at-reject token xs k, str_eq_subst name token k gone) (ground arith)
  | inr kept ↦ elim (Bool-cases (str_eq name k)) [
    | inr miss ↦ rw (kept, miss) (session_at-reject token xs k)
    | inl hit ↦ elim (Bool-cases (str_eq token k)) [
      | inr other ↦ rw (kept, hit, other) refl
      | inl same ↦
          absurd (ground (arith, str_eq_iff name k, str_eq_iff token k, str_eq_iff name token))
    ]
  ]
]

pub session_at-set :
    (token : Str) (s : SessionData) (xs : List (Str × SessionData)) (k : Str)
    → session_at k ((token, s) ∷ reject (keyed token) xs)
      ≡ put token (some s) (λ k. session_at k xs) k
session_at-set token s xs k = elim (Bool-cases (str_eq token k)) [
  | inl same ↦ rw same refl
  | inr other ↦ rw other (session_at-reject token xs k ∙ rw other refl)
]

pub session_at-find_where :
    (k : Str) (xs : List (Str × SessionData))
    → session_at k xs ≡ elim (find_where (keyed k) xs) [ none ↦ none | some e ↦ some e.1 ]
session_at-find_where k [] = refl
session_at-find_where k (x ∷ xs) = ground (arith, session_at-find_where k xs)
