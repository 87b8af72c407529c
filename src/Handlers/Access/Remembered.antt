-- ===== src/Handlers/Access/Remembered.antt =====
-- What the cache of the identity tokens remembers, over any sequence of validations.
use delivery_api.Base.{
  ℕ, ◌+◌, ◌≤◌, ◌≡◌, ◌⊎◌, refl, sym, subst, inl, inr, some, List, [], ◌∷◌, ◌++◌, Str, codes,
  is_empty, Bool-cases, Option-cases, ◌==◌, find_where_sound, find_where-All, All, All-reject,
  All-weaken, str_eq_iff, trim_right_by,
}
use delivery_api.Handlers.Access.Vouchers.{
  IsResolved, remembered, answered, IsAnswer, validate_cat_token-IsAnswer,
}
use delivery_api.Handlers.Access.{
  Env, CatTokenCache, CatTokenEntry, cat_token_cache_ttl, keyed, lookup, store, resolved,
  validate_cat_token,
}

abbrev pub Validations : Type 0
Validations = List (Env × Str)

-- The cache after validations, the latest first.
abbrev pub cache_after : Validations → CatTokenCache
cache_after [] = []
cache_after (v ∷ h) = (validate_cat_token v.0 v.1 (cache_after h)).0

-- One of the validations was of the token, had the user from the accounts service, and stored the
-- answer no more than the time of the cache before `now`.
pub data IsConfirmed (token uid : Str) (now : ℕ) : Validations → Type 0 where
  here :
      (env : Env) (url : Str) {h : Validations}
      → resolved (env.get url token) ≡ some uid
      → now ≤ env.stored_at + cat_token_cache_ttl
      → IsConfirmed token uid now ((env, token) ∷ h)
  there :
      (v : Env × Str) {h : Validations}
      → IsConfirmed token uid now h
      → IsConfirmed token uid now (v ∷ h)

abbrev IsBacked : Validations → Str × CatTokenEntry → Type 0
IsBacked h e = (now : ℕ) → now ≤ e.1.expires → IsConfirmed e.0 e.1.user_id now h

-- A validation leaves the cache, or stores what the accounts service has just answered.
validate_cat_token-cache :
    (env : Env) (token : Str) (cache : CatTokenCache)
    → ((validate_cat_token env token cache).0 ≡ cache)
      ⊎ ((url uid : Str) × (resolved (env.get url token) ≡ some uid)
          × ((validate_cat_token env token cache).0 ≡ store env.stored_at token uid cache))
unfolding validate_cat_token
validate_cat_token-cache env token cache = elim (Option-cases env.cfg) [
  | inl e ↦ inl (rw (validate_cat_token, e) refl)
  | inr (cfg, e) ↦ elim (Bool-cases (is_empty cfg.accounts_url)) [
    | inl off ↦ inl (rw (validate_cat_token, e, off) refl)
    | inr on ↦ elim (Option-cases (lookup env.now token cache)) [
      | inr (uid, hit) ↦ inl (rw (validate_cat_token, e, on, hit) refl)
      | inl miss ↦
          let url = trim_right_by (λ c. c == b'/') cfg.accounts_url ++ codes "/api/accounts/me" in
          elim (Option-cases (resolved (env.get url token))) [
            | inl silent ↦ inl (rw (validate_cat_token, e, on, miss, silent) refl)
            | inr (uid, named) ↦
                inr (url, uid, named, rw (validate_cat_token, e, on, miss, named) refl)
          ]
    ]
  ]
]

cache_after-IsBacked : (h : Validations) → All (IsBacked h) (cache_after h)
unfolding store
cache_after-IsBacked [] = tt
cache_after-IsBacked ((env, token) ∷ h) =
    let old =
      All-weaken (IsBacked h) (IsBacked ((env, token) ∷ h))
        (λ e b now before. there (env, token) (b now before)) (cache_after h)
        (cache_after-IsBacked h) in
    elim (validate_cat_token-cache env token (cache_after h)) [
      | inl same ↦ subst (All (IsBacked ((env, token) ∷ h))) (sym same) old
      | inr (url, uid, named, stored) ↦
          subst (All (IsBacked ((env, token) ∷ h))) (sym stored)
            (λ now before. here env url named before, All-reject _ _ (cache_after h) old)
    ]

-- A token is accepted for a user only if the accounts service names the user now, or has named the
-- user for that token in an earlier validation at most sixty seconds ago.
pub validate_cat_token-IsConfirmed :
    (h : Validations) (env : Env) (token uid : Str)
    → (validate_cat_token env token (cache_after h)).1 ≡ some uid
    → ((url : Str) × (resolved (env.get url token) ≡ some uid)) ⊎ IsConfirmed token uid env.now h
validate_cat_token-IsConfirmed h env token uid accepted =
    let answer = validate_cat_token-IsAnswer env token (cache_after h) in
    from_answer (subst (IsAnswer env.now env.get (cache_after h) token) accepted answer)
  where
    from_answer :
        IsResolved env.now env.get (cache_after h) token uid
        → ((url : Str) × (resolved (env.get url token) ≡ some uid))
          ⊎ IsConfirmed token uid env.now h
    from_answer (answered url named) = inl (url, named)
    from_answer (remembered e found valid same) =
        let backed =
          find_where-All (IsBacked h) (keyed token) (cache_after h) e found
            (cache_after-IsBacked h) in
        let its = (str_eq_iff e.0 token).0 (find_where_sound (keyed token) (cache_after h) found) in
        inr (rw (sym its, same) (backed env.now valid))
