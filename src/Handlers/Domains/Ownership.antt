-- ===== src/Handlers/Domains/Ownership.antt =====
-- Which rows CreateDomain and DeleteDomain touch, whatever calls of the database fail.
use delivery_api.Base.{
  ℕ, ◌≡◌, refl, ◌⊎◌, inl, inr, Option, none, some, Option-cases, Bool-cases, [], ◌∷◌, ◌++◌, Str,
  arith, is_empty, get_or, ltb, reject, str_eq_iff, codes,
}
use delivery_api.Models.{SendingDomain, pending}
use delivery_api.Db.{Database, first_sound}
use delivery_api.Handlers.Domains.{
  Env, DomainView, Answer, shown, deleted, failed, owned, numbered, named, new_domain, normal,
  create_domain, delete_domain,
}

module _ (db : Database) where
  -- What CreateDomain does to the rows.
  pub data IsCreated (user : Str) (body : Option Str) (s : db.domains.State)
      : db.domains.State × Answer → Type 0 where
    rejected :
        (s' : db.domains.State) (code : ℕ) (text : Str)
        → db.domains.rows s' ≡ db.domains.rows s
        → IsCreated user body s (s', failed code text)
    created :
        (s' : db.domains.State) (name : Str) (v : DomainView)
        → body ≡ some name
        → db.domains.rows s' ≡ db.domains.rows s ++ v.domain ∷ []
        → v.domain.user_id ≡ user
        → v.domain.domain ≡ normal name
        → v.domain.status ≡ pending
        → get_or (db.domains.count (named db (normal name)) s) 0 ≡ 0
        → IsCreated user body s (s', shown 201 v)

  -- CreateDomain answers an error and leaves the rows, or adds one pending row of the caller, for
  -- the name without blanks and in lower case, when the count of its rows read as 0.
  pub create_domain-IsCreated :
      (env : Env) (user : Str) (body : Option Str) (s : db.domains.State)
      → IsCreated user body s (create_domain db env user body s)
  unfolding create_domain new_domain
  create_domain-IsCreated env user none s = rejected s 400 _ refl
  create_domain-IsCreated env user (some name) s = elim (Bool-cases (is_empty name)) [
    | inl e ↦ rw (create_domain, e) (rejected s 400 _ refl)
    | inr given ↦
        let count = get_or (db.domains.count (named db (normal name)) s) 0 in
        elim (Bool-cases (ltb 0 count)) [
          | inl taken ↦ rw (create_domain, given, taken) (rejected s 409 _ refl)
          | inr free ↦ elim (Option-cases env.generate) [
            | inl e ↦ rw (create_domain, given, free, e) (rejected s 500 _ refl)
            | inr (keys, e) ↦
                elim (db.domains.create_law (new_domain env user (normal name) keys) s) [
                  | inl (broken, same) ↦
                      rw (create_domain, given, free, e, broken) (rejected _ 500 _ same)
                  | inr (g, made, rows, _) ↦
                      rw (create_domain, given, free, e, made)
                        (created _ name _ refl rows refl refl refl (ground arith))
                ]
          ]
        ]
  ]

  -- DeleteDomain answers "not found" and changes nothing, or the row of the given number that it
  -- read is the caller's; then it removes the rows of that number, or none if the deletion fails.
  pub delete_domain-owned :
      (id : ℕ) (user : Str) (s : db.domains.State)
      → (delete_domain db id user s ≡ (s, failed 404 (codes "domain not found")))
        ⊎ ((d : SendingDomain) × (d.id ≡ id)
            × (d.user_id ≡ user)
            × ((delete_domain db id user s).1 ≡ deleted d.domain)
            × ((db.domains.rows (delete_domain db id user s).0 ≡ db.domains.rows s)
                ⊎ (db.domains.rows (delete_domain db id user s).0
                    ≡ reject (numbered db id) (db.domains.rows s))))
  unfolding delete_domain
  delete_domain-owned id user s = elim (Option-cases (db.domains.first (owned db id user) s)) [
    | inl e ↦ inl (rw (delete_domain, e) refl)
    | inr (d, e) ↦
        let match_ = first_sound db.domains (owned db id user) s d e in
        let number : d.id ≡ id = ground arith in
        inr (
          d,
          number,
          ground (arith, str_eq_iff d.user_id user),
          rw (delete_domain, e) refl,
          rw (delete_domain, e, ← number)
              (elim (db.domains.delete_law (numbered db d.id) s) [
                | inl (_, same) ↦ inl same
                | inr (_, gone) ↦ inr gone
              ]),
        )
  ]
