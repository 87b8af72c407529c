-- ===== src/Handlers/Enrolment/Tenants.antt =====
-- What the gateway is told of a tenant who enrols and leaves.
use delivery_api.Base.{
  ℕ, ◌<◌, ◌≡◌, refl, inl, inr, arith, true, false, Option, none, [], ◌∷◌, Str, is_empty, Bool-cases,
  ltb, codes, str_eq_refl, count_where, count_where-append, count_where-reject,
}
use delivery_api.Models.{key_model}
use delivery_api.Db.{Database, IsLive}
use delivery_api.Handlers.Reply.{reply}
use delivery_api.Handlers.Access.{Config, Request, require_internal_secret, internal_tenant_status}
use delivery_api.Handlers.Enrolment.{
  of_user, key_row, generate_api_key, enroll_delivery, unenroll_delivery,
}

module _ (db : Database) (live : IsLive db.keys) (user : Str) (named : is_empty user ≡ false) where
  abbrev keys_of : db.keys.State → ℕ
  keys_of keys = count_where (of_user user) (db.keys.rows keys)

  enroll_delivery-count :
      (hash : Str → Str) (random : Str) (now : ℕ) (keys : db.keys.State)
      → 0 < keys_of (enroll_delivery db hash random now user keys).0
  unfolding enroll_delivery
  enroll_delivery-count hash random now keys =
      let new = generate_api_key hash random in
      let row = key_row user (codes "Default") now new in
      elim (Bool-cases (ltb 0 (keys_of keys))) [
        | inl some_key ↦
            rw (enroll_delivery, named, live.count_live (of_user user) keys, some_key)
              (ground arith)
        | inr no_key ↦
            let (g, made, rows, fresh) = live.create_live row keys in
            rw
              (
                enroll_delivery,
                named,
                live.count_live (of_user user) keys,
                no_key,
                rows,
                count_where-append (of_user user) (db.keys.rows keys) (key_model.fill g row ∷ []),
                str_eq_refl user,
              )
              (omega arith)
      ]

  tenant_status-count :
      (cfg : Option Config) (req : Request) (keys : db.keys.State)
      → require_internal_secret db cfg req ≡ none
      → internal_tenant_status db cfg req user keys ≡ reply 200 (ltb 0 (keys_of keys))
  unfolding internal_tenant_status
  tenant_status-count cfg req keys open_gate =
      rw (internal_tenant_status, open_gate, named, live.count_live (of_user user) keys) refl

  -- In a table of keys none of whose calls fails, the status of a user who enrols is enabled, and
  -- that of a user who unenrols is not, whatever keys the user had.
  pub internal_tenant_status-enroll_delivery :
      (cfg : Option Config) (req : Request)
      → require_internal_secret db cfg req ≡ none
      → (hash : Str → Str) (random : Str) (now : ℕ) (keys : db.keys.State)
      → (internal_tenant_status db cfg req user (enroll_delivery db hash random now user keys).0
          ≡ reply 200 true)
        × (internal_tenant_status db cfg req user (unenroll_delivery db user keys).0
            ≡ reply 200 false)
  unfolding unenroll_delivery
  internal_tenant_status-enroll_delivery cfg req open_gate hash random now keys =
      let (_, left) = live.delete_live (of_user user) keys in
      (
        rw (tenant_status-count cfg req (enroll_delivery db hash random now user keys).0 open_gate)
            (ground (arith, enroll_delivery-count hash random now keys)),
        rw
            (
              unenroll_delivery,
              named,
              tenant_status-count cfg req (db.keys.delete (of_user user) keys).0 open_gate,
              left,
              count_where-reject (of_user user) (db.keys.rows keys),
            )
            refl,
      )

  -- In a table of keys none of whose calls fails, a second enrolment changes nothing and says so.
  pub enroll_delivery_again :
      (hash : Str → Str) (random more : Str) (now later : ℕ) (keys : db.keys.State)
      → let after = (enroll_delivery db hash random now user keys).0 in
        enroll_delivery db hash more later user after ≡ (after, reply 200 none)
  unfolding enroll_delivery
  enroll_delivery_again hash random more now later keys =
      let after = (enroll_delivery db hash random now user keys).0 in
      let has : ltb 0 (keys_of after) ≡ true =
        ground (arith, enroll_delivery-count hash random now keys) in
      enrolled after has
    where
      enrolled :
          (after : db.keys.State)
          → ltb 0 (keys_of after) ≡ true
          → enroll_delivery db hash more later user after ≡ (after, reply 200 none)
      enrolled after has =
          rw (enroll_delivery, named, live.count_live (of_user user) after, has) refl
