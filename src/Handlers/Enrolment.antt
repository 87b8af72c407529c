-- ===== src/Handlers/Enrolment.antt =====
-- API keys and enrolment: internal/handlers/keys.go and enroll.go, with GenerateAPIKey of
-- internal/models/api_key.go. The random text of a key, its hash and the clock are arguments.
pub mod Tenants
pub mod Lifetime
pub mod Tests
use delivery_api.Base.{
  ℕ, Bool, true, false, Option, none, some, get_or, [], ◌++◌, Str, codes, ltb, if◌then◌else◌,
  is_empty, str_eq, take,
}
use delivery_api.Models.{ApiKey}
use delivery_api.Db.{Database}
use delivery_api.Handlers.Reply.{Reply, reply, error}

pub record NewKey : Type 0 where
  pub plaintext : Str
  pub hash : Str
  pub prefix : Str

unfoldable pub generate_api_key : (Str → Str) → Str → NewKey
generate_api_key hash random =
    let plaintext = codes "cd_live_" ++ random in
    record { plaintext = plaintext; hash = hash plaintext; prefix = take 16 plaintext }

-- The row of a new key; a time of 0 is unset.
abbrev pub key_row : Str → Str → ℕ → NewKey → ApiKey
key_row user name at new = record {
  id = 0;
  user_id = user;
  name = name;
  key_hash = new.hash;
  key_prefix = new.prefix;
  domain_id = none;
  scopes = codes "send";
  last_used_at = none;
  expires_at = none;
  created_at = at;
}

abbrev pub of_user : Str → ApiKey → Bool
of_user user k = str_eq k.user_id user

module _ (db : Database) where
  -- CreateAPIKey: the name of the body, if it can be decoded; the answer has the row's id and name,
  -- and the key.
  pub create_api_key :
      (Str → Str) → Str → Option Str → Str → db.keys.State → db.keys.State × Reply (ℕ × Str × Str)
  unfolding generate_api_key
  create_api_key hash random name user keys =
      let asked = get_or name [] in
      let new = generate_api_key hash random in
      let r = db.keys.create (key_row user asked 0 new) keys in
      if is_empty asked then (keys, error 400 (codes "name is required")) else (
        r.0,
        elim r.1 [
          | none ↦ error 500 (codes "failed to create key")
          | some key ↦ reply 201 (key.id, key.name, new.plaintext)
        ],
      )

  -- EnrollDelivery: `none` when the user has keys. A count that fails counts as 0.
  pub enroll_delivery :
      (Str → Str) → Str → ℕ → Str → db.keys.State → db.keys.State × Reply (Option Str)
  unfolding generate_api_key
  enroll_delivery hash random now user keys =
      let new = generate_api_key hash random in
      let r = db.keys.create (key_row user (codes "Default") now new) keys in
      if is_empty user
      then (keys, error 401 (codes "authentication required"))
      else if ltb 0 (get_or (db.keys.count (of_user user) keys) 0)
      then (keys, reply 200 none)
      else (
        r.0,
        elim r.1 [
          | none ↦ error 500 (codes "failed to create key")
          | some key ↦ reply 201 (some new.plaintext)
        ],
      )

  -- UnenrollDelivery: the answer is whether the service is enabled.
  pub unenroll_delivery : Str → db.keys.State → db.keys.State × Reply Bool
  unenroll_delivery user keys =
      let r = db.keys.delete (of_user user) keys in
      if is_empty user then (keys, error 401 (codes "authentication required")) else (
        r.0,
        elim r.1 [ none ↦ error 500 (codes "failed to revoke keys") | some n ↦ reply 200 false ],
      )
