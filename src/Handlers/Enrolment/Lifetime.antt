-- ===== src/Handlers/Enrolment/Lifetime.antt =====
-- A key from its creation to the day its user leaves.
use delivery_api.Base.{
  ℕ, ◌≡◌, refl, ◌∙◌, ap, true, false, none, some, [], ◌∷◌, ◌++◌, Str, codes, is_empty, str_eq,
  str_eq_refl, find_where, find_where-append, find_where-reject, reject, reject-append, append-nil,
  has_prefix, trim_prefix,
}
use delivery_api.Models.{ApiKey, key_model, Generated}
use delivery_api.Db.{Database, IsLive}
use delivery_api.Handlers.Reply.{reply}
use delivery_api.Handlers.Access.{
  Request, Env, Gate, admitted, refused, as_key, api_key_auth, bearer, authorization, key_hashed,
}
use delivery_api.Handlers.Enrolment.{
  of_user, key_row, NewKey, generate_api_key, create_api_key, unenroll_delivery,
}

module _ (db : Database) (live : IsLive db.keys) (env : Env) (random name user : Str)
    (asked : is_empty name ≡ false) (named : is_empty user ≡ false) (keys : db.keys.State)
    (fresh : find_where (key_hashed db (generate_api_key env.hash random).hash) (db.keys.rows keys)
      ≡ none) where
  abbrev made_key : NewKey
  made_key = generate_api_key env.hash random

  abbrev pub created : db.keys.State
  created = (create_api_key db env.hash random (some name) user keys).0

  created-rows :
      (g : Generated) × ((create_api_key db env.hash random (some name) user keys).1
        ≡ reply 201 (g.id, name, made_key.plaintext))
      × (db.keys.rows (create_api_key db env.hash random (some name) user keys).0
          ≡ db.keys.rows keys ++ key_model.fill g (key_row user name 0 made_key) ∷ [])
  unfolding create_api_key
  created-rows =
      let (g, made, rows, above) = live.create_live (key_row user name 0 made_key) keys in
      (g, rw (create_api_key, asked, made) refl, rw (create_api_key, asked, rows) refl)

  shows-bearer :
      (req : Request)
      → authorization req ≡ codes "Bearer " ++ made_key.plaintext
      → bearer req ≡ made_key.plaintext
  unfolding bearer trim_prefix has_prefix
  shows-bearer req shown = rw (bearer, shown) refl

  shows-prefix :
      (req : Request)
      → authorization req ≡ codes "Bearer " ++ made_key.plaintext
      → has_prefix (authorization req) (codes "Bearer ") ≡ true
  unfolding has_prefix
  shows-prefix req shown = rw shown refl

  find_created :
      (g : Generated)
      → find_where
          (key_hashed db made_key.hash)
          (db.keys.rows keys ++ key_model.fill g (key_row user name 0 made_key) ∷ [])
        ≡ some (key_model.fill g (key_row user name 0 made_key))
  find_created g =
      rw
        (
          find_where-append (key_hashed db made_key.hash) (db.keys.rows keys)
              (key_model.fill g (key_row user name 0 made_key) ∷ []) fresh,
          str_eq_refl made_key.hash,
        )
        refl

  -- A key that is stored is admitted when it is shown.
  admitted-key :
      (req : Request) (g : Gate db) (k : ApiKey)
      → authorization req ≡ codes "Bearer " ++ made_key.plaintext
      → find_where (key_hashed db made_key.hash) (db.keys.rows g.keys) ≡ some k
      → k.expires_at ≡ none
      → (api_key_auth db env req g).1 ≡ admitted (as_key k)
  unfolding api_key_auth str_eq generate_api_key
  admitted-key req g k shown found unlimited =
      let hit = live.first_live (key_hashed db made_key.hash) g.keys ∙ found in
      rw (api_key_auth, shows-prefix req shown, shows-bearer req shown, hit, unlimited) refl

  refused-key :
      (req : Request) (g : Gate db)
      → authorization req ≡ codes "Bearer " ++ made_key.plaintext
      → find_where (key_hashed db made_key.hash) (db.keys.rows g.keys) ≡ none
      → (api_key_auth db env req g).1 ≡ refused 401 (codes "invalid api key")
  unfolding api_key_auth str_eq generate_api_key
  refused-key req g shown gone =
      let miss = live.first_live (key_hashed db made_key.hash) g.keys ∙ gone in
      rw (api_key_auth, shows-prefix req shown, shows-bearer req shown, miss) refl

  after_unenroll :
      find_where (key_hashed db made_key.hash) (db.keys.rows (unenroll_delivery db user created).0)
      ≡ none
  unfolding unenroll_delivery
  after_unenroll =
      let (g, made, rows) = created-rows in
      let k = key_model.fill g (key_row user name 0 made_key) in
      let (_, left) = live.delete_live (of_user user) created in
      rw
        (
          unenroll_delivery,
          named,
          left,
          rows,
          reject-append (of_user user) (db.keys.rows keys) (k ∷ []),
          str_eq_refl user,
          append-nil (reject (of_user user) (db.keys.rows keys)),
        )
        (find_where-reject (key_hashed db made_key.hash) (of_user user) (db.keys.rows keys) fresh)

  -- In a table of keys none of whose calls fails and that has no row with the new key's hash, a
  -- request that shows a created key acts for its user with the id of the answer, and is refused
  -- once the user has unenrolled.
  pub api_key_auth-create_api_key :
      (req : Request) (g : Gate db)
      → authorization req ≡ codes "Bearer " ++ (generate_api_key env.hash random).plaintext
      → ((id : ℕ) × ((create_api_key db env.hash random (some name) user keys).1
            ≡ reply 201 (id, name, (generate_api_key env.hash random).plaintext))
          × ((api_key_auth db env req (record g { keys = created })).1
              ≡ admitted (record { session_user = []; key_user = user; key_id = id })))
        × ((api_key_auth db env req (record g { keys = (unenroll_delivery db user created).0 })).1
            ≡ refused 401 (codes "invalid api key"))
  api_key_auth-create_api_key req g shown =
      let (made, answer, rows) = created-rows in
      (
        (
          made.id,
          answer,
          admitted-key req (record g { keys = created })
              (key_model.fill made (key_row user name 0 made_key)) shown
              (ap (find_where (key_hashed db made_key.hash)) rows ∙ find_created made) refl,
        ),
        refused-key req (record g { keys = (unenroll_delivery db user created).0 }) shown
            after_unenroll,
      )
