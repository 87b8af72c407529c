-- ===== src/Db.antt =====
-- The tables behind database.DB (internal/database). The mapper and the server are no code of
-- the repository: a table is a parameter, with what the code relies on as its laws. A call may
-- fail; where the code ignores the error, the result is what the variable then holds.

use mathlib.Core.List.{Perm}
use delivery_api.Base.{
  ℕ, ◌<◌, ◌≡◌, ◌⊎◌, Bool, List, [], ◌∷◌, ◌++◌, Option, none, some, All, select, reject, find_where,
  count_where, update_where, find_where_sound, window, IsNewestFirst, arith, true,
}
use delivery_api.Models.{
  Generated, Model, message_model, event_model, domain_model, key_model, suppression_model,
  notification_model, subscription_model, device_model,
}

pub record Table {Row : Type 0} (model : Model Row) : Type 1 where
  -- A table's content and whatever decides whether the next call succeeds.
  pub State : Type 0
  -- The rows in the order of the primary key.
  pub rows : State → List Row
  -- Where(...).First: the error is `none`.
  pub first : (Row → Bool) → State → Option Row
  -- Where(...).Count: the error is `none`.
  pub count : (Row → Bool) → State → Option ℕ
  -- Where(...).Find: on an error no row is read.
  pub find : (Row → Bool) → State → List Row
  -- Where(...).Order("created_at desc").Offset(...).Limit(...).Find: on an error no row is read. An
  -- offset of 0 is none.
  pub page : (Row → Bool) → ℕ → Option ℕ → State → List Row
  -- Create: the row comes back with its generated columns; the error is `none`.
  pub create : Row → State → State × Option Row
  -- Where(...).Updates, with RowsAffected.
  pub update : (Row → Bool) → (Row → Row) → State → State × ℕ
  -- Where(...).Delete, with RowsAffected; the error is `none`.
  pub delete : (Row → Bool) → State → State × Option ℕ
  pub first_law :
      (p : Row → Bool) (s : State) → (first p s ≡ none) ⊎ (first p s ≡ find_where p (rows s))
  pub count_law :
      (p : Row → Bool) (s : State)
      → (count p s ≡ none) ⊎ (count p s ≡ some (count_where p (rows s)))
  pub find_law :
      (p : Row → Bool) (s : State) → (find p s ≡ []) ⊎ Perm (find p s) (select p (rows s))
  pub page_law :
      (p : Row → Bool) (offset : ℕ) (limit : Option ℕ) (s : State)
      → (page p offset limit s ≡ [])
        ⊎ ((order : List Row) × Perm order (select p (rows s))
            × IsNewestFirst model.created_at order
            × (page p offset limit s ≡ window offset limit order))
  pub create_law :
      (r : Row) (s : State)
      → (((create r s).1 ≡ none) × (rows (create r s).0 ≡ rows s))
        ⊎ ((g : Generated) × ((create r s).1 ≡ some (model.fill g r))
            × (rows (create r s).0 ≡ rows s ++ model.fill g r ∷ [])
            × All (λ old. model.id old < g.id) (rows s))
  pub update_law :
      (p : Row → Bool) (f : Row → Row) (s : State)
      → (((update p f s).1 ≡ 0) × (rows (update p f s).0 ≡ rows s))
        ⊎ (((update p f s).1 ≡ count_where p (rows s))
            × (rows (update p f s).0 ≡ update_where p f (rows s)))
  pub delete_law :
      (p : Row → Bool) (s : State)
      → (((delete p s).1 ≡ none) × (rows (delete p s).0 ≡ rows s))
        ⊎ (((delete p s).1 ≡ some (count_where p (rows s)))
            × (rows (delete p s).0 ≡ reject p (rows s)))

module _ {Row : Type 0} {model : Model Row} (t : Table model) where
  -- A row that First returns meets the query.
  pub first_sound : (p : Row → Bool) (s : t.State) (r : Row) → t.first p s ≡ some r → p r ≡ true
  first_sound p s r h = find_where_sound p (t.rows s) {a = r} (ground (arith, t.first_law p s))

  -- A count that did not fail is the number of the rows that meet the query.
  pub count_sound :
      (p : Row → Bool) (s : t.State) (n : ℕ) → t.count p s ≡ some n → n ≡ count_where p (t.rows s)
  count_sound p s n h = ground (arith, t.count_law p s)

-- A table none of whose calls fails.
pub record IsLive {Row : Type 0} {model : Model Row} (t : Table model) : Type 0 where
  pub first_live : (p : Row → Bool) (s : t.State) → t.first p s ≡ find_where p (t.rows s)
  pub count_live : (p : Row → Bool) (s : t.State) → t.count p s ≡ some (count_where p (t.rows s))
  pub find_live : (p : Row → Bool) (s : t.State) → Perm (t.find p s) (select p (t.rows s))
  pub page_live :
      (p : Row → Bool) (offset : ℕ) (limit : Option ℕ) (s : t.State)
      → (order : List Row) × Perm order (select p (t.rows s))
        × IsNewestFirst model.created_at order
        × (t.page p offset limit s ≡ window offset limit order)
  pub create_live :
      (r : Row) (s : t.State)
      → (g : Generated) × ((t.create r s).1 ≡ some (model.fill g r))
        × (t.rows (t.create r s).0 ≡ t.rows s ++ model.fill g r ∷ [])
        × All (λ old. model.id old < g.id) (t.rows s)
  pub update_live :
      (p : Row → Bool) (f : Row → Row) (s : t.State)
      → ((t.update p f s).1 ≡ count_where p (t.rows s))
        × (t.rows (t.update p f s).0 ≡ update_where p f (t.rows s))
  pub delete_live :
      (p : Row → Bool) (s : t.State)
      → ((t.delete p s).1 ≡ some (count_where p (t.rows s)))
        × (t.rows (t.delete p s).0 ≡ reject p (t.rows s))

pub record Database : Type 1 where
  pub messages : Table message_model
  pub events : Table event_model
  pub domains : Table domain_model
  pub keys : Table key_model
  pub suppressions : Table suppression_model
  pub notifications : Table notification_model
  pub subscriptions : Table subscription_model
  pub devices : Table device_model

-- The state of every table.
pub record Store (db : Database) : Type 0 where
  pub messages : db.messages.State
  pub events : db.events.State
  pub domains : db.domains.State
  pub keys : db.keys.State
  pub suppressions : db.suppressions.State
  pub notifications : db.notifications.State
