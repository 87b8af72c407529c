-- ===== src/Listed.antt =====
-- Tables held as lists, which meet the laws of Db: they show that its hypotheses can hold.
use Prim.Native.Nat.{max}
use mathlib.Core.List.Perm
use mathlib.Core.List.{Perm}
use delivery_api.Base.{
  ℕ, suc, ◌≡◌, leb, if◌then◌else◌, true, Bool-cases, inl, All-weaken, window, IsNewestFirst, ◌≤◌,
  ◌<◌, refl, inr, List, [], ◌∷◌, ◌++◌, some, arith, All, select, reject, find_where, count_where,
  update_where,
}
use delivery_api.Models.{
  Generated, Model, message_model, event_model, domain_model, key_model, suppression_model,
  notification_model, subscription_model, device_model,
}
use delivery_api.Db.{Table, IsLive, Database}

module _ {Row : Type 0} (model : Model Row) where
  largest : List Row → ℕ
  largest [] = 0
  largest (r ∷ rs) = max (model.id r) (largest rs)

  largest-above : (n : ℕ) (rs : List Row) → largest rs ≤ n → All (λ r. model.id r < suc n) rs
  unfolding largest
  largest-above n [] h = tt
  largest-above n (r ∷ rs) h = (omega arith, largest-above n rs (omega arith))

  -- The next number of the key's sequence; the clock stands still.
  unfoldable pub next : List Row → Generated
  unfolding largest
  next rs = record { id = suc (largest rs); created_at = 0 }

  pub next-above : (rs : List Row) → All (λ r. model.id r < (next rs).id) rs
  unfolding next
  next-above rs = largest-above (largest rs) rs (omega arith)

  -- The rows by their creation time, the latest first.
  abbrev pub put_newest : Row → List Row → List Row
  put_newest r [] = r ∷ []
  put_newest r (x ∷ xs) =
      let rest = put_newest r xs in
      if leb (model.created_at x) (model.created_at r) then r ∷ x ∷ xs else x ∷ rest

  abbrev pub newest : List Row → List Row
  newest [] = []
  newest (r ∷ rs) = put_newest r (newest rs)

  put_newest-Perm : (r : Row) (xs : List Row) → Perm (put_newest r xs) (r ∷ xs)
  put_newest-Perm r [] = Perm.refl (r ∷ [])
  put_newest-Perm r (x ∷ xs) = elim (Bool-cases (leb (model.created_at x) (model.created_at r))) [
    | inl first ↦ rw first (Perm.refl (r ∷ x ∷ xs))
    | inr later ↦ rw later (Perm.trans (Perm.cons x (put_newest-Perm r xs)) (Perm.swap r x xs))
  ]

  pub newest-Perm : (rs : List Row) → Perm (newest rs) rs
  newest-Perm [] = Perm.refl []
  newest-Perm (r ∷ rs) = Perm.trans (put_newest-Perm r (newest rs)) (Perm.cons r (newest-Perm rs))

  put_newest-All :
      (t : ℕ) (r : Row) (xs : List Row)
      → model.created_at r ≤ t
      → All (λ y. model.created_at y ≤ t) xs
      → All (λ y. model.created_at y ≤ t) (put_newest r xs)
  put_newest-All t r [] h _ = (h, tt)
  put_newest-All t r (x ∷ xs) h (hx, hs) =
      elim (Bool-cases (leb (model.created_at x) (model.created_at r))) [
        | inl first ↦ rw first (h, (hx, hs))
        | inr later ↦ rw later (hx, put_newest-All t r xs h hs)
      ]

  put_newest-IsNewestFirst :
      (r : Row) (xs : List Row)
      → IsNewestFirst model.created_at xs
      → IsNewestFirst model.created_at (put_newest r xs)
  put_newest-IsNewestFirst r [] _ = (tt, tt)
  put_newest-IsNewestFirst r (x ∷ xs) (below, sorted) =
      elim (Bool-cases (leb (model.created_at x) (model.created_at r))) [
        | inl first ↦ rw first (
          (
            ground arith,
            All-weaken _ _
                (λ y le.
                  omega (arith, le, first_le (model.created_at x) (model.created_at r) first))
                xs below,
          ),
          (below, sorted),
        )
        | inr later ↦ rw later (
          put_newest-All (model.created_at x) r xs (ground arith) below,
          put_newest-IsNewestFirst r xs sorted,
        )
      ]
    where
      first_le : (a b : ℕ) → leb a b ≡ true → a ≤ b
      first_le a b h = ground arith

  pub newest-IsNewestFirst : (rs : List Row) → IsNewestFirst model.created_at (newest rs)
  newest-IsNewestFirst [] = tt
  newest-IsNewestFirst (r ∷ rs) = put_newest-IsNewestFirst r (newest rs) (newest-IsNewestFirst rs)

  abbrev pub list_table : Table model
  list_table = record {
    State = List Row;
    rows = λ rs. rs;
    first = find_where;
    count = λ p rs. some (count_where p rs);
    find = select;
    page = λ p offset limit rs. window offset limit (newest (select p rs));
    create = λ r rs. (rs ++ model.fill (next rs) r ∷ [], some (model.fill (next rs) r));
    update = λ p f rs. (update_where p f rs, count_where p rs);
    delete = λ p rs. (reject p rs, some (count_where p rs));
    first_law = λ p s. inr refl;
    count_law = λ p s. inr refl;
    find_law = λ p s. inr (Perm.refl (select p s));
    page_law = λ p offset limit rs.
        inr (
          newest (select p rs),
          newest-Perm (select p rs),
          newest-IsNewestFirst (select p rs),
          refl,
        );
    create_law = λ r s. inr (next s, refl, refl, next-above s);
    update_law = λ p f s. inr (refl, refl);
    delete_law = λ p s. inr (refl, refl);
  }

  pub list_table-IsLive : IsLive list_table
  list_table-IsLive = record {
    first_live = λ p s. refl;
    count_live = λ p s. refl;
    find_live = λ p s. Perm.refl (select p s);
    page_live = λ p offset limit rs.
        (newest (select p rs), newest-Perm (select p rs), newest-IsNewestFirst (select p rs), refl);
    create_live = λ r s. (next s, refl, refl, next-above s);
    update_live = λ p f s. (refl, refl);
    delete_live = λ p s. (refl, refl);
  }

abbrev pub list_db : Database
list_db = record {
  messages = list_table message_model;
  events = list_table event_model;
  domains = list_table domain_model;
  keys = list_table key_model;
  suppressions = list_table suppression_model;
  notifications = list_table notification_model;
  subscriptions = list_table subscription_model;
  devices = list_table device_model;
}
