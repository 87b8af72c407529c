-- ===== src/Handlers/Listing/Windows.antt =====
-- What a page of an operator's list holds.
use delivery_api.Base.{
  ℕ, zero, suc, ◌≤◌, ◌≡◌, refl, ◌∙◌, inl, inr, arith, Bool, true, false, not, Option, none, some,
  List, [], ◌∷◌, Str, Bool-cases, ltb, All, any_of, any_of-Perm, select, take, drop, length,
  length-take-le, window, IsNewestFirst,
}
use delivery_api.Models.{Model, Message, message_model}
use delivery_api.Db.{Table, Database}
use delivery_api.Handlers.Listing.{
  Page, page_of, limit_of, offset_of, is_listed, admin_list_messages,
}

module _ {ℓ} {A : Type ℓ} where
  none-select : (p : A → Bool) (xs : List A) → any_of (λ x. not (p x)) (select p xs) ≡ false
  none-select p [] = refl
  none-select p (x ∷ xs) = elim (Bool-cases (p x)) [
    | inl hit ↦ rw (hit, hit) (none-select p xs)
    | inr miss ↦ rw miss (none-select p xs)
  ]

  All-none :
      (p : A → Bool) (xs : List A) → any_of (λ x. not (p x)) xs ≡ false → All (λ x. p x ≡ true) xs
  All-none p [] h = tt
  All-none p (x ∷ xs) h = (ground arith, All-none p xs (ground arith))

module _ {ℓ κ} {A : Type ℓ} (P : A → Type κ) where
  All-take : (n : ℕ) (xs : List A) → All P xs → All P (take n xs)
  All-take zero xs h = tt
  All-take (suc n) [] h = tt
  All-take (suc n) (x ∷ xs) (hx, h) = (hx, All-take n xs h)

  All-drop : (n : ℕ) (xs : List A) → All P xs → All P (drop n xs)
  All-drop zero xs h = h
  All-drop (suc n) [] h = tt
  All-drop (suc n) (x ∷ xs) (hx, h) = All-drop n xs h

  All-window :
      (offset : ℕ) (limit : Option ℕ) (xs : List A) → All P xs → All P (window offset limit xs)
  All-window offset none xs h = All-drop offset xs h
  All-window offset (some limit) xs h = All-take limit (drop offset xs) (All-drop offset xs h)

module _ {ℓ} {A : Type ℓ} (key : A → ℕ) where
  IsNewestFirst-take : (n : ℕ) (xs : List A) → IsNewestFirst key xs → IsNewestFirst key (take n xs)
  IsNewestFirst-take zero xs h = tt
  IsNewestFirst-take (suc n) [] h = tt
  IsNewestFirst-take (suc n) (x ∷ xs) (below, h) =
      (All-take (λ y. key y ≤ key x) n xs below, IsNewestFirst-take n xs h)

  IsNewestFirst-drop : (n : ℕ) (xs : List A) → IsNewestFirst key xs → IsNewestFirst key (drop n xs)
  IsNewestFirst-drop zero xs h = h
  IsNewestFirst-drop (suc n) [] h = tt
  IsNewestFirst-drop (suc n) (x ∷ xs) (below, h) = IsNewestFirst-drop n xs h

  IsNewestFirst-window :
      (offset : ℕ) (limit : Option ℕ) (xs : List A)
      → IsNewestFirst key xs
      → IsNewestFirst key (window offset limit xs)
  IsNewestFirst-window offset none xs h = IsNewestFirst-drop offset xs h
  IsNewestFirst-window offset (some limit) xs h =
      IsNewestFirst-take limit (drop offset xs) (IsNewestFirst-drop offset xs h)

module _ {Row : Type 0} {model : Model Row} (t : Table model) (p : Row → Bool) (offset : ℕ) where
  -- The rows of a page meet its query.
  pub page-All : (limit : Option ℕ) (s : t.State) → All (λ r. p r ≡ true) (t.page p offset limit s)
  page-All limit s = elim (t.page_law p offset limit s) [
    | inl e ↦ rw e tt
    | inr (order, same, sorted, e) ↦ rw e (
        All-window (λ r. p r ≡ true) offset limit order
          (All-none p order (any_of-Perm (λ r. not (p r)) same ∙ none-select p (t.rows s))))
  ]

  pub page-IsNewestFirst :
      (limit : Option ℕ) (s : t.State) → IsNewestFirst model.created_at (t.page p offset limit s)
  page-IsNewestFirst limit s = elim (t.page_law p offset limit s) [
    | inl e ↦ rw e tt
    | inr (order, same, sorted, e) ↦
        rw e (IsNewestFirst-window model.created_at offset limit order sorted)
  ]

  pub length-page : (limit : ℕ) (s : t.State) → length (t.page p offset (some limit) s) ≤ limit
  length-page limit s = elim (t.page_law p offset (some limit) s) [
    | inl e ↦ rw e (omega arith)
    | inr (order, same, sorted, e) ↦ rw e (length-take-le limit (drop offset order))
  ]

module _ (db : Database) (like : Str → Str → Bool) (status search : Str) (page limit : ℕ)
    (s : db.messages.State) where
  abbrev answer : Page Message
  answer = admin_list_messages db like status search page limit s

  limit_of-le : (1 ≤ limit_of limit) × (limit_of limit ≤ 200)
  limit_of-le = elim (Bool-cases (ltb limit 1)) [
    | inl low ↦ rw low (omega arith, omega arith)
    | inr fine ↦ elim (Bool-cases (ltb 200 limit)) [
      | inl high ↦ rw (fine, high) (omega arith, omega arith)
      | inr low ↦ rw (fine, low) (ground arith, ground arith)
    ]
  ]

  -- Whatever numbers the query has, a page of messages is numbered from 1, asks for 1 to 200 rows
  -- and has no more, all of which meet the filters, the newest first.
  pub admin_list_messages-bounds :
      let r = admin_list_messages db like status search page limit s in
      (1 ≤ r.page)
      × (1 ≤ r.limit)
      × (r.limit ≤ 200)
      × (length r.rows ≤ r.limit)
      × All (λ m. is_listed like status search m ≡ true) r.rows
      × IsNewestFirst message_model.created_at r.rows
  unfolding admin_list_messages
  admin_list_messages-bounds =
      let p = is_listed like status search in
      let l = limit_of limit in
      let o = offset_of (page_of page) l in
      (
        ground arith,
        limit_of-le.0,
        limit_of-le.1,
        length-page db.messages p o l s,
        page-All db.messages p o (some l) s,
        page-IsNewestFirst db.messages p o (some l) s,
      )
