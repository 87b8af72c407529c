-- ===== src/Base/Queries.antt =====
-- What updates, deletions and insertions do to queries by Boolean tests.
use Prim.Native.Nat.{ℕ, zero, suc, ◌+◌, ◌≤◌}
use mathlib.Core.Path.{◌≡◌, refl, ap, ◌∙◌}
use mathlib.Core.Logic.{inl, inr}
use mathlib.Core.Option
use mathlib.Core.Bool.{Bool, true, false, ◌&&◌}
use mathlib.Core.List.{List, [], ◌∷◌, ◌++◌}
use mathlib.Core.Option.{Option, none, some}
use native.Mathlib.Omega.{arith}
use delivery_api.Base.Tests.{Bool-cases}
use delivery_api.Base.Lists.{length, take, select, reject, find_where, count_where, update_where}

-- What an update by a key does to a search by a key.
module _ {ℓ} {A : Type ℓ} where
  pub find_where_sound :
      (p : A → Bool) (xs : List A) {a : A} → find_where p xs ≡ some a → p a ≡ true
  find_where_sound p [] h = cc
  find_where_sound p (x ∷ xs) {a} h = ground (arith, find_where_sound p xs {a = a})

  pub find_where-update_where :
      (p : A → Bool) (f : A → A)
      → ((a : A) → p (f a) ≡ p a)
      → (xs : List A) → find_where p (update_where p f xs) ≡ Option.map f (find_where p xs)
  find_where-update_where p f same [] = refl
  find_where-update_where p f same (x ∷ xs) = elim (Bool-cases (p x)) [
    | inl e ↦ rw (e, same x ∙ e)
    | inr e ↦ rw (e, e) (find_where-update_where p f same xs)
  ]

  pub find_where-update_other :
      (p q : A → Bool) (f : A → A)
      → ((a : A) → p a ≡ true → (q a ≡ false) × (q (f a) ≡ false))
      → (xs : List A) → find_where q (update_where p f xs) ≡ find_where q xs
  find_where-update_other p q f apart [] = refl
  find_where-update_other p q f apart (x ∷ xs) = elim (Bool-cases (p x)) [
    | inl e ↦
        let (before, after) = apart x e in
        rw (e, after, before) (find_where-update_other p q f apart xs)
    | inr e ↦ rw (e, find_where-update_other p q f apart xs)
  ]

  -- A further condition that the first match meets does not change it.
  pub find_where-both :
      (p q : A → Bool) (xs : List A) (a : A)
      → find_where p xs ≡ some a
      → q a ≡ true
      → find_where (λ x. p x && q x) xs ≡ some a
  find_where-both p q [] a h e = cc
  find_where-both p q (x ∷ xs) a h e = elim (Bool-cases (p x)) [
    | inl hit ↦ ground (arith)
    | inr miss ↦ ground (arith, find_where-both p q xs a)
  ]

  pub take_all : (n : ℕ) (xs : List A) → length xs ≤ n → take n xs ≡ xs
  take_all zero [] h = refl
  take_all zero (x ∷ xs) h = absurd (omega arith)
  take_all (suc n) [] h = refl
  take_all (suc n) (x ∷ xs) h = ap (x ∷◌) (take_all n xs (omega arith))

  -- An update or a deletion of rows that a query does not select leaves what it selects.
  pub select-update_where :
      (p q : A → Bool) (f : A → A)
      → ((a : A) → p a ≡ true → (q a ≡ false) × (q (f a) ≡ false))
      → (xs : List A) → select q (update_where p f xs) ≡ select q xs
  select-update_where p q f apart [] = refl
  select-update_where p q f apart (x ∷ xs) = elim (Bool-cases (p x)) [
    | inl e ↦
        let (before, after) = apart x e in
        rw (e, after, before) (select-update_where p q f apart xs)
    | inr e ↦ rw (e, select-update_where p q f apart xs)
  ]

  pub select-reject :
      (p q : A → Bool)
      → ((a : A) → p a ≡ true → q a ≡ false)
      → (xs : List A) → select q (reject p xs) ≡ select q xs
  select-reject p q apart [] = refl
  select-reject p q apart (x ∷ xs) = elim (Bool-cases (p x)) [
    | inl e ↦ rw (e, apart x e) (select-reject p q apart xs)
    | inr e ↦ rw (e, select-reject p q apart xs)
  ]

  pub count_where-update_where :
      (p : A → Bool) (f : A → A)
      → ((a : A) → p (f a) ≡ false)
      → (xs : List A) → count_where p (update_where p f xs) ≡ 0
  count_where-update_where p f gone [] = refl
  count_where-update_where p f gone (x ∷ xs) = elim (Bool-cases (p x)) [
    | inl e ↦ rw (e, gone x) (count_where-update_where p f gone xs)
    | inr e ↦ rw (e, e) (count_where-update_where p f gone xs)
  ]

-- A search in a list that grows at its end, or from which rows are deleted.
module _ {ℓ} {A : Type ℓ} where
  pub find_where-append :
      (p : A → Bool) (xs ys : List A)
      → find_where p xs ≡ none
      → find_where p (xs ++ ys) ≡ find_where p ys
  find_where-append p [] ys h = refl
  find_where-append p (x ∷ xs) ys h = elim (Bool-cases (p x)) [
    | inl hit ↦ absurd (ground arith)
    | inr miss ↦ rw miss (find_where-append p xs ys (rw miss at h))
  ]

  pub find_where-reject :
      (p q : A → Bool) (xs : List A) → find_where p xs ≡ none → find_where p (reject q xs) ≡ none
  find_where-reject p q [] h = refl
  find_where-reject p q (x ∷ xs) h = elim (Bool-cases (p x)) [
    | inl hit ↦ absurd (ground arith)
    | inr miss ↦ elim (Bool-cases (q x)) [
      | inl gone ↦ rw gone (find_where-reject p q xs (rw miss at h))
      | inr kept ↦ rw (kept, miss) (find_where-reject p q xs (rw miss at h))
    ]
  ]

  pub reject-append :
      (q : A → Bool) (xs ys : List A) → reject q (xs ++ ys) ≡ reject q xs ++ reject q ys
  reject-append q [] ys = refl
  reject-append q (x ∷ xs) ys = elim (Bool-cases (q x)) [
    | inl gone ↦ rw gone (reject-append q xs ys)
    | inr kept ↦ rw kept (ap (x ∷◌) (reject-append q xs ys))
  ]

  pub count_where-append :
      (p : A → Bool) (xs ys : List A)
      → count_where p (xs ++ ys) ≡ count_where p xs + count_where p ys
  count_where-append p [] ys = omega arith
  count_where-append p (x ∷ xs) ys = elim (Bool-cases (p x)) [
    | inl hit ↦ rw hit (omega (arith, count_where-append p xs ys))
    | inr miss ↦ rw miss (count_where-append p xs ys)
  ]

  pub count_where-reject : (p : A → Bool) (xs : List A) → count_where p (reject p xs) ≡ 0
  count_where-reject p [] = refl
  count_where-reject p (x ∷ xs) = elim (Bool-cases (p x)) [
    | inl hit ↦ rw hit (count_where-reject p xs)
    | inr miss ↦ rw (miss, miss) (count_where-reject p xs)
  ]

  pub find_where-reject_same : (p : A → Bool) (xs : List A) → find_where p (reject p xs) ≡ none
  find_where-reject_same p [] = refl
  find_where-reject_same p (x ∷ xs) = elim (Bool-cases (p x)) [
    | inl hit ↦ rw hit (find_where-reject_same p xs)
    | inr miss ↦ rw (miss, miss) (find_where-reject_same p xs)
  ]

  pub find_where-reject_other :
      (p q : A → Bool)
      → ((a : A) → q a ≡ true → p a ≡ false)
      → (xs : List A) → find_where p (reject q xs) ≡ find_where p xs
  find_where-reject_other p q apart [] = refl
  find_where-reject_other p q apart (x ∷ xs) = elim (Bool-cases (q x)) [
    | inl gone ↦ rw (gone, apart x gone) (find_where-reject_other p q apart xs)
    | inr kept ↦ rw (kept, find_where-reject_other p q apart xs)
  ]
