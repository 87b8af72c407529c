-- ===== src/Base/Counts.antt =====
-- How many rows meet a test after a change.
use mathlib.Core.Path.{◌≡◌, refl}
use mathlib.Core.Logic.{inl, inr}
use mathlib.Core.Bool.{Bool, not, ◌&&◌}
use mathlib.Core.List.{List, [], ◌∷◌}
use native.Mathlib.Omega.{arith}
use delivery_api.Base.Tests.{if◌then◌else◌, Bool-cases}
use delivery_api.Base.Lists.{count_where, update_where, reject}

module _ {ℓ} {A : Type ℓ} (p q r : A → Bool) where
  pub count_where-update_as :
      (f : A → A)
      → ((x : A) → p (if q x then f x else x) ≡ r x)
      → (xs : List A) → count_where p (update_where q f xs) ≡ count_where r xs
  count_where-update_as f same [] = refl
  count_where-update_as f same (x ∷ xs) = rw (same x) (rw (count_where-update_as f same xs) refl)

  pub count_where-reject_as :
      ((x : A) → (p x && not (q x)) ≡ r x)
      → (xs : List A) → count_where p (reject q xs) ≡ count_where r xs
  count_where-reject_as same [] = refl
  count_where-reject_as same (x ∷ xs) = elim (Bool-cases (q x)) [
    | inl gone ↦ ground (arith, same x, count_where-reject_as same xs)
    | inr kept ↦ ground (arith, same x, count_where-reject_as same xs)
  ]
