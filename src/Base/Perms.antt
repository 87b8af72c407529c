-- ===== src/Base/Perms.antt =====
-- What a test finds in a list does not depend on the list's order.
use mathlib.Core.Path.{◌≡◌, refl, sym, ◌∙◌}
use mathlib.Core.Logic.Or
use mathlib.Core.Logic.{inl, inr}
use mathlib.Core.Bool.{Bool, true, false, Bool-set}
use mathlib.Core.List
use mathlib.Core.List.{List, [], ◌∷◌, Perm}
use mathlib.Core.List.Perm
use native.Mathlib.Omega.{arith}
use delivery_api.Base.Tests.{Bool-cases}
use mathlib.Core.Option.{some}
use delivery_api.Base.Lists.{any_of, select, All, All-weaken, find_where, find_where-All}

module _ {ℓ} {A : Type ℓ} (p : A → Bool) where
  pub any_of-Mem : (a : A) (xs : List A) → List.Mem a xs → p a ≡ true → any_of p xs ≡ true
  any_of-Mem a [] m h = absurd (List.not-mem-nil m)
  any_of-Mem a (x ∷ xs) m h =
      Or.elim (Bool-set (any_of p (x ∷ xs)) true) (List.eq-or-mem_of_mem-cons m)
        (λ e. rw (sym e, h) refl)
        (λ rest. elim (Bool-cases (p x)) [
          | inl hit ↦ rw hit refl
          | inr miss ↦ rw miss (any_of-Mem a xs rest h)
        ])

  pub Mem-any_of : (xs : List A) → any_of p xs ≡ true → (a : A) × List.Mem a xs × (p a ≡ true)
  Mem-any_of [] h = cc
  Mem-any_of (x ∷ xs) h = elim (Bool-cases (p x)) [
    | inl hit ↦ (x, List.mem-cons_self, hit)
    | inr miss ↦ let (a, m, e) = Mem-any_of xs (rw miss at h) in (a, List.mem-cons_of_mem x m, e)
  ]

  any_of-Perm_true : {xs ys : List A} → Perm xs ys → any_of p xs ≡ true → any_of p ys ≡ true
  any_of-Perm_true {xs} {ys} same h =
      let (a, m, e) = Mem-any_of xs h in any_of-Mem a ys ((Perm.mem_iff same).0 m) e

  pub any_of-Perm : {xs ys : List A} → Perm xs ys → any_of p xs ≡ any_of p ys
  any_of-Perm {xs} {ys} same = elim (Bool-cases (any_of p xs)) [
    | inl h ↦ h ∙ sym (any_of-Perm_true same h)
    | inr h ↦ elim (Bool-cases (any_of p ys)) [
      | inl g ↦ any_of-Perm_true (Perm.symm same) g ∙ sym g
      | inr g ↦ h ∙ sym g
    ]
  ]

  pub any_of-select :
      (q : A → Bool) (xs : List A) → any_of p xs ≡ false → any_of p (select q xs) ≡ false
  any_of-select q [] h = refl
  any_of-select q (x ∷ xs) h = ground (arith, any_of-select q xs)

-- Every element is one of its list.
module _ {ℓ} {A : Type ℓ} where
  pub All-self : (xs : List A) → All (λ a. List.Mem a xs) xs
  All-self [] = tt
  All-self (x ∷ xs) = (
    List.mem-cons_self,
    All-weaken (λ a. List.Mem a xs) (λ a. List.Mem a (x ∷ xs)) (λ a m. List.mem-cons_of_mem x m) xs
        (All-self xs),
  )

  pub find_where-Mem :
      (p : A → Bool) (xs : List A) (a : A) → find_where p xs ≡ some a → List.Mem a xs
  find_where-Mem p xs a found = find_where-All (λ a. List.Mem a xs) p xs a found (All-self xs)
