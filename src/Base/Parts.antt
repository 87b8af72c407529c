-- ===== src/Base/Parts.antt =====
-- What strings.Contains finds.
use mathlib.Core.Path.{◌≡◌, refl, ap, ◌∙◌}
use mathlib.Core.Logic.{◌↔◌, inl, inr}
use mathlib.Core.Bool.{true}
use mathlib.Core.List.{[], ◌∷◌, ◌++◌}
use native.Mathlib.Omega.{arith}
use delivery_api.Base.Tests.{◌==◌, ==_iff, Bool-cases}
use delivery_api.Base.Text.{Str, has_prefix, contains}

-- A text that stands somewhere in another.
abbrev pub IsPart : Str → Str → Type 0
IsPart p s = (before : Str) × (after : Str) × (s ≡ before ++ p ++ after)

has_prefix_sound : (s p : Str) → has_prefix s p ≡ true → (after : Str) × (s ≡ p ++ after)
unfolding has_prefix
has_prefix_sound s [] h = (s, refl)
has_prefix_sound [] (d ∷ p) h = cc
has_prefix_sound (c ∷ s) (d ∷ p) h =
    let same : c == d ≡ true = ground arith in
    let later : has_prefix s p ≡ true = ground arith in
    let (after, e) = has_prefix_sound s p later in (after, rw ((==_iff c d).0 same, e) refl)

has_prefix-append : (p after : Str) → has_prefix (p ++ after) p ≡ true
unfolding has_prefix
has_prefix-append [] after = refl
has_prefix-append (d ∷ p) after = rw ((==_iff d d).1 refl) (has_prefix-append p after)

contains_prefix : (s p : Str) → has_prefix s p ≡ true → contains s p ≡ true
unfolding contains
contains_prefix [] p h = h
contains_prefix (c ∷ s) p h = rw h refl

contains-append : (before p after : Str) → contains (before ++ p ++ after) p ≡ true
unfolding contains
contains-append [] p after = contains_prefix (p ++ after) p (has_prefix-append p after)
contains-append (c ∷ before) p after = ground (arith, contains-append before p after)

contains_sound : (s p : Str) → contains s p ≡ true → IsPart p s
unfolding contains
contains_sound [] p h = let (after, e) = has_prefix_sound [] p h in ([], after, e)
contains_sound (c ∷ s) p h = elim (Bool-cases (has_prefix (c ∷ s) p)) [
  | inl here ↦ let (after, e) = has_prefix_sound (c ∷ s) p here in ([], after, e)
  | inr later ↦
      let (before, after, e) = contains_sound s p (ground arith) in (c ∷ before, after, ap (c ∷◌) e)
]

pub contains_iff : (s p : Str) → (contains s p ≡ true) ↔ IsPart p s
contains_iff s p = (
  contains_sound s p,
  λ part.
      (let (before, after, e) = part in ap (λ t. contains t p) e ∙ contains-append before p after),
)
