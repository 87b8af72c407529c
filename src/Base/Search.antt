-- ===== src/Base/Search.antt =====
-- strings.Index, strings.LastIndex and strings.Split of one byte.
use Prim.Native.Nat.{ℕ, suc}
use mathlib.Core.Path.{◌≡◌, refl}
use mathlib.Core.Logic.{◌≢◌}
use mathlib.Core.Option
use mathlib.Core.Option.{Option, none, some}
use mathlib.Core.List.{List, [], ◌∷◌, ◌++◌}
use native.Mathlib.Omega.{arith}
use delivery_api.Base.Tests.{◌==◌, if◌then◌else◌}
use delivery_api.Base.Lists.{length, All}
use delivery_api.Base.Text.{Str}

unfoldable pub index : Str → ℕ → Option ℕ
index [] c = none
index (d ∷ s) c = if d == c then some 0 else Option.map suc (index s c)

unfoldable pub last_index : Str → ℕ → Option ℕ
last_index [] c = none
last_index (d ∷ s) c = elim (last_index s c) [
  | some i ↦ some (suc i)
  | none ↦ if d == c then some 0 else none
]

abbrev pub Lacks : ℕ → Str → Type 0
Lacks c = All (λ d. d ≢ c)

pub last_index-none : (s : Str) (c : ℕ) → Lacks c s → last_index s c ≡ none
unfolding last_index
last_index-none [] c h = refl
last_index-none (d ∷ s) c (h, hs) = ground (arith, last_index-none s c hs)

-- The last occurrence is the one that no other follows.
pub last_index-append :
    (s t : Str) (c : ℕ) → Lacks c t → last_index (s ++ c ∷ t) c ≡ some (length s)
unfolding last_index
last_index-append [] t c h = ground (arith, last_index-none t c h)
last_index-append (d ∷ s) t c h = ground (arith, last_index-append s t c h)

-- The parts between the occurrences of a byte, one at least.
unfoldable pub split : ℕ → Str → List Str
split c [] = [] ∷ []
split c (d ∷ s) =
    let rest = split c s in
    if d == c
    then [] ∷ rest
    else elim rest [ [] ↦ (d ∷ []) ∷ [] | part ∷ parts ↦ (d ∷ part) ∷ parts ]
