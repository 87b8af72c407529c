-- ===== src/Base/Text.antt =====
-- Go strings as lists of bytes, and the functions of package strings that the service calls.
-- Letters and blanks are those of ASCII.
use Prim.Native.Nat.{ℕ, suc, ◌+◌, ◌-◌, ◌/◌, ◌%◌, ◌<◌, zero}
use Prim.Native.Char.{code}
use Prim.Native.String.{String}
use mathlib.Core.Path.{◌≡◌, refl}
use mathlib.Core.Logic.{◌↔◌, inl, inr}
use mathlib.Core.Bool.{Bool, true, false, ◌&&◌, ◌||◌}
use mathlib.Core.List.{List, [], ◌∷◌, ◌++◌, map}
use native.Mathlib.Omega.{arith}
use delivery_api.Base.Tests.{◌==◌, leb, ltb, if◌then◌else◌, Bool-cases}
use delivery_api.Base.Lists.{length, take, drop, any_of, All, All-append}

abbrev pub Str : Type 0
Str = List ℕ

-- The bytes of an ASCII literal.
abbrev pub codes : String → Str
codes String.[] = []
codes (String.◌∷◌ c s) = code c ∷ codes s

unfoldable pub str_eq : Str → Str → Bool
str_eq [] [] = true
str_eq (a ∷ s) (b ∷ t) = (a == b) && str_eq s t
str_eq _ _ = false

pub str_eq_iff : (s t : Str) → (str_eq s t ≡ true) ↔ (s ≡ t)
unfolding str_eq
str_eq_iff [] [] = (λ _. refl, λ _. refl)
str_eq_iff (a ∷ s) (b ∷ t) = ground (arith, str_eq_iff s t)
str_eq_iff [] (b ∷ t) = (λ h. cc, λ h. cc)
str_eq_iff (a ∷ s) [] = (λ h. cc, λ h. cc)

pub str_eq_refl : (s : Str) → str_eq s s ≡ true
str_eq_refl s = (str_eq_iff s s).1 refl

abbrev pub is_empty : Str → Bool
is_empty [] = true
is_empty (_ ∷ _) = false

pub is_empty_iff : (s : Str) → (is_empty s ≡ true) ↔ (s ≡ [])
is_empty_iff [] = (λ _. refl, λ _. refl)
is_empty_iff (_ ∷ _) = (λ h. cc, λ h. cc)

unfoldable pub has_prefix : Str → Str → Bool
has_prefix s [] = true
has_prefix [] (p ∷ ps) = false
has_prefix (c ∷ s) (p ∷ ps) = (c == p) && has_prefix s ps

unfoldable pub trim_prefix : Str → Str → Str
unfolding has_prefix
trim_prefix s p = if has_prefix s p then drop (length p) s else s

abbrev pub lower_byte : ℕ → ℕ
lower_byte c = if leb b'A' c && leb c b'Z' then c + 32 else c

unfoldable pub to_lower : Str → Str
to_lower = map lower_byte

unfoldable pub to_upper : Str → Str
to_upper = map (λ c. if leb b'a' c && leb c b'z' then c - 32 else c)

abbrev pub is_space : ℕ → Bool
is_space c = (c == 32) || (leb 9 c && leb c 13)

unfoldable pub trim_left_by : (ℕ → Bool) → Str → Str
trim_left_by p [] = []
trim_left_by p (c ∷ s) = if p c then trim_left_by p s else c ∷ s

unfoldable pub trim_right_by : (ℕ → Bool) → Str → Str
trim_right_by p [] = []
trim_right_by p (c ∷ s) = elim (trim_right_by p s) [
  | [] ↦ if p c then [] else c ∷ []
  | d ∷ r ↦ c ∷ d ∷ r
]

unfoldable pub trim_by : (ℕ → Bool) → Str → Str
unfolding trim_left_by trim_right_by
trim_by p s = trim_right_by p (trim_left_by p s)

unfoldable pub trim_space : Str → Str
unfolding trim_by
trim_space = trim_by is_space

-- strings.Contains
unfoldable pub contains : Str → Str → Bool
unfolding has_prefix
contains [] p = has_prefix [] p
contains (c ∷ s) p = has_prefix (c ∷ s) p || contains s p

abbrev pub member : ℕ → Str → Bool
member c = any_of (λ d. c == d)

unfoldable pub decimal_fuel : ℕ → ℕ → Str
decimal_fuel zero n = []
decimal_fuel (suc f) n =
    let more = decimal_fuel f (n / 10) ++ (b'0' + n % 10) ∷ [] in
    if ltb n 10 then (b'0' + n) ∷ [] else more

-- fmt's %d of a number that is not negative.
unfoldable pub decimal : ℕ → Str
unfolding decimal_fuel
decimal n = decimal_fuel (suc n) n

unfoldable pub trim_suffix : Str → Str → Str
unfolding str_eq
trim_suffix s p =
    let n = length s - length p in
    if leb (length p) (length s) && str_eq (drop n s) p then take n s else s

-- Digits are neither blanks nor line breaks.
pub decimal-All : (P : ℕ → Type 0) → ((d : ℕ) → d < 10 → P (b'0' + d)) → (n : ℕ) → All P (decimal n)
unfolding decimal
decimal-All P h n = decimal_fuel-All (suc n) n
  where
    decimal_fuel-All : (f n : ℕ) → All P (decimal_fuel f n)
    decimal_fuel-All zero n = tt
    decimal_fuel-All (suc f) n = elim (Bool-cases (ltb n 10)) [
      | inl small ↦ rw small (h n (ground arith), tt)
      | inr large ↦ rw large (
          All-append P (decimal_fuel f (n / 10)) _ (decimal_fuel-All f (n / 10))
            (h (n % 10) (omega arith), tt))
    ]
