-- ===== src/Smtp/Sender/Codes.antt =====
-- Reply codes: parseCode and isPermanent.
use delivery_api.Base.{◌<◌, ◌≡◌, ◌↔◌, true, Str, ◌∷◌, [], arith}
use delivery_api.Smtp.Sender.{is_digit, parse_code, is_permanent}

-- A code has three digits, whatever the text of the error.
pub parse_code-lt : (s : Str) → parse_code s < 1000
unfolding parse_code
parse_code-lt (a ∷ b ∷ c ∷ rest) = ground arith
parse_code-lt [] = omega arith
parse_code-lt (a ∷ []) = omega arith
parse_code-lt (a ∷ b ∷ []) = omega arith

-- The text starts with a reply code of the class 5yz.
abbrev pub IsClassFive : Str → Type 0
IsClassFive (a ∷ b ∷ c ∷ rest) = (a ≡ b'5') × (is_digit b ≡ true) × (is_digit c ≡ true)
IsClassFive _ = ⊥

-- An error counts as permanent exactly when its text starts with a code of the class 5yz.
pub is_permanent_iff : (s : Str) → (is_permanent s ≡ true) ↔ IsClassFive s
unfolding is_permanent
is_permanent_iff (a ∷ b ∷ c ∷ rest) = (λ h. ground arith, λ h. ground arith)
is_permanent_iff [] = (λ h. cc, λ h. absurd h)
is_permanent_iff (a ∷ []) = (λ h. cc, λ h. absurd h)
is_permanent_iff (a ∷ b ∷ []) = (λ h. cc, λ h. absurd h)
