-- ===== src/Handlers/Reply.antt =====
-- What WriteJSON writes: a status with a value, or with an error text (handlers/helpers.go).
use delivery_api.Base.{ℕ, Str}

pub data Reply {ℓ} (A : Type ℓ) : Type ℓ where
  reply : ℕ → A → Reply A
  error : ℕ → Str → Reply A
