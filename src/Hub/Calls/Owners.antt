-- ===== src/Hub/Calls/Owners.antt =====
-- Whose channels a publishing call reaches, over any interleaving of the calls.
use delivery_api.Base.{ℕ, ◌≡◌, List, Str, All, ◌==◌, if◌then◌else◌}
use delivery_api.Hub.{Hub}

-- Every address is registered for its owner alone.
abbrev AreOf : (ℕ → Str) → Str → List ℕ → Type 0
AreOf owner user ns = All (λ m. owner m ≡ user) ns

abbrev AreOwned : (ℕ → Str) → List (Str × List ℕ) → Type 0
AreOwned owner subs = All (λ (e : Str × List ℕ). AreOf owner e.0 e.1) subs

abbrev given : ℕ → Str → (ℕ → Str) → ℕ → Str
given n user owner m = if m == n then user else owner m

abbrev HasOwners : Hub → Type 0
HasOwners h = (owner : ℕ → Str) × AreOwned owner h.subs
