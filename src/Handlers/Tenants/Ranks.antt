-- ===== src/Handlers/Tenants/Ranks.antt =====
-- The comparison ranks any two users.
use delivery_api.Base.{
  ℕ, ◌≡◌, refl, arith, Bool, false, not, [], ◌∷◌, Str, if◌then◌else◌, str_eq, ltb, ◌==◌,
}
use delivery_api.Handlers.Tenants.{Tenant, seconds, precedes, is_before}

precedes-not : (s t : Str) → str_eq s t ≡ false → precedes s t ≡ not (precedes t s)
unfolding precedes str_eq
precedes-not [] [] h = cc
precedes-not [] (b ∷ t) h = refl
precedes-not (a ∷ s) [] h = refl
precedes-not (a ∷ s) (b ∷ t) h = ground (arith, precedes-not s t)

-- Of two tenants with different users exactly one comes before the other.
pub is_before-not :
    (a b : Tenant) → str_eq a.user_id b.user_id ≡ false → is_before a b ≡ not (is_before b a)
unfolding is_before
is_before-not a b h =
    let by_name = precedes-not a.user_id b.user_id h in
    rank a.messages b.messages (seconds a.last_send_at) (seconds b.last_send_at)
      (precedes a.user_id b.user_id) (precedes b.user_id a.user_id) by_name
  where
    rank :
        (m n s t : ℕ) (p q : Bool)
        → p ≡ not q
        → (if not (m == n) then ltb n m else if not (s == t) then ltb t s else p)
          ≡ not (if not (n == m) then ltb m n else if not (t == s) then ltb s t else q)
    rank m n s t p q e = ground arith
