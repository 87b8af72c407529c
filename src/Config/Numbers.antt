-- ===== src/Config/Numbers.antt =====
-- Which limits the environment can set.
use delivery_api.Base.{
  ℕ, zero, suc, ◌+◌, ◌*◌, ◌/◌, ◌%◌, ◌^◌, ◌≤◌, ◌<◌, ◌≡◌, refl, sym, ◌∙◌, ap, inl, inr, arith, true,
  [], ◌∷◌, ◌++◌, Str, codes, Bool-cases, ltb, leb, if◌then◌else◌, is_empty, is_empty_iff, decimal,
  decimal_fuel,
}
use delivery_api.Config.{env, add_digit, read_digits, warmup_max_per_hour}

read_digits-append : (n : ℕ) (s t : Str) → read_digits n (s ++ t) ≡ read_digits (read_digits n s) t
unfolding read_digits
read_digits-append n [] t = refl
read_digits-append n (c ∷ s) t = read_digits-append (add_digit n c) s t

read_digits-digit :
    (n d : ℕ) → d < 10 → n * 10 + d < 2 ^ 63 → read_digits n ((b'0' + d) ∷ []) ≡ n * 10 + d
unfolding read_digits
read_digits-digit n d small fits =
    let low : leb b'0' (b'0' + d) ≡ true = ground arith in
    let high : leb (b'0' + d) b'9' ≡ true = ground arith in rw (low, high) (omega arith)

read_digits-decimal_fuel : (f n : ℕ) → n < f → n < 2 ^ 63 → read_digits 0 (decimal_fuel f n) ≡ n
unfolding decimal_fuel
read_digits-decimal_fuel zero n h fits = absurd (omega arith)
read_digits-decimal_fuel (suc f) n h fits = elim (Bool-cases (ltb n 10)) [
  | inl small ↦ rw small (omega (arith, read_digits-digit 0 n (ground arith) (omega arith)))
  | inr large ↦
      let big : 10 ≤ n = ground arith in
      let front = read_digits-decimal_fuel f (n / 10) (omega arith) (omega arith) in
      rw (large, read_digits-append 0 (decimal_fuel f (n / 10)) ((b'0' + n % 10) ∷ []), front)
        (read_digits-digit (n / 10) (n % 10) (omega arith) (omega arith) ∙ omega arith)
]

pub read_digits-decimal : (n : ℕ) → n < 2 ^ 63 → read_digits 0 (decimal n) ≡ n
unfolding decimal
read_digits-decimal n fits = read_digits-decimal_fuel (suc n) n (omega arith) fits

-- A limit above 0 and below 2 to the power of 63 is read from its decimal text; the text of 0
-- gives the default of 50.
pub warmup_max_per_hour-decimal :
    (getenv : Str → Str) (n : ℕ)
    → n < 2 ^ 63
    → getenv (codes "WARMUP_MAX_PER_HOUR") ≡ decimal n
    → warmup_max_per_hour getenv ≡ (if ltb 0 n then n else 50)
unfolding warmup_max_per_hour env read_digits
warmup_max_per_hour-decimal getenv n fits set = elim (Bool-cases (is_empty (decimal n))) [
  | inl bare ↦
      let blank : read_digits 0 (decimal n) ≡ 0 =
        ap (read_digits 0) ((is_empty_iff (decimal n)).0 bare) in
      let none_set : n ≡ 0 = sym (read_digits-decimal n fits) ∙ blank in
      rw (warmup_max_per_hour, env, set, bare, none_set) refl
  | inr full ↦
      rw (warmup_max_per_hour, env, set, full, full, read_digits-decimal n fits) (ground arith)
]
