-- ===== src/Push/Prune.antt =====
-- What the fan-out does to each registration.
use delivery_api.Base.{
  ℕ, ◌≡◌, ◌≢◌, refl, sym, ◌∙◌, ap, inl, inr, arith, ◌⊎◌, Bool, true, false, not, ◌&&◌, Option, none,
  some, List, [], ◌∷◌, Bool-cases, if◌then◌else◌, ◌==◌, find_where, any_of, any_of-Perm,
  any_of-select, select, find_where-update_where, find_where-update_other, find_where-reject_same,
  find_where-reject_other, All,
}
use mathlib.Core.Option
use delivery_api.Models.{Model}
use delivery_api.Db.{Table, IsLive}
use delivery_api.Push.{Sent, has_id, deliver_to, deliver_all}

abbrev same_bool : Bool → Bool → Bool
same_bool true b = b
same_bool false b = not b

abbrev same_sent : Sent → Sent → Bool
same_sent a b = same_bool a.stale b.stale && same_bool a.failed b.failed

-- What becomes of a registration that its driver has been given.
-- No two rows have one id.
abbrev pub AreDistinct : {Row : Type 0} → Model Row → List Row → Type 0
AreDistinct model [] = Unit
AreDistinct model (r ∷ rs) = All (λ x. model.id r ≢ model.id x) rs × AreDistinct model rs

abbrev pub settled {ℓ} : {Row : Type ℓ} → (Row → Row) → Row → Sent → Option Row
settled touch r sent = if sent.stale then none else if sent.failed then some r else some (touch r)

module _ {Row : Type 0} {model : Model Row} (t : Table model) (live : IsLive t) (send : Row → Sent)
    (touch : Row → Row) (touch_id : (r : Row) → model.id (touch r) ≡ model.id r)
    (touch_again : (r : Row) → touch (touch r) ≡ touch r) (k : ℕ) where
  abbrev row_at : t.State → Option Row
  row_at s = find_where (has_id model k) (t.rows s)

  -- The row has the id, and another answer than the row that is asked for.
  abbrev odd : Sent → Row → Bool
  odd sent l = has_id model k l && not (same_sent (send l) sent)

  deliver_to-other :
      (l : Row) (s : t.State)
      → has_id model k l ≡ false
      → row_at (deliver_to t send touch l s) ≡ row_at s
  deliver_to-other l s other =
      let own = has_id model (model.id l) in
      elim (Bool-cases (send l).stale) [
        | inl stale ↦
            rw (stale, (live.delete_live own s).1)
              (find_where-reject_other (has_id model k) own (λ a e. ground arith) (t.rows s))
        | inr alive ↦ elim (Bool-cases (send l).failed) [
          | inl failed ↦ rw (alive, failed) refl
          | inr sent ↦
              rw (alive, sent, (live.update_live own touch s).1)
                (find_where-update_other own (has_id model k) touch
                  (λ a e. (ground arith, ground (arith, touch_id a))) (t.rows s))
        ]
      ]

  same_sent-eq : (a b : Sent) → same_sent a b ≡ true → (a.stale ≡ b.stale) × (a.failed ≡ b.failed)
  same_sent-eq a b h = (ground arith, ground arith)

  touched :
      (o : Option Row) (r : Row)
      → (o ≡ some r) ⊎ (o ≡ some (touch r))
      → Option.map touch o ≡ some (touch r)
  touched o r (inl e) = rw e refl
  touched o r (inr e) = rw (e, touch_again r) refl

  deliver_to-own :
      (l r : Row) (s : t.State) (sent : Sent)
      → has_id model k l ≡ true
      → odd sent l ≡ false
      → (row_at s ≡ some r) ⊎ (row_at s ≡ settled touch r sent)
      → row_at (deliver_to t send touch l s) ≡ settled touch r sent
  deliver_to-own l r s sent own even before =
      let e : model.id l ≡ k = ground arith in
      let (same_stale, same_failed) = same_sent-eq (send l) sent (ground arith) in
      elim (Bool-cases sent.stale) [
        | inl stale ↦
            rw (same_stale, stale, e, (live.delete_live (has_id model k) s).1)
              (find_where-reject_same (has_id model k) (t.rows s))
        | inr alive ↦ elim (Bool-cases sent.failed) [
          | inl failed ↦
              rw (same_stale, alive, same_failed, failed)
                (elim before [ inl old ↦ old | inr new ↦ new ∙ rw (alive, failed) refl ])
          | inr delivered ↦
              rw
                (
                  same_stale,
                  alive,
                  same_failed,
                  delivered,
                  e,
                  (live.update_live (has_id model k) touch s).1,
                )
                (find_where-update_where (has_id model k) touch (λ a. ap (λ n. n == k) (touch_id a))
                    (t.rows s)
                  ∙ touched (row_at s) r (elim before [
                    | inl old ↦ inl old
                    | inr new ↦ inr (new ∙ rw (alive, delivered) refl)
                  ]))
        ]
      ]

  settled_all :
      (ls : List Row) (s : t.State) (r : Row) (sent : Sent)
      → any_of (odd sent) ls ≡ false
      → row_at s ≡ settled touch r sent
      → row_at (deliver_all t send touch ls s) ≡ settled touch r sent
  settled_all [] s r sent even before = before
  settled_all (l ∷ ls) s r sent even before =
      let s' = deliver_to t send touch l s in
      settled_all ls s' r sent (ground arith) (elim (Bool-cases (has_id model k l)) [
        | inl own ↦ deliver_to-own l r s sent own (ground arith) (inr before)
        | inr other ↦ deliver_to-other l s other ∙ before
      ])

  settles :
      (ls : List Row) (s : t.State) (r : Row) (sent : Sent)
      → any_of (odd sent) ls ≡ false
      → any_of (has_id model k) ls ≡ true
      → row_at s ≡ some r
      → row_at (deliver_all t send touch ls s) ≡ settled touch r sent
  settles [] s r sent even has before = cc
  settles (l ∷ ls) s r sent even has before =
      let s' = deliver_to t send touch l s in
      elim (Bool-cases (has_id model k l)) [
        | inl own ↦
            settled_all ls s' r sent (ground arith)
              (deliver_to-own l r s sent own (ground arith) (inl before))
        | inr other ↦
            settles ls s' r sent (ground arith) (rw other at has)
              (deliver_to-other l s other ∙ before)
      ]

  passes :
      (ls : List Row) (s : t.State)
      → any_of (has_id model k) ls ≡ false
      → row_at (deliver_all t send touch ls s) ≡ row_at s
  passes [] s h = refl
  passes (l ∷ ls) s h =
      passes ls (deliver_to t send touch l s) (ground arith) ∙ deliver_to-other l s (ground arith)

  apart-odd :
      (sent : Sent) (n : ℕ) (rows : List Row)
      → n ≡ k
      → All (λ x. n ≢ model.id x) rows
      → any_of (odd sent) rows ≡ false
  apart-odd sent n [] e h = refl
  apart-odd sent n (x ∷ xs) e (hx, h) = ground (arith, apart-odd sent n xs e h)

  apart-has :
      (q : Row → Bool) (n : ℕ) (rows : List Row)
      → n ≡ k
      → All (λ x. n ≢ model.id x) rows
      → any_of (has_id model k) (select q rows) ≡ false
  apart-has q n [] e h = refl
  apart-has q n (x ∷ xs) e (hx, h) = ground (arith, apart-has q n xs e h)

  same_sent_refl : (a : Sent) → same_sent a a ≡ true
  same_sent_refl a = ground arith

  even-row :
      (rows : List Row) (r : Row)
      → AreDistinct model rows
      → find_where (has_id model k) rows ≡ some r
      → any_of (odd (send r)) rows ≡ false
  even-row [] r d found = cc
  even-row (x ∷ xs) r (apart, d) found = elim (Bool-cases (has_id model k x)) [
    | inl own ↦
        let e : x ≡ r = Option.some_inj.0 (rw own at found) in
        rw (own, e, same_sent_refl (send r))
          (apart-odd (send r) (model.id x) xs (ground arith) apart)
    | inr other ↦ rw (other) (even-row xs r d (rw other at found))
  ]

  has-row :
      (q : Row → Bool) (rows : List Row) (r : Row)
      → AreDistinct model rows
      → find_where (has_id model k) rows ≡ some r
      → any_of (has_id model k) (select q rows) ≡ q r
  has-row q [] r d found = cc
  has-row q (x ∷ xs) r (apart, d) found = elim (Bool-cases (has_id model k x)) [
    | inl own ↦
        let e : x ≡ r = Option.some_inj.0 (rw own at found) in
        let rest = apart-has q (model.id x) xs (ground arith) apart in
        elim (Bool-cases (q x)) [
          | inl mine ↦ rw (mine, own) (sym mine ∙ ap q e)
          | inr theirs ↦ rw (theirs, rest) (sym theirs ∙ ap q e)
        ]
    | inr other ↦ elim (Bool-cases (q x)) [
      | inl mine ↦ rw (mine, other) (has-row q xs r d (rw other at found))
      | inr theirs ↦ rw theirs (has-row q xs r d (rw other at found))
    ]
  ]

  -- The fan-out over the rows of a query, on the row with the id.
  pub deliver_all-row :
      (q : Row → Bool) (s : t.State) (r : Row)
      → AreDistinct model (t.rows s)
      → find_where (has_id model k) (t.rows s) ≡ some r
      → find_where (has_id model k) (t.rows (deliver_all t send touch (t.find q s) s))
        ≡ (if q r then settled touch r (send r) else some r)
  deliver_all-row q s r d found =
      let rows = t.rows s in
      let same = live.find_live q s in
      let has = any_of-Perm (has_id model k) same ∙ has-row q rows r d found in
      let even =
        any_of-Perm (odd (send r)) same
        ∙ any_of-select (odd (send r)) q rows (even-row rows r d found) in
      elim (Bool-cases (q r)) [
        | inl mine ↦ rw mine (settles (t.find q s) s r (send r) even (has ∙ mine) found)
        | inr theirs ↦ rw theirs (passes (t.find q s) s (has ∙ theirs) ∙ found)
      ]
