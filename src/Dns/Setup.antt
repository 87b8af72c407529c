-- ===== src/Dns/Setup.antt =====
-- What stands in the zone after a set-up without errors.
use mathlib.Core.Option
use mathlib.Core.List.{map}
use delivery_api.Base.{
  ◌≡◌, ◌≢◌, ◌⊎◌, refl, sym, ◌∙◌, ap, subst, inl, inr, arith, Bool, true, false, ◌&&◌, ◌||◌, Option,
  none, some, List, [], ◌∷◌, ◌++◌, Str, Bool-cases, Option-cases, is_empty, str_eq, str_eq_iff,
  str_eq_refl, find_where, find_where-All, any_of, select, update_where, All, codes,
}
use delivery_api.Dns.{
  DnsRecord, Entry, is_named, has_id, AreDistinct, Cloudflare, Report, noted, first_id, find_record,
  ensure,
}

-- The entry is the record.
abbrev pub is_record : DnsRecord → Entry → Bool
is_record r e = is_named r.type r.name e && str_eq e.1.content r.content

any_of-update_where :
    (p r : Entry → Bool) (f : Entry → Entry)
    → ((e : Entry) → r (f e) ≡ true)
    → (es : List Entry) → any_of p es ≡ true
    → any_of r (update_where p f es) ≡ true
any_of-update_where p r f own [] h = cc
any_of-update_where p r f own (e ∷ es) h = elim (Bool-cases (p e)) [
  | inl hit ↦ rw (hit, own e) refl
  | inr miss ↦ ground (arith, any_of-update_where p r f own es)
]

any_of-update_other :
    (p r : Entry → Bool) (f : Entry → Entry) (es : List Entry)
    → any_of (λ e. r e && p e) es ≡ false
    → any_of r es ≡ true
    → any_of r (update_where p f es) ≡ true
any_of-update_other p r f [] apart h = cc
any_of-update_other p r f (e ∷ es) apart h = elim (Bool-cases (p e)) [
  | inl hit ↦ ground (arith, any_of-update_other p r f es)
  | inr miss ↦ ground (arith, any_of-update_other p r f es)
]

any_of-append :
    (r : Entry → Bool) (xs ys : List Entry) → any_of r (xs ++ ys) ≡ (any_of r xs || any_of r ys)
any_of-append r [] ys = refl
any_of-append r (x ∷ xs) ys = ground (arith, any_of-append r xs ys)

-- The first id of a query is an entry's.
first_id-select :
    (q : Entry → Bool) (es : List Entry)
    → (first_id (map (λ e. e.0) (select q es)) ≡ [])
      ⊎ ((e : Entry) × (find_where q es ≡ some e)
          × (first_id (map (λ e. e.0) (select q es)) ≡ e.0)
          × (any_of (has_id e.0) es ≡ true))
first_id-select q [] = inl refl
first_id-select q (e ∷ es) = elim (Bool-cases (q e)) [
  | inl hit ↦ rw hit (inr (e, refl, refl, rw (str_eq_refl e.0) refl))
  | inr miss ↦ rw miss (elim (first_id-select q es) [
    | inl gone ↦ inl gone
    | inr (a, found, same, has) ↦ inr (a, found, same, ground arith)
  ])
]

str_eq-apart : (a b : Str) → str_eq a b ≡ false → str_eq b a ≡ false
str_eq-apart a b h = elim (Bool-cases (str_eq b a)) [
  | inl same ↦ absurd (ground (arith, str_eq_iff b a, str_eq_refl a, str_eq_iff a b))
  | inr apart ↦ apart
]

apart-tail :
    (r : Entry → Bool) (id : Str) (es : List Entry)
    → All (λ x. has_id id x ≡ false) es
    → any_of (λ e. r e && has_id id e) es ≡ false
apart-tail r id [] h = refl
apart-tail r id (e ∷ es) (he, h) = elim (Bool-cases (r e)) [
  | inl hit ↦ rw (hit, he) (apart-tail r id es h)
  | inr miss ↦ rw miss (apart-tail r id es h)
]

-- No entry of another name has the id of the entry that a query finds.
apart-find :
    (q r : Entry → Bool)
    → ((e : Entry) → q e ≡ true → r e ≡ false)
    → (es : List Entry) (a : Entry) → AreDistinct es
    → find_where q es ≡ some a
    → any_of (λ e. r e && has_id a.0 e) es ≡ false
apart-find q r apart [] a d found = cc
apart-find q r apart (e ∷ es) a (de, d) found = elim (Bool-cases (q e)) [
  | inl hit ↦
      let e_is : e ≡ a = Option.some_inj.0 (rw hit at found) in
      rw (apart e hit)
        (subst (λ x. any_of (λ y. r y && has_id x.0 y) es ≡ false) e_is (apart-tail r e.0 es de))
  | inr miss ↦
      let rest = rw miss at found in
      let other =
        str_eq-apart a.0 e.0 (find_where-All (λ x. has_id e.0 x ≡ false) q es a rest de) in
      elim (Bool-cases (r e)) [
        | inl its ↦ rw (its, other) (apart-find q r apart es a d rest)
        | inr not_its ↦ rw not_its (apart-find q r apart es a d rest)
      ]
]

module _ (api : Cloudflare) (zone : Str) where
  -- The zone holds the record.
  abbrev pub Holds : DnsRecord → api.State → Type 0
  Holds r s = any_of (is_record r) (api.entries zone s) ≡ true

  is_record_own : (r : DnsRecord) (id : Str) → is_record r (id, r) ≡ true
  is_record_own r id = rw (str_eq_refl r.type, str_eq_refl r.name, str_eq_refl r.content) refl

  abbrev pub Cleanly : DnsRecord → Report → api.State × Report → Type 0
  Cleanly r report out = (out.1.errors ≢ []) ⊎ ((report.errors ≡ []) × Holds r out.0)

  snoc-ne : (xs : List Str) (x : Str) → xs ++ x ∷ [] ≢ []
  snoc-ne [] x h = cc
  snoc-ne (y ∷ ys) x h = cc

  pub List-cases : (xs : List Str) → (xs ≡ []) ⊎ (xs ≢ [])
  List-cases [] = inl refl
  List-cases (x ∷ xs) = inr (λ h. cc)

  noted-Cleanly :
      (done failing : Str) (r : DnsRecord) (made : api.State × Option Str) (report : Report)
      → (made.1 ≢ none) ⊎ Holds r made.0
      → Cleanly r report (made.0, noted done failing r made.1 report)
  noted-Cleanly done failing r made report h = elim (Option-cases made.1) [
    | inr (e, failed) ↦ inl (rw failed (snoc-ne report.errors _))
    | inl fine ↦ elim (List-cases report.errors) [
      | inr dirty ↦ inl (rw fine dirty)
      | inl clean ↦ elim h [ inl bad ↦ absurd (bad fine) | inr held ↦ inr (clean, held) ]
    ]
  ]

  updated-Holds :
      (r : DnsRecord) (s : api.State)
      → let id = first_id (map (λ e. e.0) (select (is_named r.type r.name) (api.entries zone s))) in
        is_empty id ≡ false
        → any_of (is_record r) (update_where (has_id id) (λ e. (e.0, r)) (api.entries zone s))
          ≡ true
  updated-Holds r s known =
      let es = api.entries zone s in
      elim (first_id-select (is_named r.type r.name) es) [
        | inl none_found ↦ absurd (ground (arith, ap is_empty none_found))
        | inr (a, found, same, has) ↦
            any_of-update_where (has_id _) (is_record r) (λ e. (e.0, r)) (λ e. is_record_own r e.0)
              es (ap (λ i. any_of (has_id i) es) same ∙ has)
      ]

  pub ensure-Cleanly :
      (r : DnsRecord) (s : api.State) (report : Report)
      → Cleanly r report (ensure api zone r (s, report))
  unfolding ensure find_record
  ensure-Cleanly r s report = elim (api.list_law zone r.type r.name s) [
    | inl (e, failed) ↦ inl (rw (ensure, find_record, failed) (snoc-ne report.errors _))
    | inr listed ↦
        let id = first_id (map (λ e. e.0) (select (is_named r.type r.name) (api.entries zone s))) in
        elim (Bool-cases (is_empty id)) [
          | inl gone ↦
              rw (ensure, find_record, listed, gone)
                (noted-Cleanly (codes "Created") (codes "create") r (api.create zone r s) report
                  (elim (api.create_law zone r s) [
                    | inl (bad, same) ↦ inl bad
                    | inr (new, fine, rows) ↦ inr (
                        rw (rows, any_of-append (is_record r) (api.entries zone s) ((new, r) ∷ []))
                          (ground (arith, is_record_own r new)))
                  ]))
          | inr known ↦
              rw (ensure, find_record, listed, known)
                (noted-Cleanly (codes "Updated") (codes "update") r (api.update zone id r s) report
                  (elim (api.update_law zone id r s) [
                    | inl (bad, same) ↦ inl bad
                    | inr (fine, rows) ↦ inr (rw rows (updated-Holds r s known))
                  ]))
        ]
  ]

  names-apart :
      (r other : DnsRecord) (e : Entry)
      → str_eq other.name r.name ≡ false
      → is_named r.type r.name e ≡ true
      → is_record other e ≡ false
  names-apart r other e apart q = elim (Bool-cases (str_eq e.1.name other.name)) [
    | inr no_match ↦ ground arith
    | inl matches ↦
        let its = (str_eq_iff e.1.name other.name).0 matches in
        let own = (str_eq_iff e.1.name r.name).0 (ground arith) in
        absurd (ground (arith, (str_eq_iff other.name r.name).1 (sym its ∙ own)))
  ]

  -- A record of another name stays.
  pub ensure-Holds :
      (r other : DnsRecord) (s : api.State) (report : Report)
      → str_eq other.name r.name ≡ false
      → Holds other s
      → Holds other (ensure api zone r (s, report)).0
  unfolding ensure find_record
  ensure-Holds r other s report apart held = elim (api.list_law zone r.type r.name s) [
    | inl (e, failed) ↦ rw (ensure, find_record, failed) held
    | inr listed ↦
        let es = api.entries zone s in
        let id = first_id (map (λ e. e.0) (select (is_named r.type r.name) es)) in
        elim (Bool-cases (is_empty id)) [
          | inl gone ↦
              rw (ensure, find_record, listed, gone)
                (elim (api.create_law zone r s) [
                  | inl (bad, same) ↦ rw same held
                  | inr (new, fine, rows) ↦
                      rw (rows, any_of-append (is_record other) es ((new, r) ∷ []), held) refl
                ])
          | inr known ↦
              rw (ensure, find_record, listed, known)
                (elim (api.update_law zone id r s) [
                  | inl (bad, same) ↦ rw same held
                  | inr (fine, rows) ↦ rw rows (elim (first_id-select (is_named r.type r.name) es) [
                    | inl none_found ↦ absurd (ground (arith, ap is_empty none_found))
                    | inr (a, found, same, has) ↦
                        any_of-update_other (has_id id) (is_record other) (λ e. (e.0, r)) es
                          (ap (λ i. any_of (λ e. is_record other e && has_id i e) es) same
                            ∙ apart-find (is_named r.type r.name) (is_record other)
                                (λ e q. names-apart r other e apart q) es a
                                (api.distinct_law zone s) found)
                          held
                  ])
                ])
        ]
  ]
