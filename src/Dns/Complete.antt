-- ===== src/Dns/Complete.antt =====
-- The set-up of a domain as a whole.
use delivery_api.Base.{
  ◌+◌, ◌≡◌, ◌≢◌, refl, sym, ◌∙◌, ap, inl, inr, arith, false, none, some, [], ◌++◌, Str, Bool-cases,
  Option-cases, str_eq, str_eq_iff, length, length-append, codes,
}
use delivery_api.Dns.{
  Zone, Cloudflare, Report, dkim_record, spf_record, dmarc_record, find_zone, ensure,
  setup_domain_records,
}
use delivery_api.Dns.Setup.{Holds, ensure-Cleanly, ensure-Holds}

pub str_eq-length : (a b : Str) → length a ≢ length b → str_eq a b ≡ false
str_eq-length a b apart = elim (Bool-cases (str_eq a b)) [
  | inl same ↦ absurd (apart (ap length ((str_eq_iff a b).0 same)))
  | inr other ↦ other
]

module _ (selector key ip domain : Str) where
  long_name :
      length (selector ++ codes "._domainkey." ++ domain) ≡ length selector + 12 + length domain
  long_name =
      let outer = length-append (selector ++ codes "._domainkey.") domain in
      let inner = length-append selector (codes "._domainkey.") in omega (arith, outer, inner)

  dkim-spf : str_eq (dkim_record selector key domain).name (spf_record ip domain).name ≡ false
  unfolding dkim_record spf_record
  dkim-spf =
      str_eq-length (selector ++ codes "._domainkey." ++ domain) domain
        (λ e. let same = sym long_name ∙ e in omega (arith, same))

  dkim-dmarc : str_eq (dkim_record selector key domain).name (dmarc_record domain).name ≡ false
  unfolding dkim_record dmarc_record
  dkim-dmarc =
      str_eq-length (selector ++ codes "._domainkey." ++ domain) (codes "_dmarc." ++ domain)
        (λ e. let same = sym long_name ∙ e in omega (arith, same))

  spf-dmarc : str_eq (spf_record ip domain).name (dmarc_record domain).name ≡ false
  unfolding spf_record dmarc_record
  spf-dmarc = str_eq-length _ _ (λ e. omega (arith, e))

module _ (api : Cloudflare) (domain selector key ip : Str) (s : api.State) where
  abbrev blank : api.State × Report
  blank = (s, record { created = []; errors = [] })

  abbrev HoldsAll : Zone → api.State → Type 0
  HoldsAll zone s' =
      Holds api zone.id (dkim_record selector key domain) s'
      × Holds api zone.id (spf_record ip domain) s'
      × Holds api zone.id (dmarc_record domain) s'

  three-HoldsAll :
      (zone : Zone)
      → let dkim = ensure api zone.id (dkim_record selector key domain) blank in
        let spf = ensure api zone.id (spf_record ip domain) dkim in
        let dmarc = ensure api zone.id (dmarc_record domain) spf in
        dmarc.1.errors ≡ [] → HoldsAll zone dmarc.0
  three-HoldsAll zone clean =
      let z = zone.id in
      let d = dkim_record selector key domain in
      let f = spf_record ip domain in
      let m = dmarc_record domain in
      let dkim = ensure api z d blank in
      let spf = ensure api z f dkim in
      elim (ensure-Cleanly api z m spf.0 spf.1) [
        | inl dirty ↦ absurd (dirty clean)
        | inr (clean', has_m) ↦ elim (ensure-Cleanly api z f dkim.0 dkim.1) [
          | inl dirty ↦ absurd (dirty clean')
          | inr (clean'', has_f) ↦ elim (ensure-Cleanly api z d blank.0 blank.1) [
            | inl dirty ↦ absurd (dirty clean'')
            | inr (_, has_d) ↦ (
              ensure-Holds api z m d spf.0 spf.1 (dkim-dmarc selector key ip domain)
                  (ensure-Holds api z f d dkim.0 dkim.1 (dkim-spf selector key ip domain) has_d),
              ensure-Holds api z m f spf.0 spf.1 (spf-dmarc selector key ip domain) has_f,
              has_m,
            )
          ]
        ]
      ]

  no_zone :
      find_zone api domain s ≡ none
      → (setup_domain_records api domain selector key ip s).1.errors ≢ []
  unfolding setup_domain_records
  no_zone gone = rw (setup_domain_records, gone) (λ h. cc)

  -- When the set-up reports no error, the zone that was found for the domain holds the record of
  -- the key, that of SPF and that of DMARC, whatever stood there before.
  pub setup_domain_records-Holds :
      (setup_domain_records api domain selector key ip s).1.errors ≡ []
      → (zone : Zone) × (find_zone api domain s ≡ some zone)
        × Holds api zone.id
            (dkim_record selector key domain)
            (setup_domain_records api domain selector key ip s).0
        × Holds api zone.id
            (spf_record ip domain)
            (setup_domain_records api domain selector key ip s).0
        × Holds api zone.id
            (dmarc_record domain)
            (setup_domain_records api domain selector key ip s).0
  unfolding setup_domain_records
  setup_domain_records-Holds clean = elim (Option-cases (find_zone api domain s)) [
    | inl gone ↦ absurd (no_zone gone clean)
    | inr (zone, found) ↦
        let opened : setup_domain_records api domain selector key ip s
            ≡ ensure api zone.id (dmarc_record domain) (
                ensure api zone.id (spf_record ip domain)
                  (ensure api zone.id (dkim_record selector key domain) blank)) =
          rw (setup_domain_records, found) refl in
        let (dkim, spf, dmarc) = three-HoldsAll zone (rw opened at clean) in
        (zone, found, rw opened dkim, rw opened spf, rw opened dmarc)
  ]
