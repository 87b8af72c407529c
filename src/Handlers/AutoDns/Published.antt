-- ===== src/Handlers/AutoDns/Published.antt =====
-- What an automatic set-up vouches for.
use delivery_api.Base.{
  ℕ, ◌≡◌, ◌⊎◌, refl, inl, inr, Bool, true, false, some, List, [], ◌∷◌, Str, Option-cases,
}
use delivery_api.Models.{SendingDomain}
use delivery_api.Db.{Database}
use delivery_api.Dns.{Cloudflare, Zone, Report, find_zone, dkim_record, spf_record, dmarc_record}
use delivery_api.Dns.Setup.{Holds}
use delivery_api.Dns.Complete.{setup_domain_records-Holds}
use delivery_api.Handlers.Reply.{Reply, reply, error}
use delivery_api.Handlers.Domains.{owned, save}
use delivery_api.Handlers.AutoDns.{SetUp, trusted, Both, settle, auto_setup_dns}

module _ (db : Database) (api : Cloudflare) (ip : Str) where
  -- The zone of the domain holds the three records of the row.
  abbrev pub IsPublished : SendingDomain → api.State → api.State → Type 0
  IsPublished d before after =
      (zone : Zone) × (find_zone api d.domain before ≡ some zone)
      × Holds api zone.id (dkim_record d.dkim_selector d.dkim_public_key d.domain) after
      × Holds api zone.id (spf_record ip d.domain) after
      × Holds api zone.id (dmarc_record d.domain) after

  -- What the handler leaves and answers.
  pub data IsOutcome (user : Str) (id : ℕ) (s : db.domains.State) (cf : api.State)
      : Both db api → Reply SetUp → Type 0 where
    refused : (code : ℕ) (text : Str) → IsOutcome user id s cf (s, cf) (error code text)
    incomplete :
        (d : SendingDomain) (cf' : api.State) (created : List Str) (e : Str) (es : List Str)
        → db.domains.first (owned db id user) s ≡ some d
        → IsOutcome user id s cf
            (s, cf')
            (reply 200 (record { domain = d; created = created; errors = e ∷ es }))
    complete :
        (d : SendingDomain) (cf' : api.State) (created : List Str)
        → db.domains.first (owned db id user) s ≡ some d
        → IsPublished d cf cf'
        → IsOutcome user id s cf
            (save db (trusted d) s, cf')
            (reply 200 (record { domain = trusted d; created = created; errors = [] }))

  settle-IsOutcome :
      (user : Str) (id : ℕ) (s : db.domains.State) (cf : api.State) (d : SendingDomain)
      (r : api.State × Report)
      → db.domains.first (owned db id user) s ≡ some d
      → (r.1.errors ≡ [] → IsPublished d cf r.0)
      → IsOutcome user id s cf (settle db api d s r).0 (settle db api d s r).1
  unfolding settle
  settle-IsOutcome user id s cf d (cf', report) found whole = elim (List-split report.errors) [
    | inl clean ↦ rw (settle, clean) (complete d cf' report.created found (whole clean))
    | inr (e, es, dirty) ↦ rw (settle, dirty) (incomplete d cf' report.created e es found)
  ]
    where
      List-split : (xs : List Str) → (xs ≡ []) ⊎ ((e : Str) × (es : List Str) × (xs ≡ e ∷ es))
      List-split [] = inl refl
      List-split (e ∷ es) = inr (e, es, refl)

  -- Whatever the tables and Cloudflare do, AutoSetupDNS writes a domain as verified only when it is
  -- the caller's and the zone that was found for it holds the row's three records; any other
  -- request leaves the table of domains as it was.
  pub auto_setup_dns-IsOutcome :
      (configured : Bool) (id : ℕ) (user : Str) (s : db.domains.State) (cf : api.State)
      → let r = auto_setup_dns db api configured ip id user (s, cf) in
        IsOutcome user id s cf r.0 r.1
  unfolding auto_setup_dns
  auto_setup_dns-IsOutcome false id user s cf = refused _ _
  auto_setup_dns-IsOutcome true id user s cf =
      elim (Option-cases (db.domains.first (owned db id user) s)) [
        | inl gone ↦ rw (auto_setup_dns, gone) (refused _ _)
        | inr (d, found) ↦
            rw (auto_setup_dns, found)
              (settle-IsOutcome user id s cf d _ found
                (setup_domain_records-Holds api d.domain d.dkim_selector d.dkim_public_key ip cf))
      ]
