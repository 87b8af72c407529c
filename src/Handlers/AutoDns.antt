-- ===== src/Handlers/AutoDns.antt =====
-- CheckDNSProvider and AutoSetupDNS of internal/handlers/domains.go. The name servers of a domain
-- and the API of Cloudflare are arguments.
pub mod Published
pub mod Tests
use delivery_api.Base.{
  ℕ, Bool, true, false, ◌&&◌, Option, none, some, List, [], ◌∷◌, map, Str, codes, if◌then◌else◌,
  contains, to_lower, is_empty,
}
use delivery_api.Models.{SendingDomain, DomainStatus, verified}
use delivery_api.Db.{Database}
use delivery_api.Dns.{Cloudflare, Report, setup_domain_records}
use delivery_api.Handlers.Reply.{Reply, reply, error}
use delivery_api.Handlers.Domains.{owned, save}

pub record Provider : Type 0 where
  pub domain : Str
  pub provider : Str
  pub cloudflare : Bool
  pub nameservers : List Str
  pub auto_dns : Bool

-- One round of the loop over the name servers.
abbrev pub told : Str → Str × Bool → Str × Bool
told server seen =
    let host = to_lower server in
    if contains host (codes "cloudflare")
    then (codes "cloudflare", true)
    else if contains host (codes "porkbun")
    then (codes "porkbun", seen.1)
    else if contains host (codes "google")
    then (codes "google", seen.1)
    else if contains host (codes "awsdns")
    then (codes "aws", seen.1)
    else seen

pub guess : List Str → Str × Bool → Str × Bool
unfolding to_lower contains
guess [] seen = seen
guess (server ∷ servers) seen = guess servers (told server seen)

-- The body of an answer that shows a domain, what was created, and the errors.
pub record SetUp : Type 0 where
  pub domain : SendingDomain
  pub created : List Str
  pub errors : List Str

-- The row that counts as verified after the set-up.
pub trusted : SendingDomain → SendingDomain
trusted d = record d {
  dkim_verified = true;
  spf_verified = true;
  dmarc_verified = true;
  status = verified;
}

module _ (db : Database) where
  -- `servers` are those that LookupNS gives for a domain; `configured`: there is a client.
  pub check_dns_provider : (Str → List Str) → Bool → ℕ → Str → db.domains.State → Reply Provider
  unfolding guess
  check_dns_provider servers configured id user s = elim (db.domains.first (owned db id user) s) [
    | none ↦ error 404 (codes "domain not found")
    | some d ↦
        let found = guess (servers d.domain) (codes "unknown", false) in
        reply 200 (record {
          domain = d.domain;
          provider = found.0;
          cloudflare = found.1;
          nameservers = servers d.domain;
          auto_dns = found.1 && configured;
        })
  ]

  module _ (api : Cloudflare) where
    abbrev pub Both : Type 0
    Both = db.domains.State × api.State

    pub settle : SendingDomain → db.domains.State → api.State × Report → Both × Reply SetUp
    unfolding trusted
    settle d s (cf, report) = elim report.errors [
      | [] ↦ (
        (save db (trusted d) s, cf),
        reply 200 (record { domain = trusted d; created = report.created; errors = [] }),
      )
      | e ∷ es ↦
          ((s, cf), reply 200 (record { domain = d; created = report.created; errors = e ∷ es }))
    ]

    pub auto_setup_dns : Bool → Str → ℕ → Str → Both → Both × Reply SetUp
    unfolding settle
    auto_setup_dns false ip id user w =
        (w, error 400 (codes "Cloudflare integration not configured"))
    auto_setup_dns true ip id user (s, cf) = elim (db.domains.first (owned db id user) s) [
      | none ↦ ((s, cf), error 404 (codes "domain not found"))
      | some d ↦
          settle d s (setup_domain_records api d.domain d.dkim_selector d.dkim_public_key ip cf)
    ]
