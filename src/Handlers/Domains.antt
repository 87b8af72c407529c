-- ===== src/Handlers/Domains.antt =====
-- internal/handlers/domains.go (creating, verifying, deleting) and the verification of admin.go.
-- The key generator and the DNS are arguments; a panic, after which net/http closes the connection,
-- is an answer of its own.
pub mod Verification
pub mod Ownership
pub mod Signing
pub mod Tests
use delivery_api.Base.{
  ℕ, Bool, true, false, not, ◌&&◌, ◌||◌, Option, none, some, List, [], ◌∷◌, ◌++◌, Str, codes, ltb,
  ◌==◌, if◌then◌else◌, is_empty, str_eq, contains, to_lower, trim_space, take, length, any_of,
  get_or,
}
use delivery_api.Models.{SendingDomain, DomainStatus, pending, verified}
use delivery_api.Db.{Database}

pub record DnsRecord : Type 0 where
  pub type : Str
  pub name : Str
  pub value : Str
  pub purpose : Str
  pub verified : Bool

-- Cfg, LookupTXT (no records on an error), and GenerateDKIMKeyPair with its two texts.
pub record Env : Type 0 where
  pub server_ip : Str
  pub hostname : Str
  pub dkim_selector : Str
  pub lookup_txt : Str → List Str
  pub generate : Option (Str × Str)

-- The body of an answer that shows a domain.
pub record DomainView : Type 0 where
  pub domain : SendingDomain
  pub dns_records : List DnsRecord

pub data Answer : Type 0 where
  shown : ℕ → DomainView → Answer
  deleted : Str → Answer
  failed : ℕ → Str → Answer
  panicked : Answer

pub dkim_host : SendingDomain → Str
dkim_host d = d.dkim_selector ++ codes "._domainkey." ++ d.domain

-- dnsRecords
pub dns_records : Env → SendingDomain → List DnsRecord
unfolding dkim_host
dns_records env d =
    record {
      type = codes "TXT";
      name = dkim_host d;
      value = codes "v=DKIM1; k=rsa; p=" ++ d.dkim_public_key;
      purpose = codes "DKIM";
      verified = d.dkim_verified;
    }
    ∷ record {
      type = codes "TXT";
      name = d.domain;
      value = codes "v=spf1 ip4:" ++ env.server_ip ++ codes " ~all";
      purpose = codes "SPF";
      verified = d.spf_verified;
    }
    ∷ record {
      type = codes "TXT";
      name = codes "_dmarc." ++ d.domain;
      value = codes "v=DMARC1; p=quarantine; rua=mailto:dmarc@" ++ d.domain;
      purpose = codes "DMARC";
      verified = d.dmarc_verified;
    }
    ∷ []

abbrev pub view : Env → SendingDomain → DomainView
view env d = record { domain = d; dns_records = dns_records env d }

-- The loop over the records of the DKIM host; slicing a key of fewer than 40 bytes panics.
pub find_key : Str → List Str → Option Bool
find_key key [] = some false
find_key key (txt ∷ txts) =
    if ltb (length key) 40 then none else some (any_of (λ t. contains t (take 40 key)) (txt ∷ txts))

-- The same loop of admin.go, which takes a short key whole.
pub admin_find_key : Str → List Str → Bool
admin_find_key key = any_of (λ t. contains t (if ltb 40 (length key) then take 40 key else key))

pub spf_passes : Env → SendingDomain → Bool
spf_passes env d =
    any_of
      (λ t. contains t (codes "v=spf1") && (contains t env.server_ip || contains t env.hostname))
      (env.lookup_txt d.domain)

pub dmarc_passes : Env → SendingDomain → Bool
dmarc_passes env d =
    any_of (λ t. contains t (codes "v=DMARC1")) (env.lookup_txt (codes "_dmarc." ++ d.domain))

-- The row with the results of the checks.
pub checked : Env → Bool → SendingDomain → SendingDomain
checked env dkim d = record d {
  dkim_verified = dkim;
  spf_verified = spf_passes env d;
  dmarc_verified = dmarc_passes env d;
  status = if dkim && spf_passes env d then verified else pending;
}

pub new_domain : Env → Str → Str → Str × Str → SendingDomain
new_domain env user name keys = record {
  id = 0;
  user_id = user;
  domain = name;
  status = pending;
  dkim_private_key = keys.0;
  dkim_public_key = keys.1;
  dkim_selector = env.dkim_selector;
  spf_verified = false;
  dkim_verified = false;
  dmarc_verified = false;
  return_path_verified = false;
  last_verified_at = none;
  created_at = 0;
}

abbrev pub normal : Str → Str
normal name = to_lower (trim_space name)

module _ (db : Database) where
  abbrev pub owned : ℕ → Str → SendingDomain → Bool
  owned id user d = (d.id == id) && str_eq d.user_id user

  abbrev pub numbered : ℕ → SendingDomain → Bool
  numbered id d = d.id == id

  -- Save writes all columns of the row that was read.
  pub save : SendingDomain → db.domains.State → db.domains.State
  save d s = (db.domains.update (numbered d.id) (λ _. d) s).0

  -- VerifyDomain
  pub verify_domain : Env → ℕ → Str → db.domains.State → db.domains.State × Answer
  unfolding find_key checked save
  verify_domain env id user s = elim (db.domains.first (owned id user) s) [
    | none ↦ (s, failed 404 (codes "domain not found"))
    | some d ↦ elim (find_key d.dkim_public_key (env.lookup_txt (dkim_host d))) [
      | none ↦ (s, panicked)
      | some dkim ↦ (save (checked env dkim d) s, shown 200 (view env (checked env dkim d)))
    ]
  ]

  -- AdminVerifyDomain and adminVerifyDomainRecord
  pub admin_verify_domain : Env → ℕ → db.domains.State → db.domains.State × Answer
  unfolding admin_find_key checked save
  admin_verify_domain env id s = elim (db.domains.first (numbered id) s) [
    | none ↦ (s, failed 404 (codes "domain not found"))
    | some d ↦
        let dkim = admin_find_key d.dkim_public_key (env.lookup_txt (dkim_host d)) in
        (save (checked env dkim d) s, shown 200 (view env (checked env dkim d)))
  ]

  abbrev pub named : Str → SendingDomain → Bool
  named name d = str_eq d.domain name

  -- CreateDomain; a body that cannot be decoded is `none`.
  pub create_domain : Env → Str → Option Str → db.domains.State → db.domains.State × Answer
  unfolding new_domain
  create_domain env user body s =
      if is_empty (get_or body [])
      then (s, failed 400 (codes "domain is required"))
      else (let name = normal (get_or body []) in
          if ltb 0 (get_or (db.domains.count (named name) s) 0)
          then (s, failed 409 (codes "domain already registered"))
          else elim env.generate [
            | none ↦ (s, failed 500 (codes "failed to generate DKIM keys"))
            | some keys ↦
                let made = db.domains.create (new_domain env user name keys) s in
                elim made.1 [
                  | none ↦ (made.0, failed 500 (codes "failed to create domain"))
                  | some d ↦ (made.0, shown 201 (view env d))
                ]
          ])

  -- DeleteDomain, whose deletion may fail unseen
  pub delete_domain : ℕ → Str → db.domains.State → db.domains.State × Answer
  delete_domain id user s = elim (db.domains.first (owned id user) s) [
    | none ↦ (s, failed 404 (codes "domain not found"))
    | some d ↦ ((db.domains.delete (numbered d.id) s).0, deleted d.domain)
  ]
