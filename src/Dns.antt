-- ===== src/Dns.antt =====
-- internal/dns/cloudflare.go: finding the zone of a domain and setting up its records. The API is a
-- parameter, with its documented behaviour as laws: what a request answers once `do` and the
-- decoding are through, or the text of their error.
pub mod Setup
pub mod Complete
pub mod Paper
pub mod Requests
pub mod Tests
use delivery_api.Base.{
  ℕ, ◌≡◌, ◌≢◌, ◌⊎◌, inl, inr, Bool, true, false, ◌&&◌, Option, none, some, List, [], ◌∷◌, ◌++◌, map,
  Str, codes, ◌==◌, if◌then◌else◌, is_empty, str_eq, select, update_where, All,
}

pub record Zone : Type 0 where
  pub id : Str
  pub name : Str

pub record DnsRecord : Type 0 where
  pub type : Str
  pub name : Str
  pub content : Str
  pub ttl : ℕ

-- A record of a zone with its id.
abbrev pub Entry : Type 0
Entry = Str × DnsRecord

abbrev pub is_named : Str → Str → Entry → Bool
is_named type name e = str_eq e.1.type type && str_eq e.1.name name

abbrev pub has_id : Str → Entry → Bool
has_id id e = str_eq e.0 id

abbrev pub AreDistinct : List Entry → Type 0
AreDistinct [] = Unit
AreDistinct (e ∷ es) = All (λ x. has_id e.0 x ≡ false) es × AreDistinct es

pub record Cloudflare : Type 1 where
  pub State : Type 0
  -- The records of the zone with the id.
  pub entries : Str → State → List Entry
  pub zones : Str → State → Str ⊎ List Zone
  -- The ids of the records of a zone with a type and a name.
  pub list : Str → Str → Str → State → Str ⊎ List Str
  -- The error is the text, if any.
  pub create : Str → DnsRecord → State → State × Option Str
  pub update : Str → Str → DnsRecord → State → State × Option Str
  pub distinct_law : (zone : Str) (s : State) → AreDistinct (entries zone s)
  pub list_law :
      (zone type name : Str) (s : State)
      → ((e : Str) × (list zone type name s ≡ inl e))
        ⊎ (list zone type name s
            ≡ inr (map (λ e. e.0) (select (is_named type name) (entries zone s))))
  pub create_law :
      (zone : Str) (r : DnsRecord) (s : State)
      → (((create zone r s).1 ≢ none) × (entries zone (create zone r s).0 ≡ entries zone s))
        ⊎ ((id : Str) × ((create zone r s).1 ≡ none)
            × (entries zone (create zone r s).0 ≡ entries zone s ++ (id, r) ∷ []))
  pub update_law :
      (zone id : Str) (r : DnsRecord) (s : State)
      → (((update zone id r s).1 ≢ none) × (entries zone (update zone id r s).0 ≡ entries zone s))
        ⊎ (((update zone id r s).1 ≡ none)
            × (entries zone (update zone id r s).0
                ≡ update_where (has_id id) (λ e. (e.0, r)) (entries zone s)))

-- strings.Split at dots, and strings.Join with dots
pub split_dots : Str → List Str
split_dots [] = [] ∷ []
split_dots (c ∷ s) =
    let rest = split_dots s in
    if c == b'.'
    then [] ∷ rest
    else elim rest [ [] ↦ (c ∷ []) ∷ [] | part ∷ parts ↦ (c ∷ part) ∷ parts ]

pub join_dots : List Str → Str
join_dots [] = []
join_dots (part ∷ []) = part
join_dots (part ∷ next ∷ parts) = part ++ b'.' ∷ join_dots (next ∷ parts)

abbrev pub first_zone : Str ⊎ List Zone → Option Zone
first_zone (inl e) = none
first_zone (inr []) = none
first_zone (inr (z ∷ zs)) = some z

abbrev pub first_id : List Str → Str
first_id [] = []
first_id (id ∷ ids) = id

-- The records that a domain needs.
pub dkim_record : Str → Str → Str → DnsRecord
dkim_record selector key domain = record {
  type = codes "TXT";
  name = selector ++ codes "._domainkey." ++ domain;
  content = codes "v=DKIM1; k=rsa; p=" ++ key;
  ttl = 3600;
}

pub spf_record : Str → Str → DnsRecord
spf_record ip domain = record {
  type = codes "TXT";
  name = domain;
  content = codes "v=spf1 ip4:" ++ ip ++ codes " include:delivery.lisaos.dev ~all";
  ttl = 3600;
}

pub dmarc_record : Str → DnsRecord
dmarc_record domain = record {
  type = codes "TXT";
  name = codes "_dmarc." ++ domain;
  content = codes "v=DMARC1; p=quarantine; rua=mailto:dmarc@" ++ domain;
  ttl = 3600;
}

-- What the set-up says it did, and its errors.
pub record Report : Type 0 where
  pub created : List Str
  pub errors : List Str

abbrev pub worded : Str → DnsRecord → Str
worded verb r = verb ++ codes " " ++ r.type ++ codes " " ++ r.name

abbrev pub noted : Str → Str → DnsRecord → Option Str → Report → Report
noted done failing r none report = record report { created = report.created ++ worded done r ∷ [] }
noted done failing r (some e) report = record report {
  errors = report.errors ++ (worded failing r ++ codes ": " ++ e) ∷ [];
}

module _ (api : Cloudflare) where
  pub get_zone : Str → api.State → Option Zone
  get_zone name s = first_zone (api.zones name s)

  -- The loop over the domain and its parents.
  pub try_zones : List Str → api.State → Option Zone
  unfolding get_zone join_dots
  try_zones [] s = none
  try_zones (part ∷ []) s = none
  try_zones (part ∷ next ∷ parts) s = elim (get_zone (join_dots (part ∷ next ∷ parts)) s) [
    | some zone ↦ some zone
    | none ↦ try_zones (next ∷ parts) s
  ]

  -- FindZone; an error is `none`.
  pub find_zone : Str → api.State → Option Zone
  unfolding try_zones split_dots
  find_zone domain s = try_zones (split_dots domain) s

  -- findRecord; the empty text is no record.
  pub find_record : Str → Str → Str → api.State → Str ⊎ Str
  find_record zone type name s = elim (api.list zone type name s) [
    | inl e ↦ inl e
    | inr ids ↦ inr (first_id ids)
  ]

  -- The body of the loop of SetupDomainRecords.
  pub ensure : Str → DnsRecord → api.State × Report → api.State × Report
  unfolding find_record
  ensure zone r (s, report) = elim (find_record zone r.type r.name s) [
    | inl e ↦ (s, noted [] (codes "check") r (some e) report)
    | inr id ↦
        if is_empty id
        then (let made = api.create zone r s in
            (made.0, noted (codes "Created") (codes "create") r made.1 report))
        else (let made = api.update zone id r s in
            (made.0, noted (codes "Updated") (codes "update") r made.1 report))
  ]

  pub setup_domain_records : Str → Str → Str → Str → api.State → api.State × Report
  unfolding find_zone ensure dkim_record spf_record dmarc_record
  setup_domain_records domain selector key ip s = elim (find_zone domain s) [
    | none ↦ (
      s,
      record {
        created = [];
        errors = (codes "zone lookup: no Cloudflare zone found for " ++ domain) ∷ [];
      },
    )
    | some zone ↦ ensure zone.id (dmarc_record domain) (
        ensure zone.id (spf_record ip domain) (
          ensure zone.id (dkim_record selector key domain)
            (s, record { created = []; errors = [] })))
  ]
