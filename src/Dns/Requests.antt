-- ===== src/Dns/Requests.antt =====
-- The requests that cloudflare.go makes: `do` and the functions that call it. The transport and the
-- functions of package json are arguments; a URL with no scheme is refused by the transport.
use delivery_api.Base.{
  ℕ, ◌≤◌, ◌≡◌, ◌⊎◌, refl, inl, inr, arith, true, false, Option, none, some, List, [], ◌∷◌, ◌++◌,
  Str, codes, ltb, leb, if◌then◌else◌, is_empty, take, length, length-take-le, decimal,
}
use delivery_api.Dns.{Zone, DnsRecord, first_id, join_dots, split_dots}

-- A request, without the fixed Content-Type.
pub record Request : Type 0 where
  pub method : Str
  pub url : Str
  pub body : Option Str
  pub authorization : Str

-- The answer is the status with the body, or the error's text. The decoders give the error's text,
-- or the zones and the ids of the records in the member `result`.
pub record Wire : Type 1 where
  pub State : Type 0
  pub send : Request → State → State × (Str ⊎ (ℕ × Str))
  pub read_zones : Str → Str ⊎ List Zone
  pub read_ids : Str → Str ⊎ List Str
  pub write_record : DnsRecord → Str

-- min of cloudflare.go
pub min : ℕ → ℕ → ℕ
min a b = if ltb a b then a else b

abbrev cf_api : Str
cf_api = codes "https://api.cloudflare.com/client/v4"

-- What `do` makes of the answer.
pub answer_of : Str → Str → Str ⊎ (ℕ × Str) → Str ⊎ Str
unfolding min
answer_of method path (inl e) = inl e
answer_of method path (inr (status, bytes)) =
    if leb 400 status
    then inl (
        codes "cloudflare API "
        ++ method
        ++ codes " "
        ++ path
        ++ codes ": "
        ++ decimal status
        ++ codes " "
        ++ take (min (length bytes) 200) bytes)
    else inr bytes

module _ (wire : Wire) (token : Str) where
  pub do_request : Str → Str → Option Str → wire.State → wire.State × (Str ⊎ Str)
  unfolding answer_of
  do_request method path body s =
      let (s', answer) =
        wire.send
          (record {
            method = method;
            url = cf_api ++ path;
            body = body;
            authorization = codes "Bearer " ++ token;
          })
          s in
      (s', answer_of method path answer)

  -- getZone; `inr none` is no zone.
  pub request_zone : Str → wire.State → wire.State × (Str ⊎ Option Zone)
  unfolding do_request
  request_zone name s =
      let (s', answer) =
        do_request (codes "GET") (codes "/zones?name=" ++ name ++ codes "&status=active") none s in
      (
        s',
        elim answer [
          | inl e ↦ inl e
          | inr bytes ↦ elim (wire.read_zones bytes) [
            | inl e ↦ inl e
            | inr zones ↦ elim zones [ [] ↦ inr none | z ∷ zs ↦ inr (some z) ]
          ]
        ],
      )

  -- findRecord
  pub request_record : Str → Str → Str → wire.State → wire.State × (Str ⊎ Str)
  unfolding do_request
  request_record zone type name s =
      let (s', answer) =
        do_request (codes "GET")
          (codes "/zones/" ++ zone ++ codes "/dns_records?type=" ++ type ++ codes "&name=" ++ name)
          none s in
      (
        s',
        elim answer [
          | inl e ↦ inl e
          | inr bytes ↦ elim (wire.read_ids bytes) [ inl e ↦ inl e | inr ids ↦ inr (first_id ids) ]
        ],
      )

  abbrev error_of : Str ⊎ Str → Option Str
  error_of (inl e) = some e
  error_of (inr bytes) = none

  -- createRecord and updateRecord
  pub request_create : Str → DnsRecord → wire.State → wire.State × Option Str
  unfolding do_request
  request_create zone r s =
      let (s', answer) =
        do_request (codes "POST") (codes "/zones/" ++ zone ++ codes "/dns_records")
          (some (wire.write_record r)) s in
      (s', error_of answer)

  pub request_update : Str → Str → DnsRecord → wire.State → wire.State × Option Str
  unfolding do_request
  request_update zone id r s =
      let (s', answer) =
        do_request (codes "PUT") (codes "/zones/" ++ zone ++ codes "/dns_records/" ++ id)
          (some (wire.write_record r)) s in
      (s', error_of answer)

  -- FindZone, request by request
  pub request_zones : List Str → wire.State → wire.State × Option Zone
  unfolding request_zone join_dots
  request_zones [] s = (s, none)
  request_zones (part ∷ []) s = (s, none)
  request_zones (part ∷ next ∷ parts) s =
      let (s', answer) = request_zone (join_dots (part ∷ next ∷ parts)) s in
      elim answer [
        | inl e ↦ request_zones (next ∷ parts) s'
        | inr found ↦ elim found [
          | none ↦ request_zones (next ∷ parts) s'
          | some zone ↦ (s', some zone)
        ]
      ]

  -- The loop of RemoveDomainRecords
  pub remove_records : Str → List (Str × Str) → wire.State → wire.State
  unfolding request_record
  remove_records zone [] s = s
  remove_records zone ((type, name) ∷ names) s =
      let (s', answer) = request_record zone type name s in
      elim answer [
        | inl e ↦ remove_records zone names s'
        | inr id ↦ elim (is_empty id) [
          | true ↦ remove_records zone names s'
          | false ↦
              remove_records zone names
                (do_request (codes "DELETE")
                  (codes "/zones/" ++ zone ++ codes "/dns_records/" ++ id) none s').0
        ]
      ]

  -- RemoveDomainRecords; the error, if any
  pub remove_domain_records : Str → Str → wire.State → wire.State × Option Str
  unfolding request_zones split_dots remove_records
  remove_domain_records domain selector s =
      let (s', found) = request_zones (split_dots domain) s in
      elim found [
        | none ↦ (s', some (codes "no Cloudflare zone found for " ++ domain))
        | some zone ↦ (
          remove_records zone.id
              ((codes "TXT", selector ++ codes "._domainkey." ++ domain)
                ∷ (codes "TXT", codes "_dmarc." ++ domain)
                ∷ [])
              s',
          none,
        )
      ]

min-le : (a b : ℕ) → min a b ≤ b
unfolding min
min-le a b = ground arith

-- The error of a request quotes at most 200 bytes of the answer.
pub answer_of-length :
    (method path bytes : Str) (status : ℕ)
    → 400 ≤ status
    → (quoted : Str) × (before : Str) × (answer_of method path (inr (status, bytes))
        ≡ inl (before ++ quoted))
      × (length quoted ≤ 200)
unfolding answer_of
answer_of-length method path bytes status bad =
    let refused : leb 400 status ≡ true = ground arith in
    (
      take (min (length bytes) 200) bytes,
      codes "cloudflare API "
          ++ method
          ++ codes " "
          ++ path
          ++ codes ": "
          ++ decimal status
          ++ codes " ",
      rw refused refl,
      omega (arith, length-take-le (min (length bytes) 200) bytes, min-le (length bytes) 200),
    )
