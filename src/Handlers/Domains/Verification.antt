-- ===== src/Handlers/Domains/Verification.antt =====
-- When a domain counts as verified.
use mathlib.Core.List.{Mem}
use delivery_api.Base.{
  IsPart, contains_iff, any_of-Mem, Mem-any_of, ◌⊎◌, ◌++◌, codes, ◌&&◌, ◌||◌, ℕ, ap, if◌then◌else◌,
  ◌≤◌, ◌<◌, ◌≡◌, ◌↔◌, ◌∙◌, sym, refl, inl, inr, Bool, true, false, Option, some, Bool-cases, List,
  [], ◌∷◌, Str, arith, length, any_of, take, contains, ltb, find_where, update_where,
  find_where-both, take_all, str_eq, str_eq_iff,
}
use delivery_api.Models.{SendingDomain, verified}
use delivery_api.Db.{Database, IsLive}
use delivery_api.Handlers.Domains.{
  Env, shown, panicked, view, dkim_host, find_key, admin_find_key, spf_passes, dmarc_passes,
  checked, owned, numbered, save, verify_domain, admin_verify_domain,
}

-- The key is published: some record of the host holds its first 40 bytes.
abbrev pub is_published : Env → SendingDomain → Bool
is_published env d =
    any_of (λ t. contains t (take 40 d.dkim_public_key)) (env.lookup_txt (dkim_host d))

-- What the three checks look for among the TXT records: a record with the first 40 bytes of the key;
-- an SPF record with the address or the name of this server; a DMARC record. The empty text, which an
-- unset address is, stands in every record.
abbrev pub IsPublished : Env → SendingDomain → Type 0
IsPublished env d =
    (t : Str) × Mem t (env.lookup_txt (dkim_host d)) × IsPart (take 40 d.dkim_public_key) t

abbrev pub NamesServer : Env → SendingDomain → Type 0
NamesServer env d =
    (t : Str) × Mem t (env.lookup_txt d.domain)
    × IsPart (codes "v=spf1") t
    × (IsPart env.server_ip t ⊎ IsPart env.hostname t)

abbrev pub HasDmarc : Env → SendingDomain → Type 0
HasDmarc env d =
    (t : Str) × Mem t (env.lookup_txt (codes "_dmarc." ++ d.domain)) × IsPart (codes "v=DMARC1") t

-- The row after the checks: nothing but their results differs.
pub record IsChecked (env : Env) (d d' : SendingDomain) : Type 0 where
  pub others : d' ≡ record d {
    dkim_verified = d'.dkim_verified;
    spf_verified = d'.spf_verified;
    dmarc_verified = d'.dmarc_verified;
    status = d'.status;
  }
  pub dkim : (d'.dkim_verified ≡ true) ↔ IsPublished env d
  pub spf : (d'.spf_verified ≡ true) ↔ NamesServer env d
  pub dmarc : (d'.dmarc_verified ≡ true) ↔ HasDmarc env d
  pub status : (d'.status ≡ verified) ↔ (IsPublished env d × NamesServer env d)

-- A test of records that looks for a text.
any_of-contains_iff :
    (p : Str) (txts : List Str)
    → (any_of (λ t. contains t p) txts ≡ true) ↔ ((t : Str) × Mem t txts × IsPart p t)
any_of-contains_iff p txts = (
  λ h. (let (t, m, e) = Mem-any_of (λ t. contains t p) txts h in (t, m, (contains_iff t p).0 e)),
  λ part.
      (let (t, m, e) = part in any_of-Mem (λ t. contains t p) t txts m ((contains_iff t p).1 e)),
)

spf_passes_iff : (env : Env) (d : SendingDomain) → (spf_passes env d ≡ true) ↔ NamesServer env d
unfolding spf_passes
spf_passes_iff env d =
    let test = λ (t : Str).
      contains t (codes "v=spf1") && (contains t env.server_ip || contains t env.hostname) in
    (
      λ h.
          (let (t, m, e) = Mem-any_of test (env.lookup_txt d.domain) h in
            (
              t,
              m,
              (contains_iff t (codes "v=spf1")).0 (ground arith),
              elim (Bool-cases (contains t env.server_ip)) [
                | inl ip ↦ inl ((contains_iff t env.server_ip).0 ip)
                | inr no_ip ↦ inr ((contains_iff t env.hostname).0 (ground arith))
              ],
            )),
      λ part.
          (let (t, m, spf, name) = part in
            let has_spf = (contains_iff t (codes "v=spf1")).1 spf in
            any_of-Mem test t (env.lookup_txt d.domain) m (elim name [
              | inl ip ↦
                  let has_ip = (contains_iff t env.server_ip).1 ip in rw (has_spf, has_ip) refl
              | inr host ↦ let has_host = (contains_iff t env.hostname).1 host in ground (arith)
            ])),
    )

find_key-long :
    (key : Str) (txts : List Str)
    → 40 ≤ length key
    → find_key key txts ≡ some (any_of (λ t. contains t (take 40 key)) txts)
unfolding find_key
find_key-long key [] long = refl
find_key-long key (t ∷ ts) long =
    let enough : ltb (length key) 40 ≡ false = ground arith in rw (find_key, enough) refl

prefix_long :
    (key : Str) → 40 ≤ length key → (if ltb 40 (length key) then take 40 key else key) ≡ take 40 key
prefix_long key long = elim (Bool-cases (ltb 40 (length key))) [
  | inl more ↦ rw more refl
  | inr exact ↦ rw exact (sym (take_all 40 key (ground arith)))
]

admin_find_key_long :
    (key : Str) (txts : List Str)
    → 40 ≤ length key
    → admin_find_key key txts ≡ any_of (λ t. contains t (take 40 key)) txts
unfolding admin_find_key
admin_find_key_long key txts long =
    ap (λ (k : Str). any_of (λ t. contains t k) txts) (prefix_long key long)

-- The row of a number.
abbrev pub domain_at : (db : Database) → ℕ → db.domains.State → Option SendingDomain
domain_at db id s = find_where (numbered db id) (db.domains.rows s)

module _ (db : Database) (live : IsLive db.domains) (env : Env) where
  verify_domain_found :
      (id : ℕ) (user : Str) (s : db.domains.State) (d : SendingDomain)
      → domain_at db id s ≡ some d
      → d.user_id ≡ user
      → 40 ≤ length d.dkim_public_key
      → verify_domain db env id user s ≡ (
        save db (checked env (is_published env d) d) s,
        shown 200 (view env (checked env (is_published env d) d)),
      )
  unfolding verify_domain
  verify_domain_found id user s d here mine long =
      let owner : str_eq d.user_id user ≡ true = (str_eq_iff d.user_id user).1 mine in
      rw
        (
          verify_domain,
          live.first_live (owned db id user) s,
          find_where-both (numbered db id) (λ x. str_eq x.user_id user) (db.domains.rows s) d here
              owner,
          find_key-long d.dkim_public_key (env.lookup_txt (dkim_host d)) long,
        )
        refl

  status_iff :
      (d : SendingDomain) (dkim : Bool)
      → ((checked env dkim d).status ≡ verified) ↔ ((dkim ≡ true) × (spf_passes env d ≡ true))
  unfolding checked
  status_iff d dkim = (λ h. ground arith, λ h. ground arith)

  checked-IsChecked : (d : SendingDomain) → IsChecked env d (checked env (is_published env d) d)
  unfolding checked dmarc_passes
  checked-IsChecked d =
      let key_iff =
        any_of-contains_iff (take 40 d.dkim_public_key) (env.lookup_txt (dkim_host d)) in
      let spf_iff = spf_passes_iff env d in
      let (both, verdict) = status_iff d (is_published env d) in
      record {
        others = refl;
        dkim = key_iff;
        spf = spf_iff;
        dmarc =
            any_of-contains_iff (codes "v=DMARC1") (env.lookup_txt (codes "_dmarc." ++ d.domain));
        status = (
          λ h. (key_iff.0 (both h).0, spf_iff.0 (both h).1),
          λ h. verdict (key_iff.1 h.0, spf_iff.1 h.1),
        );
      }

  -- In a database none of whose calls fails, verifying an owned domain, whose key has 40 bytes or
  -- more, writes the results of the three checks to its row and to no row of another number, and
  -- nothing else; it answers with that row. The row counts as verified exactly when a TXT record of
  -- the key's host has the first 40 bytes of the key and one of the domain has "v=spf1" and the
  -- configured address or host name of this server somewhere in it; an address that is configured as
  -- empty is in every record.
  pub verify_domain-verified_iff :
      (id : ℕ) (user : Str) (s : db.domains.State) (d : SendingDomain)
      → domain_at db id s ≡ some d
      → d.user_id ≡ user
      → 40 ≤ length d.dkim_public_key
      → (d' : SendingDomain) × IsChecked env d d'
        × (db.domains.rows (verify_domain db env id user s).0
            ≡ update_where (numbered db d.id) (λ _. d') (db.domains.rows s))
        × ((verify_domain db env id user s).1 ≡ shown 200 (view env d'))
  unfolding save checked
  verify_domain-verified_iff id user s d here mine long =
      let d' = checked env (is_published env d) d in
      rw (verify_domain_found id user s d here mine long)
        (d', checked-IsChecked d, (live.update_live (numbered db d.id) (λ _. d') s).1, refl)

  -- In a database none of whose calls fails, the verification of the operator and the owner's do
  -- the same for an owned domain whose key has 40 bytes or more.
  pub verify_domain-admin :
      (id : ℕ) (user : Str) (s : db.domains.State) (d : SendingDomain)
      → domain_at db id s ≡ some d
      → d.user_id ≡ user
      → 40 ≤ length d.dkim_public_key
      → verify_domain db env id user s ≡ admin_verify_domain db env id s
  unfolding admin_verify_domain
  verify_domain-admin id user s d here mine long =
      verify_domain_found id user s d here mine long
      ∙ sym (
          rw
            (
              admin_verify_domain,
              live.first_live (numbered db id) s,
              here,
              admin_find_key_long d.dkim_public_key (env.lookup_txt (dkim_host d)) long,
            )
            refl)

  -- In a database none of whose calls fails, verifying an owned domain panics whenever its key is
  -- shorter than 40 bytes and its host has a TXT record.
  pub verify_domain_panics :
      (id : ℕ) (user : Str) (s : db.domains.State) (d : SendingDomain) (txt : Str) (txts : List Str)
      → domain_at db id s ≡ some d
      → d.user_id ≡ user
      → length d.dkim_public_key < 40
      → env.lookup_txt (dkim_host d) ≡ txt ∷ txts
      → verify_domain db env id user s ≡ (s, panicked)
  unfolding verify_domain find_key
  verify_domain_panics id user s d txt txts here mine short host =
      let owner : str_eq d.user_id user ≡ true = (str_eq_iff d.user_id user).1 mine in
      let few : ltb (length d.dkim_public_key) 40 ≡ true = ground arith in
      rw
        (
          verify_domain,
          live.first_live (owned db id user) s,
          find_where-both (numbered db id) (λ x. str_eq x.user_id user) (db.domains.rows s) d here
              owner,
          host,
          find_key,
          few,
        )
        refl
