-- ===== src/Smtp/Dkim.antt =====
-- internal/smtp/dkim.go, internal/crypto/keys.go (ParsePrivateKey) and main.go (loadDKIMKeys).
-- The map of keys is an association list; the key decoders and the signing library are arguments.
pub mod Keys
pub mod Tests
use delivery_api.Base.{
  Bool, true, false, ◌&&◌, ◌||◌, not, ◌≡◌, ◌∙◌, ◌↔◌, refl, ◌⊎◌, inl, inr, Option, none, some,
  Option-cases, List, [], ◌∷◌, Str, arith, if◌then◌else◌, str_eq, str_eq_iff, to_lower, is_some,
  is_empty,
}
use delivery_api.Models.{SendingDomain, DomainStatus}

pub record DomainKey (Key : Type 0) : Type 0 where
  pub private_key : Key
  pub selector : Str
  pub domain : Str

-- pem.Decode, x509.ParsePKCS1PrivateKey and the signing of go-msgauth, a missing result being an
-- error.
pub record Crypto : Type 1 where
  pub Key : Type 0
  pub pem_decode : Str → Option Str
  pub parse_pkcs1 : Str → Option Key
  pub dkim_sign : DomainKey Key → Str → Option Str

module _ (crypto : Crypto) where
  open crypto use {Key, pem_decode, parse_pkcs1, dkim_sign}

  -- The map from lower-case domains to keys.
  abbrev pub Signer : Type 0
  Signer = List (Str × DomainKey Key)

  pub lookup : Str → Signer → Option (DomainKey Key)
  lookup name [] = none
  lookup name ((other, k) ∷ keys) = if str_eq other name then some k else lookup name keys

  insert : Str → DomainKey Key → Signer → Signer
  insert name k [] = (name, k) ∷ []
  insert name k ((other, j) ∷ keys) =
      if str_eq other name then (name, k) ∷ keys else (other, j) ∷ insert name k keys

  pub parse_private_key : Str → Option Key
  parse_private_key pem = elim (pem_decode pem) [ none ↦ none | some block ↦ parse_pkcs1 block ]

  -- The result says whether the key was loaded; a key that cannot be parsed is an error.
  pub load_key : Str → Str → Str → Signer → Signer × Bool
  unfolding insert
  load_key domain selector pem keys = elim (parse_private_key pem) [
    | none ↦ (keys, false)
    | some pk ↦ (
      insert (to_lower domain) (record { private_key = pk; selector = selector; domain = domain })
          keys,
      true,
    )
  ]

  pub has_key : Str → Signer → Bool
  has_key domain keys = is_some (lookup (to_lower domain) keys)

  -- The signed message; the error is `none`.
  pub sign : Str → Str → Signer → Option Str
  sign domain msg keys = elim (lookup (to_lower domain) keys) [
    | none ↦ none
    | some dk ↦ dkim_sign dk msg
  ]

  abbrev pub is_verified : DomainStatus → Bool
  is_verified DomainStatus.verified = true
  is_verified _ = false

  -- The rows that the start of the program selects.
  abbrev pub has_loadable_key : SendingDomain → Bool
  has_loadable_key d = is_verified d.status && not (is_empty d.dkim_private_key)

  -- The loop over the rows found; a key that fails is skipped.
  pub load_dkim_keys : List SendingDomain → Signer → Signer
  unfolding load_key
  load_dkim_keys [] keys = keys
  load_dkim_keys (d ∷ ds) keys =
      load_dkim_keys ds (load_key d.domain d.dkim_selector d.dkim_private_key keys).0

  lookup-insert :
      (name other : Str) (k : DomainKey Key) (keys : Signer)
      → lookup other (insert name k keys)
        ≡ (if str_eq name other then some k else lookup other keys)
  unfolding lookup insert
  lookup-insert name other k [] = refl
  lookup-insert name other k ((n, j) ∷ keys) = ground (
    arith,
    str_eq_iff name other,
    str_eq_iff n name,
    str_eq_iff n other,
    lookup-insert name other k keys,
  )

  abbrev loaded_key : Str → Str → Key → DomainKey Key
  loaded_key domain selector pk = record { private_key = pk; selector = selector; domain = domain }

  loaded :
      (domain other selector : Str) (pk : Key) (keys : Signer)
      → lookup (to_lower other) (insert (to_lower domain) (loaded_key domain selector pk) keys) ≡ (
          if str_eq (to_lower domain) (to_lower other)
          then some (loaded_key domain selector pk)
          else lookup (to_lower other) keys)
  loaded domain other selector pk keys = lookup-insert _ _ _ keys

  has_key-load_key :
      (domain selector pem other : Str) (keys : Signer)
      → has_key other (load_key domain selector pem keys).0
        ≡ (str_eq (to_lower domain) (to_lower other) && is_some (parse_private_key pem))
          || has_key other keys
  unfolding has_key load_key
  has_key-load_key domain selector pem other keys = elim (Option-cases (parse_private_key pem)) [
    | inl q ↦ rw (q, load_key) (ground arith)
    | inr (pk, q) ↦ rw (q, load_key) (ground (arith, loaded domain other selector pk keys))
  ]

  -- After a key is loaded for a domain, every spelling of the domain's case is signed with it, and
  -- every other domain as before; a key that cannot be parsed changes nothing.
  pub sign-load_key :
      (domain selector pem other msg : Str) (keys : Signer)
      → sign other msg (load_key domain selector pem keys).0 ≡ elim (parse_private_key pem) [
        | none ↦ sign other msg keys
        | some pk ↦
            if str_eq (to_lower domain) (to_lower other)
            then dkim_sign (record { private_key = pk; selector = selector; domain = domain }) msg
            else sign other msg keys
      ]
  unfolding sign load_key
  sign-load_key domain selector pem other msg keys = elim (Option-cases (parse_private_key pem)) [
    | inl q ↦ rw (q, load_key)
    | inr (pk, q) ↦ rw (q, load_key) (ground (arith, loaded domain other selector pk keys))
  ]

  -- Some row of the list is for the domain and has a key that can be parsed.
  abbrev pub IsLoadable : Str → List SendingDomain → Type 0
  IsLoadable name [] = ⊥
  IsLoadable name (d ∷ ds) =
      ((to_lower d.domain ≡ to_lower name)
        × (is_some (parse_private_key d.dkim_private_key) ≡ true))
      ⊎ IsLoadable name ds

  -- After the start of the program a domain has a key exactly when one of the rows that were
  -- verified then gives one, or the signer had one before.
  pub has_key-load_dkim_keys_iff :
      (name : Str) (ds : List SendingDomain) (keys : Signer)
      → (has_key name (load_dkim_keys ds keys) ≡ true)
        ↔ (IsLoadable name ds ⊎ (has_key name keys ≡ true))
  unfolding load_dkim_keys
  has_key-load_dkim_keys_iff name [] keys = (λ h. inr h, λ h. ground arith)
  has_key-load_dkim_keys_iff name (d ∷ ds) keys =
      let next = (load_key d.domain d.dkim_selector d.dkim_private_key keys).0 in
      let step = has_key-load_key d.domain d.dkim_selector d.dkim_private_key name keys in
      let (to, from) = has_key-load_dkim_keys_iff name ds next in
      let same = str_eq_iff (to_lower d.domain) (to_lower name) in
      (λ h. ground (arith, to h, step, same), λ h. from (ground (arith, h, step, same)))

  -- The key of the last row signs for its domain.
  pub load_dkim_keys-one :
      (d : SendingDomain) (keys : Signer) (other msg : Str) (key : Key)
      → parse_private_key d.dkim_private_key ≡ some key
      → to_lower d.domain ≡ to_lower other
      → sign other msg (load_dkim_keys (d ∷ []) keys)
        ≡ dkim_sign
            (record { private_key = key; selector = d.dkim_selector; domain = d.domain })
            msg
  unfolding load_dkim_keys
  load_dkim_keys-one d keys other msg key parsed same =
      let named = (str_eq_iff (to_lower d.domain) (to_lower other)).1 same in
      sign-load_key d.domain d.dkim_selector d.dkim_private_key other msg keys
      ∙ rw (parsed, named) refl
