-- ===== src/Handlers/Domains/Signing.antt =====
-- What becomes of the keys of a new domain.
use delivery_api.Base.{◌≡◌, Bool, some, [], ◌∷◌, Str, to_lower}
use delivery_api.Smtp.Dkim.{Crypto, Signer, sign, load_dkim_keys, load_dkim_keys-one}
use delivery_api.Smtp.Dkim.Keys.{KeyMaker, generate_dkim_key_pair, parse_private_key-generate}
use delivery_api.Handlers.Domains.{Env, new_domain, checked}

-- The pair of keys of a domain that CreateDomain creates: after a verification and the loading of
-- the keys, whatever keys are loaded before, mail from the domain in any spelling of its case is
-- signed with the private key that was drawn for it, under the selector of the configuration.
pub sign-generate :
    (crypto : Crypto) (maker : KeyMaker crypto) (pair : Str × Str)
    → generate_dkim_key_pair crypto maker ≡ some pair
    → (env : Env) (dkim : Bool) (user name other msg : Str) (keys : Signer crypto)
    → to_lower name ≡ to_lower other
    → (key : crypto.Key) × (maker.generate ≡ some key)
      × (sign crypto other msg
            (load_dkim_keys crypto (checked env dkim (new_domain env user name pair) ∷ []) keys)
          ≡ crypto.dkim_sign
              (record { private_key = key; selector = env.dkim_selector; domain = name })
              msg)
unfolding new_domain checked
sign-generate crypto maker pair made env dkim user name other msg keys same =
    let (key, drawn, parsed) = parse_private_key-generate crypto maker pair made in
    (
      key,
      drawn,
      load_dkim_keys-one crypto (checked env dkim (new_domain env user name pair)) keys other msg
          key parsed same,
    )
