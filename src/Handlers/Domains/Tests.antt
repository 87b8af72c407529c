-- ===== src/Handlers/Domains/Tests.antt =====
-- The domain handlers on one domain.
use delivery_api.Base.{◌≡◌, refl, true, some, [], ◌∷◌, codes, Str, to_lower, arith, update_where}
use delivery_api.Models.{SendingDomain}
use delivery_api.Models.{domain_model}
use delivery_api.Listed.{list_db, list_table-IsLive}
use delivery_api.Smtp.Dkim.Tests.{sending_domain, crypto}
use delivery_api.Smtp.Dkim.{sign, load_dkim_keys}
use delivery_api.Smtp.Dkim.Keys.{KeyMaker, generate_dkim_key_pair}
use delivery_api.Handlers.Domains.Signing.{sign-generate}
use delivery_api.Handlers.Domains.{Env, new_domain, shown, view, checked, numbered, verify_domain}
use delivery_api.Handlers.Domains.Verification.{IsChecked, verify_domain-verified_iff}

abbrev env : Env
env = record {
  server_ip = codes "1.2.3.4";
  hostname = codes "mail";
  dkim_selector = codes "s";
  lookup_txt = λ name. codes "v=spf1 ip4:1.2.3.4" ∷ [];
  generate = some (codes "priv", codes "pub");
}

abbrev long_key : SendingDomain
long_key = record sending_domain {
  dkim_public_key = codes "0123456789012345678901234567890123456789";
}

verify_domain-verified_iff_example :
    let done = verify_domain list_db env 1 (codes "u") (long_key ∷ []) in
    (d' : SendingDomain) × IsChecked env long_key d'
    × (done.0 ≡ update_where (numbered list_db 1) (λ _. d') (long_key ∷ []))
    × (done.1 ≡ shown 200 (view env d'))
verify_domain-verified_iff_example =
    verify_domain-verified_iff list_db (list_table-IsLive domain_model) env 1 (codes "u")
      (long_key ∷ []) long_key refl refl (omega arith)

abbrev maker : KeyMaker crypto
maker = record {
  generate = some (codes "priv");
  marshal_pkcs1 = λ k. k;
  pem_encode = λ block. block;
  marshal_pkix = λ k. some k;
  base64 = λ s. s;
  pem_law = λ block. refl;
  pkcs1_law = λ k. refl;
}

sign-generate_example :
    (key : Str) × (some (codes "priv") ≡ some key)
    × (sign crypto (codes "B.c") (codes "m") (
          load_dkim_keys crypto
            (checked env true
                (new_domain env (codes "u") (codes "b.c") (codes "priv", codes "priv"))
              ∷ [])
            [])
        ≡ crypto.dkim_sign
            (record { private_key = key; selector = codes "s"; domain = codes "b.c" })
            (codes "m"))
unfolding generate_dkim_key_pair to_lower
sign-generate_example =
    sign-generate crypto maker (codes "priv", codes "priv") refl env true (codes "u") (codes "b.c")
      (codes "B.c") (codes "m") [] refl
