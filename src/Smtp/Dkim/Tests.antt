-- ===== src/Smtp/Dkim/Tests.antt =====
-- The signer with keys that are texts and sign by standing in front.
use delivery_api.Base.{◌≡◌, true, none, some, [], ◌++◌, Str, codes, to_lower, str_eq}
use delivery_api.Models.{SendingDomain, verified}
use delivery_api.Smtp.Dkim.{Crypto, sign, load_key, parse_private_key, sign-load_key}

abbrev pub crypto : Crypto
crypto = record {
  Key = Str;
  pem_decode = λ s. some s;
  parse_pkcs1 = λ s. some s;
  dkim_sign = λ k s. some (k.private_key ++ s);
}

abbrev pub sending_domain : SendingDomain
sending_domain = record {
  id = 1;
  user_id = codes "u";
  domain = codes "b.c";
  status = verified;
  dkim_private_key = codes "k";
  dkim_public_key = codes "p";
  dkim_selector = codes "s";
  spf_verified = true;
  dkim_verified = true;
  dmarc_verified = true;
  return_path_verified = true;
  last_verified_at = none;
  created_at = 0;
}

sign-load_key_example :
    sign crypto
      (codes "EX.org")
      (codes "m")
      (load_key crypto (codes "ex.ORG") (codes "s") (codes "k") []).0
    ≡ some (codes "km")
unfolding parse_private_key to_lower str_eq
sign-load_key_example =
    sign-load_key crypto (codes "ex.ORG") (codes "s") (codes "k") (codes "EX.org") (codes "m") []
