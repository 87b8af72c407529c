-- ===== src/Smtp/Dkim/Keys.antt =====
-- GenerateDKIMKeyPair of internal/crypto/keys.go, and what ParsePrivateKey makes of its result.
use delivery_api.Base.{◌≡◌, none, some, Option, Option-cases, Str, inl, inr, arith}
use delivery_api.Smtp.Dkim.{Crypto, parse_private_key}

-- The making and the encoding of keys: GenerateKey's key, if it makes one, MarshalPKCS1PrivateKey,
-- EncodeToMemory, MarshalPKIXPublicKey and base64. The decoders undo the two of the private key.
pub record KeyMaker (crypto : Crypto) : Type 0 where
  pub generate : Option crypto.Key
  pub marshal_pkcs1 : crypto.Key → Str
  pub pem_encode : Str → Str
  pub marshal_pkix : crypto.Key → Option Str
  pub base64 : Str → Str
  pub pem_law : (block : Str) → crypto.pem_decode (pem_encode block) ≡ some block
  pub pkcs1_law : (k : crypto.Key) → crypto.parse_pkcs1 (marshal_pkcs1 k) ≡ some k

module _ (crypto : Crypto) (maker : KeyMaker crypto) where
  -- The private key and the public one, or an error.
  unfoldable pub generate_dkim_key_pair : Option (Str × Str)
  generate_dkim_key_pair = elim maker.generate [
    | none ↦ none
    | some key ↦ elim (maker.marshal_pkix key) [
      | none ↦ none
      | some bytes ↦ some (maker.pem_encode (maker.marshal_pkcs1 key), maker.base64 bytes)
    ]
  ]

  -- The private key of a generated pair is read back.
  pub parse_private_key-generate :
      (pair : Str × Str)
      → generate_dkim_key_pair ≡ some pair
      → (key : crypto.Key) × (maker.generate ≡ some key)
        × (parse_private_key crypto pair.0 ≡ some key)
  unfolding generate_dkim_key_pair parse_private_key
  parse_private_key-generate pair made = elim (Option-cases maker.generate) [
    | inl failed ↦ absurd (ground arith)
    | inr (key, drawn) ↦
        let pem : pair.0 ≡ maker.pem_encode (maker.marshal_pkcs1 key) = ground arith in
        (
          key,
          drawn,
          rw (pem, parse_private_key, maker.pem_law (maker.marshal_pkcs1 key))
              (maker.pkcs1_law key),
        )
  ]
