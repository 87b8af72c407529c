-- ===== src/Handlers/SignIn/Tokens.antt =====
-- The random texts of internal/handlers/auth.go and HashAPIKey of internal/models/api_key.go, with
-- EncodeToString of package hex. `read` gives the bytes that rand.Read fills a slice of n bytes with.
use delivery_api.Base.{
  ℕ, ◌+◌, ◌-◌, ◌*◌, ◌/◌, ◌%◌, ◌<◌, ◌≡◌, refl, Bool, true, ◌&&◌, ◌||◌, [], ◌∷◌, Str, arith, leb, ltb,
  length, All, if◌then◌else◌,
}

pub hex_digit : ℕ → ℕ
hex_digit n = if ltb n 10 then b'0' + n else b'a' + (n - 10)

pub encode_hex : Str → Str
unfolding hex_digit
encode_hex [] = []
encode_hex (b ∷ bs) = hex_digit (b / 16) ∷ hex_digit (b % 16) ∷ encode_hex bs

pub generate_state : (ℕ → Str) → Str
unfolding encode_hex
generate_state read = encode_hex (read 32)

pub generate_session_token : (ℕ → Str) → Str
unfolding encode_hex
generate_session_token read = encode_hex (read 48)

-- HashAPIKey, with Sum256
pub hash_api_key : (Str → Str) → Str → Str
unfolding encode_hex
hash_api_key sum256 key = encode_hex (sum256 key)

-- A digit that no URL, cookie or header escapes.
abbrev pub is_hex : ℕ → Bool
is_hex c = (leb b'0' c && leb c b'9') || (leb b'a' c && leb c b'f')

abbrev pub value_of : ℕ → ℕ
value_of c = if leb c b'9' then c - b'0' else (c - b'a') + 10

-- The bytes that pairs of digits stand for.
abbrev pub decode_hex : Str → Str
decode_hex [] = []
decode_hex (c ∷ []) = []
decode_hex (c ∷ d ∷ s) = (value_of c * 16 + value_of d) ∷ decode_hex s

abbrev pub AreBytes : Str → Type 0
AreBytes = All (λ b. b < 256)

-- What a text of `n` random bytes looks like.
pub record IsToken (n : ℕ) (bytes t : Str) : Type 0 where
  pub size : length t ≡ n * 2
  pub digits : All (λ c. is_hex c ≡ true) t
  pub decoded : decode_hex t ≡ bytes

is_hex-hex_digit : (n : ℕ) → n < 16 → is_hex (hex_digit n) ≡ true
unfolding hex_digit
is_hex-hex_digit n small = ground arith

value_of-hex_digit : (n : ℕ) → n < 16 → value_of (hex_digit n) ≡ n
unfolding hex_digit
value_of-hex_digit n small = ground arith

encode_hex-IsToken :
    (bytes : Str) → AreBytes bytes → IsToken (length bytes) bytes (encode_hex bytes)
unfolding encode_hex
encode_hex-IsToken [] h = record { size = refl; digits = tt; decoded = refl }
encode_hex-IsToken (b ∷ bs) (byte, h) =
    let q = encode_hex-IsToken bs h in
    let high : b / 16 < 16 = omega arith in
    let low : b % 16 < 16 = omega arith in
    let whole : b / 16 * 16 + b % 16 ≡ b = omega arith in
    record {
      size = omega (arith, q.size);
      digits = (is_hex-hex_digit (b / 16) high, (is_hex-hex_digit (b % 16) low, q.digits));
      decoded =
          rw (value_of-hex_digit (b / 16) high, value_of-hex_digit (b % 16) low, whole, q.decoded)
            refl;
    }

-- A random source or a hash that gives as many bytes as it is asked for.
abbrev pub IsSized : ℕ → Str → Type 0
IsSized n bytes = (length bytes ≡ n) × AreBytes bytes

encode_hex-IsSized : (n : ℕ) (bytes : Str) → IsSized n bytes → IsToken n bytes (encode_hex bytes)
encode_hex-IsSized n bytes (size, h) =
    let q = encode_hex-IsToken bytes h in
    record { size = omega (arith, q.size, size); digits = q.digits; decoded = q.decoded }

-- When rand.Read fills a slice and Sum256 gives 32 bytes, a state has 64 characters, a session's
-- token 96 and the hash of a key 64, all of them digits of 0 to 9 and a to f, and the bytes can be
-- read back from the digits, so that different bytes never give the same text.
pub generate-IsToken :
    (read : ℕ → Str) (sum256 : Str → Str) (key : Str)
    → ((n : ℕ) → IsSized n (read n))
    → IsSized 32 (sum256 key)
    → IsToken 32 (read 32) (generate_state read)
      × IsToken 48 (read 48) (generate_session_token read)
      × IsToken 32 (sum256 key) (hash_api_key sum256 key)
unfolding generate_state generate_session_token hash_api_key
generate-IsToken read sum256 key filled hashed = (
  encode_hex-IsSized 32 (read 32) (filled 32),
  encode_hex-IsSized 48 (read 48) (filled 48),
  encode_hex-IsSized 32 (sum256 key) hashed,
)
