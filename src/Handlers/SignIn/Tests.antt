-- ===== src/Handlers/SignIn/Tests.antt =====
-- One sign-in, and a second try with the same state.
use delivery_api.Handlers.SignIn.Tokens.{
  generate_state, generate_session_token, hash_api_key, AreBytes, IsToken, generate-IsToken,
}
use delivery_api.Base.{
  ℕ, zero, suc, Str, ap, length, ◌≡◌, ◌≤◌, refl, some, [], ◌∷◌, List, codes, arith,
}
use delivery_api.Handlers.Access.{Request, get_session_user_id}
use delivery_api.Handlers.SignIn.{
  OauthConfig, Accounts, Fields, Call, SignedIn, serve_all, auth_logout, identify, exchange_code,
  fetch_user_info,
}
use delivery_api.Handlers.SignIn.Once.{welcomes, issued, welcomes-issued}
use delivery_api.Handlers.SignIn.Ledger.{promise_all}
use delivery_api.Handlers.SignIn.Refine.{fresh_start, blank_ledger, serve_all-promise_all}
use delivery_api.Handlers.SignIn.Lifetime.{signed, get_session_user_id-auth_callback}

abbrev cfg : OauthConfig
cfg = record {
  oauth_url = codes "o";
  oauth_client_id = codes "c";
  oauth_client_secret = codes "s";
  oauth_redirect_uri = codes "r";
  app_url = codes "https";
}

abbrev fields : Fields
fields name = some (codes "u")

abbrev accounts : Accounts
accounts = record {
  post = λ url body. some (200, fields);
  get = λ url token. some (200, fields);
  encode = λ params. [];
}

abbrev calls : List Call
calls =
    Call.login (codes "x") 1 2
    ∷ Call.callback (codes "k") (codes "x") (codes "t") 3 4
    ∷ Call.callback (codes "k") (codes "x") (codes "v") 5 6
    ∷ []

abbrev request : Request
request = record { header = λ name. []; cookie = some (codes "t"); token = [] }

abbrev issued_state : SignedIn
issued_state = record { states = λ k. some 9; sessions = [] }

welcomes-issued_example :
    welcomes cfg accounts (codes "x") calls (fresh_start cfg accounts) ≤ issued (codes "x") calls
welcomes-issued_example =
    welcomes-issued cfg accounts (codes "x") calls (fresh_start cfg accounts) refl

serve_all-promise_all_example :
    serve_all cfg accounts calls (fresh_start cfg accounts)
    ≡ promise_all cfg accounts calls (blank_ledger cfg accounts)
serve_all-promise_all_example =
    serve_all-promise_all cfg accounts calls
      (omega arith, omega arith, (omega arith, omega arith, (omega arith, omega arith, tt)))

get_session_user_id-auth_callback_example :
    let after = signed cfg accounts (codes "k") (codes "x") (codes "t") 3 4 issued_state in
    (get_session_user_id 7 after.sessions request ≡ codes "u")
    × (get_session_user_id 7 (auth_logout cfg (some (codes "t")) after).0.sessions request ≡ [])
unfolding identify exchange_code fetch_user_info
get_session_user_id-auth_callback_example =
    get_session_user_id-auth_callback cfg accounts (codes "k") (codes "x") (codes "t") 3 4
      issued_state (codes "u") (codes "u") (codes "u") request 7 refl refl refl refl

abbrev ones : ℕ → Str
ones zero = []
ones (suc n) = 255 ∷ ones n

ones-size : (n : ℕ) → length (ones n) ≡ n
ones-size zero = refl
ones-size (suc n) = ap suc (ones-size n)

ones-AreBytes : (n : ℕ) → AreBytes (ones n)
ones-AreBytes zero = tt
ones-AreBytes (suc n) = (omega arith, ones-AreBytes n)

generate-IsToken_example :
    IsToken 32 (ones 32) (generate_state ones)
    × IsToken 48 (ones 48) (generate_session_token ones)
    × IsToken 32 (ones 32) (hash_api_key (λ s. ones 32) (codes "k"))
generate-IsToken_example =
    generate-IsToken ones (λ s. ones 32) (codes "k") (λ n. (ones-size n, ones-AreBytes n))
      (ones-size 32, ones-AreBytes 32)
