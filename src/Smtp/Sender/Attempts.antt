-- ===== src/Smtp/Sender/Attempts.antt =====
-- What a call of Send reports.
use delivery_api.Base.{
  ℕ, suc, ◌+◌, ◌≡◌, ◌≢◌, ◌↔◌, ◌⊎◌, inl, inr, none, some, Option-cases, List, [], ◌∷◌, ◌++◌, Str,
  arith, codes, index, drop, get_or, sym,
}
use delivery_api.Smtp.Sender.{
  SmtpError, SendError, smtp, other, Answers, Transmission, Network, send_to_mx, smtp_addr,
  after_at, mx_hosts, try_each, send, error_text,
}

-- Every command of the connection was answered with no error.
abbrev pub IsClear : Answers → Type 0
IsClear a =
    (a.dial ≡ none)
    × (a.client ≡ none)
    × (a.hello ≡ none)
    × (a.mail ≡ none)
    × (a.rcpt ≡ none)
    × (a.payload ≡ none)
    × (a.write ≡ none)
    × (a.close ≡ none)
    × (a.quit ≡ none)

send_to_mx_iff : (addr : Str) (a : Answers) → (send_to_mx addr a ≡ none) ↔ IsClear a
unfolding send_to_mx
send_to_mx_iff addr a = (λ h. ground arith, λ h. ground arith)

module _ (net : Network) (from to msg : Str) where
  -- What the n-th connection sends to a host.
  abbrev pub to_host : Str → Transmission
  to_host host = record { addr = smtp_addr host; from = from; to = to; msg = msg }

  -- Some host of the list, the first of them reached by the n-th connection, took the message.
  abbrev pub IsServed : ℕ → List Str → Type 0
  IsServed n [] = ⊥
  IsServed n (host ∷ hosts) = IsClear (net.answers n (to_host host)) ⊎ IsServed (suc n) hosts

  IsServed-later :
      (n : ℕ) (host : Str) (hosts : List Str) (x : SendError)
      → send_to_mx (smtp_addr host) (net.answers n (to_host host)) ≡ some x
      → IsServed n (host ∷ hosts)
      → IsServed (suc n) hosts
  IsServed-later n host hosts x e (inl clear) = absurd (cc ((send_to_mx_iff _ _).1 clear))
  IsServed-later n host hosts x e (inr later) = later

  try_each_iff :
      (domain : Str) (n : ℕ) (hosts : List Str) (last : Str)
      → (try_each net domain from to msg n hosts last ≡ none) ↔ IsServed n hosts
  unfolding try_each
  try_each_iff domain n [] last = (λ h. cc, λ h. absurd h)
  try_each_iff domain n (host ∷ hosts) last =
      elim (Option-cases (send_to_mx (smtp_addr host) (net.answers n (to_host host)))) [
        | inl e ↦ (λ h. inl ((send_to_mx_iff _ _).0 e), λ h. rw (e, try_each))
        | inr (x, e) ↦
            let rest = try_each_iff domain (suc n) hosts (error_text x) in
            (
              λ h. inr (rest.0 (rw (e, try_each) at h)),
              λ h. rw (e, try_each) (rest.1 (IsServed-later n host hosts x e h)),
            )
      ]

  try_each-ne-smtp :
      (domain : Str) (n : ℕ) (hosts : List Str) (last : Str) (e : SmtpError)
      → try_each net domain from to msg n hosts last ≢ some (smtp e)
  unfolding try_each
  try_each-ne-smtp domain n [] last e = λ h. cc
  try_each-ne-smtp domain n (host ∷ hosts) last e =
      elim (Option-cases (send_to_mx (smtp_addr host) (net.answers n (to_host host)))) [
        | inl q ↦ rw (q, try_each) (λ h. cc)
        | inr (x, q) ↦ rw (q, try_each) (try_each-ne-smtp domain (suc n) hosts (error_text x) e)
      ]

-- No call of Send returns a *SMTPError.
pub send-ne-smtp :
    (net : Network) (from to raw : Str) (e : SmtpError) → send net from to raw ≢ some (smtp e)
unfolding send
send-ne-smtp net from to raw e = elim (Option-cases (index to b'@')) [
  | inl q ↦ rw (q, send) (λ h. cc)
  | inr (i, q) ↦ rw (q, send) (try_each-ne-smtp net from to _ (drop (i + 1) to) 0 _ _ e)
]

-- The message as it leaves: signed with the key of the sender's domain, or as it is.
abbrev pub outgoing : Network → Str → Str → Str
outgoing net from raw = get_or (net.sign (after_at from) raw) raw

-- Send succeeds exactly when the recipient has a domain and one of its hosts, tried in order,
-- answers every command with no error.
pub send_iff :
    (net : Network) (from to raw : Str)
    → (send net from to raw ≡ none) ↔ (
        (i : ℕ) × (index to b'@' ≡ some i)
        × IsServed net from to (outgoing net from raw) 0 (mx_hosts net (drop (i + 1) to)))
unfolding send
send_iff net from to raw = (
  λ h. elim (Option-cases (index to b'@')) [
    | inl q ↦ absurd (cc (sym (rw (q, send) at h)))
    | inr (i, q) ↦ (i, q, (try_each_iff net from to _ _ 0 _ _).0 (rw (q, send) at h))
  ],
  λ (i, q, served). rw (q, send) ((try_each_iff net from to _ _ 0 _ _).1 served),
)

-- A host took the whole message, and only the answer to QUIT was an error.
abbrev pub IsQuitError : Answers → Str → Type 0
IsQuitError a e = IsClear (record a { quit = none }) × (a.quit ≡ some e)

-- Whenever the only host of a domain takes the message and then fails to answer QUIT, Send
-- reports that every host has failed.
pub quit_error_reported :
    (net : Network) (from to raw host e : Str) (i : ℕ)
    → index to b'@' ≡ some i
    → mx_hosts net (drop (i + 1) to) ≡ host ∷ []
    → IsQuitError (net.answers 0 (to_host net from to (outgoing net from raw) host)) e
    → send net from to raw
      ≡ some (other (codes "all MX servers failed for " ++ drop (i + 1) to ++ codes ": " ++ e))
unfolding send try_each send_to_mx error_text
quit_error_reported net from to raw host e i q hosts h = rw (q, send, hosts) (ground arith)
