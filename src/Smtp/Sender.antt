-- ===== src/Smtp/Sender.antt =====
-- internal/smtp/sender.go. What the network answers is an argument: the MX lookup, and for each
-- connection the outcome of every command. A missing error is `none`.
pub mod Codes
pub mod Attempts
pub mod Tests
use delivery_api.Base.{
  ℕ, suc, ◌+◌, ◌-◌, ◌*◌, Bool, ◌&&◌, Option, none, some, List, [], ◌∷◌, ◌++◌, Str, codes, leb, ltb,
  if◌then◌else◌, index, drop, get_or, decimal, trim_suffix,
}

pub record SmtpError : Type 0 where
  pub code : ℕ
  pub msg : Str
  pub permanent : Bool

-- The dynamic type of an error: a *SMTPError, or any other with its text.
pub data SendError : Type 0 where
  smtp : SmtpError → SendError
  other : Str → SendError

-- Error()
pub error_text : SendError → Str
error_text (smtp e) = codes "SMTP " ++ decimal e.code ++ codes ": " ++ e.msg
error_text (other text) = text

abbrev pub is_digit : ℕ → Bool
is_digit c = leb b'0' c && leb c b'9'

abbrev digit : ℕ → ℕ
digit c = c - b'0'

-- The loop over the first three bytes returns 0 at the first that is no digit.
pub parse_code : Str → ℕ
parse_code (a ∷ b ∷ c ∷ rest) =
    if is_digit a
    then (if is_digit b
        then (if is_digit c then (digit a * 10 + digit b) * 10 + digit c else 0)
        else 0)
    else 0
parse_code s = 0

pub is_permanent : Str → Bool
unfolding parse_code
is_permanent s = let code = parse_code s in leb 500 code && ltb code 600

-- What one server answers: the error of each command, if any.
pub record Answers : Type 0 where
  pub dial : Option Str
  pub client : Option Str
  pub hello : Option Str
  pub mail : Option Str
  pub rcpt : Option Str
  pub payload : Option Str
  pub write : Option Str
  pub close : Option Str
  pub quit : Option Str

abbrev refused : Str → SendError
refused s = smtp (record { code = parse_code s; msg = s; permanent = is_permanent s })

abbrev wrap : Str → Str → SendError
wrap what s = other (what ++ codes ": " ++ s)

-- The early returns of `sendToMX`, in their order. STARTTLS may fail without an effect here.
send_to_mx : Str → Answers → Option SendError
send_to_mx addr a = elim a.dial [
  | some e ↦ some (wrap (codes "connect " ++ addr) e)
  | none ↦ elim a.client [
    | some e ↦ some (wrap (codes "smtp client") e)
    | none ↦ elim a.hello [
      | some e ↦ some (wrap (codes "ehlo") e)
      | none ↦ elim a.mail [
        | some e ↦ some (wrap (codes "mail from") e)
        | none ↦ elim a.rcpt [
          | some e ↦ some (refused e)
          | none ↦ elim a.payload [
            | some e ↦ some (wrap (codes "data") e)
            | none ↦ elim a.write [
              | some e ↦ some (wrap (codes "write") e)
              | none ↦ elim a.close [
                | some e ↦ some (refused e)
                | none ↦ elim a.quit [ some e ↦ some (other e) | none ↦ none ]
              ]
            ]
          ]
        ]
      ]
    ]
  ]
]

-- One message as it is handed to a server.
pub record Transmission : Type 0 where
  pub addr : Str
  pub from : Str
  pub to : Str
  pub msg : Str

-- The environment of one call of `Send`: the signer, the MX lookup with its hosts in priority
-- order, and the answers of the n-th connection.
pub record Network : Type 0 where
  pub sign : Str → Str → Option Str
  pub lookup_mx : Str → Option (List Str)
  pub answers : ℕ → Transmission → Answers

abbrev pub smtp_addr : Str → Str
smtp_addr host = trim_suffix host (codes ".") ++ codes ":25"

-- The loop over the MX records, from the n-th connection on, with `lastErr`.
try_each : Network → Str → Str → Str → Str → ℕ → List Str → Str → Option SendError
unfolding send_to_mx
try_each net rcpt_domain from to msg n [] last =
    some (other (codes "all MX servers failed for " ++ rcpt_domain ++ codes ": " ++ last))
try_each net rcpt_domain from to msg n (host ∷ hosts) last =
    elim (send_to_mx (smtp_addr host)
      (net.answers n (record { addr = smtp_addr host; from = from; to = to; msg = msg }))) [
        | none ↦ none
        | some e ↦ try_each net rcpt_domain from to msg (suc n) hosts (error_text e)
      ]

-- The hosts to try: the MX records, or the domain itself.
pub mx_hosts : Network → Str → List Str
mx_hosts net domain = elim (net.lookup_mx domain) [
  | none ↦ domain ∷ []
  | some [] ↦ domain ∷ []
  | some (host ∷ hosts) ↦ host ∷ hosts
]

-- What follows the first "@", or the whole text.
abbrev pub after_at : Str → Str
after_at from = elim (index from b'@') [ none ↦ from | some i ↦ drop (i + 1) from ]

-- Sender.Send
pub send : Network → Str → Str → Str → Option SendError
unfolding try_each mx_hosts
send net from to raw = elim (index to b'@') [
  | none ↦ some (other (codes "invalid recipient: " ++ to))
  | some i ↦
      let domain = drop (i + 1) to in
      let signed = get_or (net.sign (after_at from) raw) raw in
      try_each net domain from to signed 0 (mx_hosts net domain) (codes "<nil>")
]
