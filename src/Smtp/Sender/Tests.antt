-- ===== src/Smtp/Sender/Tests.antt =====
-- The sender with a host that is busy, one that takes the message, and one that hangs up.
use delivery_api.Base.{ℕ, ◌+◌, ◌≡◌, ◌↔◌, none, some, [], ◌∷◌, Str, codes, index, drop, zero, suc}
use delivery_api.Smtp.Sender.{Answers, Transmission, Network, mx_hosts, send}
use delivery_api.Smtp.Sender.Attempts.{IsServed, outgoing, send_iff}

abbrev sender : Str
sender = codes "a@b.c"

abbrev recipient : Str
recipient = codes "x@y.z"

abbrev clear : Answers
clear = record {
  dial = none;
  client = none;
  hello = none;
  mail = none;
  rcpt = none;
  payload = none;
  write = none;
  close = none;
  quit = none;
}

-- The first host refuses the recipient for now, the second takes the message.
abbrev first_busy : ℕ → Transmission → Answers
first_busy zero t = record clear { rcpt = some (codes "450 busy") }
first_busy (suc n) t = clear

abbrev net : Network
net = record {
  sign = λ domain raw. none;
  lookup_mx = λ domain. some (codes "one." ∷ codes "two." ∷ []);
  answers = first_busy;
}

abbrev rude : Network
rude = record {
  sign = λ domain raw. none;
  lookup_mx = λ domain. none;
  answers = λ n t. record clear { quit = some (codes "EOF") };
}

send_iff_example : (send net sender recipient (codes "hi") ≡ none) ↔ (
    (i : ℕ) × (index recipient b'@' ≡ some i)
    × IsServed net sender recipient
        (outgoing net sender (codes "hi"))
        0
        (mx_hosts net (drop (i + 1) recipient)))
send_iff_example = send_iff net sender recipient (codes "hi")
