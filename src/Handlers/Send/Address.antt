-- ===== src/Handlers/Send/Address.antt =====
-- What extractDomain and parseFrom read in a sender of the form `Name <local@domain>`.
use delivery_api.Base.{
  ℕ, suc, ◌+◌, ◌≡◌, ◌≢◌, refl, ◌∙◌, Bool, true, false, [], ◌∷◌, ◌++◌, Str, codes, arith, All,
  All-append, All-weaken, member, drop, take-append, length, Lacks, last_index-append,
  trim_right_by, trim_left_by, trim_by, trim_space,
}
use delivery_api.Handlers.Send.{unbracketed, extract_domain, parse_from}

trim_right-kept : (p : ℕ → Bool) (s : Str) → All (λ c. p c ≡ false) s → trim_right_by p s ≡ s
unfolding trim_right_by
trim_right-kept p [] _ = refl
trim_right-kept p (c ∷ []) (h, _) = rw h refl
trim_right-kept p (c ∷ d ∷ s) (_, hs) = rw (trim_right-kept p (d ∷ s) hs) refl

trim_right-cut :
    (p : ℕ → Bool) (s : Str) (d : ℕ)
    → p d ≡ true
    → trim_right_by p (s ++ d ∷ []) ≡ trim_right_by p s
unfolding trim_right_by
trim_right-cut p [] d h = rw h refl
trim_right-cut p (c ∷ s) d h = rw (trim_right-cut p s d h) refl

-- Trimming on both sides of a text with one selected byte, the last.
trim_by-last :
    (p : ℕ → Bool) (s : Str) (c : ℕ)
    → All (λ c. p c ≡ false) s
    → p c ≡ true
    → trim_by p (s ++ c ∷ []) ≡ s
unfolding trim_by trim_left_by trim_right_by
trim_by-last p [] c _ h = rw h refl
trim_by-last p (d ∷ s) c (hd, hs) h =
    rw hd (trim_right-cut p (d ∷ s) c h ∙ trim_right-kept p (d ∷ s) (hd, hs))

drop-after : (s t : Str) (c : ℕ) → drop (length s + 1) (s ++ c ∷ t) ≡ t
drop-after [] t c = refl
drop-after (d ∷ s) t c =
    let e : suc (length s) + 1 ≡ suc (length s + 1) = omega arith in rw e (drop-after s t c)

-- Bytes that parseFrom and extractDomain do not take for punctuation.
abbrev pub IsPlain : ℕ → Type 0
IsPlain c = (c ≢ b'<') × (c ≢ b'>') × (c ≢ 32)

bracketed-Lacks : (s : Str) → All IsPlain s → Lacks b'<' (s ++ b'>' ∷ [])
bracketed-Lacks s h =
    All-append (λ c. c ≢ b'<') s (b'>' ∷ []) (All-weaken IsPlain _ (λ c k. k.0) s h)
      (ground arith, tt)

parse_from-bracketed :
    (name email : Str)
    → All IsPlain email
    → parse_from (name ++ b'<' ∷ (email ++ b'>' ∷ [])) ≡ (email, trim_space name)
unfolding parse_from
parse_from-bracketed name email plain =
    rw
      (
        parse_from,
        last_index-append name (email ++ b'>' ∷ []) b'<' (bracketed-Lacks email plain),
        drop-after name (email ++ b'>' ∷ []) b'<',
        take-append name (b'<' ∷ (email ++ b'>' ∷ [])),
        trim_by-last (λ c. member c (codes "<> ")) email b'>'
            (All-weaken IsPlain _ (λ c k. ground arith) email plain) refl,
      )
      refl

unbracketed-bracketed :
    (name email : Str)
    → All IsPlain email
    → unbracketed (name ++ b'<' ∷ (email ++ b'>' ∷ [])) ≡ email
unfolding unbracketed
unbracketed-bracketed name email plain =
    rw
      (
        unbracketed,
        last_index-append name (email ++ b'>' ∷ []) b'<' (bracketed-Lacks email plain),
        drop-after name (email ++ b'>' ∷ []) b'<',
      )
      (trim_right-cut (λ c. member c (codes ">")) email b'>' refl
        ∙ trim_right-kept (λ c. member c (codes ">")) email
            (All-weaken IsPlain _ (λ c k. ground arith) email plain))

-- A sender `Name <local@domain>` without further punctuation is stored as the address and the
-- trimmed name, and the domain that is looked up for it is the domain of that address.
pub parse_from-extract_domain :
    (name local domain : Str)
    → All IsPlain local
    → All IsPlain domain
    → Lacks b'@' domain
    → let email = local ++ b'@' ∷ domain in
      let sender = name ++ b'<' ∷ (email ++ b'>' ∷ []) in
      (parse_from sender ≡ (email, trim_space name)) × (extract_domain sender ≡ domain)
unfolding extract_domain
parse_from-extract_domain name local domain hl hd lacks =
    let email = local ++ b'@' ∷ domain in
    let plain = All-append IsPlain local (b'@' ∷ domain) hl (ground arith, hd) in
    (
      parse_from-bracketed name email plain,
      rw
          (
            extract_domain,
            unbracketed-bracketed name email plain,
            last_index-append local domain b'@' lacks,
            unbracketed-bracketed name email plain,
            drop-after local domain b'@',
          )
          refl,
    )
