-- ===== src/Smtp/Message/Headers.antt =====
-- What can and what cannot get into the header of a built message.
use delivery_api.Base.{
  ℕ, zero, suc, ◌+◌, ◌≡◌, ◌≢◌, refl, true, some, Option-cases, Bool-cases, inl, inr, Bool, List, [],
  ◌∷◌, ◌++◌, Str, codes, arith, All, All-append, length, is_empty, length-append, append_assoc,
  last_index, drop, count_where, not, ◌&&◌, decimal-All, has_prefix,
}
use delivery_api.Smtp.Message.{
  Mime, Draw, Attachment, strip_header_injection, header, header_text, extra_headers, is_malformed,
  from_value, extract_domain, after_last_at, generate_message_id, build_message, build_body_part,
  with_attachments,
}
use delivery_api.Smtp.Message.Wrapping.{broken_lines}

abbrev pub IsLine : Str → Type 0
IsLine = All (λ c. (c ≢ 13) × (c ≢ 10))

IsLine-append : (s t : Str) → IsLine s → IsLine t → IsLine (s ++ t)
IsLine-append = All-append (λ c. (c ≢ 13) × (c ≢ 10))

between : (a b c : Str) → IsLine a → IsLine b → IsLine c → IsLine (a ++ b ++ c)
between a b c ha hb hc = IsLine-append (a ++ b) c (IsLine-append a b ha hb) hc

strip-IsLine : (s : Str) → IsLine (strip_header_injection s)
unfolding strip_header_injection has_prefix
strip-IsLine [] = tt
strip-IsLine (c ∷ s) = ground (arith, strip-IsLine s)

-- The text is `n` lines, none of which holds a line break, each with CR LF behind it.
abbrev pub IsBlock : ℕ → Str → Type 0
IsBlock n s = (ls : List Str) × (length ls ≡ n) × All IsLine ls × (broken_lines ls ≡ s)

broken_lines-append :
    (ls ks : List Str) → broken_lines (ls ++ ks) ≡ broken_lines ls ++ broken_lines ks
broken_lines-append [] ks = refl
broken_lines-append (l ∷ ls) ks = simp (broken_lines-append ls ks, append_assoc)

-- The sum is an argument, so that it may be written in any way.
IsBlock-append :
    (k m n : ℕ) (s t : Str) → m + n ≡ k → IsBlock m s → IsBlock n t → IsBlock k (s ++ t)
IsBlock-append k m n s t e (ls, hm, cls, es) (ks, hn, cks, et) = (
  ls ++ ks,
  omega (arith, length-append ls ks),
  All-append IsLine ls ks cls cks,
  rw (broken_lines-append, es, et),
)

header-IsBlock : (name value : Str) → IsLine name → IsLine value → IsBlock 1 (header name value)
unfolding header
header-IsBlock name value hn hv = (
  (name ++ codes ": " ++ value) ∷ [],
  refl,
  (IsLine-append _ _ (IsLine-append _ _ hn (omega arith)) hv, tt),
  simp append_assoc,
)

drop-IsLine : (n : ℕ) (s : Str) → IsLine s → IsLine (drop n s)
drop-IsLine zero s h = h
drop-IsLine (suc n) [] h = tt
drop-IsLine (suc n) (c ∷ s) (_, h) = drop-IsLine n s h

last_at-IsLine : (s : Str) → IsLine s → IsLine (after_last_at s)
last_at-IsLine s h = elim (Option-cases (last_index s b'@')) [
  | inl e ↦ rw (e, after_last_at) (omega arith)
  | inr (i, e) ↦ rw (e, after_last_at) (drop-IsLine (i + 1) s h)
]

push :
    (n : ℕ) (s name value : Str)
    → IsBlock n s
    → IsLine name
    → IsLine value
    → IsBlock (n + 1) (s ++ header name value)
push n s name value b hn hv = IsBlock-append _ n 1 s _ refl b (header-IsBlock name value hn hv)

-- The extra headers that are written: those whose key is well formed once it is stripped.
abbrev pub is_kept : Str × Str → Bool
is_kept h = not (is_malformed (strip_header_injection h.0))

-- What the standard library and the draws promise: an encoded word is one line, an address is on
-- the line that it was parsed from, and a date or random digits hold no line break.
pub record IsTidy (mime : Mime) (draw : Draw) : Type 0 where
  pub encoded : (s : Str) → IsLine (mime.q_encode s)
  pub address : (s a : Str) → mime.parse_address s ≡ some a → IsLine s → IsLine a
  pub dated : IsLine draw.date
  pub numbered : IsLine draw.message_id

module _ (mime : Mime) (draw : Draw) (tidy : IsTidy mime draw) where
  extra_headers-IsBlock :
      (extra : List (Str × Str)) → IsBlock (count_where is_kept extra) (extra_headers mime extra)
  unfolding extra_headers
  extra_headers-IsBlock [] = ([], refl, tt, refl)
  extra_headers-IsBlock ((k, v) ∷ extra) =
      elim (Bool-cases (is_malformed (strip_header_injection k))) [
        | inl bad ↦ rw bad (extra_headers-IsBlock extra)
        | inr good ↦ rw good (
            IsBlock-append _ 1 (count_where is_kept extra) _ _ (omega arith)
              (header-IsBlock _ _ (strip-IsLine k) (strip-IsLine v)) (extra_headers-IsBlock extra))
      ]

  extract_domain-IsLine : (s : Str) → IsLine s → IsLine (extract_domain mime s)
  unfolding extract_domain
  extract_domain-IsLine s h = elim (Option-cases (mime.parse_address s)) [
    | inl e ↦ rw (e, extract_domain) (last_at-IsLine s h)
    | inr (a, e) ↦ rw (e, extract_domain) (last_at-IsLine a (tidy.address s a e h))
  ]

  from_value-IsLine : (from name : Str) → IsLine from → IsLine (from_value mime from name)
  from_value-IsLine from [] h = h
  from_value-IsLine from (c ∷ s) h =
      let word = IsLine-append _ (codes " <") (tidy.encoded (c ∷ s)) (omega arith) in
      IsLine-append _ (codes ">") (IsLine-append _ _ word h) (omega arith)

  message_id-IsLine : (domain : Str) → IsLine domain → IsLine (generate_message_id draw domain)
  unfolding generate_message_id
  message_id-IsLine domain h =
      let nanos =
        decimal-All (λ c. (c ≢ 13) × (c ≢ 10)) (λ d _. (omega arith, omega arith)) draw.nanos in
      let dot = IsLine-append _ (codes ".") tidy.numbered (omega arith) in
      let at = IsLine-append _ (codes "@") (IsLine-append _ _ dot nanos) (omega arith) in
      IsLine-append _ _ at h

  header_text-IsBlock :
      (from name to subject : Str) (extra : List (Str × Str))
      → IsLine from
      → IsLine to
      → IsBlock (8 + count_where is_kept extra) (header_text mime draw from name to subject extra)
  unfolding header_text
  header_text-IsBlock from name to subject extra hf ht =
      let domain = extract_domain-IsLine from hf in
      let ident =
        between (codes "<") (generate_message_id draw (extract_domain mime from)) (codes ">")
          (omega arith) (message_id-IsLine _ domain) (omega arith) in
      let unsubscribe =
        between (codes "<mailto:unsubscribe@") (extract_domain mime from)
          (codes "?subject=unsubscribe>") (omega arith) domain (omega arith) in
      let b = header-IsBlock (codes "From") _ (omega arith) (from_value-IsLine from name hf) in
      let b = push 1 _ (codes "To") _ b (omega arith) ht in
      let b = push 2 _ (codes "Subject") _ b (omega arith) (tidy.encoded subject) in
      let b = push 3 _ (codes "Date") _ b (omega arith) tidy.dated in
      let b = push 4 _ (codes "Message-ID") _ b (omega arith) ident in
      let b = push 5 _ (codes "MIME-Version") _ b (omega arith) (omega arith) in
      let b = push 6 _ (codes "List-Unsubscribe") _ b (omega arith) unsubscribe in
      let b =
        push 7 _ (codes "List-Unsubscribe-Post") (codes "List-Unsubscribe=One-Click") b
          (omega arith) (omega arith) in
      IsBlock-append _ 8 (count_where is_kept extra) _ _ refl b (extra_headers-IsBlock extra)

  build_body_part-content :
      (html text : Str)
      → has_prefix (build_body_part mime draw html text) (codes "Content-Type: ") ≡ true
  unfolding build_body_part has_prefix
  build_body_part-content html text =
      elim (Bool-cases (not (is_empty html) && not (is_empty text))) [ inl e ↦ rw e | inr e ↦ rw e ]

  with_attachments-content :
      (html text : Str) (atts : List Attachment)
      → has_prefix
          (with_attachments mime draw (build_body_part mime draw html text) atts)
          (codes "Content-Type: ")
        ≡ true
  unfolding with_attachments has_prefix
  with_attachments-content html text [] = build_body_part-content html text
  with_attachments-content html text (att ∷ atts) = refl

  -- When encoded words, dates and random digits are single lines, and so is an address that is
  -- parsed from a line, a built message is a header and a body: the header has eight lines, and one
  -- more for each extra header whose key is well formed, whatever line breaks the values hold.
  pub build_message-IsBlock :
      (from name to subject html text : Str) (extra : List (Str × Str)) (atts : List Attachment)
      → (head body : Str) × (build_message mime draw from name to subject html text extra atts
          ≡ head ++ body)
        × IsBlock (8 + count_where is_kept extra) head
        × (has_prefix body (codes "Content-Type: ") ≡ true)
  unfolding build_message
  build_message-IsBlock from name to subject html text extra atts = (
    _,
    _,
    refl,
    header_text-IsBlock _ _ _ _ extra (strip-IsLine from) (strip-IsLine to),
    with_attachments-content html _ atts,
  )
