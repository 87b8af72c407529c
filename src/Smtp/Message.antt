-- ===== src/Smtp/Message.antt =====
-- internal/smtp/message.go. What it takes of the standard library (mime, net/mail, regexp,
-- encoding/base64) and what it draws (random bytes, the clock) are arguments.
pub mod Headers
pub mod Wrapping
pub mod Tests
use delivery_api.Base.{
  ℕ, zero, suc, ◌-◌, ◌+◌, ◌≡◌, Bool, true, false, ◌&&◌, ◌||◌, not, Option, none, some, List, [],
  ◌∷◌, ◌++◌, Str, codes, if◌then◌else◌, is_empty, has_prefix, last_index, drop, take, length,
  member, any_of, trim_space, decimal,
}

pub record Attachment : Type 0 where
  pub filename : Str
  pub content_type : Str
  pub content : Str

pub record Mime : Type 0 where
  -- mime.QEncoding.Encode("utf-8", s)
  pub q_encode : Str → Str
  -- base64.StdEncoding.EncodeToString
  pub base64 : Str → Str
  -- mail.ParseAddress, with the address alone
  pub parse_address : Str → Option Str
  -- ReplaceAllString of the six patterns, with their replacements
  pub drop_script_style : Str → Str
  pub block_end_to_newline : Str → Str
  pub br_to_newline : Str → Str
  pub tag_to_space : Str → Str
  pub squash_spaces : Str → Str
  pub squash_newlines : Str → Str

-- What one call of BuildMessage draws.
pub record Draw : Type 0 where
  pub message_id : Str
  pub nanos : ℕ
  pub date : Str
  pub mixed : Str
  pub alternative : Str

-- strings.NewReplacer: at each byte the first old text that fits is replaced.
pub find_old : List (Str × Str) → Str → Option (Str × Str)
find_old [] s = none
find_old ((old, new) ∷ pairs) s = if has_prefix s old then some (old, new) else find_old pairs s

abbrev replaced_by : ℕ → Option (Str × Str) → Str × ℕ
replaced_by c none = (c ∷ [], 0)
replaced_by c (some (old, new)) = (new, length old - 1)

-- The number counts the bytes of the last old text that are still to be passed over.
replace_from : List (Str × Str) → ℕ → Str → Str
unfolding find_old
replace_from pairs k [] = []
replace_from pairs (suc k) (c ∷ s) = replace_from pairs k s
replace_from pairs zero (c ∷ s) =
    let r = replaced_by c (find_old pairs (c ∷ s)) in r.0 ++ replace_from pairs r.1 s

abbrev cr_lf_nul : List (Str × Str)
cr_lf_nul = (13 ∷ [], []) ∷ (10 ∷ [], []) ∷ (0 ∷ [], []) ∷ []

pub strip_header_injection : Str → Str
unfolding replace_from
strip_header_injection = replace_from cr_lf_nul zero

entities : List (Str × Str)
entities =
    (codes "&nbsp;", codes " ")
    ∷ (codes "&amp;", codes "&")
    ∷ (codes "&lt;", codes "<")
    ∷ (codes "&gt;", codes ">")
    ∷ (codes "&quot;", codes "\"")
    ∷ (codes "&#39;", codes "'")
    ∷ []

abbrev pub crlf : Str
crlf = 13 ∷ 10 ∷ []

-- base64Wrap: the loop cuts the encoded text at every 76 bytes; the fuel is its length.
wrap_lines : ℕ → Str → Str
wrap_lines zero s = []
wrap_lines (suc fuel) [] = []
wrap_lines (suc fuel) (c ∷ s) = take 76 (c ∷ s) ++ crlf ++ wrap_lines fuel (drop 76 (c ∷ s))

header : Str → Str → Str
header name value = name ++ codes ": " ++ value ++ crlf

-- strings.ContainsAny(k, ": \t"), or an empty key
pub is_malformed : Str → Bool
is_malformed k = is_empty k || any_of (λ c. member c (codes ": \t")) k

generate_message_id : Draw → Str → Str
generate_message_id draw domain =
    draw.message_id ++ codes "." ++ decimal draw.nanos ++ codes "@" ++ domain

abbrev pub after_last_at : Str → Str
after_last_at s = elim (last_index s b'@') [ none ↦ codes "localhost" | some i ↦ drop (i + 1) s ]

module _ (mime : Mime) where
  open mime use {q_encode, base64, parse_address}

  pub base64_wrap : Str → Str
  unfolding wrap_lines
  base64_wrap s = wrap_lines (length (base64 s)) (base64 s)

  html_to_plain_text : Str → Str
  unfolding replace_from entities
  html_to_plain_text html =
      let s = mime.drop_script_style html in
      let s = mime.block_end_to_newline s in
      let s = mime.br_to_newline s in
      let s = mime.tag_to_space s in
      let s = replace_from entities zero s in
      let s = mime.squash_spaces s in let s = mime.squash_newlines s in trim_space s

  pub extract_domain : Str → Str
  extract_domain email = elim (parse_address email) [
    | none ↦ after_last_at email
    | some address ↦ after_last_at address
  ]

  abbrev boundary : Str → Str
  boundary hex = codes "----=_Part_" ++ hex

  build_body_part : Draw → Str → Str → Str
  build_body_part draw html text =
      if not (is_empty html) && not (is_empty text)
      then (let b = boundary draw.alternative in
          codes "Content-Type: multipart/alternative; boundary=\""
          ++ b
          ++ codes "\""
          ++ crlf
          ++ crlf
          ++ codes "--"
          ++ b
          ++ crlf
          ++ codes "Content-Type: text/plain; charset=utf-8"
          ++ crlf
          ++ codes "Content-Transfer-Encoding: base64"
          ++ crlf
          ++ crlf
          ++ base64_wrap text
          ++ crlf
          ++ codes "--"
          ++ b
          ++ crlf
          ++ codes "Content-Type: text/html; charset=utf-8"
          ++ crlf
          ++ codes "Content-Transfer-Encoding: base64"
          ++ crlf
          ++ crlf
          ++ base64_wrap html
          ++ crlf
          ++ codes "--"
          ++ b
          ++ codes "--"
          ++ crlf)
      else (codes "Content-Type: text/plain; charset=utf-8"
          ++ crlf
          ++ codes "Content-Transfer-Encoding: base64"
          ++ crlf
          ++ crlf
          ++ base64_wrap text)

  -- The loop over the extra headers, in the order in which the map yields them.
  extra_headers : List (Str × Str) → Str
  unfolding header
  extra_headers [] = []
  extra_headers ((k, v) ∷ rest) =
      let key = strip_header_injection k in
      let value = strip_header_injection v in
      (if is_malformed key then [] else header key value) ++ extra_headers rest

  abbrev from_value : Str → Str → Str
  from_value from name =
      if is_empty name then from else q_encode name ++ codes " <" ++ from ++ codes ">"

  -- Everything above the body, from the values as they were stripped.
  header_text : Draw → Str → Str → Str → Str → List (Str × Str) → Str
  header_text draw from name to subject extra =
      header (codes "From") (from_value from name)
      ++ header (codes "To") to
      ++ header (codes "Subject") (q_encode subject)
      ++ header (codes "Date") draw.date
      ++ header (codes "Message-ID")
          (codes "<" ++ generate_message_id draw (extract_domain from) ++ codes ">")
      ++ header (codes "MIME-Version") (codes "1.0")
      ++ header (codes "List-Unsubscribe")
          (codes "<mailto:unsubscribe@" ++ extract_domain from ++ codes "?subject=unsubscribe>")
      ++ header (codes "List-Unsubscribe-Post") (codes "List-Unsubscribe=One-Click")
      ++ extra_headers extra

  -- One attached file, behind the boundary `b`.
  attachment_part : Str → Attachment → Str
  attachment_part b att =
      let ct =
        if is_empty att.content_type then codes "application/octet-stream" else att.content_type in
      let name = q_encode att.filename in
      crlf
      ++ codes "--"
      ++ b
      ++ crlf
      ++ codes "Content-Type: "
      ++ ct
      ++ codes "; name=\""
      ++ name
      ++ codes "\""
      ++ crlf
      ++ codes "Content-Disposition: attachment; filename=\""
      ++ name
      ++ codes "\""
      ++ crlf
      ++ codes "Content-Transfer-Encoding: base64"
      ++ crlf
      ++ crlf
      ++ base64_wrap att.content

  attachment_parts : Str → List Attachment → Str
  unfolding attachment_part
  attachment_parts b [] = []
  attachment_parts b (att ∷ atts) = attachment_part b att ++ attachment_parts b atts

  with_attachments : Draw → Str → List Attachment → Str
  unfolding attachment_parts
  with_attachments draw body [] = body
  with_attachments draw body (att ∷ atts) =
      let b = boundary draw.mixed in
      codes "Content-Type: multipart/mixed; boundary=\""
      ++ b
      ++ codes "\""
      ++ crlf
      ++ crlf
      ++ codes "--"
      ++ b
      ++ crlf
      ++ body
      ++ attachment_parts b (att ∷ atts)
      ++ crlf
      ++ codes "--"
      ++ b
      ++ codes "--"
      ++ crlf

  pub build_message :
      Draw → Str → Str → Str → Str → Str → Str → List (Str × Str) → List Attachment → Str
  unfolding header_text with_attachments build_body_part
  build_message draw from name to subject html text extra atts =
      let plain = if not (is_empty html) && is_empty text then html_to_plain_text html else text in
      header_text draw (strip_header_injection from) (strip_header_injection name)
        (strip_header_injection to) (strip_header_injection subject) extra
      ++ with_attachments draw (build_body_part draw html plain) atts
