-- ===== src/Handlers/Send/Request.antt =====
-- internal/handlers/send.go: the request of SendEmail with what it is refused for, and the texts that
-- it is taken apart into.
use delivery_api.Base.{
  ℕ, ◌+◌, ◌*◌, ◌/◌, ◌&&◌, ◌||◌, Option, none, some, List, [], ◌∷◌, ◌++◌, Str, codes, ltb,
  if◌then◌else◌, is_empty, length, last_index, take, drop, trim_right_by, trim_by, trim_space,
  member, decimal,
}

pub record SendAttachment : Type 0 where
  pub filename : Str
  pub content_type : Str
  pub content : Str

pub record SendRequest : Type 0 where
  pub from : Str
  pub to : Str
  pub subject : Str
  pub html : Str
  pub text : Str
  pub headers : List (Str × Str)
  pub tags : List Str
  pub layout : Str
  pub space : Str
  pub attachments : List SendAttachment

abbrev pub max_attachments : ℕ
max_attachments = 10

abbrev pub max_attachment_bytes_each : ℕ
max_attachment_bytes_each = 10 * 1024 * 1024

abbrev pub max_attachment_bytes_total : ℕ
max_attachment_bytes_total = 15 * 1024 * 1024

-- extractDomain and parseFrom of this package.
-- What stands between the last "<" and the ">" at the end, or the whole text.
unfoldable pub unbracketed : Str → Str
unbracketed from = elim (last_index from b'<') [
  | none ↦ from
  | some i ↦ trim_right_by (λ c. member c (codes ">")) (drop (i + 1) from)
]

unfoldable pub extract_domain : Str → Str
unfolding unbracketed
extract_domain from =
    let inner = unbracketed from in
    elim (last_index inner b'@') [ none ↦ inner | some i ↦ drop (i + 1) inner ]

-- The address and the name.
unfoldable pub parse_from : Str → Str × Str
parse_from from = elim (last_index from b'<') [
  | none ↦ (from, [])
  | some i ↦ (trim_by (λ c. member c (codes "<> ")) (drop (i + 1) from), trim_space (take i from))
]

abbrev pub nil_if_empty : Str → Option Str
nil_if_empty s = if is_empty s then none else some s

-- strings.Join(tags, ",")
pub join_tags : List Str → Str
join_tags [] = []
join_tags (t ∷ []) = t
join_tags (t ∷ u ∷ ts) = t ++ codes "," ++ join_tags (u ∷ ts)

abbrev pub tags_column : List Str → Option Str
tags_column [] = none
tags_column (t ∷ ts) = some (join_tags (t ∷ ts))

-- The loop over the attachments, from the n-th on: the total size, or the text of the error.
pub data Checked : Type 0 where
  total : ℕ → Checked
  rejected : Str → Checked

unfoldable pub check_attachments : (Str → Option Str) → ℕ → ℕ → List SendAttachment → Checked
check_attachments decode n bytes [] = total bytes
check_attachments decode n bytes (att ∷ rest) =
    if is_empty att.filename
    then rejected (codes "attachment " ++ decimal (n + 1) ++ codes ": filename is required")
    else elim (decode att.content) [
      | none ↦ rejected (codes "attachment " ++ att.filename ++ codes ": invalid base64")
      | some decoded ↦
          let next = check_attachments decode (n + 1) (bytes + length decoded) rest in
          if ltb max_attachment_bytes_each (length decoded)
          then rejected (
              codes "attachment "
              ++ att.filename
              ++ codes " exceeds "
              ++ decimal (max_attachment_bytes_each / 1024 / 1024)
              ++ codes " MB")
          else next
    ]

-- Everything that is refused before a table is read; `none` lets the request pass.
unfoldable pub validate : (Str → Option Str) → SendRequest → Option Str
unfolding check_attachments
validate decode req =
    if is_empty req.to || (is_empty req.subject || (is_empty req.html && is_empty req.text))
    then some (codes "to, subject, and html or text are required")
    else if ltb max_attachments (length req.attachments)
    then some (codes "too many attachments (max " ++ decimal max_attachments ++ codes ")")
    else elim (check_attachments decode 0 0 req.attachments) [
      | rejected text ↦ some text
      | total bytes ↦
          if ltb max_attachment_bytes_total bytes
          then some (
              codes "attachments exceed total "
              ++ decimal (max_attachment_bytes_total / 1024 / 1024)
              ++ codes " MB")
          else none
    ]
