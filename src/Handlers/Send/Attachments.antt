-- ===== src/Handlers/Send/Attachments.antt =====
-- Which requests pass the checks of SendEmail.
use delivery_api.Base.{
  ℕ, ◌+◌, ◌≤◌, ◌≡◌, ◌≢◌, ◌↔◌, refl, ◌⊎◌, inl, inr, Option, none, some, Option-cases, List, [], ◌∷◌,
  Str, arith, All, length, is_empty_iff,
}
use delivery_api.Handlers.Send.{
  SendAttachment, SendRequest, Checked, total, rejected, check_attachments, validate,
  max_attachments, max_attachment_bytes_each, max_attachment_bytes_total,
}

module _ (decode : Str → Option Str) where
  -- The decoded size, 0 for a content that is no base64.
  abbrev pub size : SendAttachment → ℕ
  size att = elim (decode att.content) [ none ↦ 0 | some bytes ↦ length bytes ]

  abbrev pub total_size : List SendAttachment → ℕ
  total_size [] = 0
  total_size (att ∷ rest) = size att + total_size rest

  -- A named file whose content is base64 of at most 10 MB.
  abbrev pub IsUsable : SendAttachment → Type 0
  IsUsable att =
      (att.filename ≢ []) × (decode att.content ≢ none) × (size att ≤ max_attachment_bytes_each)

  check_attachments-total :
      (n bytes : ℕ) (atts : List SendAttachment)
      → All IsUsable atts
      → check_attachments decode n bytes atts ≡ total (bytes + total_size atts)
  unfolding check_attachments
  check_attachments-total n bytes [] h = ground arith
  check_attachments-total n bytes (att ∷ rest) ((named, base64, small), hs) = ground (
    arith,
    is_empty_iff att.filename,
    Option-cases (decode att.content),
    check_attachments-total (n + 1) (bytes + size att) rest hs,
  )

  check_attachments-IsUsable :
      (n bytes t : ℕ) (atts : List SendAttachment)
      → check_attachments decode n bytes atts ≡ total t
      → All IsUsable atts × (t ≡ bytes + total_size atts)
  unfolding check_attachments
  check_attachments-IsUsable n bytes t [] h = (tt, ground arith)
  check_attachments-IsUsable n bytes t (att ∷ rest) h = ground (
    arith,
    is_empty_iff att.filename,
    Option-cases (decode att.content),
    check_attachments-IsUsable (n + 1) (bytes + size att) t rest,
  )

  Checked-cases : (c : Checked) → ((t : ℕ) × (c ≡ total t)) ⊎ ((text : Str) × (c ≡ rejected text))
  Checked-cases (total t) = inl (t, refl)
  Checked-cases (rejected text) = inr (text, refl)

  -- What a request needs to pass the checks.
  pub record IsAcceptable (req : SendRequest) : Type 0 where
    pub recipient : req.to ≢ []
    pub subject : req.subject ≢ []
    pub body : (req.html ≢ []) ⊎ (req.text ≢ [])
    pub few : length req.attachments ≤ max_attachments
    pub usable : All IsUsable req.attachments
    pub fits : total_size req.attachments ≤ max_attachment_bytes_total

  -- The checks pass exactly the requests with a recipient, a subject, a body, and at most ten
  -- usable attachments (named, base64, of at most 10 MB) that take 15 MB at most.
  pub validate_iff : (req : SendRequest) → (validate decode req ≡ none) ↔ IsAcceptable req
  unfolding validate
  validate_iff req = (
    λ h. elim (Checked-cases (check_attachments decode 0 0 req.attachments)) [
      | inl (t, e) ↦
          let (usable, size) = check_attachments-IsUsable 0 0 t req.attachments e in
          record {
            recipient = ground (arith, is_empty_iff req.to);
            subject = ground (arith, is_empty_iff req.subject);
            body = ground (arith, is_empty_iff req.html, is_empty_iff req.text);
            few = ground arith;
            usable = usable;
            fits = ground arith;
          }
      | inr (text, e) ↦ ground arith
    ],
    λ a. ground (
      arith,
      is_empty_iff req.to,
      is_empty_iff req.subject,
      is_empty_iff req.html,
      is_empty_iff req.text,
      check_attachments-total 0 0 req.attachments a.usable,
    ),
  )
