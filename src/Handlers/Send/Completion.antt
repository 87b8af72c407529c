-- ===== src/Handlers/Send/Completion.antt =====
-- When SendEmail accepts, and what the worker makes of a body that starts like a header.
use delivery_api.Base.{
  ℕ, ◌∙◌, ◌≡◌, ◌≢◌, refl, true, false, some, [], Str, codes, arith, is_empty, is_empty_iff,
  find_where, count_where, has_prefix, ◌∷◌, get_or, ◌↔◌, none, sym, inl, inr, Bool-cases,
}
use delivery_api.Models.{SendingDomain}
use delivery_api.Db.{Database, IsLive}
use delivery_api.Queue.{Worker, Env, raw_message}
use delivery_api.Queue.Raw.{raw_message-from}
use delivery_api.Handlers.Reply.{reply}
use delivery_api.Handlers.Send.{
  SendRequest, SendEnv, nil_if_empty, new_message, create_message, send_email, verified_domain,
  suppressed,
}
use delivery_api.Handlers.Layout.{is_construct, apply_layout}
use delivery_api.Handlers.Layout.Frames.{apply_layout_other, apply_layout-nonempty}
use delivery_api.Handlers.Send.Attachments.{IsAcceptable, validate_iff}

pub send_email-create_message :
    (db : Database) (domains : IsLive db.domains) (suppressions : IsLive db.suppressions)
    (env : SendEnv) (req : SendRequest) (w : Worker db) (d : SendingDomain)
    → IsAcceptable env.decode req
    → env.shared ≢ []
    → find_where (verified_domain db env.shared) (db.domains.rows w.store.domains) ≡ some d
    → count_where (suppressed db env.user_id req.to) (db.suppressions.rows w.store.suppressions) ≡ 0
    → send_email db env (some req) w ≡ create_message db true (new_message env req d) w
unfolding send_email
send_email-create_message db domains suppressions env req w d ok configured found free =
    let named : is_empty env.shared ≡ false = ground (arith, is_empty_iff env.shared) in
    rw
      (
        send_email,
        (validate_iff env.decode req).1 ok,
        named,
        domains.first_live (verified_domain db env.shared) w.store.domains,
        found,
        suppressions.count_live (suppressed db env.user_id req.to) w.store.suppressions,
        free,
      )
      refl

-- In a database none of whose calls fails, an acceptable request is answered 202 whenever the
-- shared domain is configured and verified and the caller has no suppression for the recipient.
pub send_email-accepts :
    (db : Database) (messages : IsLive db.messages) (domains : IsLive db.domains)
    (suppressions : IsLive db.suppressions) (env : SendEnv) (req : SendRequest) (w : Worker db)
    (d : SendingDomain)
    → IsAcceptable env.decode req
    → env.shared ≢ []
    → find_where (verified_domain db env.shared) (db.domains.rows w.store.domains) ≡ some d
    → count_where (suppressed db env.user_id req.to) (db.suppressions.rows w.store.suppressions) ≡ 0
    → (at : ℕ) × ((send_email db env (some req) w).1
        ≡ reply 202 (record { id = env.uuid; created_at = some at }))
unfolding create_message new_message
send_email-accepts db messages domains suppressions env req w d ok configured found free =
    let (g, made, _, _) = messages.create_live (new_message env req d) w.store.messages in
    (
      g.created_at,
      rw
          (
            send_email-create_message db domains suppressions env req w d ok configured found free,
            create_message,
            made,
          )
          refl,
    )

nil_if_empty-get_or : (s : Str) → get_or (nil_if_empty s) [] ≡ s
nil_if_empty-get_or [] = refl
nil_if_empty-get_or (c ∷ s) = refl

nil_if_empty-none_iff : (s : Str) → (nil_if_empty s ≡ none) ↔ (s ≡ [])
nil_if_empty-none_iff [] = (λ e. refl, λ e. refl)
nil_if_empty-none_iff (c ∷ s) = (λ e. cc, λ e. cc)

-- The row of a request has no HTML body exactly if the request has none and names a layout other
-- than "" and "construct": under these two a request with a text alone is stored with an HTML body.
pub new_message-html_body_iff :
    (senv : SendEnv) (req : SendRequest) (d : SendingDomain)
    → ((new_message senv req d).html_body ≡ none)
      ↔ ((req.html ≡ []) × (is_construct req.layout ≡ false))
unfolding new_message
new_message-html_body_iff senv req d =
    let page = apply_layout req.layout req.space req.subject req.html in
    let none_iff = nil_if_empty-none_iff page in
    elim (Bool-cases (is_construct req.layout)) [
      | inl own ↦ (
        λ empty. absurd (
            apply_layout-nonempty req.layout req.space req.subject req.html own (none_iff.0 empty)),
        λ h. let other = h.1 in cc,
      )
      | inr other ↦
          let same = apply_layout_other req.layout req.space req.subject req.html other in
          (λ empty. (sym same ∙ none_iff.0 empty, other), λ h. none_iff.1 (same ∙ h.0))
    ]

-- A request that names a layout other than "" and "construct" and whose body starts with "From:"
-- leaves the service as that body, so that its sender is the one that the caller wrote.
pub raw_message-new_message :
    (env : Env) (senv : SendEnv) (req : SendRequest) (d : SendingDomain)
    → is_construct req.layout ≡ false
    → has_prefix req.html (codes "From:") ≡ true
    → raw_message env (new_message senv req d) ≡ req.html
unfolding new_message
raw_message-new_message env senv req d other starts =
    let same = apply_layout_other req.layout req.space req.subject req.html other in
    let whole : get_or (new_message senv req d).html_body [] ≡ req.html =
      rw same (nil_if_empty-get_or req.html) in
    raw_message-from env (new_message senv req d) (rw whole starts) ∙ whole
