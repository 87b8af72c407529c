-- ===== src/Smtp/Relay/Access/Locked.antt =====
-- A session that is not authenticated.
use delivery_api.Base.{◌≡◌, refl, Bool, true, false, some, arith, Str}
use delivery_api.Db.{Database}
use delivery_api.Smtp.Relay.{auth_required, Relay, auth, mail, rcpt, submit, reset}
use delivery_api.Smtp.Relay.Access.{Verb, auths, mails, rcpts, submits, resets, logouts, step}

abbrev pub is_mail_verb : Verb → Bool
is_mail_verb (mails from) = true
is_mail_verb (rcpts to) = true
is_mail_verb (submits body uuids) = true
is_mail_verb _ = false

module _ (db : Database) (hash : Str → Str) where
  -- A session that is not authenticated changes no message, event or queue by any verb.
  pub step_locked :
      (v : Verb) (r : Relay db)
      → r.session.authenticated ≡ false
      → ((step db hash v r).0.store.messages ≡ r.store.messages)
        × ((step db hash v r).0.store.events ≡ r.store.events)
        × ((step db hash v r).0.queue ≡ r.queue)
  unfolding step mail rcpt reset submit auth
  step_locked (auths now plain username password) r h = (ground arith, ground arith, ground arith)
  step_locked (mails from) r h = rw h (refl, refl, refl)
  step_locked (rcpts to) r h = rw h (refl, refl, refl)
  step_locked (submits body uuids) r h = rw h (refl, refl, refl)
  step_locked resets r h = (refl, refl, refl)
  step_locked logouts r h = (refl, refl, refl)

  -- MAIL, RCPT and DATA are refused with "authentication required", and change nothing, in a
  -- session that is not authenticated.
  pub step_refused :
      (v : Verb) (r : Relay db)
      → r.session.authenticated ≡ false
      → is_mail_verb v ≡ true
      → step db hash v r ≡ (r, some auth_required)
  unfolding step mail rcpt submit
  step_refused (auths now plain username password) r h e = cc
  step_refused (mails from) r h e = rw h refl
  step_refused (rcpts to) r h e = rw h refl
  step_refused (submits body uuids) r h e = rw h refl
  step_refused resets r h e = cc
  step_refused logouts r h e = cc
