-- ===== src/Handlers/Listing/Owners.antt =====
-- Whose messages a caller is shown.
use delivery_api.Base.{
  ℕ, ◌≡◌, inl, inr, arith, true, false, ◌&&◌, ◌||◌, some, Str, Option-cases, All, All-weaken,
  is_empty, str_eq, str_eq_iff, ◌==◌,
}
use delivery_api.Models.{Message}
use delivery_api.Db.{Database, Store, first_sound}
use delivery_api.Handlers.Reply.{Reply, reply, error}
use delivery_api.Handlers.Domains.{owned}
use delivery_api.Handlers.Listing.{of_sender, list_messages, get_message, domain_messages}
use delivery_api.Handlers.Listing.Windows.{page-All}

-- What is shown satisfies a predicate; an error shows nothing.
abbrev pub Shows {ℓ κ} : {A : Type ℓ} → (A → Type κ) → Reply A → Type κ
Shows P (reply code a) = P a
Shows P (error code text) = Unit

abbrev pub IsTheirs : Str → Message → Type 0
IsTheirs user m = m.user_id ≡ user

module _ (db : Database) (user : Str) (named : is_empty user ≡ false) (s : Store db) where
  -- Whatever fails, ListMessages, GetMessage and DomainMessages show a named user no message of
  -- another user.
  pub list_messages-IsTheirs :
      (id : Str) (domain : ℕ)
      → All (IsTheirs user) (list_messages db user s.messages)
        × Shows (λ shown. IsTheirs user shown.0) (get_message db id user s)
        × Shows (All (IsTheirs user)) (domain_messages db domain user s)
  unfolding list_messages get_message domain_messages
  list_messages-IsTheirs id domain = (
    All-weaken _ (IsTheirs user) (λ m e. (str_eq_iff m.user_id user).0 e) _
        (page-All db.messages (of_sender user) 0 (some 100) s.messages),
    one,
    many,
  )
    where
      one : Shows (λ shown. IsTheirs user shown.0) (get_message db id user s)
      one =
          let p = λ (m : Message). str_eq m.external_id id && (is_empty user || of_sender user m) in
          elim (Option-cases (db.messages.first p s.messages)) [
            | inl gone ↦ rw (get_message, gone) tt
            | inr (m, found) ↦
                let meets : p m ≡ true = first_sound db.messages p s.messages m found in
                rw (get_message, found) ((str_eq_iff m.user_id user).0 (ground arith))
          ]

      many : Shows (All (IsTheirs user)) (domain_messages db domain user s)
      many = elim (Option-cases (db.domains.first (owned db domain user) s.domains)) [
        | inl gone ↦ rw (domain_messages, gone) tt
        | inr (d, found) ↦
            rw (domain_messages, found)
              (All-weaken _ (IsTheirs user) (λ m e. (str_eq_iff m.user_id user).0 (ground arith)) _
                (page-All db.messages (λ m. (m.domain_id == d.id) && of_sender user m) 0 (some 100)
                  s.messages))
      ]
