-- ===== src/Handlers/Listing/Tests.antt =====
-- The lists on two messages of two users.
use delivery_api.Base.{Bool, ◌≡◌, ◌≤◌, refl, true, [], Str, codes, All, length, IsNewestFirst}
use delivery_api.Models.{message_model}
use delivery_api.Listed.{list_db}
use delivery_api.Queue.Tests.{store}
use delivery_api.Handlers.Listing.{
  is_listed, list_messages, get_message, domain_messages, admin_list_messages,
}
use delivery_api.Handlers.Listing.Windows.{admin_list_messages-bounds}
use delivery_api.Handlers.Listing.Owners.{Shows, IsTheirs, list_messages-IsTheirs}

abbrev like : Str → Str → Bool
like text pattern = true

admin_list_messages-bounds_example :
    let r = admin_list_messages list_db like (codes "sent") [] 0 900 store.messages in
    (1 ≤ r.page)
    × (1 ≤ r.limit)
    × (r.limit ≤ 200)
    × (length r.rows ≤ r.limit)
    × All (λ m. is_listed like (codes "sent") [] m ≡ true) r.rows
    × IsNewestFirst message_model.created_at r.rows
admin_list_messages-bounds_example =
    admin_list_messages-bounds list_db like (codes "sent") [] 0 900 store.messages

list_messages-IsTheirs_example :
    All (IsTheirs (codes "u")) (list_messages list_db (codes "u") store.messages)
    × Shows
        (λ shown. IsTheirs (codes "u") shown.0)
        (get_message list_db (codes "m") (codes "u") store)
    × Shows (All (IsTheirs (codes "u"))) (domain_messages list_db 1 (codes "u") store)
list_messages-IsTheirs_example = list_messages-IsTheirs list_db (codes "u") refl store (codes "m") 1
