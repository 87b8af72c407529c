-- ===== src/Handlers/Devices/Tests.antt =====
-- A browser that changes hands.
use delivery_api.Base.{◌≤◌, some, [], ◌∷◌, List, codes, arith, count_where}
use delivery_api.Models.{subscription_model}
use delivery_api.Listed.{list_db, list_table-IsLive}
use delivery_api.Handlers.Devices.{
  WebPushSubRequest, at_endpoint, Call, register, unregister, serve_all,
}
use delivery_api.Handlers.Devices.Replacing.{serve_all-count_where}

abbrev request : WebPushSubRequest
request = record { endpoint = codes "e"; p256dh = codes "p"; auth = codes "a"; user_agent = [] }

abbrev calls : List (Call list_db)
calls =
    register 1 (codes "u") (some request)
    ∷ register 2 (codes "v") (some request)
    ∷ unregister (codes "u") (some (codes "e"))
    ∷ []

serve_all-count_where_example :
    count_where (at_endpoint (codes "e")) (serve_all list_db calls []) ≤ 1
serve_all-count_where_example =
    serve_all-count_where list_db (list_table-IsLive subscription_model) calls [] (λ e. omega arith)
      (codes "e")
