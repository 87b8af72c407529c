-- ===== src/Handlers/Tenants/Tests.antt =====
-- Two tenants, one of them with a second count of domains.
use delivery_api.Base.{◌≡◌, none, some, List, [], ◌∷◌, codes}
use delivery_api.Handlers.Tenants.{MsgRow, CountRow, merged}
use delivery_api.Handlers.Tenants.Joined.{tenant_at, last_of, footprint, tenant_at-merged}

abbrev msgs : List MsgRow
msgs =
    record {
      user_id = codes "u";
      total = 3;
      sent = 1;
      queued = 1;
      failed = 1;
      bounced = 0;
      last_send_at = some 7;
    }
    ∷ []

abbrev doms : List CountRow
doms = record { user_id = codes "v"; n = 1 } ∷ record { user_id = codes "u"; n = 2 } ∷ []

tenant_at-merged_example :
    tenant_at (codes "u") (merged msgs doms [])
    ≡ footprint
        (codes "u")
        (last_of (λ m. m.user_id) (codes "u") msgs)
        (last_of (λ c. c.user_id) (codes "u") doms)
        none
tenant_at-merged_example = tenant_at-merged msgs doms [] (codes "u")
