-- ===== src/Handlers/AutoDns/Tests.antt =====
-- One domain, in a zone that is empty.
use delivery_api.Base.{true, [], ◌∷◌, codes}
use delivery_api.Listed.{list_db}
use delivery_api.Smtp.Dkim.Tests.{sending_domain}
use delivery_api.Dns.Paper.{paper}
use delivery_api.Handlers.AutoDns.{auto_setup_dns}
use delivery_api.Handlers.AutoDns.Published.{IsOutcome, auto_setup_dns-IsOutcome}

auto_setup_dns-IsOutcome_example :
    let r = auto_setup_dns list_db paper true (codes "1") 1 (codes "u") (sending_domain ∷ [], []) in
    IsOutcome list_db paper (codes "1") (codes "u") 1 (sending_domain ∷ []) [] r.0 r.1
auto_setup_dns-IsOutcome_example =
    auto_setup_dns-IsOutcome list_db paper (codes "1") true 1 (codes "u") (sending_domain ∷ []) []
