-- ===== src/Dns/Tests.antt =====
-- A set-up in a zone that is empty.
use delivery_api.Base.{◌≡◌, refl, some, [], codes, str_eq}
use delivery_api.Dns.{
  Zone, dkim_record, spf_record, dmarc_record, find_zone, setup_domain_records, ensure, find_record,
  get_zone, try_zones, split_dots,
}
use delivery_api.Dns.Setup.{Holds}
use delivery_api.Dns.Complete.{setup_domain_records-Holds}
use delivery_api.Dns.Paper.{paper}

setup_domain_records-Holds_example :
    let after =
      (setup_domain_records paper (codes "a.b") (codes "s") (codes "k") (codes "1") []).0 in
    (zone : Zone) × (find_zone paper (codes "a.b") [] ≡ some zone)
    × Holds paper zone.id (dkim_record (codes "s") (codes "k") (codes "a.b")) after
    × Holds paper zone.id (spf_record (codes "1") (codes "a.b")) after
    × Holds paper zone.id (dmarc_record (codes "a.b")) after
unfolding setup_domain_records find_zone ensure find_record get_zone try_zones split_dots str_eq
    dkim_record spf_record dmarc_record
setup_domain_records-Holds_example =
    setup_domain_records-Holds paper (codes "a.b") (codes "s") (codes "k") (codes "1") [] refl
