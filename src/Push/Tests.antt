-- ===== src/Push/Tests.antt =====
-- Two browsers, of which one is gone.
use delivery_api.Base.{ℕ, refl, none, some, [], ◌∷◌, Str, codes, arith}
use delivery_api.Models.{WebPushSubscription, subscription_model}
use delivery_api.Listed.{list_db, list_table-IsLive}
use delivery_api.Push.{Services, Endpoints, has_id, fanout}
use delivery_api.Push.Fanout.{Fate, fanout-subscription}
use delivery_api.Base.{find_where}

abbrev browser : ℕ → Str → WebPushSubscription
browser n user = record {
  id = n;
  user_id = user;
  endpoint = codes "e";
  p256dh = codes "p";
  auth = codes "a";
  user_agent = [];
  created_at = 1;
  last_used = 1;
}

abbrev endpoints : Endpoints list_db
endpoints = record {
  subscriptions = browser 1 (codes "u") ∷ browser 2 (codes "v") ∷ [];
  devices = [];
}

abbrev services : Services
services = record { web = some (λ s. some 410); mobile = none; now = λ n. 9 }

fanout-subscription_example : Fate services (codes "u") (browser 1 (codes "u")) (
    find_where
      (has_id subscription_model 1)
      (fanout list_db services (codes "u") endpoints).subscriptions)
fanout-subscription_example =
    fanout-subscription list_db services (codes "u") endpoints
      (list_table-IsLive subscription_model) 1 (browser 1 (codes "u"))
      ((λ e. omega (arith, e), tt), (tt, tt)) refl
