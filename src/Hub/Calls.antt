-- ===== src/Hub/Calls.antt =====
-- Any interleaving of the calls of the goroutines.
pub mod Members
pub mod Owners
use delivery_api.Base.{ℕ, Str}
use delivery_api.Hub.{Event, Hub, new_hub, subscribe, detach, close, offer, receive}

-- What the goroutines do to the hub, each send of a publishing call for itself.
pub data Act : Type 0 where
  subscribes : Str → Act
  detaches : Str → ℕ → Act
  closes receives : ℕ → Act
  offers : Event → ℕ → Act

unfoldable pub act : Act → Hub → Hub
act (subscribes user) h = (subscribe user h).0
act (detaches user n) h = detach user n h
act (closes n) h = close n h
act (receives n) h = receive n h
act (offers evt n) h = offer evt n h

pub data Reach : Hub → Type 0 where
  started : Reach new_hub
  acted : (a : Act) (h : Hub) → Reach h → Reach (act a h)
