-- ===== src/Queue/Raw.antt =====
-- Bodies that the worker takes for whole messages.
use delivery_api.Base.{◌≡◌, refl, true, [], ◌∷◌, Str, codes, get_or, has_prefix}
use delivery_api.Models.{Message}
use delivery_api.Queue.{Env, is_raw, raw_message}

pub is_raw-from : (html : Str) → has_prefix html (codes "From:") ≡ true → is_raw html ≡ true
unfolding is_raw has_prefix
is_raw-from [] h = h
is_raw-from (c ∷ s) h = rw h

-- A body that is taken for a whole message is sent as it is.
pub raw_message_whole :
    (env : Env) (m : Message)
    → is_raw (get_or m.html_body []) ≡ true
    → raw_message env m ≡ get_or m.html_body []
unfolding raw_message
raw_message_whole env m h = rw (raw_message, h) refl

-- So is a body that starts with "From:".
pub raw_message-from :
    (env : Env) (m : Message)
    → has_prefix (get_or m.html_body []) (codes "From:") ≡ true
    → raw_message env m ≡ get_or m.html_body []
raw_message-from env m h = raw_message_whole env m (is_raw-from (get_or m.html_body []) h)
