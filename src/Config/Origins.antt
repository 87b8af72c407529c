-- ===== src/Config/Origins.antt =====
-- The origins that ALLOWED_ORIGINS lists.
use delivery_api.Base.{
  ℕ, ◌≡◌, ◌≢◌, ◌∙◌, refl, ap, arith, false, Option, List, [], ◌∷◌, ◌++◌, Str, codes, map, split,
  All, is_empty, is_empty_iff, trim_space, Lacks,
}
use delivery_api.Config.{env, join, allowed_origins, load_from, load, load_env_file}

split_whole : (c : ℕ) (part : Str) → Lacks c part → split c part ≡ part ∷ []
unfolding split
split_whole c [] h = refl
split_whole c (d ∷ s) (apart, h) = ground (arith, split_whole c s h)

split-separated :
    (c : ℕ) (part rest : Str) → Lacks c part → split c (part ++ c ∷ rest) ≡ part ∷ split c rest
unfolding split
split-separated c [] rest h = ground arith
split-separated c (d ∷ s) rest (apart, h) = ground (arith, split-separated c s rest h)

split-join :
    (c : ℕ) (part : Str) (parts : List Str)
    → All (Lacks c) (part ∷ parts)
    → split c (join (c ∷ []) (part ∷ parts)) ≡ part ∷ parts
unfolding join
split-join c part [] (h, _) = split_whole c part h
split-join c part (next ∷ parts) (h, hs) =
    split-separated c part (join (c ∷ []) (next ∷ parts)) h
    ∙ ap (part ∷◌) (split-join c next parts hs)

load_from-allowed_origins :
    (getenv : Str → Str) (read : Str → Option Str) (part : Str) (parts : List Str)
    → All (Lacks b',') (part ∷ parts)
    → getenv (codes "ALLOWED_ORIGINS") ≡ join (codes ",") (part ∷ parts)
    → getenv (codes "ALLOWED_ORIGINS") ≢ []
    → (load_from getenv read).allowed_origins ≡ map trim_space (part ∷ parts)
unfolding load_from allowed_origins env
load_from-allowed_origins getenv read part parts h listed set =
    let given : is_empty (getenv (codes "ALLOWED_ORIGINS")) ≡ false =
      ground (arith, is_empty_iff (getenv (codes "ALLOWED_ORIGINS"))) in
    rw (given, listed) (ap (map trim_space) (split-join b',' part parts h))

-- A list of texts without commas, which is not the empty text, is read as these texts.
pub load-allowed_origins :
    (getenv : Str → Str) (read : Str → Option Str) (part : Str) (parts : List Str)
    → let getenv' = load_env_file (read (codes ".env")) getenv in
      All (Lacks b',') (part ∷ parts)
      → getenv' (codes "ALLOWED_ORIGINS") ≡ join (codes ",") (part ∷ parts)
      → getenv' (codes "ALLOWED_ORIGINS") ≢ []
      → (load getenv read).allowed_origins ≡ map trim_space (part ∷ parts)
unfolding load
load-allowed_origins getenv read part parts h listed set =
    load_from-allowed_origins (load_env_file (read (codes ".env")) getenv) read part parts h listed
      set
