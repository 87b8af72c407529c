-- ===== src/Main/Mux.antt =====
-- http.ServeMux of the standard library, as main.go uses it: patterns with a method and segments
-- that are texts or wildcards. A request's path is the list of its segments.
pub mod Search
use delivery_api.Base.{
  Bool, true, false, not, ◌&&◌, ◌||◌, Option, none, some, List, [], ◌∷◌, ◌++◌, Str, codes,
  if◌then◌else◌, is_empty, str_eq, any_of, map,
}

pub data Segment : Type 0 where
  literal : Str → Segment
  wildcard : Segment

pub record Pattern : Type 0 where
  pub method : Str
  pub path : List Segment

-- A wildcard stands for one segment that is not empty.
pub fits : List Segment → List Str → Bool
unfolding str_eq
fits [] [] = true
fits [] (s ∷ ss) = false
fits (p ∷ ps) [] = false
fits (literal t ∷ ps) (s ∷ ss) = str_eq t s && fits ps ss
fits (wildcard ∷ ps) (s ∷ ss) = not (is_empty s) && fits ps ss

-- How the requests of two patterns are related.
pub data Relation : Type 0 where
  equivalent more_specific more_general overlapping disjoint : Relation

abbrev pub both : Relation → Relation → Relation
both equivalent r = r
both r equivalent = r
both disjoint r = disjoint
both r disjoint = disjoint
both more_specific more_specific = more_specific
both more_general more_general = more_general
both _ _ = overlapping

abbrev pub compare_segments : Segment → Segment → Relation
compare_segments (literal s) (literal t) = if str_eq s t then equivalent else disjoint
compare_segments (literal s) wildcard = more_specific
compare_segments wildcard (literal t) = more_general
compare_segments wildcard wildcard = equivalent

pub compare_paths : List Segment → List Segment → Relation
unfolding str_eq
compare_paths [] [] = equivalent
compare_paths [] (q ∷ qs) = disjoint
compare_paths (p ∷ ps) [] = disjoint
compare_paths (p ∷ ps) (q ∷ qs) = both (compare_segments p q) (compare_paths ps qs)

pub conflicts_with : Pattern → Pattern → Bool
unfolding compare_paths
conflicts_with p q =
    str_eq p.method q.method
    && elim (compare_paths p.path q.path) [ equivalent ↦ true | overlapping ↦ true | _ ↦ false ]

module _ {A : Type 0} (pattern_of : A → Pattern) where
  -- Registers routes one after another; `none` is the panic at a conflict.
  unfoldable pub register_all : List A → List A → Option (List A)
  unfolding conflicts_with
  register_all done [] = some done
  register_all done (a ∷ rest) =
      let next = register_all (done ++ a ∷ []) rest in
      if any_of (λ b. conflicts_with (pattern_of a) (pattern_of b)) done then none else next

  -- The tree of the patterns is the list of those that are left, each without the segments that
  -- the path has taken.
  abbrev pub with_method : Str → List A → List (List Segment × A)
  with_method method [] = []
  with_method method (a ∷ rest) =
      let others = with_method method rest in
      if str_eq (pattern_of a).method method then ((pattern_of a).path, a) ∷ others else others

module _ {A : Type 0} where
  abbrev pub literal_child : Str → List (List Segment × A) → List (List Segment × A)
  literal_child s [] = []
  literal_child s (([], a) ∷ rest) = literal_child s rest
  literal_child s ((literal t ∷ ps, a) ∷ rest) =
      let others = literal_child s rest in if str_eq t s then (ps, a) ∷ others else others
  literal_child s ((wildcard ∷ ps, a) ∷ rest) = literal_child s rest

  abbrev pub wildcard_child : List (List Segment × A) → List (List Segment × A)
  wildcard_child [] = []
  wildcard_child (([], a) ∷ rest) = wildcard_child rest
  wildcard_child ((literal t ∷ ps, a) ∷ rest) = wildcard_child rest
  wildcard_child ((wildcard ∷ ps, a) ∷ rest) = (ps, a) ∷ wildcard_child rest

  abbrev pub leaf : List (List Segment × A) → Option A
  leaf [] = none
  leaf (([], a) ∷ rest) = some a
  leaf ((p ∷ ps, a) ∷ rest) = leaf rest

  -- A segment's text is tried before the wildcard.
  pub match_path : List Str → List (List Segment × A) → Option A
  unfolding str_eq
  match_path [] cs = leaf cs
  match_path (s ∷ ss) cs = elim (match_path ss (literal_child s cs)) [
    | some a ↦ some a
    | none ↦ if is_empty s then none else match_path ss (wildcard_child cs)
  ]

-- A pattern for GET serves HEAD too.
unfoldable pub match_request : {A : Type 0} → (A → Pattern) → Str → List Str → List A → Option A
unfolding match_path str_eq
match_request pattern_of method path routes =
    match_path path
      (with_method pattern_of (if str_eq method (codes "HEAD") then codes "GET" else method) routes)
