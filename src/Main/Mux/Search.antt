-- ===== src/Main/Mux/Search.antt =====
-- Which route the search finds.
use mathlib.Core.Option
use mathlib.Core.List.{Mem}
use delivery_api.Base.{
  codes, subst, ◌≡◌, ◌∙◌, refl, inl, inr, arith, Bool, true, false, not, ◌&&◌, ◌||◌, some, List, [],
  ◌∷◌, Str, Bool-cases, Option-cases, is_some, is_empty, str_eq, any_of, all_of, All, All-self,
  if◌then◌else◌,
}
use delivery_api.Main.Mux.{
  Segment, literal, wildcard, fits, literal_child, wildcard_child, leaf, match_path, Pattern,
  with_method, match_request,
}

module _ {A : Type 0} where
  abbrev fitting : List Str → List Segment × A → Bool
  fitting ss c = fits c.0 ss

  any_of-leaf : (cs : List (List Segment × A)) → is_some (leaf cs) ≡ any_of (fitting []) cs
  unfolding fits
  any_of-leaf [] = refl
  any_of-leaf (([], a) ∷ rest) = refl
  any_of-leaf ((p ∷ ps, a) ∷ rest) = any_of-leaf rest

  any_of-children :
      (s : Str) (ss : List Str) (cs : List (List Segment × A))
      → any_of (fitting (s ∷ ss)) cs ≡ (
          any_of (fitting ss) (literal_child s cs)
          || (not (is_empty s) && any_of (fitting ss) (wildcard_child cs)))
  unfolding fits
  any_of-children s ss [] = ground arith
  any_of-children s ss (([], a) ∷ rest) = any_of-children s ss rest
  any_of-children s ss ((literal t ∷ ps, a) ∷ rest) = ground (arith, any_of-children s ss rest)
  any_of-children s ss ((wildcard ∷ ps, a) ∷ rest) = ground (arith, any_of-children s ss rest)

  -- The search finds a route exactly if the path fits one of them.
  pub match_path-fits :
      (ss : List Str) (cs : List (List Segment × A))
      → is_some (match_path ss cs) ≡ any_of (λ c. fits c.0 ss) cs
  unfolding match_path
  match_path-fits [] cs = any_of-leaf cs
  match_path-fits (s ∷ ss) cs = ground (
    arith,
    any_of-children s ss cs,
    match_path-fits ss (literal_child s cs),
    match_path-fits ss (wildcard_child cs),
  )

  module _ (Q : A → Type 0) where
    abbrev Good : List Str → List Segment × A → Type 0
    Good ss c = fits c.0 ss ≡ true → Q c.1

    leaf-All : (a : A) (cs : List (List Segment × A)) → All (Good []) cs → leaf cs ≡ some a → Q a
    unfolding fits
    leaf-All a [] h found = cc
    leaf-All a (([], b) ∷ rest) (hb, h) found = subst Q (Option.some_inj.0 found) (hb refl)
    leaf-All a ((p ∷ ps, b) ∷ rest) (hb, h) found = leaf-All a rest h found

    literal-All :
        (s : Str) (ss : List Str) (cs : List (List Segment × A))
        → All (Good (s ∷ ss)) cs
        → All (Good ss) (literal_child s cs)
    unfolding fits
    literal-All s ss [] h = tt
    literal-All s ss (([], a) ∷ rest) (ha, h) = literal-All s ss rest h
    literal-All s ss ((wildcard ∷ ps, a) ∷ rest) (ha, h) = literal-All s ss rest h
    literal-All s ss ((literal t ∷ ps, a) ∷ rest) (ha, h) = elim (Bool-cases (str_eq t s)) [
      | inl same ↦ rw same (λ e. ha (rw same e), literal-All s ss rest h)
      | inr other ↦ rw other (literal-All s ss rest h)
    ]

    wildcard-All :
        (s : Str) (ss : List Str) (cs : List (List Segment × A))
        → is_empty s ≡ false
        → All (Good (s ∷ ss)) cs
        → All (Good ss) (wildcard_child cs)
    unfolding fits
    wildcard-All s ss [] some_text h = tt
    wildcard-All s ss (([], a) ∷ rest) some_text (ha, h) = wildcard-All s ss rest some_text h
    wildcard-All s ss ((literal t ∷ ps, a) ∷ rest) some_text (ha, h) =
        wildcard-All s ss rest some_text h
    wildcard-All s ss ((wildcard ∷ ps, a) ∷ rest) some_text (ha, h) =
        (λ e. ha (rw some_text e), wildcard-All s ss rest some_text h)

    -- What holds of every route that the path fits holds of the route that is found.
    pub match_path-All :
        (ss : List Str) (cs : List (List Segment × A)) (a : A)
        → All (λ c. fits c.0 ss ≡ true → Q c.1) cs
        → match_path ss cs ≡ some a
        → Q a
    unfolding match_path
    match_path-All [] cs a h found = leaf-All a cs h found
    match_path-All (s ∷ ss) cs a h found =
        elim (Option-cases (match_path ss (literal_child s cs))) [
          | inr (b, by_text) ↦
              let same : match_path ss (literal_child s cs) ≡ some a = ground arith in
              match_path-All ss (literal_child s cs) a (literal-All s ss cs h) same
          | inl no_text ↦
              let some_text : is_empty s ≡ false = ground arith in
              let by_wildcard : match_path ss (wildcard_child cs) ≡ some a = ground arith in
              match_path-All ss (wildcard_child cs) a (wildcard-All s ss cs some_text h) by_wildcard
        ]

module _ {A : Type 0} (Q : A → Bool) (pattern_of : A → Pattern) where
  with_method-kept :
      (method : Str) (path : List Str) (rest : List A)
      → all_of Q rest ≡ true
      → All (λ c. fits c.0 path ≡ true → Q c.1 ≡ true) (with_method pattern_of method rest)
  with_method-kept method path [] h = tt
  with_method-kept method path (a ∷ later) h =
      let first : Q a ≡ true = ground arith in
      let others = with_method-kept method path later (ground arith) in
      elim (Bool-cases (str_eq (pattern_of a).method method)) [
        | inl same ↦ rw same (λ e. first, others)
        | inr other ↦ rw other others
      ]

  -- What holds of every route holds of the one that serves a request.
  pub match_request-kept :
      (method : Str) (path : List Str) (rest : List A) (a : A)
      → all_of Q rest ≡ true
      → match_request pattern_of method path rest ≡ some a
      → Q a ≡ true
  unfolding match_request
  match_request-kept method path rest a h found =
      match_path-All (λ a. Q a ≡ true) path _ a (with_method-kept _ path rest h) found

-- The method whose patterns serve a request.
abbrev pub served_as : Str → Str
served_as method = if str_eq method (codes "HEAD") then codes "GET" else method

abbrev pub serves : Str → List Str → Pattern → Bool
serves method path p = str_eq p.method (served_as method) && fits p.path path

module _ {A : Type 0} (pattern_of : A → Pattern) where
  any_of-with_method :
      (method : Str) (path : List Str) (rest : List A)
      → any_of (λ c. fits c.0 path) (with_method pattern_of method rest)
        ≡ any_of (λ a. str_eq (pattern_of a).method method && fits (pattern_of a).path path) rest
  any_of-with_method method path [] = refl
  any_of-with_method method path (a ∷ later) =
      elim (Bool-cases (str_eq (pattern_of a).method method)) [
        | inl same ↦ rw (same, any_of-with_method method path later)
        | inr other ↦ rw (other, any_of-with_method method path later)
      ]

  with_method-serves :
      (method : Str) (path : List Str) (rest : List A)
      → All
          (λ c.
            fits c.0 path ≡ true
            → (str_eq (pattern_of c.1).method method && fits (pattern_of c.1).path path) ≡ true)
          (with_method pattern_of method rest)
  with_method-serves method path [] = tt
  with_method-serves method path (a ∷ later) =
      elim (Bool-cases (str_eq (pattern_of a).method method)) [
        | inl same ↦ rw same (λ e. rw (same, e), with_method-serves method path later)
        | inr other ↦ rw other (with_method-serves method path later)
      ]

  -- ServeMux finds a route exactly if one has the method and fits the path, and the route that it
  -- finds has and does.
  pub match_request-serves :
      (method : Str) (path : List Str) (rest : List A)
      → (is_some (match_request pattern_of method path rest)
          ≡ any_of (λ a. serves method path (pattern_of a)) rest)
        × ((a : A)
            → match_request pattern_of method path rest ≡ some a
            → serves method path (pattern_of a) ≡ true)
  unfolding match_request
  match_request-serves method path rest = (
    match_path-fits path (with_method pattern_of (served_as method) rest)
        ∙ any_of-with_method (served_as method) path rest,
    λ a found.
        match_path-All (λ a. serves method path (pattern_of a) ≡ true) path _ a
          (with_method-serves (served_as method) path rest) found,
  )

module _ {A : Type 0} (Q : A → Type 0) (pattern_of : A → Pattern) where
  with_method-All :
      (method : Str) (path : List Str) (rest : List A)
      → All Q rest
      → All (λ c. fits c.0 path ≡ true → Q c.1) (with_method pattern_of method rest)
  with_method-All method path [] h = tt
  with_method-All method path (a ∷ later) (first, h) =
      let others = with_method-All method path later h in
      elim (Bool-cases (str_eq (pattern_of a).method method)) [
        | inl same ↦ rw same (λ e. first, others)
        | inr other ↦ rw other others
      ]

  match_request-All :
      (method : Str) (path : List Str) (rest : List A) (a : A)
      → All Q rest
      → match_request pattern_of method path rest ≡ some a
      → Q a
  unfolding match_request
  match_request-All method path rest a h found =
      match_path-All Q path _ a (with_method-All _ path rest h) found

-- The route that is found is one of the registered ones.
pub match_request-Mem :
    {A : Type 0} (pattern_of : A → Pattern) (method : Str) (path : List Str) (rest : List A) (a : A)
    → match_request pattern_of method path rest ≡ some a
    → Mem a rest
match_request-Mem pattern_of method path rest a found =
    match_request-All (λ b. Mem b rest) pattern_of method path rest a (All-self rest) found
