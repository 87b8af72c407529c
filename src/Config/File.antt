-- ===== src/Config/File.antt =====
-- Which value a variable has after the file of variables is read.
use delivery_api.Base.{
  ◌≡◌, ◌∙◌, refl, inl, inr, arith, Bool, not, ◌&&◌, ◌||◌, none, some, Option-cases, List, [], ◌∷◌,
  Str, str_eq, str_eq_iff, is_empty, member, split, if◌then◌else◌,
}
use delivery_api.Config.{assignment, setenv, load_line, load_lines, load_env_file}

abbrev pub first_set : List Str → Str
first_set [] = []
first_set (v ∷ vs) = let later = first_set vs in if is_empty v then later else v

abbrev sets : Str → Str × Str → Bool
sets name (key, val) = str_eq key name && not (is_empty key || (member 0 key || member 0 val))

-- The values that the lines give a name, in their order.
abbrev pub values_of : Str → List Str → List Str
values_of name [] = []
values_of name (line ∷ lines) =
    let later = values_of name lines in
    elim (assignment line) [ none ↦ later | some a ↦ if sets name a then a.1 ∷ later else later ]

first_set-load_line :
    (line name : Str) (getenv : Str → Str) (vs : List Str)
    → first_set (load_line line getenv name ∷ vs)
      ≡ first_set (
          getenv name
          ∷ (elim (assignment line) [ none ↦ vs | some a ↦ if sets name a then a.1 ∷ vs else vs ]))
unfolding load_line setenv
first_set-load_line line name getenv vs = elim (Option-cases (assignment line)) [
  | inl nothing ↦ rw (nothing, load_line) refl
  | inr ((key, val), found) ↦ rw (found, load_line) (ground (arith, str_eq_iff key name))
]

load_lines-first_set :
    (lines : List Str) (getenv : Str → Str) (name : Str)
    → load_lines lines getenv name ≡ first_set (getenv name ∷ values_of name lines)
unfolding load_lines
load_lines-first_set [] getenv name = ground arith
load_lines-first_set (line ∷ lines) getenv name =
    load_lines-first_set lines (load_line line getenv) name
    ∙ first_set-load_line line name getenv (values_of name lines)

-- After the file is read a variable keeps its value if it has one, and has else the first value
-- that is not empty among those that the file's lines give it, if there is one.
pub load_env_file-first_set :
    (text : Str) (getenv : Str → Str) (name : Str)
    → load_env_file (some text) getenv name
      ≡ first_set (getenv name ∷ values_of name (split b'\n' text))
unfolding load_env_file
load_env_file-first_set text getenv name = load_lines-first_set (split b'\n' text) getenv name
