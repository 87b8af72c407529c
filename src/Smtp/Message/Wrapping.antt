-- ===== src/Smtp/Message/Wrapping.antt =====
-- base64Wrap keeps the text and the line length of RFC 2045.
use delivery_api.Base.{
  ℕ, zero, suc, ◌≤◌, ◌<◌, ◌≡◌, refl, List, [], ◌∷◌, ◌++◌, Str, arith, All, length, take, drop, ap,
  take-append-drop, length-take-le, length-drop-le, ◌∙◌,
}
use delivery_api.Smtp.Message.{Mime, crlf, wrap_lines, base64_wrap}

-- Every line with a line break behind it.
abbrev pub broken_lines : List Str → Str
broken_lines [] = []
broken_lines (l ∷ ls) = l ++ crlf ++ broken_lines ls

abbrev pub joined : List Str → Str
joined [] = []
joined (l ∷ ls) = l ++ joined ls

-- The text `out` is `s` cut into lines of 1 to 76 bytes, each with a line break.
pub record IsWrapped (s out : Str) : Type 0 where
  pub lines : List Str
  pub short : All (λ l. (0 < length l) × (length l ≤ 76)) lines
  pub kept : joined lines ≡ s
  pub broken : broken_lines lines ≡ out

IsWrapped-step :
    (c : ℕ) (s out : Str)
    → IsWrapped (drop 76 (c ∷ s)) out
    → IsWrapped (c ∷ s) (take 76 (c ∷ s) ++ crlf ++ out)
IsWrapped-step c s out w = record {
  lines = take 76 (c ∷ s) ∷ w.lines;
  short = ((omega arith, length-take-le 76 (c ∷ s)), w.short);
  kept = ap (take 76 (c ∷ s) ++◌) w.kept ∙ take-append-drop 76 (c ∷ s);
  broken = ap (λ t. take 76 (c ∷ s) ++ crlf ++ t) w.broken;
}

wrap_lines-IsWrapped : (fuel : ℕ) (s : Str) → length s ≤ fuel → IsWrapped s (wrap_lines fuel s)
unfolding wrap_lines
wrap_lines-IsWrapped zero [] h = record { lines = []; short = tt; kept = refl; broken = refl }
wrap_lines-IsWrapped zero (c ∷ s) h = absurd (omega arith)
wrap_lines-IsWrapped (suc fuel) [] h = record { lines = []; short = tt; kept = refl; broken = refl }
wrap_lines-IsWrapped (suc fuel) (c ∷ s) h =
    IsWrapped-step c s _
      (wrap_lines-IsWrapped fuel (drop 76 (c ∷ s)) (omega (arith, length-drop-le 75 s)))

-- The wrapped text is the encoded text, cut into lines of 1 to 76 bytes.
pub base64_wrap-IsWrapped : (mime : Mime) (s : Str) → IsWrapped (mime.base64 s) (base64_wrap mime s)
unfolding base64_wrap
base64_wrap-IsWrapped mime s =
    wrap_lines-IsWrapped (length (mime.base64 s)) (mime.base64 s) (omega arith)
