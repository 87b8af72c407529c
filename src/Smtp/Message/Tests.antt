-- ===== src/Smtp/Message/Tests.antt =====
-- The builder with a subject that tries to add a header.
use delivery_api.Base.{
  ◌+◌, ◌≡◌, true, [], ◌∷◌, ◌++◌, List, Str, codes, arith, has_prefix, count_where,
}
use delivery_api.Queue.Tests.{mime, draw}
use delivery_api.Smtp.Message.{Mime, build_message}
use delivery_api.Smtp.Message.Headers.{IsTidy, IsLine, IsBlock, is_kept, build_message-IsBlock}

-- An encoder that writes a mark for every byte.
abbrev marks : Str → Str
marks [] = []
marks (c ∷ s) = b'x' ∷ marks s

abbrev marking : Mime
marking = record mime { q_encode = marks }

IsTidy-marking : IsTidy marking draw
IsTidy-marking = record {
  encoded = marks-IsLine;
  address = λ s a h l. cc;
  dated = omega arith;
  numbered = omega arith;
}
  where
    marks-IsLine : (s : Str) → IsLine (marks s)
    marks-IsLine [] = tt
    marks-IsLine (c ∷ s) = (omega arith, marks-IsLine s)

abbrev extra : List (Str × Str)
extra = (codes "X-Tag", 10 ∷ codes "Bcc: y") ∷ (codes "bad key", codes "v") ∷ []

build_message-IsBlock_example :
    (head : Str) × (body : Str) × (build_message marking draw
        (codes "a@b.c")
        (codes "A")
        (codes "x@y.z")
        (codes "hi")
        (codes "<p>")
        []
        extra
        []
      ≡ head ++ body)
    × IsBlock (8 + count_where is_kept extra) head
    × (has_prefix body (codes "Content-Type: ") ≡ true)
build_message-IsBlock_example =
    build_message-IsBlock marking draw IsTidy-marking (codes "a@b.c") (codes "A") (codes "x@y.z")
      (codes "hi") (codes "<p>") [] extra []
