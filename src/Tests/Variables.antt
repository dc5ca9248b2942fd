-- ===== src/Tests/Variables.antt =====
-- Runs of lib/parser/dockerfile/replace_variables.go.
use makisu.Base.{true, List, [], ◌∷◌, ◌≡◌, refl, codes, Bytes, Dict}
use makisu.Parser.Variables.Template.{Segment, template}

abbrev two_vars : Dict Bytes
two_vars = (codes "v", codes "1") ∷ (codes "n1", codes "one") ∷ []

-- A literal, a bare name, an escaped dollar, a braced name, a default and an alternative.
abbrev pieces : List Segment
pieces =
    Segment.literal (codes "a-")
    ∷ Segment.bare_name (b'v') []
    ∷ Segment.escaped_dollar
    ∷ Segment.braced (codes "n1")
    ∷ Segment.default (b'z') [] (b'd') []
    ∷ Segment.alternative (b'v') [] (b'y') []
    ∷ []

template-pieces : template pieces true ≡ codes "a-$v\\$${n1}${z:-d}${v:+y}\\"
template-pieces = refl
