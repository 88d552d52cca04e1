-- ===== src/RegexLiterals/Tests.antt =====
-- Runs of src/artifact_engine/core/regex_literals.py on the tree of `(php|asp)[57]?\s`.
use artifact_engine.Prelude.{◌≡◌, refl, inl, inr, true, false, some, [], ◌∷◌, ◌++◌, arith}
use artifact_engine.Prelude.Chars.{Chars, codes, ascii_lower, plain}
use artifact_engine.RegexLiterals.Tree.{
  item, category, max_repeat, Node, literal, class, subpattern, branch, repeat, Items, nil, cons,
  no_branch, or_branch, Engine, translate, MatchesNode, MatchesItems,
}
use artifact_engine.RegexLiterals.Finite.{finite_node}
use artifact_engine.RegexLiterals.Options.{Regex, candidates}
use artifact_engine.RegexLiterals.Options.Sound.{HasEach, candidates_sound}

-- A character of the regex matches what folds to its lower case.
abbrev folding : Engine
folding = record {
  unicode = plain;
  same = λ v x. plain.lower_char (translate x) ≡ ascii_lower v ∷ [];
  same_ascii = λ v x h k. k;
}

abbrev word : Chars → Items
word [] = nil
word (c ∷ s) = cons (literal c) (word s)

abbrev languages : Node
languages =
    subpattern (
      cons (branch (or_branch (word (codes "php")) (or_branch (word (codes "asp")) no_branch))) nil)

abbrev digits : Node
digits = repeat max_repeat 0 1 (cons (class (item b'5' ∷ item b'7' ∷ [])) nil)

abbrev tree : Items
tree = cons languages (cons digits (cons (class (category ∷ [])) nil))

abbrev rx : Regex
rx = record { of_text = true; verbose = false; tree = some tree }

candidates_run :
    candidates plain rx
    ≡ (codes "php5" ∷ codes "php7" ∷ codes "php" ∷ codes "asp5" ∷ codes "asp7" ∷ codes "asp" ∷ [])
      ∷ []
unfolding candidates ascii_lower
candidates_run = refl

finite_run : finite_node languages ≡ some (codes "php" ∷ codes "asp" ∷ [])
unfolding finite_node
finite_run = refl

asp_matches : MatchesNode folding languages (codes "ASP")
unfolding MatchesNode ascii_lower
asp_matches = (
  codes "ASP",
  [],
  refl,
  inr (
      inl (
        codes "A",
        codes "SP",
        refl,
        (b'A', refl, refl),
        (
          codes "S",
          codes "P",
          refl,
          (b'S', refl, refl),
          (codes "P", [], refl, (b'P', refl, refl), refl),
        ),
      )),
  refl,
)

tree_matches : MatchesItems folding tree (codes "ASP5 ")
unfolding MatchesItems ascii_lower
tree_matches = (
  codes "ASP",
  codes "5 ",
  refl,
  asp_matches,
  (
    codes "5",
    codes " ",
    refl,
    (
      1,
      omega arith,
      omega arith,
      (codes "5", [], refl, (codes "5", [], refl, (b'5', refl, inl refl), refl), refl),
    ),
    (codes " ", [], refl, (b' ', refl, inl tt), refl),
  ),
)

candidates_sound_example :
    HasEach folding
      (codes "/" ++ (codes "ASP5 " ++ codes "HTTP"))
      (candidates plain (record { of_text = true; verbose = false; tree = some tree }))
candidates_sound_example =
    candidates_sound folding true false tree (codes "/") (codes "ASP5 ") (codes "HTTP") tree_matches
