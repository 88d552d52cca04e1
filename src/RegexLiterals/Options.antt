-- ===== src/RegexLiterals/Options.antt =====
-- `_usable`, `_key`, `_seq`, `_node` and `candidates` of
-- src/artifact_engine/core/regex_literals.py: the sets of texts one of which every match holds.
pub mod Sound
use artifact_engine.Prelude.{
  ℕ, zero, suc, min, Bool, true, false, not, ◌&&◌, ◌||◌, Option, none, some, List, [], ◌∷◌, ◌++◌,
  map, ltb, leb, ◌==◌, length, any, all, if◌then◌else◌,
}
use artifact_engine.Prelude.Chars.{Chars, chars_eq, isascii, Unicode, lower}
use artifact_engine.Prelude.CharSets.{union, cross}
use artifact_engine.RegexLiterals.Tree.{
  Node, literal, at, class, subpattern, branch, repeat, atomic, other, Items, nil, cons, Branches,
  no_branch, or_branch,
}
use artifact_engine.RegexLiterals.Finite.{max_strings, finite_node}

abbrev pub min_literal : ℕ
min_literal = 2

-- A set of texts.
abbrev pub Choice : Type 0
Choice = List Chars

abbrev pub is_useless : Chars → Bool
is_useless s = ltb (length s) min_literal || not (isascii s)

-- The shortest of a set that has a text.
abbrev pub shortest : Choice → ℕ
shortest [] = 0
shortest (s ∷ []) = length s
shortest (s ∷ t ∷ rest) = min (length s) (shortest (t ∷ rest))

-- `_key(a) < _key(b)`: a longer shortest text is better, then fewer of them.
unfoldable pub key_lt : Choice → Choice → Bool
key_lt a b =
    if shortest a == shortest b then ltb (length b) (length a) else ltb (shortest a) (shortest b)

-- `max(options, key=_key)`, the first of the best.
unfoldable pub best_from : Choice → List Choice → Choice
unfolding key_lt
best_from best [] = best
best_from best (o ∷ options) = best_from (if key_lt best o then o else best) options

-- `close`: what the run of fixed text offers.
abbrev pub closed : Option Choice → List Choice
closed none = []
closed (some o) = o ∷ []

-- How `_seq` goes on at a node: the run grows by the node's texts, or ends.
abbrev pub after_node :
    Option (List Chars) → List Chars → (List Chars → List Choice) → List Choice → List Choice
after_node none chain grow split = split
after_node (some f) chain grow split =
    if leb (length (cross chain f)) max_strings then grow (cross chain f) else split

-- How the loop over the branches goes on at the sets that one offers.
abbrev pub after_branch : List Choice → Choice → (Choice → List Choice) → List Choice
after_branch [] out next = []
after_branch (o ∷ options) out next = next (union out (best_from o options))

module _ (u : Unicode) where
  unfoldable pub usable : List Chars → Option Choice
  unfolding isascii lower union
  usable [] = none
  usable (s ∷ strings) =
      if any is_useless (s ∷ strings) then none else some (union [] (map (lower u) (s ∷ strings)))

  unfoldable mutual
    unfolding usable cross finite_node best_from

    -- The loop of `_seq`: the options so far, and the texts of the run in progress.
    pub seq_from : List Choice → List Chars → Items → List Choice
    seq_from options chain nil = options ++ closed (usable chain)
    seq_from options chain (cons n items) =
        let split = seq_from ((options ++ closed (usable chain)) ++ node n) ([] ∷ []) items in
        after_node (finite_node n) chain (λ grown. seq_from options grown items) split

    pub node : Node → List Choice
    node (literal v) = []
    node at = []
    node (class items) = []
    node (subpattern items) = seq_from [] ([] ∷ []) items
    node (branch bs) = branches [] bs
    node (repeat kind lo hi body) =
        let inside = seq_from [] ([] ∷ []) body in if leb 1 lo then inside else []
    node (atomic items) = seq_from [] ([] ∷ []) items
    node other = []

    -- Each branch's own best, together, or nothing.
    pub branches : Choice → Branches → List Choice
    branches out no_branch = out ∷ []
    branches out (or_branch items bs) =
        after_branch (seq_from [] ([] ∷ []) items) out (λ grown. branches grown bs)

-- Equality of frozensets.
abbrev pub includes : Choice → Choice → Bool
includes a b = all (λ s. any (chars_eq s) a) b

unfoldable pub same_set : Choice → Choice → Bool
unfolding chars_eq
same_set a b = includes a b && includes b a

-- `list(dict.fromkeys(options))`
unfoldable pub distinct : List Choice → List Choice → List Choice
unfolding same_set
distinct out [] = out
distinct out (o ∷ options) = distinct (if any (same_set o) out then out else out ++ o ∷ []) options

-- A compiled pattern: whether it is of text, its VERBOSE flag, and the tree that `re` parses it
-- to, if it does.
pub record Regex : Type 0 where
  pub of_text : Bool
  pub verbose : Bool
  pub tree : Option Items

unfoldable pub candidates : Unicode → Regex → List Choice
unfolding seq_from distinct
candidates u rx =
    if not rx.of_text || rx.verbose
    then []
    else elim rx.tree [ none ↦ [] | some items ↦ distinct [] (seq_from u [] ([] ∷ []) items) ]
