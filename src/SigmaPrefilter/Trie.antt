-- ===== src/SigmaPrefilter/Trie.antt =====
-- `trie_pattern` of src/artifact_engine/core/sigma_prefilter.py. The regex is its syntax tree;
-- `pattern_text` is the text that the source compiles.
pub mod Words
pub mod Sound
pub mod Scan
use artifact_engine.Prelude.{ℕ, Bool, true, false, List, [], ◌∷◌, ◌++◌, ltb, ◌==◌, if◌then◌else◌}
use artifact_engine.Prelude.Chars.{Chars, codes}
use artifact_engine.Prelude.Sorting.{sorted}

-- A node of the dict: whether it has the key "", and its other keys in the order they came in.
mutual
  pub data Trie : Type 0 where
    trie : Bool → Children → Trie

  pub data Children : Type 0 where
    no_child : Children
    child : ℕ → Trie → Children → Children

abbrev pub empty : Trie
empty = trie false no_child

-- `node.setdefault(c, {})`, and what the loop does at that node.
unfoldable pub put : (Trie → Trie) → ℕ → Children → Children
put go c no_child = child c (go empty) no_child
put go c (child d t rest) =
    let other = put go c rest in if c == d then child d (go t) rest else child d t other

unfoldable pub add : Chars → Trie → Trie
unfolding put
add [] (trie ends children) = trie true children
add (c ∷ w) (trie ends children) = trie ends (put (add w) c children)

unfoldable pub add_all : Trie → List Chars → Trie
unfolding add
add_all t [] = t
add_all t (w ∷ words) = add_all (add w t) words

pub data Pattern : Type 0 where
  nothing : Pattern
  char : ℕ → Pattern → Pattern
  alternative : Pattern → Pattern → Pattern
  optional : Pattern → Pattern

abbrev pub Branch : Type 0
Branch = ℕ × Pattern

abbrev pub branch_lt : Branch → Branch → Bool
branch_lt a b = ltb a.0 b.0

-- `"|".join(branches)`
unfoldable pub join : Branch → List Branch → Pattern
join (c, p) [] = char c p
join (c, p) (b ∷ branches) = alternative (char c p) (join b branches)

-- The body, from the branches in order.
unfoldable pub body : Bool → List Branch → Pattern
unfolding join
body ends [] = nothing
body ends (b ∷ branches) = if ends then optional (join b branches) else join b branches

unfoldable mutual
  unfolding body sorted

  pub build : Trie → Pattern
  build (trie ends children) = body ends (sorted branch_lt (branches_of children))

  pub branches_of : Children → List Branch
  branches_of no_child = []
  branches_of (child c t rest) = (c, build t) ∷ branches_of rest

unfoldable pub trie_pattern : List Chars → Pattern
unfolding add_all build
trie_pattern words = build (add_all empty words)

abbrev pub group : Chars → Chars
group s = codes "(?:" ++ s ++ codes ")"

abbrev pub grouped : Pattern → Chars → Chars
grouped (alternative p q) s = group s
grouped p s = s

-- The text of a regex, given `re.escape` of a character; its alternatives are not yet in brackets.
unfoldable pub bars : (ℕ → Chars) → Pattern → Chars
bars escape nothing = []
bars escape (char c p) = escape c ++ grouped p (bars escape p)
bars escape (alternative p q) = bars escape p ++ codes "|" ++ bars escape q
bars escape (optional p) = group (bars escape p) ++ codes "?"

abbrev pub pattern_text : (ℕ → Chars) → List Chars → Chars
pattern_text escape words = let p = trie_pattern words in grouped p (bars escape p)
