-- ===== src/RegexLiterals/Tree.antt =====
-- The parse tree that src/artifact_engine/core/regex_literals.py reads, and what it matches.
use mathlib.Core.List.{map-append}
use artifact_engine.Prelude.{
  ℕ, zero, suc, ◌≤◌, ◌<◌, ◌≡◌, ◌⊎◌, List, [], ◌∷◌, ◌++◌, map, if◌then◌else◌, ◌==◌, arith, refl, Any,
  true, ap, sym, Bool-cases, inl, inr,
}
use artifact_engine.Prelude.Chars.{Chars, ascii_lower, isascii, Unicode, lower, lower-append}

-- An entry of a character class.
pub data ClassItem : Type 0 where
  item : ℕ → ClassItem
  range : (first last : ℕ) → ClassItem
  negate category : ClassItem

-- A repeat's kind. Only the first two can be expanded.
pub data Kind : Type 0 where
  max_repeat min_repeat possessive_repeat : Kind

mutual
  pub data Node : Type 0 where
    literal : ℕ → Node
    at : Node
    class : List ClassItem → Node
    subpattern : Items → Node
    branch : Branches → Node
    repeat : Kind → (lo hi : ℕ) → Items → Node
    atomic : Items → Node
    other : Node

  pub data Items : Type 0 where
    nil : Items
    cons : Node → Items → Items

  pub data Branches : Type 0 where
    no_branch : Branches
    or_branch : Items → Branches → Branches

-- `_FOLD`: what `re.IGNORECASE` takes for an ASCII letter and `str.lower` does not.
abbrev pub translate : ℕ → ℕ
translate c =
    if c == 0x130
    then b'i'
    else if c == 0x131
    then b'i'
    else if c == 0x17f
    then b's'
    else if c == 0x212a
    then b'k'
    else c

-- What `re` takes a character of the regex and one of the text to be: the same, ignoring case.
-- An ASCII character of the regex is documented to match only what `fold` makes its lower case.
pub record Engine : Type 1 where
  pub unicode : Unicode
  pub same : ℕ → ℕ → Type 0
  pub same_ascii :
      (v x : ℕ) → v < 128 → same v x → unicode.lower_char (translate x) ≡ ascii_lower v ∷ []

module _ (r : Engine) where
  unfoldable pub fold : Chars → Chars
  unfolding isascii lower
  fold text = if isascii text then lower r.unicode text else lower r.unicode (map translate text)

  abbrev pub MatchesItem : ℕ → ClassItem → Type 0
  MatchesItem x (item v) = r.same v x
  MatchesItem x (range first last) = (v : ℕ) × (first ≤ v) × (v ≤ last) × r.same v x
  MatchesItem x negate = Unit
  MatchesItem x category = Unit

  abbrev Times : (Chars → Type 0) → ℕ → Chars → Type 0
  Times P zero t = t ≡ []
  Times P (suc k) t = (s : Chars) × (rest : Chars) × (t ≡ s ++ rest) × P s × Times P k rest

  -- The tree may match the piece `t` of a text. What `re` matches does: conditions on what stands
  -- around the piece are dropped, and a node that is not read matches anything.
  unfoldable mutual
    pub MatchesNode : Node → Chars → Type 0
    MatchesNode (literal v) t = (x : ℕ) × (t ≡ x ∷ []) × r.same v x
    MatchesNode at t = t ≡ []
    MatchesNode (class items) t = (x : ℕ) × (t ≡ x ∷ []) × Any (MatchesItem x) items
    MatchesNode (subpattern items) t = MatchesItems items t
    MatchesNode (branch bs) t = MatchesBranches bs t
    MatchesNode (repeat kind lo hi body) t =
        (k : ℕ) × (lo ≤ k) × (k ≤ hi) × Times (MatchesItems body) k t
    MatchesNode (atomic items) t = MatchesItems items t
    MatchesNode other t = Unit

    pub MatchesItems : Items → Chars → Type 0
    MatchesItems nil t = t ≡ []
    MatchesItems (cons n items) t =
        (s : Chars) × (rest : Chars) × (t ≡ s ++ rest) × MatchesNode n s × MatchesItems items rest

    pub MatchesBranches : Branches → Chars → Type 0
    MatchesBranches no_branch t = ⊥
    MatchesBranches (or_branch items bs) t = MatchesItems items t ⊎ MatchesBranches bs t

  translate_ascii : (c : ℕ) → c < 128 → translate c ≡ c
  translate_ascii c h = ground arith

  map-translate_ascii : (t : Chars) → isascii t ≡ true → map translate t ≡ t
  unfolding isascii
  map-translate_ascii [] h = refl
  map-translate_ascii (c ∷ t) h =
      rw (translate_ascii c (ground arith), map-translate_ascii t (ground arith))

  pub fold_lem : (t : Chars) → fold t ≡ lower r.unicode (map translate t)
  unfolding fold
  fold_lem t = elim (Bool-cases (isascii t)) [
    | inl ascii ↦ rw ascii (ap (lower r.unicode) (sym (map-translate_ascii t ascii)))
    | inr wide ↦ rw wide
  ]

  pub fold-append : (s t : Chars) → fold (s ++ t) ≡ fold s ++ fold t
  fold-append s t = simp (fold_lem, map-append, lower-append)
