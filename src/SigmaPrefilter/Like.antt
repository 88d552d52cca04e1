-- ===== src/SigmaPrefilter/Like.antt =====
-- `_like_literal` of src/artifact_engine/core/sigma_prefilter.py: the longest fixed run of a LIKE
-- pattern.
pub mod Sound
use artifact_engine.Prelude.{
  ℕ, ◌≡◌, Bool, true, false, ◌||◌, Option, none, some, List, [], ◌∷◌, ◌++◌, ltb, ◌==◌, length,
  if◌then◌else◌,
}
use artifact_engine.Prelude.Chars.{Chars, chars_eq}

-- `c in "%_"`
abbrev pub is_wildcard : ℕ → Bool
is_wildcard c = c == b'%' || c == b'_'

-- `escape and c == escape`: the escape is a text, which one character equals if it is that alone.
abbrev pub escapes : Option Chars → ℕ → Bool
escapes none c = false
escapes (some e) c = chars_eq (c ∷ []) e

-- The `while` loop: `runs` with the last `cur` appended, for what is left of the pattern.
unfoldable pub like_runs : Option Chars → Chars → Chars → List Chars
unfolding chars_eq
like_runs escape cur [] = cur ∷ []
like_runs escape cur (c ∷ []) = if is_wildcard c then cur ∷ [] ∷ [] else (cur ++ c ∷ []) ∷ []
like_runs escape cur (c ∷ d ∷ rest) =
    let escaped = like_runs escape (cur ++ d ∷ []) rest in
    let next_run = cur ∷ like_runs escape [] (d ∷ rest) in
    let same_run = like_runs escape (cur ++ c ∷ []) (d ∷ rest) in
    if escapes escape c then escaped else if is_wildcard c then next_run else same_run

-- `max(runs, key=len)`: the first of the longest.
unfoldable pub longest : Chars → List Chars → Chars
longest best [] = best
longest best (r ∷ rs) = longest (if ltb (length best) (length r) then r else best) rs

abbrev pub longest_of : List Chars → Chars
longest_of [] = []
longest_of (r ∷ rs) = longest r rs

unfoldable pub like_literal : Chars → Option Chars → Chars
unfolding like_runs longest
like_literal pattern escape = longest_of (like_runs escape [] pattern)
