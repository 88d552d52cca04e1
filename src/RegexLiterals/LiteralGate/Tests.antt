-- ===== src/RegexLiterals/LiteralGate/Tests.antt =====
-- Runs of the gate of src/artifact_engine/core/regex_literals.py with one regex, `php`.
use artifact_engine.Prelude.{
  ◌≡◌, ◌⊎◌, inl, inr, Bool, true, false, some, List, [], ◌∷◌, map, any, All, arith, Bool-cases,
  subst,
}
use artifact_engine.Prelude.Chars.{Chars, codes, Occurs, ascii_lower, plain}
use artifact_engine.SigmaPrefilter.Trie.{trie_pattern}
use artifact_engine.SigmaPrefilter.Trie.Sound.{trie_pattern_iff}
use artifact_engine.SigmaPrefilter.Trie.Scan.{scan, scan_found, scan_of_found}
use artifact_engine.SigmaPrefilter.Gate.{Search}
use artifact_engine.RegexLiterals.Tree.{Engine, translate, fold}
use artifact_engine.RegexLiterals.Options.{Choice}
use artifact_engine.RegexLiterals.Options.Sound.{HasEach}
use artifact_engine.RegexLiterals.LiteralGate.{start, ask_all}
use artifact_engine.RegexLiterals.LiteralGate.Answers.{ask_all-start}

abbrev folding : Engine
folding = record {
  unicode = plain;
  same = λ v x. plain.lower_char (translate x) ≡ ascii_lower v ∷ [];
  same_ascii = λ v x h k. k;
}

abbrev scanner : Search
scanner = record { search = scan; found = scan_found; of_found = scan_of_found }

abbrev php : Chars
php = codes "php"

abbrev matches_php : Chars → Bool
matches_php text = scan (trie_pattern (php ∷ [])) (fold folding text)

abbrev regexes : List ((Chars → Bool) × List Choice)
regexes = (matches_php, (php ∷ []) ∷ []) ∷ []

matches_php-Occurs : (text : Chars) → matches_php text ≡ true → Occurs php (fold folding text)
matches_php-Occurs text h =
    let (w, m, o) = scan_of_found (trie_pattern (php ∷ [])) (fold folding text) h in
    elim ((trie_pattern_iff php [] w).0 m) [
      | inl e ↦ subst (λ v. Occurs v (fold folding text)) e o
      | inr none_left ↦ absurd none_left
    ]

regexes_hold : (text : Chars) → All (λ g. (g.0 text ≡ false) ⊎ HasEach folding text g.1) regexes
regexes_hold text = elim (Bool-cases (matches_php text)) [
  | inl hit ↦ (inr ((inl (matches_php-Occurs text hit)), tt), tt)
  | inr miss ↦ (inl miss, tt)
]

whole_is_php : (text : Chars) → matches_php text ≡ any (λ g. g.0 text) regexes
whole_is_php text = ground arith

abbrev texts : List Chars
texts = codes "/a.PHP" ∷ codes "/a.html" ∷ []

ask_all-start_example :
    ask_all folding scanner (some matches_php) texts (start regexes) ≡ map matches_php texts
ask_all-start_example =
    ask_all-start folding scanner regexes matches_php texts whole_is_php regexes_hold
