-- ===== src/SigmaPrefilter/Gate/Tests.antt =====
-- Runs of the gate (src/artifact_engine/core/sigma_prefilter.py) on a table of requests.
use artifact_engine.Prelude.{
  ◌≡◌, ◌↔◌, refl, inl, Option, none, some, List, [], ◌∷◌, true, false, arith, Any,
}
use artifact_engine.Prelude.Chars.{Chars, codes, ascii_lower, lower, plain}
use artifact_engine.SigmaPrefilter.Like.{like_literal}
use artifact_engine.SigmaPrefilter.Like.Sound.{Like, end, many_more, many_none, fixed}
use artifact_engine.SigmaPrefilter.Needs.{Need, leaf}
use artifact_engine.SigmaPrefilter.Reader.Grammar.{
  Expr, expr_of, or_end, conj_of, and_end, compared, like_text, print_expr, Meaning, TrueExpr,
}
use artifact_engine.SigmaPrefilter.Columns.{necessary, by_fold}
use artifact_engine.SigmaPrefilter.Columns.Sound.{any_case}
use artifact_engine.SigmaPrefilter.Trie.{char, nothing, trie_pattern, bars, pattern_text}
use artifact_engine.SigmaPrefilter.Trie.Sound.{Matches, trie_pattern_iff}
use artifact_engine.SigmaPrefilter.Trie.Scan.{scan, scan_found, scan_of_found}
use artifact_engine.SigmaPrefilter.Gate.{Search, Columns, Check, column_index, gate_checks, gate}
use artifact_engine.SigmaPrefilter.Gate.Sound.{by_name, Fits, gate_keeps_match}

abbrev scanner : Search
scanner = record { search = scan; found = scan_found; of_found = scan_of_found }

abbrev words : List Chars
words = codes "abd" ∷ codes "abc" ∷ codes "ab" ∷ []

trie_text_run : pattern_text (λ c. c ∷ []) words ≡ codes "ab(?:c|d)?"
unfolding trie_pattern bars ascii_lower
trie_text_run = refl

trie_pattern_iff_example :
    Matches (trie_pattern words) (codes "abc") ↔ Any (λ w. codes "abc" ≡ w) words
trie_pattern_iff_example =
    trie_pattern_iff (codes "abd") (codes "abc" ∷ codes "ab" ∷ []) (codes "abc")

-- uri LIKE '%etc%'
abbrev condition : Expr
condition = expr_of (conj_of (compared (like_text (codes "uri") (codes "%etc%"))) and_end) or_end

abbrev names : List Chars
names = codes "status" ∷ codes "URI" ∷ []

abbrev columns : Columns
columns = (codes "status", 0) ∷ (codes "URI", 1) ∷ []

abbrev request : List (Option Chars)
request = none ∷ some (codes "/ETC") ∷ []

abbrev need : Need
need = record { entries = (codes "URI", codes "etc" ∷ []) ∷ []; exact = false }

abbrev checks : List Check
checks = (1, char b'e' (char b't' (char b'c' nothing))) ∷ []

need_run : necessary plain (lower plain) names (print_expr condition []) ≡ some need
unfolding necessary like_literal leaf print_expr ascii_lower
need_run = refl

checks_run : gate_checks columns (need ∷ []) ≡ some checks
unfolding gate_checks trie_pattern
checks_run = refl

gate_drops_run : gate plain scanner (none ∷ some (codes "/et") ∷ []) checks ≡ some false
unfolding gate ascii_lower
gate_drops_run = refl

etc_matches : Like none (codes "%etc%") (codes "/ETC")
unfolding ascii_lower
etc_matches = many_more refl refl (
    many_none refl refl (
      fixed refl refl refl (fixed refl refl refl (fixed refl refl refl (many_none refl refl end)))))

abbrev no_meaning : Meaning
no_meaning = record { true_run = λ ts. ⊥; false_run = λ ts. ⊥ }

condition_holds :
    TrueExpr (any_case (lower plain) names (by_name columns request)) no_meaning condition
unfolding TrueExpr by_fold column_index lower ascii_lower
condition_holds = inl ((codes "/ETC", refl, etc_matches), tt)

request-Fits : Fits columns request
request-Fits = (omega arith, (omega arith, tt))

gate_keeps_match_example : gate plain scanner request checks ≡ some true
gate_keeps_match_example =
    gate_keeps_match plain scanner columns request (lower plain) names no_meaning condition need
      (need ∷ []) checks need_run (inl refl) checks_run request-Fits condition_holds
