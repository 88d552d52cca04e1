-- ===== src/SigmaPrefilter/Gate/Found.antt =====
-- A search for the regex of some words (`trie_pattern` of
-- src/artifact_engine/core/sigma_prefilter.py) finds each word that occurs.
use artifact_engine.Prelude.{◌≡◌, refl, inl, inr, true, List, [], ◌∷◌, Any}
use artifact_engine.Prelude.Chars.{Chars, Occurs}
use artifact_engine.SigmaPrefilter.Trie.{trie_pattern}
use artifact_engine.SigmaPrefilter.Trie.Sound.{trie_pattern-Matches}
use artifact_engine.SigmaPrefilter.Gate.{Search}

occurring :
    (low : Chars) (words : List Chars)
    → Any (λ l. Occurs l low) words
    → (w : Chars) × Any (λ l. w ≡ l) words × Occurs w low
occurring low [] k = absurd k
occurring low (x ∷ xs) (inl k) = (x, inl refl, k)
occurring low (x ∷ xs) (inr k) = let (w, m, o) = occurring low xs k in (w, inr m, o)

pub search-trie_pattern :
    (re : Search) (low : Chars) (words : List Chars)
    → Any (λ l. Occurs l low) words
    → re.search (trie_pattern words) low ≡ true
search-trie_pattern re low words h =
    let (w, m, o) = occurring low words h in
    re.found (trie_pattern words) w low (trie_pattern-Matches words w m) o
