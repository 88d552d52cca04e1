-- ===== src/SigmaPrefilter/Trie/Scan.antt =====
-- A search that tries each place of a text in turn, as `re.search` is documented to.
use artifact_engine.Prelude.{
  ◌≡◌, ◌==◌, refl, ap, inl, inr, Bool, true, false, ◌&&◌, ◌||◌, [], ◌∷◌, ◌++◌, arith, Bool-cases,
}
use artifact_engine.Prelude.Chars.{Chars, Occurs}
use artifact_engine.SigmaPrefilter.Trie.{Pattern, nothing, char, alternative, optional}
use artifact_engine.SigmaPrefilter.Trie.Sound.{Matches}

-- A match begins the text.
abbrev pub begins : Pattern → Chars → Bool
begins nothing s = true
begins (char c p) [] = false
begins (char c p) (x ∷ s) = x == c && begins p s
begins (alternative p q) s = begins p s || begins q s
begins (optional p) s = true

abbrev pub scan : Pattern → Chars → Bool
scan p [] = begins p []
scan p (x ∷ s) = begins p (x ∷ s) || scan p s

begins-Matches : (p : Pattern) (w after : Chars) → Matches p w → begins p (w ++ after) ≡ true
begins-Matches nothing w after h = refl
begins-Matches (char c p) [] after h = absurd h
begins-Matches (char c p) (x ∷ w) after (e, h) = ground (arith, e, begins-Matches p w after h)
begins-Matches (alternative p q) w after (inl h) = ground (arith, begins-Matches p w after h)
begins-Matches (alternative p q) w after (inr h) = ground (arith, begins-Matches q w after h)
begins-Matches (optional p) w after h = refl

scan_here : (p : Pattern) (s : Chars) → begins p s ≡ true → scan p s ≡ true
scan_here p [] h = h
scan_here p (x ∷ s) h = ground arith

scan_later : (p : Pattern) (before s : Chars) → scan p s ≡ true → scan p (before ++ s) ≡ true
scan_later p [] s h = h
scan_later p (x ∷ before) s h = ground (arith, scan_later p before s h)

pub scan_found : (p : Pattern) (w s : Chars) → Matches p w → Occurs w s → scan p s ≡ true
scan_found p w s h (before, after, e) =
    rw e (scan_later p before (w ++ after) (scan_here p (w ++ after) (begins-Matches p w after h)))

Matches-of_begins :
    (p : Pattern) (s : Chars)
    → begins p s ≡ true
    → (w : Chars) × (after : Chars) × (s ≡ w ++ after) × Matches p w
Matches-of_begins nothing s h = ([], s, refl, refl)
Matches-of_begins (char c p) [] h = cc
Matches-of_begins (char c p) (x ∷ s) h =
    let (w, after, e, m) = Matches-of_begins p s (ground arith) in
    (x ∷ w, after, ap (λ r. x ∷ r) e, (ground arith, m))
Matches-of_begins (alternative p q) s h = elim (Bool-cases (begins p s)) [
  | inl first ↦ let (w, after, e, m) = Matches-of_begins p s first in (w, after, e, inl m)
  | inr second ↦ let (w, after, e, m) = Matches-of_begins q s (ground arith) in (w, after, e, inr m)
]
Matches-of_begins (optional p) s h = ([], s, refl, inl refl)

pub scan_of_found :
    (p : Pattern) (s : Chars) → scan p s ≡ true → (w : Chars) × Matches p w × Occurs w s
scan_of_found p [] h = let (w, after, e, m) = Matches-of_begins p [] h in (w, m, ([], after, e))
scan_of_found p (x ∷ s) h = elim (Bool-cases (begins p (x ∷ s))) [
  | inl here ↦ let (w, after, e, m) = Matches-of_begins p (x ∷ s) here in (w, m, ([], after, e))
  | inr later ↦
      let (w, m, (before, after, e)) = scan_of_found p s (ground arith) in
      (w, m, (x ∷ before, after, ap (λ r. x ∷ r) e))
]
