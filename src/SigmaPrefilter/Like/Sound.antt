-- ===== src/SigmaPrefilter/Like/Sound.antt =====
-- What `_like_literal` promises: every text that a LIKE pattern matches holds its literal, up to
-- ASCII case.
use mathlib.Core.List.{map-append}
use artifact_engine.Prelude.{
  ℕ, ◌<◌, ◌≡◌, refl, sym, ap, ◌∙◌, true, false, inl, inr, Option, List, [], ◌∷◌, ◌++◌, map,
  append_assoc, arith, length, All, Bool-cases, ltb,
}
use artifact_engine.Prelude.Chars.{
  Chars, Occurs, ascii_lower, isascii, Unicode, lower, lower-append,
}
use artifact_engine.SigmaPrefilter.Like.{
  escapes, is_wildcard, like_runs, longest, longest_of, like_literal,
}

-- SQLite's `text LIKE pattern ESCAPE escape`: `%` is any text, `_` one character, any other
-- character itself up to the case of an ASCII letter, and so is any character after the escape.
pub data Like (escape : Option Chars) : Chars → Chars → Type 0 where
  end : Like escape [] []
  escaped :
      {c d x : ℕ} {pattern text : Chars}
      → escapes escape c ≡ true
      → ascii_lower d ≡ ascii_lower x
      → Like escape pattern text
      → Like escape (c ∷ d ∷ pattern) (x ∷ text)
  one :
      {c x : ℕ} {pattern text : Chars}
      → escapes escape c ≡ false
      → c ≡ b'_'
      → Like escape pattern text
      → Like escape (c ∷ pattern) (x ∷ text)
  many_none :
      {c : ℕ} {pattern text : Chars}
      → escapes escape c ≡ false
      → c ≡ b'%'
      → Like escape pattern text
      → Like escape (c ∷ pattern) text
  many_more :
      {c x : ℕ} {pattern text : Chars}
      → escapes escape c ≡ false
      → c ≡ b'%'
      → Like escape (c ∷ pattern) text
      → Like escape (c ∷ pattern) (x ∷ text)
  fixed :
      {c x : ℕ} {pattern text : Chars}
      → escapes escape c ≡ false
      → is_wildcard c ≡ false
      → ascii_lower c ≡ ascii_lower x
      → Like escape pattern text
      → Like escape (c ∷ pattern) (x ∷ text)

-- The characters of `s` stand in `t` next to one another, up to ASCII case.
abbrev pub OccursFolded : Chars → Chars → Type 0
OccursFolded s t =
    (before : Chars) × (middle : Chars) × (after : Chars) × (t ≡ before ++ (middle ++ after))
    × (map ascii_lower middle ≡ map ascii_lower s)

OccursFolded-append_left :
    (before : Chars) (t s : Chars) → OccursFolded s t → OccursFolded s (before ++ t)
OccursFolded-append_left before t s (a, m, b, e, h) =
    (before ++ a, m, b, ap (λ r. before ++ r) e ∙ sym (append_assoc before a (m ++ b)), h)

All-mono :
    (P Q : Chars → Type 0) (xs : List Chars) → ((x : Chars) → P x → Q x) → All P xs → All Q xs
All-mono P Q [] f h = tt
All-mono P Q (x ∷ xs) f h = (f x h.0, All-mono P Q xs f h.1)

-- The run in progress, `cur`, has matched `seen`.
snoc_folded :
    (cur seen : Chars) (c x : ℕ)
    → map ascii_lower seen ≡ map ascii_lower cur
    → ascii_lower c ≡ ascii_lower x
    → map ascii_lower (seen ++ x ∷ []) ≡ map ascii_lower (cur ++ c ∷ [])
snoc_folded cur seen c x h e = simp (map-append, h, e)

module _ (escape : Option Chars) where
  runs_wildcard :
      (cur : Chars) (c : ℕ) (pattern : Chars)
      → escapes escape c ≡ false
      → is_wildcard c ≡ true
      → like_runs escape cur (c ∷ pattern) ≡ cur ∷ like_runs escape [] pattern
  unfolding like_runs
  runs_wildcard cur c [] plain wild = rw wild
  runs_wildcard cur c (d ∷ rest) plain wild = rw (plain, wild)

  runs_fixed :
      (cur : Chars) (c : ℕ) (pattern : Chars)
      → escapes escape c ≡ false
      → is_wildcard c ≡ false
      → like_runs escape cur (c ∷ pattern) ≡ like_runs escape (cur ++ c ∷ []) pattern
  unfolding like_runs
  runs_fixed cur c [] plain tame = rw tame
  runs_fixed cur c (d ∷ rest) plain tame = rw (plain, tame)

  runs_escaped :
      (cur : Chars) (c d : ℕ) (pattern : Chars)
      → escapes escape c ≡ true
      → like_runs escape cur (c ∷ d ∷ pattern) ≡ like_runs escape (cur ++ d ∷ []) pattern
  unfolding like_runs
  runs_escaped cur c d pattern e = rw e

  -- `r` occurs in the text after `seen`, so in the whole.
  after_seen :
      (seen text : Chars) (rs : List Chars)
      → All (λ r. OccursFolded r text) rs
      → All (λ r. OccursFolded r (seen ++ text)) rs
  after_seen seen text rs =
      All-mono (λ r. OccursFolded r text) (λ r. OccursFolded r (seen ++ text)) rs
        (OccursFolded-append_left seen text)

  runs_occur :
      {pattern text : Chars} (cur seen : Chars)
      → Like escape pattern text
      → map ascii_lower seen ≡ map ascii_lower cur
      → All (λ r. OccursFolded r (seen ++ text)) (like_runs escape cur pattern)
  runs_occur cur seen end h = unfold like_runs in (([], seen, [], refl, h), tt)
  runs_occur cur seen (escaped {c = c} {d = d} {x = x} {pattern = p} {text = t} e l m) h =
      rw (runs_escaped cur c d p e) (
        rw (sym (append_assoc seen (x ∷ []) t))
          (runs_occur (cur ++ d ∷ []) (seen ++ x ∷ []) m (snoc_folded cur seen d x h l)))
  runs_occur cur seen (fixed {c = c} {x = x} {pattern = p} {text = t} e w l m) h =
      rw (runs_fixed cur c p e w) (
        rw (sym (append_assoc seen (x ∷ []) t))
          (runs_occur (cur ++ c ∷ []) (seen ++ x ∷ []) m (snoc_folded cur seen c x h l)))
  runs_occur cur seen (one {c = c} {x = x} {pattern = p} {text = t} e w m) h =
      rw (runs_wildcard cur c p e (rw w)) (
        ([], seen, x ∷ t, refl, h),
        after_seen seen (x ∷ t) _ (after_seen (x ∷ []) t _ (runs_occur [] [] m refl)),
      )
  runs_occur cur seen (many_none {c = c} {pattern = p} {text = t} e w m) h =
      rw (runs_wildcard cur c p e (rw w))
        (([], seen, t, refl, h), after_seen seen t _ (runs_occur [] [] m refl))
  runs_occur cur seen (many_more {c = c} {x = x} {pattern = p} {text = t} e w m) h =
      rw (runs_wildcard cur c p e (rw w)) (
        ([], seen, x ∷ t, refl, h),
        after_seen seen (x ∷ t) _ (
            after_seen (x ∷ []) t _
              ((rw (runs_wildcard [] c p e (rw w)) at (runs_occur [] [] m refl)).1)),
      )

longest_All :
    (P : Chars → Type 0) (best : Chars) (rs : List Chars) → P best → All P rs → P (longest best rs)
unfolding longest
longest_All P best [] h a = h
longest_All P best (r ∷ rs) h a = elim (Bool-cases (ltb (length best) (length r))) [
  | inl longer ↦ rw longer (longest_All P r rs a.0 a.1)
  | inr shorter ↦ rw shorter (longest_All P best rs h a.1)
]

longest_of_All : (P : Chars → Type 0) (rs : List Chars) → P [] → All P rs → P (longest_of rs)
longest_of_All P [] h a = h
longest_of_All P (r ∷ rs) h a = longest_All P r rs a.0 a.1

like_literal_folded :
    (escape : Option Chars) {pattern text : Chars}
    → Like escape pattern text
    → OccursFolded (like_literal pattern escape) text
unfolding like_literal
like_literal_folded escape {pattern} {text} m =
    longest_of_All (λ r. OccursFolded r text) (like_runs escape [] pattern)
      ([], [], text, refl, refl) (runs_occur escape [] [] m refl)

module _ (u : Unicode) where
  lower_ascii : (s : Chars) → isascii s ≡ true → lower u s ≡ map ascii_lower s
  unfolding lower isascii
  lower_ascii [] h = refl
  lower_ascii (c ∷ s) h = rw (u.lower_char_ascii c (ground arith), lower_ascii s (ground arith))

  -- A character is ASCII if its lower case is.
  ascii_of_lower : (c d : ℕ) → ascii_lower c ≡ ascii_lower d → d < 128 → c < 128
  unfolding ascii_lower
  ascii_of_lower c d e h = ground arith

  isascii_folded :
      (s t : Chars) → map ascii_lower t ≡ map ascii_lower s → isascii s ≡ true → isascii t ≡ true
  unfolding isascii
  isascii_folded [] [] e h = refl
  isascii_folded [] (d ∷ t) e h = cc
  isascii_folded (c ∷ s) [] e h = cc
  isascii_folded (c ∷ s) (d ∷ t) e h = ground (arith, ascii_of_lower d c, isascii_folded s t)

  pub Occurs-of_folded :
      (s t : Chars) → isascii s ≡ true → OccursFolded s t → Occurs (lower u s) (lower u t)
  Occurs-of_folded s t ascii (a, m, b, e, h) = (
    lower u a,
    lower u b,
    ap (lower u) e
        ∙ lower-append u a (m ++ b)
        ∙ ap (λ r. lower u a ++ r)
            (lower-append u m b
              ∙ ap (λ r. r ++ lower u b)
                  (lower_ascii m (isascii_folded s m h ascii) ∙ h ∙ sym (lower_ascii s ascii))),
  )

  -- An ASCII literal of a LIKE pattern, lowered, is in every text that the pattern matches, lowered.
  pub Occurs-like_literal :
      (escape : Option Chars) {pattern text : Chars}
      → isascii (like_literal pattern escape) ≡ true
      → Like escape pattern text
      → Occurs (lower u (like_literal pattern escape)) (lower u text)
  Occurs-like_literal escape {pattern} {text} ascii m =
      Occurs-of_folded (like_literal pattern escape) text ascii (like_literal_folded escape m)
