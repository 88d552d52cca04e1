-- ===== src/SigmaPrefilter/Trie/Sound.antt =====
-- The regex that `trie_pattern` of src/artifact_engine/core/sigma_prefilter.py builds matches the
-- words it is built from and nothing else.
use artifact_engine.Prelude.{
  ℕ, ◌≡◌, ◌↔◌, refl, ◌⊎◌, inl, inr, Bool, true, false, List, [], ◌∷◌, ◌==◌, Any, Bool-cases, subst,
}
use artifact_engine.Prelude.Chars.{Chars}
use artifact_engine.Prelude.Sorting.{sorted, Any-sorted, Any-of_sorted}
use artifact_engine.SigmaPrefilter.Trie.{
  Trie, trie, Children, no_child, child, empty, put, add, add_all, Pattern, nothing, char,
  alternative, optional, Branch, branch_lt, join, body, build, branches_of, trie_pattern,
}
use artifact_engine.SigmaPrefilter.Trie.Words.{Has, HasChild, Has-add_all, words_of_empty}

-- The whole of a text is matched.
abbrev pub Matches : Pattern → Chars → Type 0
Matches nothing s = s ≡ []
Matches (char c p) [] = ⊥
Matches (char c p) (x ∷ s) = (x ≡ c) × Matches p s
Matches (alternative p q) s = Matches p s ⊎ Matches q s
Matches (optional p) s = (s ≡ []) ⊎ Matches p s

abbrev Takes : Chars → Branch → Type 0
Takes s (c, p) = Matches (char c p) s

join-Matches :
    (s : Chars) (b : Branch) (bs : List Branch) → Any (Takes s) (b ∷ bs) → Matches (join b bs) s
unfolding join
join-Matches s (c, p) [] (inl h) = h
join-Matches s (c, p) (b ∷ bs) (inl h) = inl h
join-Matches s (c, p) (b ∷ bs) (inr h) = inr (join-Matches s b bs h)
join-Matches s (c, p) [] (inr h) = absurd h

Matches-of_join :
    (s : Chars) (b : Branch) (bs : List Branch) → Matches (join b bs) s → Any (Takes s) (b ∷ bs)
unfolding join
Matches-of_join s (c, p) [] h = inl h
Matches-of_join s (c, p) (b ∷ bs) (inl h) = inl h
Matches-of_join s (c, p) (b ∷ bs) (inr h) = inr (Matches-of_join s b bs h)

body-Matches_branch :
    (ends : Bool) (s : Chars) (bs : List Branch) → Any (Takes s) bs → Matches (body ends bs) s
unfolding body
body-Matches_branch ends s [] h = absurd h
body-Matches_branch true s (b ∷ bs) h = inr (join-Matches s b bs h)
body-Matches_branch false s (b ∷ bs) h = join-Matches s b bs h

body-Matches_end : (bs : List Branch) → Matches (body true bs) []
unfolding body
body-Matches_end [] = refl
body-Matches_end (b ∷ bs) = inl refl

Matches-of_body :
    (ends : Bool) (s : Chars) (bs : List Branch)
    → Matches (body ends bs) s
    → ((s ≡ []) × ((ends ≡ true) ⊎ (bs ≡ []))) ⊎ Any (Takes s) bs
unfolding body
Matches-of_body ends s [] h = inl (h, inr refl)
Matches-of_body true s (b ∷ bs) (inl h) = inl (h, inl refl)
Matches-of_body true s (b ∷ bs) (inr h) = inr (Matches-of_join s b bs h)
Matches-of_body false s (b ∷ bs) h = inr (Matches-of_join s b bs h)

branches_of-Takes :
    (w : Chars) (c : ℕ) (children : Children)
    → ((t : Trie) → Has w t → Matches (build t) w)
    → HasChild (Has w) c children
    → Any (Takes (c ∷ w)) (branches_of children)
unfolding branches_of
branches_of-Takes w c no_child f h = absurd h
branches_of-Takes w c (child d t rest) f (inl (e, h)) = inl (e, f t h)
branches_of-Takes w c (child d t rest) f (inr h) = inr (branches_of-Takes w c rest f h)

build-Matches : (w : Chars) (t : Trie) → Has w t → Matches (build t) w
unfolding build
build-Matches [] (trie ends children) h =
    rw h (body-Matches_end (sorted branch_lt (branches_of children)))
build-Matches (c ∷ w) (trie ends children) h =
    body-Matches_branch ends (c ∷ w) (sorted branch_lt (branches_of children)) (
      Any-sorted branch_lt (Takes (c ∷ w)) (branches_of children)
        (branches_of-Takes w c children (build-Matches w) h))

-- Every node below leads to the end of a word.
abbrev IsLive : Trie → Type 0
IsLive (trie true children) = Unit
IsLive (trie false (child c t rest)) = Unit
IsLive (trie false no_child) = ⊥

unfoldable mutual
  AllLive : Children → Type 0
  AllLive no_child = Unit
  AllLive (child c t rest) = IsLive t × LiveBelow t × AllLive rest

  LiveBelow : Trie → Type 0
  LiveBelow (trie ends children) = AllLive children

AllLive-put :
    (go : Trie → Trie) (c : ℕ) (children : Children)
    → ((t : Trie) → LiveBelow t → IsLive (go t) × LiveBelow (go t))
    → AllLive children
    → AllLive (put go c children)
unfolding put AllLive LiveBelow
AllLive-put go c no_child f h = let (l, b) = f empty tt in (l, b, tt)
AllLive-put go c (child d t rest) f (l, b, h) = elim (Bool-cases (c == d)) [
  | inl same ↦ let (l', b') = f t b in rw same (l', b', h)
  | inr other ↦ rw other (l, b, AllLive-put go c rest f h)
]

put-IsLive :
    (go : Trie → Trie) (ends : Bool) (c : ℕ) (children : Children)
    → IsLive (trie ends (put go c children))
unfolding put
put-IsLive go true c children = tt
put-IsLive go false c no_child = tt
put-IsLive go false c (child d t rest) = elim (Bool-cases (c == d)) [
  | inl same ↦ rw same tt
  | inr other ↦ rw other tt
]

add-IsLive : (w : Chars) (t : Trie) → LiveBelow t → IsLive (add w t) × LiveBelow (add w t)
unfolding add AllLive LiveBelow
add-IsLive [] (trie ends children) h = (tt, h)
add-IsLive (c ∷ w) (trie ends children) h =
    (put-IsLive (add w) ends c children, AllLive-put (add w) c children (add-IsLive w) h)

add_all-IsLive :
    (t : Trie) (words : List Chars)
    → IsLive t × LiveBelow t
    → IsLive (add_all t words) × LiveBelow (add_all t words)
unfolding add_all
add_all-IsLive t [] h = h
add_all-IsLive t (w ∷ words) h = add_all-IsLive (add w t) words (add-IsLive w t h.1)

branches_of-HasChild :
    (w : Chars) (c : ℕ) (children : Children)
    → ((t : Trie) → IsLive t → LiveBelow t → Matches (build t) w → Has w t)
    → AllLive children
    → Any (Takes (c ∷ w)) (branches_of children)
    → HasChild (Has w) c children
unfolding branches_of AllLive
branches_of-HasChild w c no_child f l h = h
branches_of-HasChild w c (child d t rest) f (live, below, others) (inl (e, h)) =
    inl (e, f t live below h)
branches_of-HasChild w c (child d t rest) f (live, below, others) (inr h) =
    inr (branches_of-HasChild w c rest f others h)

no_branch_ends :
    (ends : Bool) (children : Children)
    → IsLive (trie ends children)
    → sorted branch_lt (branches_of children) ≡ []
    → ends ≡ true
unfolding branches_of
no_branch_ends true children l e = refl
no_branch_ends false no_child l e = absurd l
no_branch_ends false (child c t rest) l e = absurd (
    subst (Any (λ b. Unit)) e
      (Any-sorted branch_lt (λ b. Unit) (branches_of (child c t rest)) (inl tt)))

none-Takes : (bs : List Branch) → ¬ Any (Takes []) bs
none-Takes [] h = h
none-Takes (b ∷ bs) (inl h) = h
none-Takes (b ∷ bs) (inr h) = none-Takes bs h

Matches-of_build : (w : Chars) (t : Trie) → IsLive t → LiveBelow t → Matches (build t) w → Has w t
unfolding build LiveBelow
Matches-of_build [] (trie ends children) l b h =
    elim (Matches-of_body ends [] (sorted branch_lt (branches_of children)) h) [
      | inl (_, inl e) ↦ e
      | inl (_, inr none) ↦ no_branch_ends ends children l none
      | inr found ↦ absurd (none-Takes (sorted branch_lt (branches_of children)) found)
    ]
Matches-of_build (c ∷ w) (trie ends children) l b h =
    elim (Matches-of_body ends (c ∷ w) (sorted branch_lt (branches_of children)) h) [
      | inl (e, _) ↦ cc
      | inr found ↦
          branches_of-HasChild w c children (Matches-of_build w) b
            (Any-of_sorted branch_lt (Takes (c ∷ w)) (branches_of children) found)
    ]

-- Each word is matched as a whole.
pub trie_pattern-Matches :
    (words : List Chars) (v : Chars) → Any (λ w. v ≡ w) words → Matches (trie_pattern words) v
unfolding trie_pattern
trie_pattern-Matches words v h = build-Matches v (add_all empty words) (Has-add_all v empty words h)

-- The regex built from at least one word matches, as a whole, exactly the words.
pub trie_pattern_iff :
    (first : Chars) (words : List Chars) (v : Chars)
    → Matches (trie_pattern (first ∷ words)) v ↔ Any (λ w. v ≡ w) (first ∷ words)
unfolding trie_pattern add_all LiveBelow
trie_pattern_iff first words v = (
  λ h.
      let (l, b) = add_all-IsLive (add first empty) words (add-IsLive first empty tt) in
      words_of_empty v (first ∷ words) (Matches-of_build v (add_all (add first empty) words) l b h),
  trie_pattern-Matches (first ∷ words) v,
)
