-- ===== src/SigmaPrefilter/Trie/Words.antt =====
-- Which words a trie of src/artifact_engine/core/sigma_prefilter.py holds.
use artifact_engine.Prelude.{
  ℕ, ◌≡◌, refl, sym, ◌⊎◌, inl, inr, true, List, [], ◌∷◌, arith, ◌==◌, Any, Bool-cases,
}
use artifact_engine.Prelude.Chars.{Chars}
use artifact_engine.SigmaPrefilter.Trie.{
  Trie, trie, Children, no_child, child, empty, put, add, add_all,
}

-- Some child at the character satisfies the predicate.
abbrev pub HasChild : (Trie → Type 0) → ℕ → Children → Type 0
HasChild P c no_child = ⊥
HasChild P c (child d t rest) = ((c ≡ d) × P t) ⊎ HasChild P c rest

abbrev pub Has : Chars → Trie → Type 0
Has [] (trie ends children) = ends ≡ true
Has (c ∷ w) (trie ends children) = HasChild (Has w) c children

HasChild-put_new :
    (P : Trie → Type 0) (go : Trie → Trie) (c : ℕ) (children : Children)
    → ((t : Trie) → P (go t))
    → HasChild P c (put go c children)
unfolding put
HasChild-put_new P go c no_child h = inl (refl, h empty)
HasChild-put_new P go c (child d t rest) h = elim (Bool-cases (c == d)) [
  | inl same ↦ rw same (inl (ground arith, h t))
  | inr other ↦ rw other (inr (HasChild-put_new P go c rest h))
]

HasChild-put_old :
    (P : Trie → Type 0) (go : Trie → Trie) (x c : ℕ) (children : Children)
    → ((t : Trie) → P t → P (go t))
    → HasChild P x children
    → HasChild P x (put go c children)
unfolding put
HasChild-put_old P go x c no_child h k = absurd k
HasChild-put_old P go x c (child d t rest) h k = elim (Bool-cases (c == d)) [
  | inl same ↦ rw same (elim k [ inl (e, here) ↦ inl (e, h t here) | inr there ↦ inr there ])
  | inr other ↦
      rw other
        (elim k [ inl here ↦ inl here | inr there ↦ inr (HasChild-put_old P go x c rest h there) ])
]

HasChild-of_put :
    (P : Trie → Type 0) (Q : Type 0) (go : Trie → Trie) (x c : ℕ) (children : Children)
    → ((t : Trie) → P (go t) → Q ⊎ P t)
    → ¬ P empty
    → HasChild P x (put go c children)
    → ((x ≡ c) × Q) ⊎ HasChild P x children
unfolding put
HasChild-of_put P Q go x c no_child h none (inl (e, k)) = elim (h empty k) [
  | inl q ↦ inl (e, q)
  | inr p ↦ absurd (none p)
]
HasChild-of_put P Q go x c no_child h none (inr k) = absurd k
HasChild-of_put P Q go x c (child d t rest) h none k = elim (Bool-cases (c == d)) [
  | inl same ↦
      let e : c ≡ d = ground arith in
      elim (rw same at k) [
        | inl (f, p) ↦ elim (h t p) [ inl q ↦ inl (rw e f, q) | inr old ↦ inr (inl (f, old)) ]
        | inr there ↦ inr (inr there)
      ]
  | inr other ↦ elim (rw other at k) [
    | inl here ↦ inr (inl here)
    | inr there ↦ elim (HasChild-of_put P Q go x c rest h none there) [
      | inl new ↦ inl new
      | inr old ↦ inr (inr old)
    ]
  ]
]

Has-empty : (w : Chars) → ¬ Has w empty
Has-empty [] h = cc
Has-empty (c ∷ w) h = h

Has-add_new : (w : Chars) (t : Trie) → Has w (add w t)
unfolding add
Has-add_new [] (trie ends children) = refl
Has-add_new (c ∷ w) (trie ends children) =
    HasChild-put_new (Has w) (add w) c children (Has-add_new w)

Has-add_old : (v w : Chars) (t : Trie) → Has v t → Has v (add w t)
unfolding add
Has-add_old [] [] (trie ends children) h = refl
Has-add_old [] (c ∷ w) (trie ends children) h = h
Has-add_old (x ∷ v) [] (trie ends children) h = h
Has-add_old (x ∷ v) (c ∷ w) (trie ends children) h =
    HasChild-put_old (Has v) (add w) x c children (Has-add_old v w) h

Has-of_add : (v w : Chars) (t : Trie) → Has v (add w t) → (v ≡ w) ⊎ Has v t
unfolding add
Has-of_add [] [] (trie ends children) h = inl refl
Has-of_add [] (c ∷ w) (trie ends children) h = inr h
Has-of_add (x ∷ v) [] (trie ends children) h = inr h
Has-of_add (x ∷ v) (c ∷ w) (trie ends children) h =
    elim (HasChild-of_put (Has v) (v ≡ w) (add w) x c children (Has-of_add v w) (Has-empty v) h) [
      | inl (e, f) ↦ inl (rw (e, f) refl)
      | inr old ↦ inr old
    ]

Has-add_all_old : (v : Chars) (t : Trie) (words : List Chars) → Has v t → Has v (add_all t words)
unfolding add_all
Has-add_all_old v t [] h = h
Has-add_all_old v t (w ∷ words) h = Has-add_all_old v (add w t) words (Has-add_old v w t h)

pub Has-add_all :
    (v : Chars) (t : Trie) (words : List Chars) → Any (λ w. v ≡ w) words → Has v (add_all t words)
unfolding add_all
Has-add_all v t [] h = absurd h
Has-add_all v t (w ∷ words) (inl e) =
    Has-add_all_old v (add w t) words (rw (sym e) (Has-add_new v t))
Has-add_all v t (w ∷ words) (inr h) = Has-add_all v (add w t) words h

pub Has-of_add_all :
    (v : Chars) (t : Trie) (words : List Chars)
    → Has v (add_all t words)
    → Any (λ w. v ≡ w) words ⊎ Has v t
unfolding add_all
Has-of_add_all v t [] h = inr h
Has-of_add_all v t (w ∷ words) h = elim (Has-of_add_all v (add w t) words h) [
  | inl later ↦ inl (inr later)
  | inr here ↦ elim (Has-of_add v w t here) [ inl e ↦ inl (inl e) | inr old ↦ inr old ]
]

-- No word is in the empty trie.
pub words_of_empty :
    (v : Chars) (words : List Chars) → Has v (add_all empty words) → Any (λ w. v ≡ w) words
words_of_empty v words h = elim (Has-of_add_all v empty words h) [
  | inl found ↦ found
  | inr old ↦ absurd (Has-empty v old)
]
