-- ===== src/RegexLiterals/Finite/Sound.antt =====
-- `_finite_node` and `_finite` of src/artifact_engine/core/regex_literals.py list every text that a
-- part of a regex can match.
use artifact_engine.Prelude.{
  ℕ, zero, suc, ◌+◌, ◌-◌, ◌≤◌, ◌<◌, ◌≡◌, refl, sym, inl, inr, true, Option, none, some, List, [],
  ◌∷◌, ◌++◌, append-nil, append_assoc, arith, ltb, ◌==◌, Any, Bool-cases, subst,
}
use artifact_engine.Prelude.Chars.{Chars}
use artifact_engine.Prelude.CharSets.{union, cross, Any-union_left, Any-union_right, Any-cross}
use artifact_engine.RegexLiterals.Tree.{
  ClassItem, item, range, negate, category, Kind, Node, literal, at, class, subpattern, branch,
  repeat, atomic, other, Items, nil, cons, Branches, no_branch, or_branch, Engine, MatchesItem,
  MatchesNode, MatchesItems, MatchesBranches,
}
use artifact_engine.RegexLiterals.Finite.{
  max_strings, max_class, chars_from, range_size, class_strings, at_most, optional, finite_node,
  finite, finite_branches,
}

module _ (r : Engine) where
  -- `s` is the text `t`, as `re` compares characters.
  abbrev pub Spelled : Chars → Chars → Type 0
  Spelled [] [] = Unit
  Spelled [] (x ∷ t) = ⊥
  Spelled (v ∷ s) [] = ⊥
  Spelled (v ∷ s) (x ∷ t) = r.same v x × Spelled s t

  pub Spelled-append : (a b s t : Chars) → Spelled a s → Spelled b t → Spelled (a ++ b) (s ++ t)
  Spelled-append [] b [] t h k = k
  Spelled-append [] b (x ∷ s) t h k = absurd h
  Spelled-append (v ∷ a) b [] t h k = absurd h
  Spelled-append (v ∷ a) b (x ∷ s) t h k = (h.0, Spelled-append a b s t h.1 k)

  -- One of the texts of `f` is `t`.
  abbrev pub Lists : List Chars → Chars → Type 0
  Lists f t = Any (λ s. Spelled s t) f

  pub Lists-of_some : {g f : List Chars} (t : Chars) → some g ≡ some f → Lists g t → Lists f t
  Lists-of_some {g} {f} t e h = let same : g ≡ f = cc in subst (λ o. Lists o t) same h

  pub Lists-cross :
      (xs ys : List Chars) (s t : Chars) → Lists xs s → Lists ys t → Lists (cross xs ys) (s ++ t)
  Lists-cross xs ys s t h k =
      Any-cross (λ a. Spelled a s) (λ b. Spelled b t) (λ c. Spelled c (s ++ t))
        (λ a b p q. Spelled-append a b s t p q) xs ys h k

  Lists-chars_from :
      (first count v x : ℕ)
      → first ≤ v
      → v < first + count
      → r.same v x
      → Lists (chars_from first count) (x ∷ [])
  unfolding chars_from
  Lists-chars_from first zero v x lo hi h = absurd (omega arith)
  Lists-chars_from first (suc count) v x lo hi h = elim (Bool-cases (first == v)) [
    | inl here ↦ let e : v ≡ first = ground arith in inl (rw e at h, tt)
    | inr later ↦ inr (Lists-chars_from (first + 1) count v x (ground arith) (omega arith) h)
  ]

  class_strings_old :
      (items : List ClassItem) (out : List Chars) (x : ℕ) {f : List Chars}
      → class_strings out items ≡ some f
      → Lists out (x ∷ [])
      → Lists f (x ∷ [])
  unfolding class_strings
  class_strings_old [] out x e h = Lists-of_some _ e h
  class_strings_old (item v ∷ items) out x e h =
      class_strings_old items (union out ((v ∷ []) ∷ [])) x e
        (Any-union_left (λ s. Spelled s (x ∷ [])) out ((v ∷ []) ∷ []) h)
  class_strings_old (range a b ∷ items) out x e h = elim (Bool-cases (ltb (b - a) max_class)) [
    | inl few ↦
        class_strings_old items (union out (chars_from a (range_size a b))) x (rw few at e)
          (Any-union_left (λ s. Spelled s (x ∷ [])) out (chars_from a (range_size a b)) h)
    | inr many ↦ cc (rw many at e)
  ]
  class_strings_old (negate ∷ items) out x e h = cc
  class_strings_old (category ∷ items) out x e h = cc

  class_strings_new :
      (items : List ClassItem) (out : List Chars) (x : ℕ) {f : List Chars}
      → class_strings out items ≡ some f
      → Any (MatchesItem r x) items
      → Lists f (x ∷ [])
  unfolding class_strings
  class_strings_new [] out x e h = absurd h
  class_strings_new (item v ∷ items) out x e (inl h) =
      class_strings_old items (union out ((v ∷ []) ∷ [])) x e
        (Any-union_right (λ s. Spelled s (x ∷ [])) out ((v ∷ []) ∷ []) (inl (h, tt)))
  class_strings_new (item v ∷ items) out x e (inr h) =
      class_strings_new items (union out ((v ∷ []) ∷ [])) x e h
  class_strings_new (range a b ∷ items) out x e h = elim (Bool-cases (ltb (b - a) max_class)) [
    | inl few ↦ elim h [
      | inl (v, lo, hi, s) ↦
          class_strings_old items (union out (chars_from a (range_size a b))) x (rw few at e) (
            Any-union_right (λ s. Spelled s (x ∷ [])) out (chars_from a (range_size a b))
              (Lists-chars_from a (range_size a b) v x lo (omega arith) s))
      | inr later ↦
          class_strings_new items (union out (chars_from a (range_size a b))) x (rw few at e) later
    ]
    | inr many ↦ cc (rw many at e)
  ]
  class_strings_new (negate ∷ items) out x e h = cc
  class_strings_new (category ∷ items) out x e h = cc

  at_most-some :
      (limit : ℕ) (o : Option (List Chars)) {f : List Chars} → at_most limit o ≡ some f → o ≡ some f
  at_most-some limit none e = e
  at_most-some limit (some out) e = ground arith

  finite-cons :
      (n : Node) (items : Items) (out : List Chars) {f : List Chars}
      → finite out (cons n items) ≡ some f
      → (g : List Chars) × (finite_node n ≡ some g) × (finite (cross out g) items ≡ some f)
  unfolding finite
  finite-cons n items out e = ground arith

  finite_branches-or :
      (items : Items) (bs : Branches) (out : List Chars) {f : List Chars}
      → finite_branches out (or_branch items bs) ≡ some f
      → (g : List Chars) × (finite ([] ∷ []) items ≡ some g)
        × (finite_branches (union out g) bs ≡ some f)
  unfolding finite_branches
  finite_branches-or items bs out e = ground arith

  finite-repeat :
      (kind : Kind) (lo hi : ℕ) (body : Items) {f : List Chars}
      → finite_node (repeat kind lo hi body) ≡ some f
      → (hi ≤ 1) × (optional lo (finite ([] ∷ []) body) ≡ some f)
  unfolding finite_node
  finite-repeat kind lo hi body e = ground arith

  -- `{""}` when the repeat may be left out.
  optional_none :
      (lo : ℕ) (o : Option (List Chars)) {f : List Chars}
      → optional lo o ≡ some f
      → lo ≤ 0
      → Lists f []
  optional_none lo none e h = cc
  optional_none lo (some g) e h =
      Lists-of_some _ (rw (if_zero lo h) at e)
        (Any-union_right (λ s. Spelled s []) g ([] ∷ []) (inl tt))
    where
      if_zero : (n : ℕ) → n ≤ 0 → (n == 0) ≡ true
      if_zero n z = ground arith

  optional_one :
      (lo : ℕ) (o : Option (List Chars)) (t : Chars) {f : List Chars}
      → optional lo o ≡ some f
      → ((g : List Chars) → o ≡ some g → Lists g t)
      → Lists f t
  optional_one lo none t e h = cc
  optional_one lo (some g) t e h = elim (Bool-cases (lo == 0)) [
    | inl zeroth ↦
        Lists-of_some _ (rw zeroth at e) (Any-union_left (λ s. Spelled s t) g ([] ∷ []) (h g refl))
    | inr must ↦ Lists-of_some _ (rw must at e) (h g refl)
  ]

  branches_old :
      (bs : Branches) (out : List Chars) (t : Chars) {f : List Chars}
      → finite_branches out bs ≡ some f
      → Lists out t
      → Lists f t
  unfolding finite_branches
  branches_old no_branch out t e h = Lists-of_some t e h
  branches_old (or_branch items bs) out t e h =
      let (g, _, rest) = finite_branches-or items bs out e in
      branches_old bs (union out g) t rest (Any-union_left (λ s. Spelled s t) out g h)

  mutual
    unfolding MatchesNode finite_node

    pub node-Lists :
        (n : Node) (t : Chars) {f : List Chars}
        → finite_node n ≡ some f
        → MatchesNode r n t
        → Lists f t
    node-Lists (literal v) t e (x, same, h) = rw same (Lists-of_some _ e (inl (h, tt)))
    node-Lists at t e same = rw same (Lists-of_some _ e (inl tt))
    node-Lists (class items) t e (x, same, h) =
        rw same (class_strings_new items [] x (at_most-some max_class _ e) h)
    node-Lists (subpattern items) t e h = items-Lists items ([] ∷ []) [] t e (inl tt) h
    node-Lists (branch bs) t e h = branches-Lists bs [] t (at_most-some max_strings _ e) h
    node-Lists (repeat kind lo hi body) t e (zero, least, most, same) =
        rw same (optional_none lo (finite ([] ∷ []) body) (finite-repeat kind lo hi body e).1 least)
    node-Lists (repeat kind lo hi body) t e (suc zero, least, most, (s, rest, same, m, ends)) =
        rw (same, ends, append-nil s)
          (optional_one lo (finite ([] ∷ []) body) s (finite-repeat kind lo hi body e).1
            (λ g finite_body. items-Lists body ([] ∷ []) [] s finite_body (inl tt) m))
    node-Lists (repeat kind lo hi body) t e (suc (suc k), least, most, h) =
        absurd (omega (arith, (finite-repeat kind lo hi body e).0))
    node-Lists (atomic items) t e h = cc e
    node-Lists other t e h = cc e

    items-Lists :
        (items : Items) (out : List Chars) (s t : Chars) {f : List Chars}
        → finite out items ≡ some f
        → Lists out s
        → MatchesItems r items t
        → Lists f (s ++ t)
    items-Lists nil out s t e h same = rw (same, append-nil s) (Lists-of_some _ e h)
    items-Lists (cons n items) out s t e h (a, b, same, m, rest) =
        let (g, finite_n, e') = finite-cons n items out e in
        rw (same, sym (append_assoc s a b))
          (items-Lists items (cross out g) (s ++ a) b e'
            (Lists-cross out g s a h (node-Lists n a finite_n m)) rest)

    branches-Lists :
        (bs : Branches) (out : List Chars) (t : Chars) {f : List Chars}
        → finite_branches out bs ≡ some f
        → MatchesBranches r bs t
        → Lists f t
    branches-Lists no_branch out t e h = absurd h
    branches-Lists (or_branch items bs) out t e (inl h) =
        let (g, finite_items, e') = finite_branches-or items bs out e in
        branches_old bs (union out g) t e' (
          Any-union_right (λ s. Spelled s t) out g
            (items-Lists items ([] ∷ []) [] t finite_items (inl tt) h))
    branches-Lists (or_branch items bs) out t e (inr h) =
        let (g, _, e') = finite_branches-or items bs out e in branches-Lists bs (union out g) t e' h

  -- When a part of a regex is expanded, every text that it matches is spelled by one of those listed.
  pub Lists-finite_node :
      (n : Node) (t : Chars) {f : List Chars}
      → finite_node n ≡ some f
      → MatchesNode r n t
      → Lists f t
  Lists-finite_node n t e h = node-Lists n t e h
