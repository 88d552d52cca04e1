-- ===== src/RegexLiterals/Options/Sound.antt =====
-- What `_seq`, `_node` and `candidates` of src/artifact_engine/core/regex_literals.py promise:
-- every text that a regex matches, folded, holds one text of each set.
use artifact_engine.Prelude.{
  zero, suc, ◌<◌, ◌≡◌, refl, ap, ◌∙◌, ◌⊎◌, inl, inr, Bool, true, false, not, ◌||◌, Option, none,
  some, List, [], ◌∷◌, ◌++◌, map, append_assoc, arith, leb, length, any, Any, All, Any-mono,
  Bool-cases, Option-cases, subst,
}
use artifact_engine.Prelude.Chars.{
  Chars, Occurs, Occurs-self, Occurs-append_left, Occurs-append_right, ascii_lower, isascii, lower,
}
use artifact_engine.Prelude.CharSets.{union, cross, Any-union_left, Any-union_right}
use artifact_engine.RegexLiterals.Tree.{
  Node, literal, at, class, subpattern, branch, repeat, atomic, other, Items, nil, cons, Branches,
  no_branch, or_branch, Engine, translate, fold, fold_lem, fold-append, MatchesNode, MatchesItems,
  MatchesBranches,
}
use artifact_engine.RegexLiterals.Finite.{max_strings, finite_node}
use artifact_engine.RegexLiterals.Finite.Sound.{Spelled, Lists, Lists-cross, node-Lists}
use artifact_engine.RegexLiterals.Options.{
  Choice, is_useless, key_lt, best_from, usable, closed, after_node, after_branch, seq_from, node,
  branches, same_set, distinct, candidates,
}

module _ (r : Engine) where
  -- The folded text holds one text of the set.
  abbrev pub HasOne : Chars → Choice → Type 0
  HasOne t o = Any (λ s. Occurs s (fold r t)) o

  abbrev pub HasEach : Chars → List Choice → Type 0
  HasEach t options = All (HasOne t) options

  HasOne-append_left : (s t : Chars) (o : Choice) → HasOne t o → HasOne (s ++ t) o
  HasOne-append_left s t o =
      Any-mono (λ l. Occurs l (fold r t)) (λ l. Occurs l (fold r (s ++ t))) o
        (λ l h. rw (fold-append r s t) (Occurs-append_left l (fold r t) (fold r s) h))

  HasOne-append_right : (s t : Chars) (o : Choice) → HasOne s o → HasOne (s ++ t) o
  HasOne-append_right s t o =
      Any-mono (λ l. Occurs l (fold r s)) (λ l. Occurs l (fold r (s ++ t))) o
        (λ l h. rw (fold-append r s t) (Occurs-append_right l (fold r s) (fold r t) h))

  All-imp :
      (P Q : Choice → Type 0) (os : List Choice) → ((o : Choice) → P o → Q o) → All P os → All Q os
  All-imp P Q [] f h = tt
  All-imp P Q (o ∷ os) f h = (f o h.0, All-imp P Q os f h.1)

  All-append : (P : Choice → Type 0) (os ps : List Choice) → All P os → All P ps → All P (os ++ ps)
  All-append P [] ps h k = k
  All-append P (o ∷ os) ps h k = (h.0, All-append P os ps h.1 k)

  pub HasEach-append_left : (s t : Chars) (os : List Choice) → HasEach t os → HasEach (s ++ t) os
  HasEach-append_left s t os = All-imp (HasOne t) (HasOne (s ++ t)) os (HasOne-append_left s t)

  pub HasEach-append_right : (s t : Chars) (os : List Choice) → HasEach s os → HasEach (s ++ t) os
  HasEach-append_right s t os = All-imp (HasOne s) (HasOne (s ++ t)) os (HasOne-append_right s t)

  lower-Spelled :
      (s t : Chars)
      → isascii s ≡ true
      → Spelled r s t
      → lower r.unicode (map translate t) ≡ lower r.unicode s
  unfolding lower isascii
  lower-Spelled [] [] ascii h = refl
  lower-Spelled [] (x ∷ t) ascii h = absurd h
  lower-Spelled (v ∷ s) [] ascii h = absurd h
  lower-Spelled (v ∷ s) (x ∷ t) ascii h =
      let small : v < 128 = ground arith in
      rw (r.same_ascii v x small h.0, r.unicode.lower_char_ascii v small)
        (ap (λ l. ascii_lower v ∷ l) (lower-Spelled s t (ground arith) h.1))

  -- A text of ASCII characters that spells `t` is, lowered, `t` folded.
  fold-Spelled : (s t : Chars) → isascii s ≡ true → Spelled r s t → fold r t ≡ lower r.unicode s
  fold-Spelled s t ascii h = fold_lem r t ∙ lower-Spelled s t ascii h

  useful-HasOne :
      (strings : List Chars) (t : Chars)
      → any is_useless strings ≡ false
      → Lists r strings t
      → HasOne t (map (lower r.unicode) strings)
  useful-HasOne [] t e h = h
  useful-HasOne (s ∷ strings) t e (inl h) =
      let ascii : isascii s ≡ true = ground arith in
      inl (rw (fold-Spelled s t ascii h) (Occurs-self (lower r.unicode s)))
  useful-HasOne (s ∷ strings) t e (inr h) = inr (useful-HasOne strings t (ground arith) h)

  HasOne-of_some : {a b : Choice} (t : Chars) → some a ≡ some b → HasOne t a → HasOne t b
  HasOne-of_some {a} {b} t e h = let same : a ≡ b = cc in subst (HasOne t) same h

  -- `_usable` keeps a set of which one text spells the matched one.
  pub usable-HasOne :
      (strings : List Chars) (t : Chars) {o : Choice}
      → usable r.unicode strings ≡ some o
      → Lists r strings t
      → HasOne t o
  unfolding usable
  usable-HasOne [] t e h = absurd h
  usable-HasOne (s ∷ strings) t e h = elim (Bool-cases (any is_useless (s ∷ strings))) [
    | inl useless ↦ cc (rw useless at e)
    | inr useful ↦ HasOne-of_some t (rw useful at e) (
        Any-union_right (λ l. Occurs l (fold r t)) [] (map (lower r.unicode) (s ∷ strings))
          (useful-HasOne (s ∷ strings) t useful h))
  ]

  best_from-HasOne :
      (t : Chars) (best : Choice) (options : List Choice)
      → HasOne t best
      → HasEach t options
      → HasOne t (best_from best options)
  unfolding best_from
  best_from-HasOne t best [] h k = h
  best_from-HasOne t best (o ∷ options) h k = elim (Bool-cases (key_lt best o)) [
    | inl better ↦ rw better (best_from-HasOne t o options k.0 k.1)
    | inr worse ↦ rw worse (best_from-HasOne t best options h k.1)
  ]

  -- What one part of the matched text holds, all of it holds.
  HasEach-middle :
      (w s c t : Chars) (os : List Choice) → w ≡ s ++ (c ++ t) → HasEach c os → HasEach w os
  HasEach-middle w s c t os e h =
      rw e (HasEach-append_left s (c ++ t) os (HasEach-append_right c t os h))

  closed-HasEach :
      (c : Chars) (chain : List Chars)
      → Lists r chain c
      → HasEach c (closed (usable r.unicode chain))
  closed-HasEach c chain h = elim (Option-cases (usable r.unicode chain)) [
    | inl nothing ↦ rw nothing tt
    | inr (o, e) ↦ rw e (usable-HasOne chain c e h, tt)
  ]

  joined :
      {w t : Chars} (s c a b : Chars) → w ≡ s ++ (c ++ t) → t ≡ a ++ b → w ≡ s ++ ((c ++ a) ++ b)
  joined s c a b e same = rw (e, same, append_assoc c a b) refl

  split_left :
      {w t : Chars} (s c a b : Chars) → w ≡ s ++ (c ++ t) → t ≡ a ++ b → w ≡ (s ++ (c ++ a)) ++ b
  split_left s c a b e same = rw (e, same) (simp append_assoc)

  split_right :
      {w t : Chars} (s c a b : Chars) → w ≡ s ++ (c ++ t) → t ≡ a ++ b → w ≡ (s ++ c) ++ (a ++ b)
  split_right s c a b e same = rw (e, same) (simp append_assoc)

  after_node-HasEach :
      (w : Chars) (o : Option (List Chars)) (chain : List Chars) (grow : List Chars → List Choice)
      (split : List Choice)
      → ((f : List Chars) → o ≡ some f → HasEach w (grow (cross chain f)))
      → HasEach w split
      → HasEach w (after_node o chain grow split)
  after_node-HasEach w none chain grow split h k = k
  after_node-HasEach w (some f) chain grow split h k =
      elim (Bool-cases (leb (length (cross chain f)) max_strings)) [
        | inl fits ↦ rw fits (h f refl)
        | inr long ↦ rw long k
      ]

  after_branch-HasEach :
      (t : Chars) (options : List Choice) (out : Choice) (next : Choice → List Choice)
      → ((best : Choice) → HasEach t (next (union out best)))
      → HasEach t (after_branch options out next)
  after_branch-HasEach t [] out next h = tt
  after_branch-HasEach t (o ∷ options) out next h = h (best_from o options)

  after_branch_best :
      (t : Chars) (options : List Choice) (out : Choice) (next : Choice → List Choice)
      → HasEach t options
      → ((best : Choice) → HasOne t best → HasEach t (next (union out best)))
      → HasEach t (after_branch options out next)
  after_branch_best t [] out next h k = tt
  after_branch_best t (o ∷ options) out next h k =
      k (best_from o options) (best_from-HasOne t o options h.0 h.1)

  mutual
    unfolding seq_from MatchesNode

    -- The text `w` is `s`, the text `c` of the run in progress, and `t`, which `items` match.
    seq-HasEach :
        (items : Items) (options : List Choice) (chain : List Chars) (w s c t : Chars)
        → w ≡ s ++ (c ++ t)
        → HasEach w options
        → Lists r chain c
        → MatchesItems r items t
        → HasEach w (seq_from r.unicode options chain items)
    seq-HasEach nil options chain w s c t e h k m =
        All-append (HasOne w) options (closed (usable r.unicode chain)) h
          (HasEach-middle w s c t _ e (closed-HasEach c chain k))
    seq-HasEach (cons n items) options chain w s c t e h k (a, b, same, m, rest) =
        let split =
          seq-HasEach items ((options ++ closed (usable r.unicode chain)) ++ node r.unicode n)
            ([] ∷ []) w (s ++ (c ++ a)) [] b (split_left s c a b e same)
            (All-append (HasOne w) (options ++ closed (usable r.unicode chain)) (node r.unicode n)
              (All-append (HasOne w) options (closed (usable r.unicode chain)) h
                (HasEach-middle w s c t _ e (closed-HasEach c chain k)))
              (HasEach-middle w (s ++ c) a b _ (split_right s c a b e same) (node-HasEach n a m)))
            (inl tt) rest in
        after_node-HasEach w (finite_node n) chain (λ grown. seq_from r.unicode options grown items)
          _
          (λ f few.
            seq-HasEach items options (cross chain f) w s (c ++ a) b (joined s c a b e same) h
              (Lists-cross r chain f c a k (node-Lists r n a few m)) rest)
          split

    node-HasEach : (n : Node) (t : Chars) → MatchesNode r n t → HasEach t (node r.unicode n)
    node-HasEach (literal v) t h = tt
    node-HasEach at t h = tt
    node-HasEach (class items) t h = tt
    node-HasEach (subpattern items) t h =
        seq-HasEach items [] ([] ∷ []) t [] [] t refl tt (inl tt) h
    node-HasEach (branch bs) t h = branches-HasEach bs [] t (inr h)
    node-HasEach (repeat kind zero hi body) t h = tt
    node-HasEach (repeat kind (suc lo) hi body) t (zero, least, most, h) = absurd (omega arith)
    node-HasEach (repeat kind (suc lo) hi body) t (suc k, least, most, (s, rest, same, m, more)) =
        let must : leb 1 (suc lo) ≡ true = ground arith in
        rw (same, must)
          (HasEach-append_right s rest (seq_from r.unicode [] ([] ∷ []) body)
            (seq-HasEach body [] ([] ∷ []) s [] [] s refl tt (inl tt) m))
    node-HasEach (atomic items) t h = seq-HasEach items [] ([] ∷ []) t [] [] t refl tt (inl tt) h
    node-HasEach other t h = tt

    branches-HasEach :
        (bs : Branches) (out : Choice) (t : Chars)
        → HasOne t out ⊎ MatchesBranches r bs t
        → HasEach t (branches r.unicode out bs)
    branches-HasEach no_branch out t (inl h) = (h, tt)
    branches-HasEach no_branch out t (inr h) = absurd h
    branches-HasEach (or_branch items bs) out t (inl h) =
        after_branch-HasEach t (seq_from r.unicode [] ([] ∷ []) items) out
          (λ grown. branches r.unicode grown bs)
          (λ best.
            branches-HasEach bs (union out best) t
              (inl (Any-union_left (λ l. Occurs l (fold r t)) out best h)))
    branches-HasEach (or_branch items bs) out t (inr (inl h)) =
        after_branch_best t (seq_from r.unicode [] ([] ∷ []) items) out
          (λ grown. branches r.unicode grown bs)
          (seq-HasEach items [] ([] ∷ []) t [] [] t refl tt (inl tt) h)
          (λ best has.
            branches-HasEach bs (union out best) t
              (inl (Any-union_right (λ l. Occurs l (fold r t)) out best has)))
    branches-HasEach (or_branch items bs) out t (inr (inr h)) =
        after_branch-HasEach t (seq_from r.unicode [] ([] ∷ []) items) out
          (λ grown. branches r.unicode grown bs)
          (λ best. branches-HasEach bs (union out best) t (inr h))

  distinct-HasEach :
      (w : Chars) (out options : List Choice)
      → HasEach w out
      → HasEach w options
      → HasEach w (distinct out options)
  unfolding distinct
  distinct-HasEach w out [] h k = h
  distinct-HasEach w out (o ∷ options) h k = elim (Bool-cases (any (same_set o) out)) [
    | inl old ↦ rw old (distinct-HasEach w out options h k.1)
    | inr new ↦ rw new (
        distinct-HasEach w (out ++ o ∷ []) options (All-append (HasOne w) out (o ∷ []) h (k.0, tt))
          k.1)
  ]

  candidates_of :
      (w : Chars) (of_text verbose : Bool) (items : Items)
      → HasEach w (seq_from r.unicode [] ([] ∷ []) items)
      → HasEach w (
          candidates r.unicode (record { of_text = of_text; verbose = verbose; tree = some items }))
  unfolding candidates
  candidates_of w of_text verbose items h = elim (Bool-cases (not of_text || verbose)) [
    | inl unread ↦ rw unread tt
    | inr read ↦ rw read (distinct-HasEach w [] (seq_from r.unicode [] ([] ∷ []) items) tt h)
  ]

  -- A text in which a regex matches somewhere holds, folded, one text of each set that `candidates`
  -- offers for the regex.
  pub candidates_sound :
      (of_text verbose : Bool) (items : Items) (before m after : Chars)
      → MatchesItems r items m
      → HasEach (before ++ (m ++ after)) (
          candidates r.unicode (record { of_text = of_text; verbose = verbose; tree = some items }))
  candidates_sound of_text verbose items before m after h =
      candidates_of (before ++ (m ++ after)) of_text verbose items (
        HasEach-middle (before ++ (m ++ after)) before m after
          (seq_from r.unicode [] ([] ∷ []) items) refl
          (seq-HasEach items [] ([] ∷ []) m [] [] m refl tt (inl tt) h))
