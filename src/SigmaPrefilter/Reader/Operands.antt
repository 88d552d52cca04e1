-- ===== src/SigmaPrefilter/Reader/Operands.antt =====
-- The reader of src/artifact_engine/core/sigma_prefilter.py on the tokens of one operand, and
-- the need of a condition computed over its tree.
use artifact_engine.Prelude.{
  ℕ, suc, ◌≡◌, refl, Bool, true, false, Option, none, some, List, [], ◌∷◌, ◌++◌, arith, ◌==◌, ◌&&◌,
  Bool-cases, inl, inr, ap, ◌∙◌,
}
use artifact_engine.Prelude.Chars.{Chars, Unicode}
use artifact_engine.SigmaPrefilter.Like.{like_literal}
use artifact_engine.SigmaPrefilter.Needs.{Need, leaf, either, both}
use artifact_engine.SigmaPrefilter.Reader.{
  Token, str, ident, op, kw, and, or, not, like, escape, is, eq, lparen, rparen, ok, opaque, stops,
  shift, as_exact, after_column, comparison, unary,
}
use artifact_engine.SigmaPrefilter.Reader.Grammar.{
  balanced, follows_column, stands_alone, is_text, Comparison, like_text, like_escaped, eq_text,
  eq_other, is_null, is_not_null, column_run, run, Expr, expr_of, OrTail, or_end, or_with, Conj,
  conj_of, AndTail, and_end, and_with, Unary, negated, bracketed, compared, print_comparison,
}

-- What may stand behind an operand, behind a conjunction, behind a condition.
abbrev pub ends_operand : List Token → Bool
ends_operand [] = true
ends_operand (kw and ∷ ts) = true
ends_operand (kw or ∷ ts) = true
ends_operand (op rparen ∷ ts) = true
ends_operand ts = false

abbrev pub ends_conj : List Token → Bool
ends_conj [] = true
ends_conj (kw or ∷ ts) = true
ends_conj (op rparen ∷ ts) = true
ends_conj ts = false

abbrev pub ends_expr : List Token → Bool
ends_expr [] = true
ends_expr (op rparen ∷ ts) = true
ends_expr ts = false

opaque-end : (rest : List Token) → ends_operand rest ≡ true → opaque 0 rest ≡ rest
unfolding opaque
opaque-end [] h = refl
opaque-end (kw and ∷ ts) h = refl
opaque-end (kw or ∷ ts) h = refl
opaque-end (op rparen ∷ ts) h = refl
opaque-end (t ∷ ts) h = cc

opaque-run :
    (depth : ℕ) (ts rest : List Token)
    → balanced depth ts ≡ true
    → ends_operand rest ≡ true
    → opaque depth (ts ++ rest) ≡ rest
unfolding opaque
opaque-run depth [] rest b h = let e : depth ≡ 0 = ground arith in rw e (opaque-end rest h)
opaque-run depth (t ∷ ts) rest b h = elim (Bool-cases (depth == 0 && stops t)) [
  | inl stop ↦ cc (rw stop at b)
  | inr go ↦ rw go (opaque-run (shift depth t) ts rest (rw go at b) h)
]

module _ (u : Unicode) where
  after_column-run :
      (col : Chars) (ts : List Token)
      → follows_column ts ≡ true
      → after_column u col ts ≡ ok none (opaque 0 ts)
  unfolding after_column
  after_column-run col [] h = refl
  after_column-run col (kw like ∷ ts) h = cc
  after_column-run col (kw is ∷ ts) h = cc
  after_column-run col (op eq ∷ ts) h = cc
  after_column-run col (t ∷ ts) h = refl

  comparison-run :
      (ts : List Token) → stands_alone ts ≡ true → comparison u ts ≡ ok none (opaque 0 ts)
  unfolding comparison
  comparison-run [] h = refl
  comparison-run (ident col ∷ ts) h = cc
  comparison-run (t ∷ ts) h = refl

follows_column-end : (rest : List Token) → ends_operand rest ≡ true → follows_column rest ≡ true
follows_column-end [] h = refl
follows_column-end (kw like ∷ ts) h = cc
follows_column-end (kw is ∷ ts) h = cc
follows_column-end (op eq ∷ ts) h = cc
follows_column-end (t ∷ ts) h = refl

stands_alone-end : (rest : List Token) → ends_operand rest ≡ true → stands_alone rest ≡ true
stands_alone-end [] h = refl
stands_alone-end (ident col ∷ ts) h = cc
stands_alone-end (kw not ∷ ts) h = cc
stands_alone-end (op lparen ∷ ts) h = cc
stands_alone-end (t ∷ ts) h = refl

follows_column-append :
    (ts rest : List Token)
    → follows_column ts ≡ true
    → ends_operand rest ≡ true
    → follows_column (ts ++ rest) ≡ true
follows_column-append [] rest f h = follows_column-end rest h
follows_column-append (kw like ∷ ts) rest f h = cc
follows_column-append (op eq ∷ ts) rest f h = cc
follows_column-append (t ∷ ts) rest f h = f

stands_alone-append :
    (ts rest : List Token)
    → stands_alone ts ≡ true
    → ends_operand rest ≡ true
    → stands_alone (ts ++ rest) ≡ true
stands_alone-append [] rest f h = stands_alone-end rest h
stands_alone-append (kw not ∷ ts) rest f h = cc
stands_alone-append (op lparen ∷ ts) rest f h = cc
stands_alone-append (t ∷ ts) rest f h = f

module _ (u : Unicode) where
  -- The need of a condition over its tree.
  abbrev pub need_comparison : Comparison → Option Need
  need_comparison (like_text col p) = leaf u col (like_literal p none)
  need_comparison (like_escaped col p mark) = leaf u col (like_literal p (some (mark ∷ [])))
  need_comparison (eq_text col s) = as_exact (leaf u col s)
  need_comparison k = none

  unfoldable mutual
    pub need_expr : Expr → Option Need
    need_expr (expr_of c t) = need_or (need_conj c) t

    pub need_or : Option Need → OrTail → Option Need
    need_or need or_end = need
    need_or need (or_with c t) = need_or (either need (need_conj c)) t

    pub need_conj : Conj → Option Need
    need_conj (conj_of x t) = need_and (need_unary x) t

    pub need_and : Option Need → AndTail → Option Need
    need_and need and_end = need
    need_and need (and_with x t) = need_and (both need (need_unary x)) t

    pub need_unary : Unary → Option Need
    need_unary (negated x) = none
    need_unary (bracketed e) = need_expr e
    need_unary (compared k) = need_comparison k

  reads_like :
      (col p : Chars) (rest : List Token)
      → ends_operand rest ≡ true
      → after_column u col (kw like ∷ str p ∷ rest) ≡ ok (leaf u col (like_literal p none)) rest
  unfolding after_column
  reads_like col p [] h = refl
  reads_like col p (kw escape ∷ ts) h = cc
  reads_like col p (t ∷ ts) h = refl

  reads_eq_other :
      (col : Chars) (t : Token) (rest : List Token)
      → is_text t ≡ false
      → after_column u col (op eq ∷ t ∷ rest) ≡ ok none rest
  unfolding after_column
  reads_eq_other col (str s) rest h = cc
  reads_eq_other col t rest h = refl

  pub reads_comparison :
      (k : Comparison) (rest : List Token)
      → ends_operand rest ≡ true
      → comparison u (print_comparison k rest) ≡ ok (need_comparison k) rest
  unfolding comparison
  reads_comparison (like_text col p) rest h = reads_like col p rest h
  reads_comparison (like_escaped col p mark) rest h = unfold after_column in refl
  reads_comparison (eq_text col s) rest h = unfold after_column in refl
  reads_comparison (eq_other col t e) rest h = reads_eq_other col t rest e
  reads_comparison (is_null col) rest h = unfold after_column in refl
  reads_comparison (is_not_null col) rest h = unfold after_column in refl
  reads_comparison (column_run col ts f b) rest h =
      after_column-run u col (ts ++ rest) (follows_column-append ts rest f h)
      ∙ ap (ok none) (opaque-run 0 ts rest b h)
  reads_comparison (run ts f b) rest h =
      comparison-run u (ts ++ rest) (stands_alone-append ts rest f h)
      ∙ ap (ok none) (opaque-run 0 ts rest b h)

  -- `unary` reads as a comparison what is neither NOT nor a bracket.
  abbrev pub is_plain : List Token → Bool
  is_plain (kw not ∷ ts) = false
  is_plain (op lparen ∷ ts) = false
  is_plain ts = true

  pub unary-plain :
      (f : ℕ) (ts : List Token) → is_plain ts ≡ true → unary u (suc f) ts ≡ comparison u ts
  unfolding unary
  unary-plain f [] h = refl
  unary-plain f (kw not ∷ ts) h = cc
  unary-plain f (op lparen ∷ ts) h = cc
  unary-plain f (t ∷ ts) h = refl

  is_plain-alone : (ts : List Token) → stands_alone ts ≡ true → is_plain ts ≡ true
  is_plain-alone [] h = refl
  is_plain-alone (ident col ∷ ts) h = refl
  is_plain-alone (kw not ∷ ts) h = cc
  is_plain-alone (op lparen ∷ ts) h = cc
  is_plain-alone (t ∷ ts) h = refl

  pub is_plain-print :
      (k : Comparison) (rest : List Token)
      → ends_operand rest ≡ true
      → is_plain (print_comparison k rest) ≡ true
  is_plain-print (run ts f b) rest h = is_plain-alone (ts ++ rest) (stands_alone-append ts rest f h)
  is_plain-print (like_text col p) rest h = refl
  is_plain-print k rest h = refl
