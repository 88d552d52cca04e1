-- ===== src/SigmaPrefilter/Reader/Grammar.antt =====
-- The conditions that compiled Sigma rules use, as SQLite reads them: OR binds weakest, then AND,
-- then NOT, and truth is three-valued. An operand that the reader of
-- src/artifact_engine/core/sigma_prefilter.py skips is here a run of tokens with any meaning.
use artifact_engine.Prelude.{
  ℕ, ◌≡◌, ◌⊎◌, Bool, true, false, none, some, List, [], ◌∷◌, ◌++◌, ◌==◌, ◌&&◌, if◌then◌else◌,
}
use artifact_engine.Prelude.Chars.{Chars}
use artifact_engine.SigmaPrefilter.Like.Sound.{Like}
use artifact_engine.SigmaPrefilter.Needs.Sound.{Row}
use artifact_engine.SigmaPrefilter.Reader.{
  Token, str, ident, op, kw, and, or, not, like, escape, is, null, eq, lparen, rparen, stops, shift,
}

-- A run of tokens with its brackets closed, and no AND, OR or `)` outside of them.
abbrev pub balanced : ℕ → List Token → Bool
balanced depth [] = depth == 0
balanced depth (t ∷ ts) =
    let rest = balanced (shift depth t) ts in if depth == 0 && stops t then false else rest

-- The run is no operand of another form: behind a column, or by itself.
abbrev pub follows_column : List Token → Bool
follows_column (kw like ∷ ts) = false
follows_column (kw is ∷ ts) = false
follows_column (op eq ∷ ts) = false
follows_column ts = true

abbrev pub stands_alone : List Token → Bool
stands_alone (ident col ∷ ts) = false
stands_alone (kw not ∷ ts) = false
stands_alone (op lparen ∷ ts) = false
stands_alone ts = true

abbrev pub is_text : Token → Bool
is_text (str s) = true
is_text t = false

pub data Comparison : Type 0 where
  like_text : (col pattern : Chars) → Comparison
  like_escaped : (col pattern : Chars) (mark : ℕ) → Comparison
  eq_text : (col s : Chars) → Comparison
  eq_other : (col : Chars) (t : Token) → is_text t ≡ false → Comparison
  is_null is_not_null : (col : Chars) → Comparison
  column_run :
      (col : Chars) (ts : List Token) → follows_column ts ≡ true → balanced 0 ts ≡ true → Comparison
  run : (ts : List Token) → stands_alone ts ≡ true → balanced 0 ts ≡ true → Comparison

mutual
  pub data Expr : Type 0 where
    expr_of : Conj → OrTail → Expr

  pub data OrTail : Type 0 where
    or_end : OrTail
    or_with : Conj → OrTail → OrTail

  pub data Conj : Type 0 where
    conj_of : Unary → AndTail → Conj

  pub data AndTail : Type 0 where
    and_end : AndTail
    and_with : Unary → AndTail → AndTail

  pub data Unary : Type 0 where
    negated : Unary → Unary
    bracketed : Expr → Unary
    compared : Comparison → Unary

-- The tokens of a condition, in front of what follows it.
abbrev pub print_comparison : Comparison → List Token → List Token
print_comparison (like_text col p) rest = ident col ∷ kw like ∷ str p ∷ rest
print_comparison (like_escaped col p mark) rest =
    ident col ∷ kw like ∷ str p ∷ kw escape ∷ str (mark ∷ []) ∷ rest
print_comparison (eq_text col s) rest = ident col ∷ op eq ∷ str s ∷ rest
print_comparison (eq_other col t _) rest = ident col ∷ op eq ∷ t ∷ rest
print_comparison (is_null col) rest = ident col ∷ kw is ∷ kw null ∷ rest
print_comparison (is_not_null col) rest = ident col ∷ kw is ∷ kw not ∷ kw null ∷ rest
print_comparison (column_run col ts _ _) rest = ident col ∷ (ts ++ rest)
print_comparison (run ts _ _) rest = ts ++ rest

unfoldable mutual
  pub print_expr : Expr → List Token → List Token
  print_expr (expr_of c t) rest = print_conj c (print_or t rest)

  pub print_or : OrTail → List Token → List Token
  print_or or_end rest = rest
  print_or (or_with c t) rest = kw or ∷ print_conj c (print_or t rest)

  pub print_conj : Conj → List Token → List Token
  print_conj (conj_of x t) rest = print_unary x (print_and t rest)

  pub print_and : AndTail → List Token → List Token
  print_and and_end rest = rest
  print_and (and_with x t) rest = kw and ∷ print_unary x (print_and t rest)

  pub print_unary : Unary → List Token → List Token
  print_unary (negated x) rest = kw not ∷ print_unary x rest
  print_unary (bracketed e) rest = op lparen ∷ print_expr e (op rparen ∷ rest)
  print_unary (compared k) rest = print_comparison k rest

-- What a row makes of the operands that the reader skips: true, false, or (neither) NULL.
pub record Meaning : Type 1 where
  pub true_run : List Token → Type 0
  pub false_run : List Token → Type 0

module _ (row : Row) (meaning : Meaning) where
  abbrev Present : Chars → (Chars → Type 0) → Type 0
  Present col P = (value : Chars) × (row col ≡ some value) × P value

  abbrev pub TrueComparison : Comparison → Type 0
  TrueComparison (like_text col p) = Present col (Like none p)
  TrueComparison (like_escaped col p mark) = Present col (Like (some (mark ∷ [])) p)
  TrueComparison (eq_text col s) = Present col (λ value. value ≡ s)
  TrueComparison k = meaning.true_run (print_comparison k [])

  abbrev pub FalseComparison : Comparison → Type 0
  FalseComparison (like_text col p) = Present col (λ value. ¬ Like none p value)
  FalseComparison (like_escaped col p mark) =
      Present col (λ value. ¬ Like (some (mark ∷ [])) p value)
  FalseComparison (eq_text col s) = Present col (λ value. ¬ (value ≡ s))
  FalseComparison k = meaning.false_run (print_comparison k [])

  unfoldable mutual
    pub TrueExpr : Expr → Type 0
    TrueExpr (expr_of c t) = TrueConj c ⊎ TrueOr t

    pub TrueOr : OrTail → Type 0
    TrueOr or_end = ⊥
    TrueOr (or_with c t) = TrueConj c ⊎ TrueOr t

    pub TrueConj : Conj → Type 0
    TrueConj (conj_of x t) = TrueUnary x × TrueAnd t

    pub TrueAnd : AndTail → Type 0
    TrueAnd and_end = Unit
    TrueAnd (and_with x t) = TrueUnary x × TrueAnd t

    pub TrueUnary : Unary → Type 0
    TrueUnary (negated x) = FalseUnary x
    TrueUnary (bracketed e) = TrueExpr e
    TrueUnary (compared k) = TrueComparison k

    pub FalseExpr : Expr → Type 0
    FalseExpr (expr_of c t) = FalseConj c × FalseOr t

    pub FalseOr : OrTail → Type 0
    FalseOr or_end = Unit
    FalseOr (or_with c t) = FalseConj c × FalseOr t

    pub FalseConj : Conj → Type 0
    FalseConj (conj_of x t) = FalseUnary x ⊎ FalseAnd t

    pub FalseAnd : AndTail → Type 0
    FalseAnd and_end = ⊥
    FalseAnd (and_with x t) = FalseUnary x ⊎ FalseAnd t

    pub FalseUnary : Unary → Type 0
    FalseUnary (negated x) = TrueUnary x
    FalseUnary (bracketed e) = FalseExpr e
    FalseUnary (compared k) = FalseComparison k
