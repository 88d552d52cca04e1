-- ===== src/SigmaPrefilter/Reader/Print.antt =====
-- The reader of src/artifact_engine/core/sigma_prefilter.py on the tokens of a condition: it
-- returns the need of that condition, computed over its tree.
use artifact_engine.Prelude.{
  ℕ, zero, suc, ◌+◌, ◌*◌, ◌≤◌, ◌≡◌, refl, true, Option, List, [], ◌∷◌, arith, length, length-append,
  ◌∙◌,
}
use artifact_engine.Prelude.Chars.{Unicode}
use artifact_engine.SigmaPrefilter.Needs.{Need, either, both}
use artifact_engine.SigmaPrefilter.Reader.{
  Token, op, kw, or, rparen, ok, expr, expr_rest, conj, conj_rest, unary, read_fuel,
}
use artifact_engine.SigmaPrefilter.Reader.Grammar.{
  Comparison, like_text, column_run, run, Expr, expr_of, OrTail, or_end, or_with, Conj, conj_of,
  AndTail, and_end, and_with, Unary, negated, bracketed, compared, print_comparison, print_expr,
  print_or, print_conj, print_and, print_unary,
}
use artifact_engine.SigmaPrefilter.Reader.Operands.{
  ends_operand, ends_conj, ends_expr, need_expr, need_or, need_conj, need_and, need_unary,
  reads_comparison, unary-plain, is_plain-print,
}

-- The fuel that the tree of a condition takes.
unfoldable mutual
  cost_expr : Expr → ℕ
  cost_expr (expr_of c t) = suc (cost_conj c + cost_or t)

  cost_or : OrTail → ℕ
  cost_or or_end = 1
  cost_or (or_with c t) = suc (cost_conj c + cost_or t)

  cost_conj : Conj → ℕ
  cost_conj (conj_of x t) = suc (cost_unary x + cost_and t)

  cost_and : AndTail → ℕ
  cost_and and_end = 1
  cost_and (and_with x t) = suc (cost_unary x + cost_and t)

  cost_unary : Unary → ℕ
  cost_unary (negated x) = suc (cost_unary x)
  cost_unary (bracketed e) = suc (cost_expr e)
  cost_unary (compared k) = 1

operand_of_conj : (rest : List Token) → ends_conj rest ≡ true → ends_operand rest ≡ true
operand_of_conj [] h = refl
operand_of_conj (kw or ∷ ts) h = refl
operand_of_conj (op rparen ∷ ts) h = refl
operand_of_conj (t ∷ ts) h = cc

conj_of_expr : (rest : List Token) → ends_expr rest ≡ true → ends_conj rest ≡ true
conj_of_expr [] h = refl
conj_of_expr (op rparen ∷ ts) h = refl
conj_of_expr (t ∷ ts) h = cc

ends-print_or :
    (t : OrTail) (rest : List Token) → ends_expr rest ≡ true → ends_conj (print_or t rest) ≡ true
unfolding print_or
ends-print_or or_end rest h = conj_of_expr rest h
ends-print_or (or_with c t) rest h = refl

ends-print_and :
    (t : AndTail) (rest : List Token)
    → ends_conj rest ≡ true
    → ends_operand (print_and t rest) ≡ true
unfolding print_and
ends-print_and and_end rest h = operand_of_conj rest h
ends-print_and (and_with x t) rest h = refl

module _ (u : Unicode) where
  expr_rest-end :
      (f : ℕ) (need : Option Need) (rest : List Token)
      → ends_expr rest ≡ true
      → expr_rest u (suc f) need rest ≡ ok need rest
  unfolding expr_rest
  expr_rest-end f need [] h = refl
  expr_rest-end f need (op rparen ∷ ts) h = refl
  expr_rest-end f need (t ∷ ts) h = cc

  conj_rest-end :
      (f : ℕ) (need : Option Need) (rest : List Token)
      → ends_conj rest ≡ true
      → conj_rest u (suc f) need rest ≡ ok need rest
  unfolding conj_rest
  conj_rest-end f need [] h = refl
  conj_rest-end f need (kw or ∷ ts) h = refl
  conj_rest-end f need (op rparen ∷ ts) h = refl
  conj_rest-end f need (t ∷ ts) h = cc

  mutual
    unfolding expr print_expr cost_expr need_expr

    reads_expr :
        (e : Expr) (f : ℕ) (rest : List Token)
        → cost_expr e ≤ f
        → ends_expr rest ≡ true
        → expr u f (print_expr e rest) ≡ ok (need_expr u e) rest
    reads_expr (expr_of c t) zero rest cost h = absurd (omega arith)
    reads_expr (expr_of c t) (suc f) rest cost h =
        rw (reads_conj c f (print_or t rest) (omega arith) (ends-print_or t rest h))
          (reads_or t f (need_conj u c) rest (omega arith) h)

    reads_or :
        (t : OrTail) (f : ℕ) (need : Option Need) (rest : List Token)
        → cost_or t ≤ f
        → ends_expr rest ≡ true
        → expr_rest u f need (print_or t rest) ≡ ok (need_or u need t) rest
    reads_or or_end zero need rest cost h = absurd (omega arith)
    reads_or (or_with c t) zero need rest cost h = absurd (omega arith)
    reads_or or_end (suc f) need rest cost h = expr_rest-end f need rest h
    reads_or (or_with c t) (suc f) need rest cost h =
        rw (reads_conj c f (print_or t rest) (omega arith) (ends-print_or t rest h))
          (reads_or t f (either need (need_conj u c)) rest (omega arith) h)

    reads_conj :
        (c : Conj) (f : ℕ) (rest : List Token)
        → cost_conj c ≤ f
        → ends_conj rest ≡ true
        → conj u f (print_conj c rest) ≡ ok (need_conj u c) rest
    reads_conj (conj_of x t) zero rest cost h = absurd (omega arith)
    reads_conj (conj_of x t) (suc f) rest cost h =
        rw (reads_unary x f (print_and t rest) (omega arith) (ends-print_and t rest h))
          (reads_and t f (need_unary u x) rest (omega arith) h)

    reads_and :
        (t : AndTail) (f : ℕ) (need : Option Need) (rest : List Token)
        → cost_and t ≤ f
        → ends_conj rest ≡ true
        → conj_rest u f need (print_and t rest) ≡ ok (need_and u need t) rest
    reads_and and_end zero need rest cost h = absurd (omega arith)
    reads_and (and_with x t) zero need rest cost h = absurd (omega arith)
    reads_and and_end (suc f) need rest cost h = conj_rest-end f need rest h
    reads_and (and_with x t) (suc f) need rest cost h =
        rw (reads_unary x f (print_and t rest) (omega arith) (ends-print_and t rest h))
          (reads_and t f (both need (need_unary u x)) rest (omega arith) h)

    reads_unary :
        (x : Unary) (f : ℕ) (rest : List Token)
        → cost_unary x ≤ f
        → ends_operand rest ≡ true
        → unary u f (print_unary x rest) ≡ ok (need_unary u x) rest
    reads_unary (negated x) zero rest cost h = absurd (omega arith)
    reads_unary (bracketed e) zero rest cost h = absurd (omega arith)
    reads_unary (compared k) zero rest cost h = absurd (omega arith)
    reads_unary (negated x) (suc f) rest cost h = rw (reads_unary x f rest (omega arith) h)
    reads_unary (bracketed e) (suc f) rest cost h =
        rw (reads_expr e f (op rparen ∷ rest) (omega arith) refl)
    reads_unary (compared k) (suc f) rest cost h =
        unary-plain u f (print_comparison k rest) (is_plain-print u k rest h)
        ∙ reads_comparison u k rest h

print_comparison-length :
    (k : Comparison) (rest : List Token) → length rest ≤ length (print_comparison k rest)
print_comparison-length (column_run col ts f b) rest = omega (arith, length-append {0} ts rest)
print_comparison-length (run ts f b) rest = omega (arith, length-append {0} ts rest)
print_comparison-length (like_text col p) rest = omega arith
print_comparison-length k rest = omega arith

mutual
  unfolding print_expr cost_expr

  cost_expr-le :
      (e : Expr) (rest : List Token)
      → cost_expr e + 5 * length rest ≤ 5 * length (print_expr e rest) + 5
  cost_expr-le (expr_of c t) rest =
      omega (arith, cost_conj-le c (print_or t rest), cost_or-le t rest)

  cost_or-le :
      (t : OrTail) (rest : List Token)
      → cost_or t + 5 * length rest ≤ 5 * length (print_or t rest) + 1
  cost_or-le or_end rest = omega arith
  cost_or-le (or_with c t) rest = omega (arith, cost_conj-le c (print_or t rest), cost_or-le t rest)

  cost_conj-le :
      (c : Conj) (rest : List Token)
      → cost_conj c + 5 * length rest ≤ 5 * length (print_conj c rest) + 3
  cost_conj-le (conj_of x t) rest =
      omega (arith, cost_unary-le x (print_and t rest), cost_and-le t rest)

  cost_and-le :
      (t : AndTail) (rest : List Token)
      → cost_and t + 5 * length rest ≤ 5 * length (print_and t rest) + 1
  cost_and-le and_end rest = omega arith
  cost_and-le (and_with x t) rest =
      omega (arith, cost_unary-le x (print_and t rest), cost_and-le t rest)

  cost_unary-le :
      (x : Unary) (rest : List Token)
      → cost_unary x + 5 * length rest ≤ 5 * length (print_unary x rest) + 1
  cost_unary-le (negated x) rest = omega (arith, cost_unary-le x rest)
  cost_unary-le (bracketed e) rest = omega (arith, cost_expr-le e (op rparen ∷ rest))
  cost_unary-le (compared k) rest = omega (arith, print_comparison-length k rest)

-- The fuel that `necessary` gives is enough for every condition.
pub reads_condition :
    (u : Unicode) (e : Expr)
    → expr u (read_fuel (print_expr e [])) (print_expr e []) ≡ ok (need_expr u e) []
reads_condition u e =
    reads_expr u e (read_fuel (print_expr e [])) [] (omega (arith, cost_expr-le e [])) refl
