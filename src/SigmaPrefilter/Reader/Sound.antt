-- ===== src/SigmaPrefilter/Reader/Sound.antt =====
-- What `necessary` of src/artifact_engine/core/sigma_prefilter.py promises: no row that a rule
-- matches is dropped.
use artifact_engine.Prelude.{◌≡◌, ◌⊎◌, inl, inr, Option, none, some, List, [], ◌∷◌}
use artifact_engine.Prelude.Chars.{Occurs-self, Unicode, lower}
use artifact_engine.SigmaPrefilter.Like.{like_literal}
use artifact_engine.SigmaPrefilter.Like.Sound.{Occurs-like_literal}
use artifact_engine.SigmaPrefilter.Needs.{Need, leaf, either, both}
use artifact_engine.SigmaPrefilter.Needs.Sound.{
  Row, Passes, Passes-either, Passes-both, Passes-leaf,
}
use artifact_engine.SigmaPrefilter.Reader.{Token, ok, as_exact, expr, read_fuel, read_need}
use artifact_engine.SigmaPrefilter.Reader.Grammar.{
  Comparison, like_text, like_escaped, eq_text, eq_other, Expr, expr_of, OrTail, or_end, or_with,
  Conj, conj_of, AndTail, and_end, and_with, Unary, negated, bracketed, compared, print_expr,
  Meaning, TrueComparison, TrueExpr, TrueOr, TrueConj, TrueAnd, TrueUnary,
}
use artifact_engine.SigmaPrefilter.Reader.Operands.{
  need_comparison, need_expr, need_or, need_conj, need_and, need_unary,
}
use artifact_engine.SigmaPrefilter.Reader.Print.{reads_condition}

module _ (u : Unicode) (row : Row) (meaning : Meaning) where
  Passes-as_exact : (need : Option Need) → Passes u row need → Passes u row (as_exact need)
  Passes-as_exact none h = h
  Passes-as_exact (some need) h = h

  comparison-Passes :
      (k : Comparison) → TrueComparison row meaning k → Passes u row (need_comparison u k)
  comparison-Passes (like_text col p) (value, e, m) =
      Passes-leaf u row col (like_literal p none) value e
        (λ ascii. Occurs-like_literal u none ascii m)
  comparison-Passes (like_escaped col p mark) (value, e, m) =
      Passes-leaf u row col (like_literal p (some (mark ∷ []))) value e
        (λ ascii. Occurs-like_literal u (some (mark ∷ [])) ascii m)
  comparison-Passes (eq_text col s) (value, e, same) =
      Passes-as_exact (leaf u col s)
        (Passes-leaf u row col s value e (λ _. rw same (Occurs-self (lower u s))))
  comparison-Passes (eq_other col t h) holds = tt
  comparison-Passes k holds = tt

  mutual
    unfolding TrueExpr need_expr

    expr-Passes : (e : Expr) → TrueExpr row meaning e → Passes u row (need_expr u e)
    expr-Passes (expr_of c t) (inl h) = or-Passes t (need_conj u c) (inl (conj-Passes c h))
    expr-Passes (expr_of c t) (inr h) = or-Passes t (need_conj u c) (inr h)

    or-Passes :
        (t : OrTail) (need : Option Need)
        → Passes u row need ⊎ TrueOr row meaning t
        → Passes u row (need_or u need t)
    or-Passes or_end need (inl h) = h
    or-Passes or_end need (inr h) = absurd h
    or-Passes (or_with c t) need (inl h) =
        or-Passes t (either need (need_conj u c))
          (inl (Passes-either u row need (need_conj u c) (inl h)))
    or-Passes (or_with c t) need (inr (inl h)) =
        or-Passes t (either need (need_conj u c))
          (inl (Passes-either u row need (need_conj u c) (inr (conj-Passes c h))))
    or-Passes (or_with c t) need (inr (inr h)) = or-Passes t (either need (need_conj u c)) (inr h)

    conj-Passes : (c : Conj) → TrueConj row meaning c → Passes u row (need_conj u c)
    conj-Passes (conj_of x t) h = and-Passes t (need_unary u x) (unary-Passes x h.0) h.1

    and-Passes :
        (t : AndTail) (need : Option Need)
        → Passes u row need
        → TrueAnd row meaning t
        → Passes u row (need_and u need t)
    and-Passes and_end need h k = h
    and-Passes (and_with x t) need h k =
        and-Passes t (both need (need_unary u x))
          (Passes-both u row need (need_unary u x) h (unary-Passes x k.0)) k.1

    unary-Passes : (x : Unary) → TrueUnary row meaning x → Passes u row (need_unary u x)
    unary-Passes (negated x) h = tt
    unary-Passes (bracketed e) h = expr-Passes e h
    unary-Passes (compared k) h = comparison-Passes k h

  finish-Passes :
      (ts : List Token) (need : Option Need)
      → expr u (read_fuel ts) ts ≡ ok need []
      → Passes u row need
      → Passes u row (read_need u ts)
  unfolding read_need
  finish-Passes [] need e h = tt
  finish-Passes (t ∷ ts) need e h = rw e h

  -- Every row at which a rule's condition is true meets what `necessary` reads off its tokens.
  pub read_need_sound :
      (e : Expr) → TrueExpr row meaning e → Passes u row (read_need u (print_expr e []))
  read_need_sound e h =
      finish-Passes (print_expr e []) (need_expr u e) (reads_condition u e) (expr-Passes e h)
