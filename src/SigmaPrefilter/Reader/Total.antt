-- ===== src/SigmaPrefilter/Reader/Total.antt =====
-- The reader of src/artifact_engine/core/sigma_prefilter.py ends on every list of tokens: the fuel
-- that `necessary` gives never runs out.
use artifact_engine.Prelude.{
  ℕ, zero, suc, ◌+◌, ◌*◌, ◌≤◌, ◌≢◌, Option, List, [], ◌∷◌, arith, length, subst,
}
use artifact_engine.Prelude.Chars.{Chars, Unicode}
use artifact_engine.SigmaPrefilter.Needs.{Need, either, both}
use artifact_engine.SigmaPrefilter.Reader.{
  Token, str, ident, op, kw, and, or, not, like, escape, is, null, eq, lparen, rparen, Outcome, ok,
  raised, out_of_fuel, ◌>>=◌, shift, opaque, after_column, comparison, close, forget, expr,
  expr_rest, conj, conj_rest, unary, read_fuel,
}

-- The outcome is no lack of fuel, and what it leaves is no longer than `n`.
abbrev Fits : ℕ → Outcome (Option Need) → Type 0
Fits n (ok need rest) = length rest ≤ n
Fits n raised = Unit
Fits n out_of_fuel = ⊥

Fits-bind :
    (m n : ℕ) (o : Outcome (Option Need)) (f : Option Need → List Token → Outcome (Option Need))
    → ((need : Option Need) (rest : List Token) → length rest ≤ m → Fits n (f need rest))
    → Fits m o
    → Fits n (o >>= f)
Fits-bind m n (ok need rest) f next h = next need rest h
Fits-bind m n raised f next h = tt
Fits-bind m n out_of_fuel f next h = h

Fits-mono : (m n : ℕ) (o : Outcome (Option Need)) → m ≤ n → Fits m o → Fits n o
Fits-mono m n (ok need rest) le h = omega arith
Fits-mono m n raised le h = tt
Fits-mono m n out_of_fuel le h = h

length-opaque : (depth : ℕ) (ts : List Token) → length (opaque depth ts) ≤ length ts
unfolding opaque
length-opaque depth [] = omega arith
length-opaque depth (t ∷ ts) = ground (arith, length-opaque (shift depth t) ts)

module _ (u : Unicode) where
  after_column-Fits : (col : Chars) (ts : List Token) → Fits (length ts) (after_column u col ts)
  unfolding after_column
  after_column-Fits col [] = omega (arith, length-opaque 0 [])
  after_column-Fits col (kw like ∷ str pat ∷ kw escape ∷ str e ∷ ts) = omega arith
  after_column-Fits col (kw like ∷ str pat ∷ kw escape ∷ ts) = tt
  after_column-Fits col (kw like ∷ str pat ∷ ts) = omega arith
  after_column-Fits col (kw like ∷ ts) = tt
  after_column-Fits col (op eq ∷ str s ∷ ts) = omega arith
  after_column-Fits col (op eq ∷ t ∷ ts) = omega arith
  after_column-Fits col (op eq ∷ []) = tt
  after_column-Fits col (kw is ∷ kw not ∷ kw null ∷ ts) = omega arith
  after_column-Fits col (kw is ∷ kw null ∷ ts) = omega arith
  after_column-Fits col (kw is ∷ ts) = tt
  after_column-Fits col (t ∷ ts) = length-opaque 0 (t ∷ ts)

  comparison-Fits : (ts : List Token) → Fits (length ts) (comparison u ts)
  unfolding comparison
  comparison-Fits [] = length-opaque 0 []
  comparison-Fits (ident col ∷ ts) =
      Fits-mono (length ts) (suc (length ts)) (after_column u col ts) (omega arith)
        (after_column-Fits col ts)
  comparison-Fits (t ∷ ts) = length-opaque 0 (t ∷ ts)

  close-Fits :
      (n : ℕ) (need : Option Need) (rest : List Token) → length rest ≤ n → Fits n (close need rest)
  close-Fits n need [] h = tt
  close-Fits n need (op rparen ∷ ts) h = omega arith
  close-Fits n need (t ∷ ts) h = tt

  mutual
    unfolding expr

    expr-Fits : (f : ℕ) (ts : List Token) → 5 * length ts + 5 ≤ f → Fits (length ts) (expr u f ts)
    expr-Fits zero ts h = absurd (omega arith)
    expr-Fits (suc f) ts h =
        Fits-bind (length ts) (length ts) (conj u f ts) (λ need rest. expr_rest u f need rest)
          (λ need rest le.
            Fits-mono (length rest) (length ts) (expr_rest u f need rest) le
              (expr_rest-Fits f need rest (omega arith)))
          (conj-Fits f ts (omega arith))

    expr_rest-Fits :
        (f : ℕ) (need : Option Need) (ts : List Token)
        → 5 * length ts + 1 ≤ f
        → Fits (length ts) (expr_rest u f need ts)
    expr_rest-Fits zero need ts h = absurd (omega arith)
    expr_rest-Fits (suc f) need [] h = omega arith
    expr_rest-Fits (suc f) need (kw or ∷ ts) h =
        Fits-bind (length ts) (suc (length ts)) (conj u f ts)
          (λ next rest. expr_rest u f (either need next) rest)
          (λ next rest le.
            Fits-mono (length rest) (suc (length ts)) (expr_rest u f (either need next) rest)
              (omega arith) (expr_rest-Fits f (either need next) rest (omega arith)))
          (conj-Fits f ts (omega arith))
    expr_rest-Fits (suc f) need (t ∷ ts) h = omega arith

    conj-Fits : (f : ℕ) (ts : List Token) → 5 * length ts + 3 ≤ f → Fits (length ts) (conj u f ts)
    conj-Fits zero ts h = absurd (omega arith)
    conj-Fits (suc f) ts h =
        Fits-bind (length ts) (length ts) (unary u f ts) (λ need rest. conj_rest u f need rest)
          (λ need rest le.
            Fits-mono (length rest) (length ts) (conj_rest u f need rest) le
              (conj_rest-Fits f need rest (omega arith)))
          (unary-Fits f ts (omega arith))

    conj_rest-Fits :
        (f : ℕ) (need : Option Need) (ts : List Token)
        → 5 * length ts + 1 ≤ f
        → Fits (length ts) (conj_rest u f need ts)
    conj_rest-Fits zero need ts h = absurd (omega arith)
    conj_rest-Fits (suc f) need [] h = omega arith
    conj_rest-Fits (suc f) need (kw and ∷ ts) h =
        Fits-bind (length ts) (suc (length ts)) (unary u f ts)
          (λ next rest. conj_rest u f (both need next) rest)
          (λ next rest le.
            Fits-mono (length rest) (suc (length ts)) (conj_rest u f (both need next) rest)
              (omega arith) (conj_rest-Fits f (both need next) rest (omega arith)))
          (unary-Fits f ts (omega arith))
    conj_rest-Fits (suc f) need (t ∷ ts) h = omega arith

    unary-Fits : (f : ℕ) (ts : List Token) → 5 * length ts + 1 ≤ f → Fits (length ts) (unary u f ts)
    unary-Fits zero ts h = absurd (omega arith)
    unary-Fits (suc f) [] h = comparison-Fits []
    unary-Fits (suc f) (kw not ∷ ts) h =
        Fits-bind (length ts) (suc (length ts)) (unary u f ts) forget (λ need rest le. omega arith)
          (unary-Fits f ts (omega arith))
    unary-Fits (suc f) (op lparen ∷ ts) h =
        Fits-bind (length ts) (suc (length ts)) (expr u f ts) close
          (λ need rest le. close-Fits (suc (length ts)) need rest (omega arith))
          (expr-Fits f ts (omega arith))
    unary-Fits (suc f) (t ∷ ts) h = comparison-Fits (t ∷ ts)

  -- Whatever the tokens, well formed or not, reading them ends within `read_fuel`.
  pub expr-ne-out_of_fuel : (ts : List Token) → expr u (read_fuel ts) ts ≢ out_of_fuel
  expr-ne-out_of_fuel ts e = subst (Fits (length ts)) e (expr-Fits (read_fuel ts) ts (omega arith))
