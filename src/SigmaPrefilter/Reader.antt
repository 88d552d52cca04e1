-- ===== src/SigmaPrefilter/Reader.antt =====
-- `_Parser` of src/artifact_engine/core/sigma_prefilter.py: reading a need off the tokens of a
-- rule's condition. The position `self.i` is what is left of the tokens, and a ValueError is
-- `raised`. The methods call one another on fuel; `read_fuel` is enough for any condition.
pub mod Grammar
pub mod Operands
pub mod Print
pub mod Sound
pub mod Total
use artifact_engine.Prelude.{
  ℕ, zero, suc, ◌+◌, ◌-◌, ◌*◌, ◌≡◌, Bool, true, false, Option, none, some, List, [], ◌∷◌, length,
  ◌&&◌, ◌==◌, if◌then◌else◌,
}
use artifact_engine.Prelude.Chars.{Chars, Unicode}
use artifact_engine.SigmaPrefilter.Like.{like_literal}
use artifact_engine.SigmaPrefilter.Needs.{Need, leaf, either, both}

-- `_KEYWORDS`, and the operators of `_TOKEN`
pub data Keyword : Type 0 where
  and or not like escape is null in_list glob regexp between match : Keyword

pub data Operator : Type 0 where
  le ge ne bang_ne eq lt gt lparen rparen comma : Operator

-- The pairs `(kind, value)` of `_tokens`.
pub data Token : Type 0 where
  str ident num : Chars → Token
  op : Operator → Token
  kw : Keyword → Token

pub data Outcome {ℓ} (A : Type ℓ) : Type ℓ where
  ok : A → List Token → Outcome A
  raised : Outcome A
  out_of_fuel : Outcome A

infixl 5 ◌>>=◌
abbrev pub ◌>>=◌ {ℓ κ} :
    {A : Type ℓ} {B : Type κ} → Outcome A → (A → List Token → Outcome B) → Outcome B
ok a ts >>= f = f a ts
raised >>= f = raised
out_of_fuel >>= f = out_of_fuel

-- `opaque`: to the next AND, OR or `)` outside its own brackets. There the depth is above 0 at a
-- `)` that is skipped.
abbrev pub stops : Token → Bool
stops (kw and) = true
stops (kw or) = true
stops (op rparen) = true
stops t = false

abbrev pub shift : ℕ → Token → ℕ
shift depth (op lparen) = depth + 1
shift depth (op rparen) = depth - 1
shift depth t = depth

unfoldable pub opaque : ℕ → List Token → List Token
opaque depth [] = []
opaque depth (t ∷ ts) =
    let skipped = opaque (shift depth t) ts in if depth == 0 && stops t then t ∷ ts else skipped

-- `escape or None`
abbrev pub or_none : Chars → Option Chars
or_none [] = none
or_none (c ∷ s) = some (c ∷ s)

abbrev pub as_exact : Option Need → Option Need
as_exact none = none
as_exact (some need) = some (record need { exact = true })

-- `self.take("op", ")")`
abbrev pub close : Option Need → List Token → Outcome (Option Need)
close need (op rparen ∷ ts) = ok need ts
close need ts = raised

abbrev pub forget : Option Need → List Token → Outcome (Option Need)
forget need ts = ok none ts

abbrev pub read_fuel : List Token → ℕ
read_fuel ts = 5 * length ts + 5

-- The end of `necessary`, on the tokens: a rule that is not read to its end is not filtered.
abbrev pub finish : Outcome (Option Need) → Option Need
finish (ok need []) = need
finish _ = none

module _ (u : Unicode) where
  -- What stands behind the column `col`.
  unfoldable pub after_column : Chars → List Token → Outcome (Option Need)
  unfolding opaque
  after_column col (kw like ∷ str pat ∷ kw escape ∷ str e ∷ ts) =
      ok (leaf u col (like_literal pat (or_none e))) ts
  after_column col (kw like ∷ str pat ∷ kw escape ∷ ts) = raised
  after_column col (kw like ∷ str pat ∷ ts) = ok (leaf u col (like_literal pat none)) ts
  after_column col (kw like ∷ ts) = raised
  after_column col (op eq ∷ str s ∷ ts) = ok (as_exact (leaf u col s)) ts
  after_column col (op eq ∷ t ∷ ts) = ok none ts
  after_column col (op eq ∷ []) = raised
  after_column col (kw is ∷ kw not ∷ kw null ∷ ts) = ok none ts
  after_column col (kw is ∷ kw null ∷ ts) = ok none ts
  after_column col (kw is ∷ ts) = raised
  after_column col ts = ok none (opaque 0 ts)

  unfoldable pub comparison : List Token → Outcome (Option Need)
  unfolding after_column
  comparison (ident col ∷ ts) = after_column col ts
  comparison ts = ok none (opaque 0 ts)

  unfoldable mutual
    unfolding comparison

    pub expr : ℕ → List Token → Outcome (Option Need)
    expr zero ts = out_of_fuel
    expr (suc f) ts = conj f ts >>= λ need rest. expr_rest f need rest

    -- `while self.peek("kw", "OR")`
    pub expr_rest : ℕ → Option Need → List Token → Outcome (Option Need)
    expr_rest zero need ts = out_of_fuel
    expr_rest (suc f) need (kw or ∷ ts) =
        conj f ts >>= λ next rest. expr_rest f (either need next) rest
    expr_rest (suc f) need ts = ok need ts

    pub conj : ℕ → List Token → Outcome (Option Need)
    conj zero ts = out_of_fuel
    conj (suc f) ts = unary f ts >>= λ need rest. conj_rest f need rest

    -- `while self.peek("kw", "AND")`
    pub conj_rest : ℕ → Option Need → List Token → Outcome (Option Need)
    conj_rest zero need ts = out_of_fuel
    conj_rest (suc f) need (kw and ∷ ts) =
        unary f ts >>= λ next rest. conj_rest f (both need next) rest
    conj_rest (suc f) need ts = ok need ts

    pub unary : ℕ → List Token → Outcome (Option Need)
    unary zero ts = out_of_fuel
    unary (suc f) (kw not ∷ ts) = unary f ts >>= forget
    unary (suc f) (op lparen ∷ ts) = expr f ts >>= close
    unary (suc f) ts = comparison ts

  unfoldable pub read_need : List Token → Option Need
  unfolding expr expr_rest conj conj_rest unary
  read_need [] = none
  read_need (t ∷ ts) = finish (expr (read_fuel (t ∷ ts)) (t ∷ ts))
