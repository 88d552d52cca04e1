-- ===== src/SigmaPrefilter/Tests.antt =====
-- Runs of the gate's parts (src/artifact_engine/core/sigma_prefilter.py) on small conditions.
use artifact_engine.Prelude.{
  ◌≡◌, ◌≢◌, refl, inl, Option, none, some, List, [], ◌∷◌, true, false, if◌then◌else◌,
}
use artifact_engine.Prelude.Chars.{Chars, codes, chars_eq, ascii_lower, isascii, lower, plain}
use artifact_engine.SigmaPrefilter.Like.{like_literal}
use artifact_engine.SigmaPrefilter.Like.Sound.{Like, end, many_more, many_none, fixed}
use artifact_engine.SigmaPrefilter.Needs.{Need, leaf, either, both}
use artifact_engine.SigmaPrefilter.Needs.Sound.{Row, Passes, Passes-either, Passes-both}
use artifact_engine.SigmaPrefilter.Reader.{
  Token, ident, op, kw, like, lparen, ok, out_of_fuel, expr, read_fuel, read_need,
}
use artifact_engine.SigmaPrefilter.Reader.Grammar.{
  Expr, expr_of, or_end, or_with, conj_of, and_end, and_with, compared, negated, bracketed,
  like_text, eq_text, print_expr, Meaning, TrueExpr,
}
use artifact_engine.SigmaPrefilter.Reader.Operands.{need_expr}
use artifact_engine.SigmaPrefilter.Reader.Print.{reads_condition}
use artifact_engine.SigmaPrefilter.Reader.Total.{expr-ne-out_of_fuel}

like_literal_runs : like_literal (codes "%/e_tc/pass%") none ≡ codes "tc/pass"
unfolding like_literal
like_literal_runs = refl

abbrev uri : Chars
uri = codes "uri"

abbrev pattern_text : Chars
pattern_text = codes "%etc%"

-- uri LIKE '%etc%' AND NOT uri = 'x' OR (method = 'PUT')
abbrev condition : Expr
condition =
    expr_of
      (conj_of (compared (like_text uri pattern_text))
        (and_with (negated (compared (eq_text uri (codes "x")))) and_end))
      (or_with
        (conj_of
          (bracketed
            (expr_of (conj_of (compared (eq_text (codes "method") (codes "PUT"))) and_end) or_end))
          and_end)
        or_end)

condition_need :
    read_need plain (print_expr condition [])
    ≡ some (record {
      entries = (uri, codes "etc" ∷ []) ∷ (codes "method", codes "put" ∷ []) ∷ [];
      exact = true;
    })
unfolding read_need like_literal either both leaf print_expr ascii_lower
condition_need = refl

abbrev request : Row
request col = if chars_eq col uri then some (codes "/ETC") else none

etc_matches : Like none pattern_text (codes "/ETC")
unfolding ascii_lower
etc_matches = many_more refl refl (
    many_none refl refl (
      fixed refl refl refl (fixed refl refl refl (fixed refl refl refl (many_none refl refl end)))))

abbrev no_meaning : Meaning
no_meaning = record { true_run = λ ts. ⊥; false_run = λ ts. ⊥ }

condition_holds : TrueExpr request no_meaning condition
unfolding TrueExpr chars_eq
condition_holds = inl ((codes "/ETC", refl, etc_matches), ((codes "/ETC", refl, λ e. differ e), tt))
  where
    differ : ◌≢◌ {A = Chars} (codes "/ETC") (codes "x")
    differ e = cc

etc_literal_ascii : isascii (like_literal pattern_text none) ≡ true
unfolding isascii like_literal
etc_literal_ascii = refl

reads_condition_example :
    expr plain (read_fuel (print_expr condition [])) (print_expr condition [])
    ≡ ok (need_expr plain condition) []
reads_condition_example = reads_condition plain condition

-- `( uri LIKE`, which no condition begins and ends like.
abbrev broken : List Token
broken = op lparen ∷ ident uri ∷ kw like ∷ []

expr-ne-out_of_fuel_example : expr plain (read_fuel broken) broken ≢ out_of_fuel
expr-ne-out_of_fuel_example = expr-ne-out_of_fuel plain broken

abbrev needs_etc : Option Need
needs_etc = some (record { entries = (uri, codes "etc" ∷ []) ∷ []; exact = false })

abbrev needs_put : Option Need
needs_put = some (record { entries = (uri, codes "put" ∷ []) ∷ []; exact = true })

meets_etc : Passes plain request needs_etc
unfolding lower ascii_lower chars_eq
meets_etc = inl (inl (codes "/", [], refl))

Passes-either_example : Passes plain request (either needs_etc needs_put)
Passes-either_example = Passes-either plain request needs_etc needs_put (inl meets_etc)

Passes-both_example : Passes plain request (both needs_etc needs_etc)
Passes-both_example = Passes-both plain request needs_etc needs_etc meets_etc meets_etc
