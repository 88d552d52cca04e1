-- ===== src/Scheduler/Manifest.antt =====
-- What src/artifact_engine/core/scheduler.py reads of a parser's manifest (models.py) and of a
-- machine (core/detector.py).
use artifact_engine.Prelude.{
  String, Bool, Option, none, some, List, [], ◌∷◌, ◌≡◌, arith, if◌then◌else◌, inl, inr, Bool-cases,
  Option-cases, Any,
}
use artifact_engine.Prelude.Texts.{str_eq, eq_of_str_eq}

pub data Weight : Type 0 where
  normal heavy : Weight

pub record Parser : Type 0 where
  pub id : String
  pub os : String
  pub category : String
  pub requires : List String
  pub depends_on : List String
  pub has_command : Bool
  pub on_vss : Bool
  pub weight : Weight

pub record Volume : Type 0 where
  pub name : String
  pub path : String

pub record Machine : Type 0 where
  pub name : String
  pub os : String
  pub collector : String
  pub is_vss : Bool
  pub volumes : List Volume

-- `{p.id: p for p in parsers}`, read at a key: the last parser of an id.
unfoldable pub by_id : List Parser → String → Option Parser
by_id [] d = none
by_id (p ∷ ps) d = elim (by_id ps d) [
  | some q ↦ some q
  | none ↦ if str_eq p.id d then some p else none
]

pub by_id-id : (ps : List Parser) (d : String) (q : Parser) → by_id ps d ≡ some q → q.id ≡ d
unfolding by_id
by_id-id [] d q h = cc
by_id-id (p ∷ ps) d q h = elim (Option-cases (by_id ps d)) [
  | inl none_later ↦ elim (Bool-cases (str_eq p.id d)) [
    | inl same ↦ let e : p ≡ q = ground arith in rw (← e) (eq_of_str_eq p.id d same)
    | inr other ↦ ground arith
  ]
  | inr (r, later) ↦ by_id-id ps d q (ground arith)
]

-- The parser that a key gives is one of the list.
pub by_id-mem :
    (ps : List Parser) (d : String) (q : Parser) → by_id ps d ≡ some q → Any (λ p. p ≡ q) ps
unfolding by_id
by_id-mem [] d q h = cc
by_id-mem (p ∷ ps) d q h = elim (Option-cases (by_id ps d)) [
  | inl none_later ↦ elim (Bool-cases (str_eq p.id d)) [
    | inl same ↦ inl (ground arith)
    | inr other ↦ ground arith
  ]
  | inr (r, later) ↦ inr (by_id-mem ps d q (ground arith))
]
