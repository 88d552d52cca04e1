-- ===== src/RegexLiterals/LiteralGate.antt =====
-- `LiteralGate` of src/artifact_engine/core/regex_literals.py. How `re` searches is a parameter; the
-- parallel lists `regexes`, `options` and `counts` are one list.
pub mod Exact
pub mod Answers
mod Tests
use artifact_engine.Prelude.{
  ℕ, suc, ◌+◌, ◌*◌, Bool, true, false, ◌||◌, Option, none, some, List, [], ◌∷◌, ◌++◌, map, ltb, leb,
  ◌==◌, any, if◌then◌else◌,
}
use artifact_engine.Prelude.Chars.{chars_lt, Chars, chars_eq, isascii, lower}
use artifact_engine.Prelude.CharSets.{union}
use artifact_engine.Prelude.Sorting.{sorted}
use artifact_engine.SigmaPrefilter.Trie.{Pattern, trie_pattern}
use artifact_engine.SigmaPrefilter.Gate.{Search}
use artifact_engine.RegexLiterals.Tree.{Engine, fold}
use artifact_engine.RegexLiterals.Options.{Choice, key_lt}

abbrev pub calibrate : ℕ
calibrate = 2000

-- A set, and on how many texts it was seen.
abbrev pub Counted : Type 0
Counted = Choice × ℕ

-- A regex's search and its sets.
pub record Rule : Type 0 where
  pub matches : Chars → Bool
  pub options : List Counted

-- `first` and `rest`, once they are chosen.
pub record Settled : Type 0 where
  pub first : Option Pattern
  pub rest : List (Chars → Bool)

pub record State : Type 0 where
  pub rules : List Rule
  pub seen : ℕ
  pub settled : Option Settled

-- `__init__`, from each regex's search and `candidates`
abbrev pub start_rules : List ((Chars → Bool) × List Choice) → List Rule
start_rules [] = []
start_rules ((matches, options) ∷ regexes) =
    record { matches = matches; options = map (λ o. (o, 0)) options } ∷ start_rules regexes

abbrev pub start : List ((Chars → Bool) × List Choice) → State
start regexes = record { rules = start_rules regexes; seen = 0; settled = none }

-- The key of `min`: fewer texts, then the better set.
unfoldable pub is_better : Counted → Counted → Bool
unfolding key_lt
is_better (o, n) (p, k) = if n == k then key_lt p o else ltb n k

unfoldable pub least : Counted → List Counted → Counted
unfolding is_better
least best [] = best
least best (o ∷ options) = least (if is_better o best then o else best) options

-- `open` and `lits`
pub record Chosen : Type 0 where
  pub opened : List (Chars → Bool)
  pub lits : List Chars

unfoldable pub choose : ℕ → (Chars → Bool) → Counted → Chosen → Chosen
unfolding union
choose seen matches (o, n) c =
    if ltb seen (n * 2)
    then record c { opened = c.opened ++ matches ∷ [] }
    else record c { lits = union c.lits o }

-- A regex with no set is left as it is: it is open already.
abbrev pub choose_rule : ℕ → (Chars → Bool) → List Counted → Chosen → Chosen
choose_rule seen matches [] c = c
choose_rule seen matches (o ∷ options) c = choose seen matches (least o options) c

unfoldable pub choose_all : ℕ → List Rule → Chosen → Chosen
unfolding choose least
choose_all seen [] c = c
choose_all seen (r ∷ rules) c = choose_all seen rules (choose_rule seen r.matches r.options c)

-- `self.open` as `__init__` leaves it
abbrev pub open_rule : (Chars → Bool) → List Counted → List (Chars → Bool) → List (Chars → Bool)
open_rule matches [] rest = matches ∷ rest
open_rule matches (o ∷ options) rest = rest

unfoldable pub open_rules : List Rule → List (Chars → Bool)
open_rules [] = []
open_rules (r ∷ rules) = open_rule r.matches r.options (open_rules rules)

abbrev pub first_of : List Chars → Option Pattern
first_of [] = none
first_of (s ∷ lits) = some (trie_pattern (sorted chars_lt (s ∷ lits)))

unfoldable pub settle : ℕ → List Rule → Settled
unfolding choose_all open_rules sorted chars_lt
settle seen rules =
    let c = choose_all seen rules (record { opened = open_rules rules; lits = [] }) in
    record { first = first_of c.lits; rest = c.opened }

module _ (r : Engine) (re : Search) where
  -- The probes of one regex.
  unfoldable pub count : Chars → List Counted → List Counted
  count low [] = []
  count low ((o, n) ∷ options) =
      (o, if re.search (trie_pattern o) low then suc n else n) ∷ count low options

  unfoldable pub count_all : Chars → List Rule → List Rule
  unfolding count
  count_all low [] = []
  count_all low (rule ∷ rules) =
      record rule { options = count low rule.options } ∷ count_all low rules

  unfoldable pub observe : Chars → State → State
  unfolding count_all settle
  observe low st =
      let rules = count_all low st.rules in
      let seen = suc st.seen in
      record {
        rules = rules;
        seen = seen;
        settled = if leb calibrate seen then some (settle seen rules) else none;
      }

  abbrev pub finds : Option Pattern → Chars → Bool
  finds none low = false
  finds (some p) low = re.search p low

  -- A text that the chosen literals, or a regex without any, let through.
  abbrev pub passes : Settled → Chars → Bool
  passes s text = finds s.first (fold r text) || any (λ matches. matches text) s.rest

  abbrev pub answer : Option Settled → (Chars → Bool) → Chars → State → Bool × State
  answer none whole text st = (whole text, observe (fold r text) st)
  answer (some s) whole text st = (if passes s text then whole text else false, st)

  -- `gate(text)`; `whole` is nothing where there is no regex.
  unfoldable pub ask : Option (Chars → Bool) → Chars → State → Bool × State
  unfolding observe
  ask none text st = (false, st)
  ask (some whole) text st = answer st.settled whole text st

  unfoldable pub ask_all : Option (Chars → Bool) → List Chars → State → List Bool
  unfolding ask
  ask_all whole [] st = []
  ask_all whole (text ∷ texts) st =
      let (found, next) = ask whole text st in found ∷ ask_all whole texts next
