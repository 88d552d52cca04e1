-- ===== src/Outputs/Record.antt =====
-- The record of a parser's outputs in src/artifact_engine/core/outputs.py: `_safe`, `_read` and
-- `_write`. A dict is an association list in insertion order.
pub mod Dicts
pub mod RoundTrip
pub mod Written
use artifact_engine.Prelude.{
  ℕ, Bool, true, false, not, ◌&&◌, ◌||◌, Option, none, some, List, [], ◌∷◌, ◌++◌, ltb, leb, ◌==◌,
  if◌then◌else◌,
}
use artifact_engine.Prelude.Chars.{Chars, chars_eq, chars_lt, codes}
use artifact_engine.Prelude.Sorting.{sorted}
use artifact_engine.Outputs.{System, Folder, is_in}

-- A recorded modification: a number, or the -1 of a record that has none.
pub data Stamp : Type 0 where
  at : ℕ → Stamp
  minus_one : Stamp

abbrev pub Dict : Type 0 → Type 0
Dict V = List (Chars × V)

module _ {V : Type 0} where
  -- `d[name] = v`
  unfoldable pub assign : Chars → V → Dict V → Dict V
  assign name v [] = (name, v) ∷ []
  assign name v ((n, w) ∷ d) =
      let rest = assign name v d in if chars_eq name n then (n, v) ∷ d else (n, w) ∷ rest

  -- `d.update(items)`
  unfoldable pub update : Dict V → Dict V → Dict V
  unfolding assign
  update d [] = d
  update d ((n, v) ∷ items) = update (assign n v d) items

  -- `d.get(name)`
  unfoldable pub lookup : Chars → Dict V → Option V
  lookup name [] = none
  lookup name ((n, v) ∷ d) = let rest = lookup name d in if chars_eq name n then some v else rest

  -- The order of `sorted(d.items())`: no two items of a dict have one name.
  abbrev pub item_lt : Chars × V → Chars × V → Bool
  item_lt a b = chars_lt a.0 b.0

abbrev pub endswith : Chars → Chars → Bool
endswith [] suffix = chars_eq [] suffix
endswith (c ∷ s) suffix = chars_eq (c ∷ s) suffix || endswith s suffix

abbrev pub has_char : ℕ → Chars → Bool
has_char c [] = false
has_char c (d ∷ s) = c == d || has_char c s

-- `_safe`
unfoldable pub is_safe : Chars → Bool
unfolding chars_eq
is_safe name =
    not (is_in name ([] ∷ codes "." ∷ codes ".." ∷ []))
    && (not (has_char b'/' name)
        && (not (has_char b'\\' name)
            && (not (has_char b':' name)
                && (not (endswith name (codes ".done"))
                    && not (endswith name (codes ".outputs"))))))

-- The characters that `str.splitlines` breaks at.
abbrev pub is_break : ℕ → Bool
is_break c =
    leb 10 c && leb c 13 || (leb 28 c && leb c 30 || (c == 133 || (c == 8232 || c == 8233)))

-- `str.isspace`, which `str.strip` takes away at both ends.
abbrev pub is_space : ℕ → Bool
is_space c =
    is_break c
    || (c == 9
        || (c == 31
            || (c == 32
                || (c == 160
                    || (c == 5760
                        || (leb 8192 c && leb c 8202
                            || (c == 8239 || (c == 8287 || c == 12288))))))))

abbrev pub lstrip : Chars → Chars
lstrip [] = []
lstrip (c ∷ s) = let rest = lstrip s in if is_space c then rest else c ∷ s

-- A character in front of what is left once the end is stripped.
abbrev pub before_stripped : ℕ → Chars → Chars
before_stripped c [] = if is_space c then [] else c ∷ []
before_stripped c (d ∷ s) = c ∷ d ∷ s

abbrev pub rstrip : Chars → Chars
rstrip [] = []
rstrip (c ∷ s) = before_stripped c (rstrip s)

abbrev pub strip : Chars → Chars
strip s = rstrip (lstrip s)

abbrev pub in_front : ℕ → List Chars → List Chars
in_front c [] = (c ∷ []) ∷ []
in_front c (l ∷ lines) = (c ∷ l) ∷ lines

-- `text.splitlines()`, with an empty line behind each break that ends a line or the text: it names
-- nothing.
abbrev pub lines : Chars → List Chars
lines [] = [] ∷ []
lines (c ∷ s) = let rest = lines s in if is_break c then [] ∷ rest else in_front c rest

-- `line.partition("\t")`
abbrev pub partition : Chars → Chars × Chars
partition [] = ([], [])
partition (c ∷ s) = let (name, stamp) = partition s in if c == 9 then ([], s) else (c ∷ name, stamp)

-- What `_read` gives: None, the ValueError of `int`, or the dict.
pub data Reading : Type 0 where
  no_record : Reading
  raised : Reading
  entries : Dict Stamp → Reading

module _ (sys : System) where
  abbrev pub read_number : Option ℕ → Option Stamp
  read_number none = none
  read_number (some n) = some (at n)

  -- `int(stamp) if stamp.isdigit() else -1`
  abbrev pub read_stamp : Chars → Option Stamp
  read_stamp stamp = if sys.isdigit stamp then read_number (sys.int stamp) else some minus_one

  abbrev pub assign_read : Chars → Option Stamp → (Dict Stamp → Reading) → Dict Stamp → Reading
  assign_read name none next out = raised
  assign_read name (some stamp) next out = next (assign name stamp out)

  -- `if name: out[name] = ...`
  abbrev pub read_item : Chars × Chars → (Dict Stamp → Reading) → Dict Stamp → Reading
  read_item ([], stamp) next out = next out
  read_item (c ∷ name, stamp) next out = assign_read (c ∷ name) (read_stamp stamp) next out

  unfoldable pub read_lines : List Chars → Dict Stamp → Reading
  unfolding assign
  read_lines [] out = entries out
  read_lines (l ∷ ls) out = read_item (partition (strip l)) (read_lines ls) out

  -- `_read`
  unfoldable pub read : Option Chars → Reading
  unfolding read_lines
  read none = no_record
  read (some text) = read_lines (lines text) []

  abbrev pub show : Stamp → Chars
  show (at n) = sys.str n
  show minus_one = codes "-1"

  abbrev pub line : Chars × Stamp → Chars
  line (n, s) = (n ++ 9 ∷ show s) ++ 10 ∷ []

  -- The text that `_write` joins, of the items in their order.
  unfoldable pub text_of : Dict Stamp → Chars
  unfolding is_safe
  text_of [] = []
  text_of ((n, s) ∷ items) =
      let rest = text_of items in if is_safe n then line (n, s) ++ rest else rest

  -- `_write`
  unfoldable pub write : Dict Stamp → Folder → Folder
  unfolding text_of sorted chars_lt
  write items f =
      if f.writable then record f { stored = some (text_of (sorted item_lt items)) } else f
