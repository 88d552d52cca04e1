-- ===== src/Detection/Displays/Called.antt =====
-- What the machines are to be called on the console (src/artifact_engine/core/detector.py), said of all
-- machines and those before, without a table.
use artifact_engine.Prelude.{ℕ, zero, suc, ◌+◌, List, [], ◌∷◌, ◌++◌, ltb, ◌==◌, ◌&&◌, if◌then◌else◌}
use artifact_engine.Prelude.Chars.{Chars, chars_eq, codes}
use artifact_engine.Detection.{Machine}
use artifact_engine.Detection.Displays.{Digits, replace_vss, source_tag}

-- The name of a machine, with what it was made from.
abbrev pub base_label : Machine → Chars
base_label m =
    (if m.is_vss then replace_vss m.name else m.name) ++ (if m.has_lr then codes "-LR" else [])

-- How many machines have a base label.
abbrev pub alike : Chars → List Machine → ℕ
alike base [] = 0
alike base (k ∷ machines) =
    let rest = alike base machines in if chars_eq base (base_label k) then suc rest else rest

module _ (digits : Digits) where
  -- The base label with where the machine comes from: the date of its source, or the source.
  abbrev pub sourced : (base source date : Chars) → Chars
  sourced base source [] = base ++ (codes " (" ++ (source ++ codes ")"))
  sourced base source (c ∷ date) = base ++ (codes " [" ++ ((c ∷ date) ++ codes "]"))

  abbrev pub sourced_label : Machine → Chars
  sourced_label m = sourced (base_label m) m.source (source_tag digits m.source)

  -- A label that `n` machines got before: the second of them is `#2`.
  abbrev pub repeated : Chars → (n : ℕ) → Chars
  repeated label zero = label
  repeated label (suc n) = label ++ (codes "#" ++ digits.str_of (n + 2))

  -- How many of these share their base label with another of `all`, and have the label with source.
  abbrev pub namesakes : (all : List Machine) → Chars → List Machine → ℕ
  namesakes all label [] = 0
  namesakes all label (k ∷ machines) =
      let rest = namesakes all label machines in
      if ltb 1 (alike (base_label k) all) && chars_eq label (sourced_label k)
      then suc rest
      else rest

  -- What a machine is called, from those before it.
  abbrev pub called : (all before : List Machine) → Machine → Chars
  called all before m =
      if alike (base_label m) all == 1
      then base_label m
      else repeated (sourced_label m) (namesakes all (sourced_label m) before)
