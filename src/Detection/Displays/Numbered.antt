-- ===== src/Detection/Displays/Numbered.antt =====
-- What each machine is called on the console, read from the machines before it
-- (src/artifact_engine/core/detector.py).
use artifact_engine.Prelude.{
  ℕ, zero, suc, ◌+◌, ◌<◌, ap, ◌≡◌, refl, sym, ◌∙◌, inl, inr, Bool, true, false, Option, none, some,
  List, [], ◌∷◌, ◌++◌, append-nil, append_assoc, map, length, get_elem?, if◌then◌else◌, Bool-cases,
  arith,
}
use artifact_engine.Prelude.Chars.{Chars, chars_eq, chars_eq_refl, eq_of_chars_eq}
use artifact_engine.ConsoleGroups.{count_up}
use artifact_engine.Detection.{Machine}
use artifact_engine.Detection.Displays.Called.{
  base_label, alike, sourced, sourced_label, repeated, namesakes, called,
}
use artifact_engine.Detection.Displays.{
  replace_vss, Digits, provenance_label, times_in, seen_at, source_tag, with_tag, tagged,
  with_number, is_alone, assign_from, assign_display_names,
}

-- How often a label was seen, as the dictionary has it.
abbrev seen_or_zero : Option ℕ → ℕ
seen_or_zero none = 0
seen_or_zero (some n) = n

-- A number of times as the dictionary has it: a label not seen has no entry.
abbrev pub seen_times : ℕ → Option ℕ
seen_times zero = none
seen_times (suc n) = some (suc n)

chars_eq_sym : (s t : Chars) → chars_eq t s ≡ chars_eq s t
chars_eq_sym s t = elim (Bool-cases (chars_eq s t)) [
  | inl same ↦ let e = eq_of_chars_eq s t same in rw e refl
  | inr other ↦ elim (Bool-cases (chars_eq t s)) [
    | inl same ↦ let e = eq_of_chars_eq t s same in rw e refl
    | inr also ↦ also ∙ sym other
  ]
]

seen_at-count_up :
    (label l : Chars) (seen : List (Chars × ℕ))
    → seen_at label (count_up l seen) ≡ (
        if chars_eq label l
        then some (suc (seen_or_zero (seen_at label seen)))
        else seen_at label seen)
unfolding seen_at count_up
seen_at-count_up label l [] = ground arith
seen_at-count_up label l ((k, n) ∷ seen) = elim (Bool-cases (chars_eq l k)) [
  | inl same ↦ let e = eq_of_chars_eq l k same in rw (same, e) (ground arith)
  | inr other ↦ elim (Bool-cases (chars_eq label k)) [
    | inl here ↦
        let e = eq_of_chars_eq label k here in
        let apart : chars_eq label l ≡ false = rw e (chars_eq_sym l k ∙ other) in
        rw (other, apart, here) (ground (arith, here))
    | inr not_here ↦ ground (arith, other, not_here, seen_at-count_up label l seen)
  ]
]

pub times_in-snoc :
    (label l : Chars) (ls : List Chars)
    → times_in label (ls ++ l ∷ []) ≡ times_in label ls + (if chars_eq label l then 1 else 0)
unfolding times_in
times_in-snoc label l [] = ground arith
times_in-snoc label l (k ∷ ls) = ground (arith, times_in-snoc label l ls)

-- The dictionary counts the labels given so far.
abbrev pub Counts : List (Chars × ℕ) → List Chars → Type 0
Counts seen earlier = (l : Chars) → seen_at l seen ≡ seen_times (times_in l earlier)

seen_times_up :
    (same : Bool) (n : ℕ)
    → (if same then some (suc (seen_or_zero (seen_times n))) else seen_times n)
      ≡ seen_times (n + (if same then 1 else 0))
seen_times_up true zero = refl
seen_times_up true (suc n) = ground arith
seen_times_up false n = let e : n + 0 ≡ n = omega arith in rw e refl

pub count_up-Counts :
    (label : Chars) (seen : List (Chars × ℕ)) (earlier : List Chars)
    → Counts seen earlier
    → Counts (count_up label seen) (earlier ++ label ∷ [])
count_up-Counts label seen earlier h l =
    rw (seen_at-count_up l label seen, times_in-snoc l label earlier, h l)
      (seen_times_up (chars_eq l label) (times_in l earlier))

module _ (digits : Digits) (labels : List Chars) where
  -- The labels of the machines given that had to share theirs.
  abbrev pub tagged_of : List Machine → List Chars
  tagged_of [] = []
  tagged_of (m ∷ machines) =
      let rest = tagged_of machines in
      if is_alone digits labels m then rest else tagged digits m ∷ rest

  -- The label of a machine, from those before it.
  abbrev pub display_after : List Chars → Machine → Chars
  display_after earlier m =
      if is_alone digits labels m
      then provenance_label m
      else with_number digits (tagged digits m) (seen_times (times_in (tagged digits m) earlier))

  assign_from_at :
      (before : List Machine) (m : Machine) (after : List Machine) (seen : List (Chars × ℕ))
      (earlier : List Chars)
      → Counts seen earlier
      → get_elem? (assign_from digits labels seen (before ++ m ∷ after)) (length before)
        ≡ some (record m { display = display_after (earlier ++ tagged_of before) m })
  unfolding assign_from
  assign_from_at [] m after seen earlier h = rw (append-nil earlier, h (tagged digits m)) refl
  assign_from_at (k ∷ before) m after seen earlier h =
      elim (Bool-cases (is_alone digits labels k)) [
        | inl alone ↦ rw alone (assign_from_at before m after seen earlier h)
        | inr shared ↦
            rw (shared, ← append_assoc earlier (tagged digits k ∷ []) (tagged_of before))
              (assign_from_at before m after (count_up (tagged digits k) seen)
                (earlier ++ tagged digits k ∷ [])
                (count_up-Counts (tagged digits k) seen earlier h))
      ]

module _ (digits : Digits) where
  provenance_label-base_label : (m : Machine) → provenance_label m ≡ base_label m
  unfolding provenance_label
  provenance_label-base_label m = elim (Bool-cases m.has_lr) [
    | inl live ↦ rw live refl
    | inr other ↦ rw (other, append-nil (if m.is_vss then replace_vss m.name else m.name)) refl
  ]

  times_in-alike :
      (base : Chars) (machines : List Machine)
      → times_in base (map provenance_label machines) ≡ alike base machines
  unfolding times_in
  times_in-alike base [] = refl
  times_in-alike base (k ∷ machines) =
      ground (arith, times_in-alike base machines, provenance_label-base_label k)

  tagged-sourced_label : (m : Machine) → tagged digits m ≡ sourced_label digits m
  unfolding tagged
  tagged-sourced_label m =
      rw (provenance_label-base_label m)
        (with_tag-sourced (base_label m) m.source (source_tag digits m.source))
    where
      with_tag-sourced :
          (base source tag : Chars)
          → with_tag digits base source tag ≡ sourced digits base source tag
      with_tag-sourced base source [] = refl
      with_tag-sourced base source (c ∷ tag) = refl

  with_number-repeated :
      (label : Chars) (n : ℕ) → with_number digits label (seen_times n) ≡ repeated digits label n
  with_number-repeated label zero = refl
  with_number-repeated label (suc n) = let e : suc (suc n) ≡ n + 2 = omega arith in rw e refl

  times_in-namesakes :
      (all before : List Machine) (label : Chars)
      → times_in label (tagged_of digits (map provenance_label all) before)
        ≡ namesakes digits all label before
  unfolding times_in
  times_in-namesakes all [] label = refl
  times_in-namesakes all (k ∷ before) label = ground (
    arith,
    times_in-namesakes all before label,
    times_in-alike (provenance_label k) all,
    provenance_label-base_label k,
    tagged-sourced_label k,
  )

  alike-append :
      (base : Chars) (xs ys : List Machine) → alike base (xs ++ ys) ≡ alike base xs + alike base ys
  alike-append base [] ys = omega arith
  alike-append base (k ∷ xs) ys = ground (arith, alike-append base xs ys)

  -- A machine among all of them has its own base label.
  alike-own :
      (before : List Machine) (m : Machine) (after : List Machine)
      → 0 < alike (base_label m) (before ++ m ∷ after)
  alike-own before m after =
      ground (arith, alike-append (base_label m) before (m ∷ after), chars_eq_refl (base_label m))

  display_after-called :
      (before : List Machine) (m : Machine) (after : List Machine)
      → let all : List Machine = before ++ m ∷ after in
        let labels : List Chars = map provenance_label all in
        display_after digits labels (tagged_of digits labels before) m ≡ called digits all before m
  display_after-called before m after =
      let all : List Machine = before ++ m ∷ after in
      let label = tagged-sourced_label m in
      let own = alike-own before m after in
      let base = times_in-alike (base_label m) all in
      rw
        (
          label,
          provenance_label-base_label m,
          times_in-namesakes all before (sourced_label digits m),
          base,
        )
        (rw
          (with_number-repeated (sourced_label digits m)
            (namesakes digits all (sourced_label digits m) before))
          (ground (arith, own)))

  -- A machine whose base label no other has is called by it. Any other is called by this label with
  -- the date of its source, or else the source; if `n` of the machines before it that share their base
  -- label have the same label with source, `n` not 0, then with `#` and `n + 1` behind it.
  pub display_at :
      (before : List Machine) (m : Machine) (after : List Machine)
      → get_elem? (assign_display_names digits (before ++ m ∷ after)) (length before)
        ≡ some (record m { display = called digits (before ++ m ∷ after) before m })
  unfolding assign_display_names seen_at times_in
  display_at before m after =
      let labels : List Chars = map provenance_label (before ++ m ∷ after) in
      assign_from_at digits labels before m after [] [] (λ l. refl)
      ∙ ap (λ d. some (record m { display = d })) (display_after-called before m after)
