-- ===== src/Outputs/Record/RoundTrip.antt =====
-- Reading a line of the record back, as src/artifact_engine/core/outputs.py writes it.
use artifact_engine.Prelude.{
  ℕ, ◌≡◌, ◌≢◌, refl, sym, ap, ◌∙◌, inl, inr, Bool, true, false, not, ◌&&◌, ◌||◌, some, [], ◌∷◌,
  ◌++◌, append_assoc, all, keep, ◌==◌, Bool-cases, arith,
}
use artifact_engine.Prelude.Chars.{Chars, codes}
use artifact_engine.Outputs.{System}
use artifact_engine.Outputs.Record.{
  Stamp, at, minus_one, Dict, assign, update, Reading, is_safe, is_break, is_space, rstrip, strip,
  lines, partition, entries, read_stamp, read_item, read_lines, show, text_of,
}

abbrev pub in_a_name : ℕ → Bool
in_a_name c = not (is_break c || c == 9)

abbrev pub in_a_number : ℕ → Bool
in_a_number c = not (is_space c)

abbrev pub starts_blank : Chars → Bool
starts_blank [] = false
starts_blank (c ∷ s) = is_space c

-- A name that stays whole in a line: no break, no tab, no blank in front.
abbrev pub is_plain : Chars → Bool
is_plain name = all in_a_name name && not (starts_blank name)

-- What the language documents of a number's digits.
pub record Decimal (sys : System) : Type 0 where
  pub isdigit-str : (n : ℕ) → sys.isdigit (sys.str n) ≡ true
  pub int-str : (n : ℕ) → sys.int (sys.str n) ≡ some n
  pub str_visible : (n : ℕ) → all in_a_number (sys.str n) ≡ true
  pub isdigit-empty : sys.isdigit [] ≡ false
  pub isdigit-minus_one : sys.isdigit (codes "-1") ≡ false

lines-break :
    (body rest : Chars)
    → all (λ c. not (is_break c)) body ≡ true
    → lines (body ++ 10 ∷ rest) ≡ body ∷ lines rest
lines-break [] rest h = refl
lines-break (c ∷ body) rest h =
    let off : is_break c ≡ false = ground (arith, h) in
    rw (off, lines-break body rest (ground (arith, h))) refl

partition-tab :
    (name stamp : Chars) → all in_a_name name ≡ true → partition (name ++ 9 ∷ stamp) ≡ (name, stamp)
partition-tab [] stamp h = refl
partition-tab (c ∷ name) stamp h =
    let off : (c == 9) ≡ false = ground (arith, h) in
    rw (partition-tab name stamp (ground (arith, h)), off) refl

rstrip-number : (s : Chars) → all in_a_number s ≡ true → rstrip s ≡ s
rstrip-number [] h = refl
rstrip-number (c ∷ []) h = let off : is_space c ≡ false = ground (arith, h) in rw off refl
rstrip-number (c ∷ d ∷ s) h = rw (rstrip-number (d ∷ s) (ground (arith, h))) refl

rstrip-behind :
    (before : Chars) (c : ℕ) (s : Chars)
    → all in_a_number (c ∷ s) ≡ true
    → rstrip (before ++ c ∷ s) ≡ before ++ c ∷ s
rstrip-behind [] c s h = rstrip-number (c ∷ s) h
rstrip-behind (d ∷ []) c s h = rw (rstrip-number (c ∷ s) h) refl
rstrip-behind (d ∷ e ∷ before) c s h = rw (rstrip-behind (e ∷ before) c s h) refl

strip-line :
    (c : ℕ) (name : Chars) (stamp : Chars)
    → is_space c ≡ false
    → all in_a_number stamp ≡ true
    → stamp ≢ []
    → strip (c ∷ (name ++ 9 ∷ stamp)) ≡ c ∷ (name ++ 9 ∷ stamp)
strip-line c name [] off h some_stamp = absurd (some_stamp refl)
strip-line c name (d ∷ stamp) off h some_stamp =
    let regroup = append_assoc name (9 ∷ []) (d ∷ stamp) in
    rw off (
      ap (λ r. rstrip (c ∷ r)) (sym regroup)
      ∙ rstrip-behind (c ∷ (name ++ 9 ∷ [])) d stamp h
      ∙ ap (λ r. c ∷ r) regroup)

in_a_number-visible : (c : ℕ) → in_a_number c ≡ true → is_break c ≡ false
in_a_number-visible c h = elim (Bool-cases (is_break c)) [
  | inl breaks ↦ cc (rw breaks at h)
  | inr other ↦ other
]

visible-unbroken : (s : Chars) → all in_a_number s ≡ true → all (λ c. not (is_break c)) s ≡ true
visible-unbroken [] h = refl
visible-unbroken (c ∷ s) h =
    rw (in_a_number-visible c (ground (arith, h)), visible-unbroken s (ground (arith, h))) refl

body_unbroken :
    (name stamp : Chars)
    → all in_a_name name ≡ true
    → all in_a_number stamp ≡ true
    → all (λ c. not (is_break c)) (name ++ 9 ∷ stamp) ≡ true
body_unbroken [] stamp h v = visible-unbroken stamp v
body_unbroken (c ∷ name) stamp h v =
    let off : is_break c ≡ false = ground (arith, h) in
    rw (off, body_unbroken name stamp (ground (arith, h)) v) refl

module _ (sys : System) (num : Decimal sys) where
  read_stamp-show : (s : Stamp) → read_stamp sys (show sys s) ≡ some s
  read_stamp-show (at n) = rw (num.isdigit-str n, num.int-str n) refl
  read_stamp-show minus_one = rw num.isdigit-minus_one refl

  show_visible : (s : Stamp) → all in_a_number (show sys s) ≡ true
  show_visible (at n) = num.str_visible n
  show_visible minus_one = refl

  show_some : (s : Stamp) → show sys s ≢ []
  show_some (at n) e =
      let h : sys.isdigit [] ≡ true = sym (ap sys.isdigit e) ∙ num.isdigit-str n in
      cc (h, num.isdigit-empty)
  show_some minus_one e = cc

  read_item-line :
      (name : Chars) (s : Stamp) (next : Dict Stamp → Reading) (out : Dict Stamp)
      → is_safe name ≡ true
      → is_plain name ≡ true
      → read_item sys (partition (strip (name ++ 9 ∷ show sys s))) next out
        ≡ next (assign name s out)
  unfolding is_safe
  read_item-line [] s next out safe plain = cc
  read_item-line (c ∷ name) s next out safe plain =
      let unbroken : all in_a_name (c ∷ name) ≡ true = ground (arith, plain) in
      let visible : is_space c ≡ false = ground (arith, plain) in
      rw
        (
          strip-line c name (show sys s) visible (show_visible s) (show_some s),
          partition-tab (c ∷ name) (show sys s) unbroken,
          read_stamp-show s,
        )
        refl

  -- The safe items of what was written come back, in its order.
  pub read_lines-text_of :
      (items out : Dict Stamp)
      → all (λ i. is_plain i.0) items ≡ true
      → read_lines sys (lines (text_of sys items)) out
        ≡ entries (update out (keep (λ i. is_safe i.0) items))
  unfolding read_lines text_of update
  read_lines-text_of [] out h = refl
  read_lines-text_of ((n, s) ∷ items) out h = elim (Bool-cases (is_safe n)) [
    | inl safe ↦
        let plain : is_plain n ≡ true = ground (arith, h) in
        rw
          (
            safe,
            append_assoc (n ++ 9 ∷ show sys s) (10 ∷ []) (text_of sys items),
            lines-break (n ++ 9 ∷ show sys s) (text_of sys items)
                (body_unbroken n (show sys s) (ground (arith, plain)) (show_visible s)),
            read_item-line n s (read_lines sys (lines (text_of sys items))) out safe plain,
          )
          (read_lines-text_of items (assign n s out) (ground (arith, h)))
    | inr other ↦ rw other (read_lines-text_of items out (ground (arith, h)))
  ]
