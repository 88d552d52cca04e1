-- ===== src/WebShard/Ranges.antt =====
-- The slices of `ranges` (src/artifact_engine/handlers/_webshard.py).
use artifact_engine.Prelude.{
  ℕ, zero, suc, ◌+◌, ◌-◌, ◌≤◌, ◌<◌, min, ◌≡◌, ◌⊎◌, refl, sym, ap, ◌∙◌, subst, inl, inr, true, some,
  List, [], ◌∷◌, length, get_elem?, ltb, ◌==◌, Bool-cases, arith,
}
use artifact_engine.WebShard.{drop_bytes, line_end, slice_end, ranges_from, ranges}

-- A place is the end of the file, or behind a line break.
abbrev pub EndsRow : List ℕ → ℕ → Type 0
EndsRow file b = (b ≡ length file) ⊎ (get_elem? file (b - 1) ≡ some 10)

-- Slices that follow one another from a place to the end of the file, none empty, each ending a row.
abbrev pub Covers : List ℕ → ℕ → List (ℕ × ℕ) → Type 0
Covers file lo [] = lo ≡ length file
Covers file lo ((a, b) ∷ out) = (a ≡ lo) × ((lo < b) × (EndsRow file b × Covers file b out))

ltb_lt : (a b : ℕ) → ltb a b ≡ true → a < b
ltb_lt a b h = ground arith

line_end-le : (s : List ℕ) → line_end s ≤ length s
line_end-le [] = omega arith
line_end-le (c ∷ s) = ground (arith, line_end-le s)

line_end-positive : (s : List ℕ) → 0 < length s → 0 < line_end s
line_end-positive [] h = h
line_end-positive (c ∷ s) h = ground arith

row_behind : (c : ℕ) (s : List ℕ) (b : ℕ) → 0 < b → EndsRow s b → EndsRow (c ∷ s) (suc b)
row_behind c s b h (inl all) = inl (ap suc all)
row_behind c s b h (inr row) =
    let place : suc b - 1 ≡ suc (b - 1) = omega (arith, h) in
    inr (ap (get_elem? (c ∷ s)) place ∙ row)

line_end-row : (s : List ℕ) → 0 < length s → EndsRow s (line_end s)
line_end-row [] h = absurd (omega (arith, h))
line_end-row (c ∷ []) h = elim (Bool-cases (c == 10)) [
  | inl break ↦ inl (rw break refl)
  | inr other ↦ inl (rw other refl)
]
line_end-row (c ∷ d ∷ s) h = elim (Bool-cases (c == 10)) [
  | inl break ↦
      let step : line_end (c ∷ d ∷ s) ≡ 1 = rw break refl in
      let found : get_elem? (c ∷ d ∷ s) (1 - 1) ≡ some 10 = ap some (ground (arith, break)) in
      subst (EndsRow (c ∷ d ∷ s)) (sym step) (inr found)
  | inr other ↦
      let step : line_end (c ∷ d ∷ s) ≡ suc (line_end (d ∷ s)) = rw other refl in
      subst (EndsRow (c ∷ d ∷ s)) (sym step) (
        row_behind c (d ∷ s) (line_end (d ∷ s)) (line_end-positive (d ∷ s) (omega arith))
          (line_end-row (d ∷ s) (omega arith)))
]

length-drop_bytes : (n : ℕ) (s : List ℕ) → length (drop_bytes n s) ≡ length s - n
length-drop_bytes zero s = omega arith
length-drop_bytes (suc n) [] = omega arith
length-drop_bytes (suc n) (c ∷ s) = omega (arith, length-drop_bytes n s)

get_elem?-drop_bytes : (n i : ℕ) (s : List ℕ) → get_elem? (drop_bytes n s) i ≡ get_elem? s (n + i)
get_elem?-drop_bytes zero i s = ap (get_elem? s) (omega arith)
get_elem?-drop_bytes (suc n) i [] = refl
get_elem?-drop_bytes (suc n) i (c ∷ s) =
    let shift : suc (n + i) ≡ suc n + i = omega arith in
    get_elem?-drop_bytes n i s ∙ ap (get_elem? (c ∷ s)) shift

-- Where a slice ends: behind its start, in the file, at the end of a row.
record IsEnd (file : List ℕ) (lo b : ℕ) : Type 0 where
  above : lo < b
  within : b ≤ length file
  row : EndsRow file b

row_at :
    (file : List ℕ) (place b : ℕ)
    → place < length file
    → 0 < b
    → EndsRow (drop_bytes place file) b
    → EndsRow file (place + b)
row_at file place b h k (inl all) = inl (omega (arith, all, h, length-drop_bytes place file))
row_at file place b h k (inr row) =
    let behind : (place + b) - 1 ≡ place + (b - 1) = omega (arith, k) in
    inr (ap (get_elem? file) behind ∙ sym (get_elem?-drop_bytes place (b - 1) file) ∙ row)

line_end-IsEnd :
    (file : List ℕ) (lo place : ℕ)
    → place < length file
    → lo ≤ place
    → IsEnd file lo (place + line_end (drop_bytes place file))
line_end-IsEnd file lo place h le =
    let some_left : 0 < length (drop_bytes place file) =
      omega (arith, h, length-drop_bytes place file) in
    let positive = line_end-positive (drop_bytes place file) some_left in
    record {
      above = omega (arith, le, positive);
      within = omega (arith, h, line_end-le (drop_bytes place file), length-drop_bytes place file);
      row =
          row_at file place (line_end (drop_bytes place file)) h positive
            (line_end-row (drop_bytes place file) some_left);
    }

slice_end-IsEnd :
    (file : List ℕ) (size lo : ℕ) → lo < length file → IsEnd file lo (slice_end file size lo)
slice_end-IsEnd file size lo h =
    let place = min (lo + size) (length file) in
    elim (Bool-cases (ltb place (length file))) [
      | inr at_end ↦ rw at_end (record {
        above = ground (arith, h, at_end);
        within = ground arith;
        row = inl (ground (arith, at_end));
      })
      | inl inside ↦
          rw inside
            (line_end-IsEnd file lo place (ground (arith, inside)) (ground (arith, h, inside)))
    ]

ranges_from-Covers :
    (fuel : ℕ) (file : List ℕ) (size lo : ℕ)
    → lo ≤ length file
    → length file ≤ lo + fuel
    → (out : List (ℕ × ℕ)) × (ranges_from fuel file size lo ≡ some out) × Covers file lo out
unfolding ranges_from
ranges_from-Covers zero file size lo le enough = elim (Bool-cases (ltb lo (length file))) [
  | inl more ↦ absurd (omega (arith, enough, ltb_lt lo (length file) more))
  | inr over ↦ ([], rw over refl, omega (arith, le, enough))
]
ranges_from-Covers (suc fuel) file size lo le enough = elim (Bool-cases (ltb lo (length file))) [
  | inr over ↦ ([], rw over refl, ground (arith, le, over))
  | inl more ↦
      let e = slice_end-IsEnd file size lo (ltb_lt lo (length file) more) in
      let (out, found, covers) =
        ranges_from-Covers fuel file size (slice_end file size lo) e.within
          (omega (arith, enough, e.above)) in
      (
        (lo, slice_end file size lo) ∷ out,
        rw (more, found) refl,
        (refl, (e.above, (e.row, covers))),
      )
]

-- The slices are found, for any size, and follow one another from behind the header to the end of
-- the file; none is empty, and each ends behind a line break or with the file.
pub ranges-Covers :
    (file : List ℕ) (size : ℕ)
    → (out : List (ℕ × ℕ)) × (ranges file size ≡ some out) × Covers file (line_end file) out
unfolding ranges
ranges-Covers file size =
    ranges_from-Covers (length file) file size (line_end file) (line_end-le file) (omega arith)
