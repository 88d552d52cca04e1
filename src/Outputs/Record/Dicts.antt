-- ===== src/Outputs/Record/Dicts.antt =====
-- Dicts as association lists with each name once.
use artifact_engine.Prelude.{
  ◌≡◌, refl, sym, ap, ◌∙◌, inl, inr, Bool, true, false, not, ◌&&◌, none, some, [], ◌∷◌, any, keep,
  if◌then◌else◌, Bool-cases, arith,
}
use artifact_engine.Prelude.Chars.{Chars, chars_eq, chars_eq_refl, eq_of_chars_eq}
use artifact_engine.Prelude.Sorting.{insert_sorted, sorted, any-insert, any-sorted}
use artifact_engine.Outputs.Record.{Dict, assign, update, lookup, item_lt}

chars_ne_sym : (s t : Chars) → chars_eq s t ≡ false → chars_eq t s ≡ false
chars_ne_sym s t h = elim (Bool-cases (chars_eq t s)) [
  | inl same ↦ cc (ap (chars_eq s) (eq_of_chars_eq t s same), h, chars_eq_refl s)
  | inr other ↦ other
]

module _ {V : Type 0} where
  abbrev pub has_name : Chars → Dict V → Bool
  has_name k d = any (λ i. chars_eq k i.0) d

  abbrev pub has_names_once : Dict V → Bool
  has_names_once [] = true
  has_names_once (i ∷ d) = not (has_name i.0 d) && has_names_once d

  has_name-eq : (k n : Chars) (d : Dict V) → chars_eq k n ≡ true → has_name k d ≡ has_name n d
  has_name-eq k n d h = ap (λ x. has_name x d) (eq_of_chars_eq k n h)

  lookup-missing : (k : Chars) (d : Dict V) → has_name k d ≡ false → lookup k d ≡ none
  unfolding lookup
  lookup-missing k [] h = refl
  lookup-missing k ((n, v) ∷ d) h =
      let off : chars_eq k n ≡ false = ground (arith, h) in
      rw off (lookup-missing k d (ground (arith, h)))

  pub lookup-assign :
      (k n : Chars) (v : V) (d : Dict V)
      → lookup k (assign n v d) ≡ (if chars_eq k n then some v else lookup k d)
  unfolding lookup assign
  lookup-assign k n v [] = refl
  lookup-assign k n v ((m, w) ∷ d) = elim (Bool-cases (chars_eq n m)) [
    | inl same ↦ let e = eq_of_chars_eq n m same in rw (same, ap (chars_eq k) e) (ground arith)
    | inr other ↦ elim (Bool-cases (chars_eq k m)) [
      | inl here ↦
          let apart : chars_eq k n ≡ false =
            ap (λ x. chars_eq x n) (eq_of_chars_eq k m here) ∙ chars_ne_sym n m other in
          rw (other, here, apart) refl
      | inr there ↦ rw (other, there) (lookup-assign k n v d)
    ]
  ]

  pub lookup-update :
      (k : Chars) (out items : Dict V)
      → has_names_once items ≡ true
      → lookup k (update out items) ≡ (if has_name k items then lookup k items else lookup k out)
  unfolding lookup update
  lookup-update k out [] h = refl
  lookup-update k out ((n, v) ∷ items) h = elim (Bool-cases (chars_eq k n)) [
    | inl same ↦
        let absent : has_name k items ≡ false = has_name-eq k n items same ∙ ground (arith, h) in
        rw
          (
            lookup-update k (assign n v out) items (ground (arith, h)),
            absent,
            lookup-assign k n v out,
            same,
          )
          refl
    | inr other ↦
        rw
          (
            lookup-update k (assign n v out) items (ground (arith, h)),
            lookup-assign k n v out,
            other,
          )
          refl
  ]

  lookup-insert :
      (k : Chars) (x : Chars × V) (d : Dict V)
      → has_name x.0 d ≡ false
      → lookup k (insert_sorted item_lt x d) ≡ (if chars_eq k x.0 then some x.1 else lookup k d)
  unfolding lookup insert_sorted
  lookup-insert k x [] h = refl
  lookup-insert k x (y ∷ d) h = elim (Bool-cases (item_lt y x)) [
    | inl after ↦ elim (Bool-cases (chars_eq k y.0)) [
      | inl same ↦
          let apart : chars_eq k x.0 ≡ false =
            ap (λ n. chars_eq n x.0) (eq_of_chars_eq k y.0 same)
            ∙ chars_ne_sym x.0 y.0 (ground (arith, h)) in
          rw (after, same, apart) refl
      | inr other ↦ rw (after, other) (lookup-insert k x d (ground (arith, h)))
    ]
    | inr before ↦ rw before refl
  ]

  once-insert :
      (x : Chars × V) (d : Dict V)
      → has_name x.0 d ≡ false
      → has_names_once d ≡ true
      → has_names_once (insert_sorted item_lt x d) ≡ true
  unfolding insert_sorted
  once-insert x [] h o = refl
  once-insert x (y ∷ d) h o = elim (Bool-cases (item_lt y x)) [
    | inl after ↦
        let apart : chars_eq y.0 x.0 ≡ false = chars_ne_sym x.0 y.0 (ground (arith, h)) in
        rw
          (
            after,
            any-insert item_lt (λ i. chars_eq y.0 i.0) x d,
            apart,
            once-insert x d (ground (arith, h)) (ground (arith, o)),
          )
          (ground (arith, o))
    | inr before ↦ rw (before, h) o
  ]

  pub once-sorted :
      (d : Dict V) → has_names_once d ≡ true → has_names_once (sorted item_lt d) ≡ true
  unfolding sorted
  once-sorted [] h = refl
  once-sorted (x ∷ d) h =
      once-insert x (sorted item_lt d)
        (any-sorted item_lt (λ i. chars_eq x.0 i.0) d ∙ ground (arith, h))
        (once-sorted d (ground (arith, h)))

  pub lookup-sorted :
      (k : Chars) (d : Dict V) → has_names_once d ≡ true → lookup k (sorted item_lt d) ≡ lookup k d
  unfolding lookup sorted
  lookup-sorted k [] h = refl
  lookup-sorted k (x ∷ d) h =
      lookup-insert k x (sorted item_lt d)
        (any-sorted item_lt (λ i. chars_eq x.0 i.0) d ∙ ground (arith, h))
      ∙ ap (λ r. if chars_eq k x.0 then some x.1 else r) (lookup-sorted k d (ground (arith, h)))

  module _ (test : Chars → Bool) where
    has_name-keep :
        (k : Chars) (d : Dict V) → has_name k (keep (λ i. test i.0) d) ≡ (test k && has_name k d)
    has_name-keep k [] = ground arith
    has_name-keep k (i ∷ d) = elim (Bool-cases (chars_eq k i.0)) [
      | inl same ↦ elim (Bool-cases (test i.0)) [
        | inl kept ↦ rw (kept, same, ap test (eq_of_chars_eq k i.0 same) ∙ kept) refl
        | inr lost ↦ rw (lost, has_name-keep k d, ap test (eq_of_chars_eq k i.0 same) ∙ lost) refl
      ]
      | inr other ↦ elim (Bool-cases (test i.0)) [
        | inl kept ↦ rw (kept, other) (has_name-keep k d)
        | inr lost ↦ rw (lost, other) (has_name-keep k d)
      ]
    ]

    once-keep :
        (d : Dict V) → has_names_once d ≡ true → has_names_once (keep (λ i. test i.0) d) ≡ true
    once-keep [] h = refl
    once-keep (i ∷ d) h = elim (Bool-cases (test i.0)) [
      | inl kept ↦ rw (kept, has_name-keep i.0 d) (ground (arith, h, once-keep d))
      | inr lost ↦ rw lost (once-keep d (ground (arith, h)))
    ]

    lookup-keep :
        (k : Chars) (d : Dict V)
        → lookup k (keep (λ i. test i.0) d) ≡ (if test k then lookup k d else none)
    unfolding lookup
    lookup-keep k [] = ground arith
    lookup-keep k (i ∷ d) = elim (Bool-cases (chars_eq k i.0)) [
      | inl same ↦ elim (Bool-cases (test i.0)) [
        | inl kept ↦ rw (kept, same, ap test (eq_of_chars_eq k i.0 same) ∙ kept) refl
        | inr lost ↦
            let off = ap test (eq_of_chars_eq k i.0 same) ∙ lost in
            rw (lost, off) (lookup-keep k d ∙ ap (λ b. if b then lookup k d else none) off)
      ]
      | inr other ↦ elim (Bool-cases (test i.0)) [
        | inl kept ↦ rw (kept, other) (lookup-keep k d)
        | inr lost ↦ rw (lost, other) (lookup-keep k d)
      ]
    ]

    -- What a dict made of the items that pass the test holds.
    pub lookup-update-keep :
        (k : Chars) (d : Dict V)
        → has_names_once d ≡ true
        → lookup k (update [] (keep (λ i. test i.0) d)) ≡ (if test k then lookup k d else none)
    unfolding lookup
    lookup-update-keep k d h =
        lookup-update k [] (keep (λ i. test i.0) d) (once-keep d h)
        ∙ elim (Bool-cases (has_name k (keep (λ i. test i.0) d))) [
          | inl here ↦ rw here (lookup-keep k d)
          | inr absent ↦
              rw absent (sym (lookup-missing k (keep (λ i. test i.0) d) absent) ∙ lookup-keep k d)
        ]
