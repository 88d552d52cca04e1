-- ===== src/ConsoleGroups/Keys.antt =====
-- What `group` of src/artifact_engine/core/console_groups.py gathers: one group per key, of the
-- machines with that key.
use artifact_engine.Prelude.{
  ℕ, suc, ◌≡◌, refl, sym, ap, inl, inr, Bool, true, false, ◌||◌, some, List, [], ◌∷◌, ◌++◌, length,
  get_elem?, All, append_assoc, length-append, arith, Bool-cases, any, subst, ◌∙◌,
}
use artifact_engine.Prelude.Chars.{chars_eq_refl, eq_of_chars_eq}
use artifact_engine.ConsoleGroups.{
  Host, Builtins, Key, own, of_host, key_eq, Group, add_index, key, gather,
}

key_eq_refl : (k : Key) → key_eq k k ≡ true
unfolding key_eq
key_eq_refl (own i) = ground arith
key_eq_refl (of_host os h) = ground (arith, chars_eq_refl os, chars_eq_refl h)

eq_of_key_eq : (k l : Key) → key_eq k l ≡ true → k ≡ l
unfolding key_eq
eq_of_key_eq (own i) (own j) h = ap own (ground arith)
eq_of_key_eq (of_host os h) (of_host os' h') e =
    let same_os = eq_of_chars_eq os os' (ground arith) in
    let same_host = eq_of_chars_eq h h' (ground arith) in cc
eq_of_key_eq (own i) (of_host os h) e = cc
eq_of_key_eq (of_host os h) (own i) e = cc

abbrev pub has_key : Key → List Group → Bool
has_key k groups = any (λ g. key_eq k g.0) groups

-- No key twice.
abbrev pub DistinctKeys : List Group → Type 0
DistinctKeys [] = Unit
DistinctKeys (g ∷ groups) = (has_key g.0 groups ≡ false) × DistinctKeys groups

has_key-add_index :
    (x : Key) (i : ℕ) (k : Key) (groups : List Group)
    → has_key x (add_index i k groups) ≡ (has_key x groups || key_eq x k)
unfolding add_index
has_key-add_index x i k [] = ground arith
has_key-add_index x i k ((l, members) ∷ groups) = elim (Bool-cases (key_eq k l)) [
  | inl same ↦ rw (same, eq_of_key_eq k l same) (ground arith)
  | inr other ↦ rw (other, has_key-add_index x i k groups) (ground arith)
]

add_index-DistinctKeys :
    (i : ℕ) (k : Key) (groups : List Group)
    → DistinctKeys groups
    → DistinctKeys (add_index i k groups)
unfolding add_index
add_index-DistinctKeys i k [] h = (refl, tt)
add_index-DistinctKeys i k ((l, members) ∷ groups) h = elim (Bool-cases (key_eq k l)) [
  | inl same ↦ rw same h
  | inr other ↦ rw other (
    has_key-add_index l i k groups ∙ ground (arith, h.0, apart other),
    add_index-DistinctKeys i k groups h.1,
  )
]
  where
    apart : key_eq k l ≡ false → key_eq l k ≡ false
    apart other = elim (Bool-cases (key_eq l k)) [
      | inl same ↦ cc (rw (eq_of_key_eq l k same) at other, key_eq_refl k)
      | inr differ ↦ differ
    ]

module _ (P : ℕ → Key → Type 0) where
  -- The members of each group satisfy the predicate with its key.
  abbrev pub Keyed : List Group → Type 0
  Keyed groups = All (λ g. All (λ i. P i g.0) g.1) groups

  All-snoc :
      (k : Key) (members : List ℕ) (i : ℕ)
      → All (λ j. P j k) members
      → P i k
      → All (λ j. P j k) (members ++ i ∷ [])
  All-snoc k [] i h p = (p, tt)
  All-snoc k (j ∷ members) i h p = (h.0, All-snoc k members i h.1 p)

  add_index-Keyed :
      (i : ℕ) (k : Key) (groups : List Group) → P i k → Keyed groups → Keyed (add_index i k groups)
  unfolding add_index
  add_index-Keyed i k [] p h = ((p, tt), tt)
  add_index-Keyed i k ((l, members) ∷ groups) p h = elim (Bool-cases (key_eq k l)) [
    | inl same ↦ rw same (All-snoc l members i h.0 (subst (P i) (eq_of_key_eq k l same) p), h.1)
    | inr other ↦ rw other (h.0, add_index-Keyed i k groups p h.1)
  ]

module _ (b : Builtins) where
  -- The key of the machine at an index.
  abbrev pub HasKey : List Host → ℕ → Key → Type 0
  HasKey machines i k = (m : Host) × (get_elem? machines i ≡ some m) × (key b i m ≡ k)

  get_elem?-append :
      (before : List Host) (m : Host) (machines : List Host)
      → get_elem? (before ++ m ∷ machines) (length before) ≡ some m
  get_elem?-append [] m machines = refl
  get_elem?-append (x ∷ before) m machines = get_elem?-append before m machines

  gather-Keyed :
      (before machines : List Host) (groups : List Group)
      → DistinctKeys groups
      → Keyed (HasKey (before ++ machines)) groups
      → DistinctKeys (gather b (length before) machines groups)
        × Keyed (HasKey (before ++ machines)) (gather b (length before) machines groups)
  unfolding gather
  gather-Keyed before [] groups d h = (d, h)
  gather-Keyed before (m ∷ machines) groups d h =
      let k = key b (length before) m in
      let whole : (before ++ m ∷ []) ++ machines ≡ before ++ m ∷ machines =
        append_assoc before (m ∷ []) machines in
      let next = add_index (length before) k groups in
      let longer : length (before ++ m ∷ []) ≡ suc (length before) =
        length-append before (m ∷ []) ∙ omega arith in
      let here =
        add_index-Keyed (HasKey (before ++ m ∷ machines)) (length before) k groups
          (m, get_elem?-append before m machines, refl) h in
      rw (← longer) (
        subst
          (λ ms.
            DistinctKeys (gather b (length (before ++ m ∷ [])) machines next)
            × Keyed (HasKey ms) (gather b (length (before ++ m ∷ [])) machines next))
          whole
          (gather-Keyed (before ++ m ∷ []) machines next
            (add_index-DistinctKeys (length before) k groups d)
            (subst (λ ms. Keyed (HasKey ms) next) (sym whole) here)))

  -- The groups have a key each, no two the same, and it is the key of all their machines.
  pub gather_by_key :
      (machines : List Host)
      → DistinctKeys (gather b 0 machines []) × Keyed (HasKey machines) (gather b 0 machines [])
  gather_by_key machines = gather-Keyed [] machines [] tt tt
