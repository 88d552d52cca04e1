-- ===== src/Procs/Descendants.antt =====
-- What `tree` (src/artifact_engine/core/procs.py) finds.
use artifact_engine.Prelude.{
  ℕ, zero, suc, ◌+◌, ◌≤◌, ◌<◌, ◌≡◌, refl, sym, ap, ◌∙◌, inl, inr, true, false, not, ◌&&◌, ◌||◌,
  Option, none, some, List, [], ◌∷◌, ◌++◌, length, All, ltb, ◌==◌, Bool-cases, arith,
}
use artifact_engine.Prelude.Sums.{count_of}
use artifact_engine.Procs.{
  ProcessChildren, children_of, is_found, TreeSearch, all_children, add_born, add_children,
  tree_from, tree,
}

is_found-append :
    (x : ℕ) (xs ys : List ℕ) → is_found x (xs ++ ys) ≡ (is_found x xs || is_found x ys)
is_found-append x [] ys = refl
is_found-append x (y ∷ xs) ys = ground (arith, is_found-append x xs ys)

-- How many of the children named are not found yet.
abbrev unfound : List ℕ → List ℕ → ℕ
unfound found = count_of (λ x. not (is_found x found))

unfound-le : (c : ℕ) (found xs : List ℕ) → unfound (found ++ c ∷ []) xs ≤ unfound found xs
unfound-le c found [] = omega arith
unfound-le c found (x ∷ xs) =
    ground (arith, unfound-le c found xs, is_found-append x found (c ∷ []))

unfound-lt :
    (c : ℕ) (found xs : List ℕ)
    → is_found c xs ≡ true
    → is_found c found ≡ false
    → unfound (found ++ c ∷ []) xs < unfound found xs
unfound-lt c found [] h new = cc
unfound-lt c found (x ∷ xs) h new = elim (Bool-cases (c == x)) [
  | inl same ↦
      let e : c ≡ x = ground (arith, same) in
      let now : is_found x (found ++ c ∷ []) ≡ true =
        is_found-append x found (c ∷ []) ∙ ground (arith, same) in
      let before : is_found x found ≡ false = ap (λ y. is_found y found) (sym e) ∙ new in
      rw (now, before) (omega (arith, unfound-le c found xs))
  | inr other ↦
      let rest = unfound-lt c found xs (rw other at h) new in
      ground (arith, rest, is_found-append x found (c ∷ []))
]

module _ (children : ProcessChildren) (created : ℕ → Option ℕ) (pid : ℕ) where
  -- A process that goes back to the first by parents each created strictly before its child, with
  -- the time of its own creation.
  pub data Descends : ℕ → ℕ → Type 0 where
    is_first : {born : ℕ} → created pid ≡ some born → Descends pid born
    is_child :
        {p born child t : ℕ}
        → Descends p born
        → is_found child (children_of p children) ≡ true
        → created child ≡ some t
        → born < t
        → Descends child t

  -- A process that was started by one that descends from the first, after it.
  abbrev pub IsStarted : ℕ → Type 0
  IsStarted x =
      (p : ℕ) × (born : ℕ) × (t : ℕ) × Descends p born
      × (is_found x (children_of p children) ≡ true)
      × (created x ≡ some t)
      × (born < t)

  abbrev Queued : ℕ × Option ℕ → Type 0
  Queued (p, none) = Unit
  Queued (p, some born) = Descends p born

  record IsSearch (s : TreeSearch) : Type 0 where
    queued : All Queued s.0
    found : All IsStarted s.1

  All-snoc : (xs : List ℕ) (x : ℕ) → All IsStarted xs → IsStarted x → All IsStarted (xs ++ x ∷ [])
  All-snoc [] x a h = (h, tt)
  All-snoc (y ∷ xs) x a h = (a.0, All-snoc xs x a.1 h)

  -- What is left to do: rounds for the queue, and for the children that are not found yet.
  abbrev left : TreeSearch → ℕ
  left s = length s.0 + unfound s.1 (all_children children)

  found_among :
      (x p : ℕ) (these : ProcessChildren)
      → is_found x (children_of p these) ≡ true
      → is_found x (all_children these) ≡ true
  found_among x p [] h = h
  found_among x p ((q, kids) ∷ these) h = elim (Bool-cases (p == q)) [
    | inl own ↦ is_found-append x kids (all_children these) ∙ ground (arith, rw own at h)
    | inr other ↦
        let rest = found_among x p these (rw other at h) in
        is_found-append x kids (all_children these) ∙ ground (arith, rest)
  ]

  module _ (p born : ℕ) (parent : Descends p born) where
    abbrev IsKid : ℕ → Type 0
    IsKid c = is_found c (children_of p children) ≡ true

    -- A round keeps what is known of the search, and does not add to what is left.
    abbrev KeptBy : TreeSearch → TreeSearch → Type 0
    KeptBy s r = IsSearch r × (left r ≤ left s)

    add_born-KeptBy :
        (c : ℕ) (time : Option ℕ) (s : TreeSearch)
        → IsKid c
        → created c ≡ time
        → IsSearch s
        → KeptBy s (add_born children created born c time s)
    add_born-KeptBy c none s k e h = (h, omega arith)
    add_born-KeptBy c (some t) (queue, found) k e h =
        elim (Bool-cases (ltb born t && not (is_found c found))) [
          | inr passed ↦ rw passed (h, omega arith)
          | inl new ↦
              let after : born < t = ground (arith, new) in
              let unknown : is_found c found ≡ false = ground (arith, new) in
              let fewer =
                unfound-lt c found (all_children children) (found_among c p children k) unknown in
              rw new (
                record {
                  queued = (is_child parent k e after, h.queued);
                  found = All-snoc found c h.found (p, born, t, parent, k, e, after);
                },
                omega (arith, fewer),
              )
        ]

    add_children-KeptBy :
        (kids : List ℕ) (s : TreeSearch)
        → All IsKid kids
        → IsSearch s
        → KeptBy s (add_children children created born kids s)
    unfolding add_children
    add_children-KeptBy [] s k h = (h, omega arith)
    add_children-KeptBy (c ∷ kids) s k h =
        let one = add_born-KeptBy c (created c) s k.0 refl h in
        let rest =
          add_children-KeptBy kids (add_born children created born c (created c) s) k.1 one.0 in
        (rest.0, omega (arith, one.1, rest.1))

    kids_of : (kids : List ℕ) → ((c : ℕ) → is_found c kids ≡ true → IsKid c) → All IsKid kids
    kids_of [] sub = tt
    kids_of (c ∷ kids) sub = (sub c (ground arith), kids_of kids (λ d h. sub d (ground (arith, h))))

  tree_from-IsStarted :
      (fuel : ℕ) (s : TreeSearch)
      → left s ≤ fuel
      → IsSearch s
      → (found : List ℕ) × (tree_from children created fuel s ≡ some found) × All IsStarted found
  unfolding tree_from
  tree_from-IsStarted fuel ([], found) le h = (found, refl, h.found)
  tree_from-IsStarted zero (x ∷ queue, found) le h = absurd (omega (arith, le))
  tree_from-IsStarted (suc fuel) ((p, none) ∷ queue, found) le h =
      tree_from-IsStarted fuel (queue, found) (omega (arith, le))
        (record { queued = h.queued.1; found = h.found })
  tree_from-IsStarted (suc fuel) ((p, some born) ∷ queue, found) le h =
      let rest : IsSearch (queue, found) = record { queued = h.queued.1; found = h.found } in
      let kids = children_of p children in
      let kept =
        add_children-KeptBy p born h.queued.0 kids (queue, found)
          (kids_of p born h.queued.0 kids (λ c k. k)) rest in
      tree_from-IsStarted fuel (add_children children created born kids (queue, found))
        (omega (arith, le, kept.1)) kept.0

  first-Queued : (time : Option ℕ) → created pid ≡ time → Queued (pid, time)
  first-Queued none e = tt
  first-Queued (some born) e = is_first e

  unfound-nothing : (xs : List ℕ) → unfound [] xs ≡ length xs
  unfound-nothing [] = refl
  unfound-nothing (x ∷ xs) = omega (arith, unfound-nothing xs)

  -- The search ends, whatever the system says of parents and times, and every process that it finds
  -- was created strictly after a process that it names as its parent, and which goes back to the
  -- first in the same way.
  pub tree-IsStarted :
      (found : List ℕ) × (tree children created pid ≡ some found) × All IsStarted found
  unfolding tree
  tree-IsStarted =
      tree_from-IsStarted (suc (length (all_children children))) ((pid, created pid) ∷ [], [])
        (omega (arith, unfound-nothing (all_children children)))
        (record { queued = (first-Queued (created pid) refl, tt); found = tt })
