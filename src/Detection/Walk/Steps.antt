-- ===== src/Detection/Walk/Steps.antt =====
-- One folder of the walk, and what a walk keeps because each folder keeps it
-- (src/artifact_engine/core/detector.py).
use artifact_engine.Prelude.{
  ℕ, zero, suc, ◌≡◌, refl, subst, ◌⊎◌, inl, inr, Bool, true, false, not, ◌&&◌, List, [], ◌∷◌, ◌++◌,
  any, keep, Bool-cases, arith,
}
use artifact_engine.Prelude.Chars.{Chars, chars_eq, chars_eq_refl, eq_of_chars_eq}
use artifact_engine.Detection.{FolderPath, Profile, Tree}
use artifact_engine.Detection.Profiles.{profile_matches}
use artifact_engine.Detection.Walk.{
  Sighted, is_among, is_walked, with_machine, first_match, visit_folder, walk_each, descend, walk,
  reconcile_one, reconcile,
}

module _ (tree : Tree) (root : FolderPath) (profiles : List Profile) (avoid_vss : Bool) where
  pub first_match-cases :
      (rel : FolderPath) (ps : List Profile) (s : Sighted)
      → ((first_match tree root profiles avoid_vss rel ps s ≡ (s, false))
          × ((any (profile_matches tree (rel ++ root)) ps
                && not (is_among (tree.resolve_path (rel ++ root)) s.matched))
              ≡ false))
        ⊎ ((p : Profile) × (first_match tree root profiles avoid_vss rel ps s
              ≡ (with_machine tree root profiles avoid_vss rel p s, true))
            × (is_among (tree.resolve_path (rel ++ root)) s.matched ≡ false)
            × (any (λ q. chars_eq q.id p.id && profile_matches tree (rel ++ root) q) ps ≡ true))
  unfolding first_match
  first_match-cases rel [] s = inl (refl, refl)
  first_match-cases rel (p ∷ ps) s = elim (Bool-cases (profile_matches tree (rel ++ root) p)) [
    | inl hit ↦ elim (Bool-cases (is_among (tree.resolve_path (rel ++ root)) s.matched)) [
      | inl old ↦ elim (first_match-cases rel ps s) [
        | inl (e, none_left) ↦ inl (rw (hit, old) e, ground (arith, old))
        | inr (q, e, fresh, fits) ↦ inr (q, rw (hit, old) e, fresh, ground (arith, fits))
      ]
      | inr fresh ↦ inr (p, rw (hit, fresh) refl, fresh, ground (arith, hit, chars_eq_refl p.id))
    ]
    | inr miss ↦ elim (first_match-cases rel ps s) [
      | inl (e, none_left) ↦ inl (rw miss e, rw miss none_left)
      | inr (q, e, fresh, fits) ↦ inr (q, rw miss e, fresh, ground (arith, fits))
    ]
  ]

  module _ (P : Sighted → Type 0)
      (keeps : (rel : FolderPath) (s : Sighted)
        → P s
        → P (visit_folder tree root profiles avoid_vss rel s).0) where
    walk_each_keeps :
        (walk_one : FolderPath → Sighted → Sighted)
        → ((rel : FolderPath) (s : Sighted) → P s → P (walk_one rel s))
        → (rel : FolderPath) (dirs : List Chars) (s : Sighted) → P s
        → P (walk_each tree root profiles avoid_vss walk_one rel dirs s)
    walk_each_keeps walk_one kept rel [] s h = h
    walk_each_keeps walk_one kept rel (d ∷ dirs) s h =
        walk_each_keeps walk_one kept rel dirs (walk_one (d ∷ rel) s) (kept (d ∷ rel) s h)

    descend_keeps :
        (walk_one : FolderPath → Sighted → Sighted)
        → ((rel : FolderPath) (s : Sighted) → P s → P (walk_one rel s))
        → (rel : FolderPath) (visited : Sighted × Bool) → P visited.0
        → P (descend tree root profiles avoid_vss walk_one rel visited)
    descend_keeps walk_one kept rel (s, true) h = h
    descend_keeps walk_one kept rel (s, false) h =
        walk_each_keeps walk_one kept rel (keep (is_walked tree) (tree.subdirs (rel ++ root))) s h

    -- What every visit keeps, the walk keeps.
    pub walk_keeps :
        (depth : ℕ) (rel : FolderPath) (s : Sighted)
        → P s
        → P (walk tree root profiles avoid_vss depth rel s)
    unfolding walk
    walk_keeps zero rel s h = keeps rel s h
    walk_keeps (suc depth) rel s h =
        descend_keeps (walk tree root profiles avoid_vss depth) (walk_keeps depth) rel
          (visit_folder tree root profiles avoid_vss rel s) (keeps rel s h)

    -- So it keeps what the visit of its first folder brings about.
    pub walk_after_visit :
        (depth : ℕ) (rel : FolderPath) (s : Sighted)
        → P (visit_folder tree root profiles avoid_vss rel s).0
        → P (walk tree root profiles avoid_vss depth rel s)
    unfolding walk
    walk_after_visit zero rel s h = h
    walk_after_visit (suc depth) rel s h =
        descend_keeps (walk tree root profiles avoid_vss depth) (walk_keeps depth) rel
          (visit_folder tree root profiles avoid_vss rel s) h

    -- And it brings about what the walk from one of the folders it enters does.
    pub walk_each_reaches :
        (depth : ℕ) (rel : FolderPath) (d : Chars)
        → ((s : Sighted) → P (walk tree root profiles avoid_vss depth (d ∷ rel) s))
        → (dirs : List Chars) (s : Sighted) → any (chars_eq d) dirs ≡ true
        → P (
            walk_each tree root profiles avoid_vss
              (walk tree root profiles avoid_vss depth)
              rel
              dirs
              s)
    walk_each_reaches depth rel d there [] s h = cc
    walk_each_reaches depth rel d there (c ∷ dirs) s h = elim (Bool-cases (chars_eq d c)) [
      | inl same ↦
          walk_each_keeps (walk tree root profiles avoid_vss depth) (walk_keeps depth) rel dirs
            (walk tree root profiles avoid_vss depth (c ∷ rel) s)
            (subst (λ e. P (walk tree root profiles avoid_vss depth (e ∷ rel) s))
              (eq_of_chars_eq d c same) (there s))
      | inr other ↦
          walk_each_reaches depth rel d there dirs
            (walk tree root profiles avoid_vss depth (c ∷ rel) s) (ground (arith, h, other))
    ]

  pub reconcile_keeps :
      (P : Sighted → Type 0)
      → ((rel : FolderPath) (s : Sighted)
          → P s
          → P (reconcile_one tree root profiles avoid_vss rel s))
      → (rels : List FolderPath) (s : Sighted) → P s
      → P (reconcile tree root profiles avoid_vss rels s)
  unfolding reconcile
  reconcile_keeps P kept [] s h = h
  reconcile_keeps P kept (rel ∷ rels) s h =
      reconcile_keeps P kept rels (reconcile_one tree root profiles avoid_vss rel s) (kept rel s h)
