-- ===== src/Detection/Walk/Complete.antt =====
-- No folder that the walk should find is missed (src/artifact_engine/core/detector.py).
use artifact_engine.Prelude.{
  ℕ, zero, suc, ◌≤◌, ◌≡◌, refl, sym, ap, ◌∙◌, subst, ◌⊎◌, inl, inr, Bool, true, false, ◌&&◌, ◌||◌,
  List, [], ◌∷◌, ◌++◌, append-nil, any, keep, length, Bool-cases, arith,
}
use artifact_engine.Prelude.Chars.{Chars, chars_eq, eq_of_chars_eq}
use artifact_engine.Detection.{FolderPath, path_eq_refl, Profile, Tree}
use artifact_engine.Detection.Profiles.{profile_matches}
use artifact_engine.Detection.Walk.{
  Sighted, is_among, is_walked, with_machine, noted, visit_folder, walk_each, descend, walk,
}
use artifact_engine.Detection.Walk.Steps.{first_match-cases, walk_after_visit, walk_each_reaches}
use artifact_engine.Detection.Walk.Once.{is_among-append, noted-matched}

-- The folder that a list of names leads down to.
abbrev pub down : FolderPath → List Chars → FolderPath
down rel [] = rel
down rel (d ∷ ds) = down (d ∷ rel) ds

any-keep_mem :
    (d : Chars) (kept : Chars → Bool) (dirs : List Chars)
    → any (chars_eq d) dirs ≡ true
    → ((c : Chars) → chars_eq d c ≡ true → kept c ≡ true)
    → any (chars_eq d) (keep kept dirs) ≡ true
any-keep_mem d kept [] h k = h
any-keep_mem d kept (c ∷ dirs) h k = elim (Bool-cases (kept c)) [
  | inl stays ↦ rw stays (ground (arith, h, any-keep_mem d kept dirs))
  | inr goes ↦ rw goes (any-keep_mem d kept dirs (ground (arith, h, goes, k c)) k)
]

module _ (tree : Tree) (root : FolderPath) where
  -- Every name is a folder of the one before, and neither a shadow copy nor Velociraptor's.
  abbrev pub goes_down : FolderPath → List Chars → Bool
  goes_down rel [] = true
  goes_down rel (d ∷ ds) =
      any (chars_eq d) (tree.subdirs (rel ++ root)) && (is_walked tree d && goes_down (d ∷ rel) ds)

  -- A matched folder lies on the way, at its end included.
  abbrev pub is_covered : FolderPath → List Chars → List FolderPath → Bool
  is_covered rel [] matched = is_among (tree.resolve_path (rel ++ root)) matched
  is_covered rel (d ∷ ds) matched =
      is_among (tree.resolve_path (rel ++ root)) matched || is_covered (d ∷ rel) ds matched

  pub is_covered_end :
      (rel : FolderPath) (ds : List Chars) (matched : List FolderPath)
      → is_among (tree.resolve_path (down rel ds ++ root)) matched ≡ true
      → is_covered rel ds matched ≡ true
  is_covered_end rel [] matched h = h
  is_covered_end rel (d ∷ ds) matched h = ground (arith, is_covered_end (d ∷ rel) ds matched h)

  pub is_covered_mono :
      (rel : FolderPath) (ds : List Chars) (matched more : List FolderPath)
      → is_covered rel ds matched ≡ true
      → is_covered rel ds (matched ++ more) ≡ true
  is_covered_mono rel [] matched more h =
      ground (arith, h, is_among-append (tree.resolve_path (rel ++ root)) matched more)
  is_covered_mono rel (d ∷ ds) matched more h = ground (
    arith,
    h,
    is_among-append (tree.resolve_path (rel ++ root)) matched more,
    is_covered_mono (d ∷ rel) ds matched more,
  )

  module _ (profiles : List Profile) (avoid_vss : Bool) where
    -- A visit only adds to the matched folders, a reconciliation too.
    pub visit_folder-matched :
        (rel : FolderPath) (s : Sighted)
        → (more : List FolderPath) × ((visit_folder tree root profiles avoid_vss rel s).0.matched
            ≡ s.matched ++ more)
    unfolding visit_folder with_machine
    visit_folder-matched rel s =
        let before : Sighted = noted tree root profiles avoid_vss rel s in
        let same = noted-matched tree root profiles avoid_vss rel s in
        elim (first_match-cases tree root profiles avoid_vss rel profiles before) [
          | inl (e, none_left) ↦ ([], rw (e, append-nil s.matched) same)
          | inr (p, e, new, fits) ↦ (
            tree.resolve_path (rel ++ root) ∷ [],
            rw e (ap (λ ps. ps ++ tree.resolve_path (rel ++ root) ∷ []) same),
          )
        ]

    visit_folder-is_covered :
        (at : FolderPath) (ds : List Chars) (rel : FolderPath) (s : Sighted)
        → is_covered at ds s.matched ≡ true
        → is_covered at ds (visit_folder tree root profiles avoid_vss rel s).0.matched ≡ true
    visit_folder-is_covered at ds rel s h =
        let (more, e) = visit_folder-matched rel s in rw e (is_covered_mono at ds s.matched more h)

    -- Where a visit finds a machine, its folder is matched.
    visit_folder-hit :
        (rel : FolderPath) (s : Sighted)
        → (visit_folder tree root profiles avoid_vss rel s).1 ≡ true
        → is_among
            (tree.resolve_path (rel ++ root))
            (visit_folder tree root profiles avoid_vss rel s).0.matched
          ≡ true
    unfolding visit_folder with_machine
    visit_folder-hit rel s h =
        let before : Sighted = noted tree root profiles avoid_vss rel s in
        let rp : FolderPath = tree.resolve_path (rel ++ root) in
        elim (first_match-cases tree root profiles avoid_vss rel profiles before) [
          | inl (e, none_left) ↦
              let no_hit : false ≡ true = sym (ap (λ (v : Sighted × Bool). v.1) e) ∙ h in cc
          | inr (p, e, new, fits) ↦
              rw (e, is_among-append rp before.matched (rp ∷ []), path_eq_refl rp) (ground arith)
        ]

    pub visit_folder_profile :
        (rel : FolderPath) (s : Sighted)
        → any (profile_matches tree (rel ++ root)) profiles ≡ true
        → is_among
            (tree.resolve_path (rel ++ root))
            (visit_folder tree root profiles avoid_vss rel s).0.matched
          ≡ true
    unfolding visit_folder
    visit_folder_profile rel s h =
        let before : Sighted = noted tree root profiles avoid_vss rel s in
        elim (first_match-cases tree root profiles avoid_vss rel profiles before) [
          | inl (e, none_left) ↦ rw e (ground (arith, none_left, h))
          | inr (p, e, new, fits) ↦ visit_folder-hit rel s (rw e refl)
        ]

    -- A walk that reaches a folder passes a matched one or does there what a visit does.
    module _ (at : FolderPath) (P : Sighted → Type 0)
        (keeps : (rel : FolderPath) (s : Sighted)
          → P s
          → P (visit_folder tree root profiles avoid_vss rel s).0)
        (holds : (s : Sighted) → P (visit_folder tree root profiles avoid_vss at s).0) where
      abbrev pub IsReachedOr : FolderPath → List Chars → Sighted → Type 0
      IsReachedOr rel ds s = (is_covered rel ds s.matched ≡ true) ⊎ P s

      outcome_kept :
          (top : FolderPath) (ds : List Chars) (rel : FolderPath) (s : Sighted)
          → IsReachedOr top ds s
          → IsReachedOr top ds (visit_folder tree root profiles avoid_vss rel s).0
      outcome_kept top ds rel s (inl h) = inl (visit_folder-is_covered top ds rel s h)
      outcome_kept top ds rel s (inr h) = inr (keeps rel s h)

      further_down :
          (rel : FolderPath) (d : Chars) (ds : List Chars) (s : Sighted)
          → IsReachedOr (d ∷ rel) ds s
          → IsReachedOr rel (d ∷ ds) s
      further_down rel d ds s (inl h) = inl (ground (arith, h))
      further_down rel d ds s (inr h) = inr h

      descend_reaches :
          (depth : ℕ) (rel : FolderPath) (d : Chars) (ds : List Chars)
          → ((s : Sighted)
              → IsReachedOr (d ∷ rel) ds (walk tree root profiles avoid_vss depth (d ∷ rel) s))
          → any (chars_eq d) (tree.subdirs (rel ++ root)) ≡ true
          → is_walked tree d ≡ true
          → (visited : Sighted × Bool)
          → (visited.1 ≡ true → is_among (tree.resolve_path (rel ++ root)) visited.0.matched ≡ true)
          → IsReachedOr rel (d ∷ ds) (
              descend tree root profiles avoid_vss
                (walk tree root profiles avoid_vss depth)
                rel
                visited)
      descend_reaches depth rel d ds there found walked (s, true) hit =
          inl (ground (arith, hit refl))
      descend_reaches depth rel d ds there found walked (s, false) hit =
          let dirs : List Chars = keep (is_walked tree) (tree.subdirs (rel ++ root)) in
          let here : any (chars_eq d) dirs ≡ true =
            any-keep_mem d (is_walked tree) (tree.subdirs (rel ++ root)) found
              (λ c same. subst (λ e. is_walked tree e ≡ true) (eq_of_chars_eq d c same) walked) in
          further_down rel d ds
            (walk_each tree root profiles avoid_vss (walk tree root profiles avoid_vss depth) rel
              dirs s)
            (walk_each_reaches tree root profiles avoid_vss (IsReachedOr (d ∷ rel) ds)
              (outcome_kept (d ∷ rel) ds) depth rel d there dirs s here)

      pub walk_reaches :
          (ds : List Chars) (depth : ℕ) (rel : FolderPath) (s : Sighted)
          → down rel ds ≡ at
          → length ds ≤ depth
          → goes_down rel ds ≡ true
          → IsReachedOr rel ds (walk tree root profiles avoid_vss depth rel s)
      unfolding walk
      walk_reaches [] depth rel s end deep goes = inr (
          walk_after_visit tree root profiles avoid_vss P keeps depth rel s
            (subst (λ r. P (visit_folder tree root profiles avoid_vss r s).0) (sym end) (holds s)))
      walk_reaches (d ∷ ds) zero rel s end deep goes = absurd (omega (arith, deep))
      walk_reaches (d ∷ ds) (suc depth) rel s end deep goes =
          descend_reaches depth rel d ds
            (λ s.
              walk_reaches ds depth (d ∷ rel) s end (omega (arith, deep)) (ground (arith, goes)))
            (ground (arith, goes)) (ground (arith, goes))
            (visit_folder tree root profiles avoid_vss rel s) (visit_folder-hit rel s)
