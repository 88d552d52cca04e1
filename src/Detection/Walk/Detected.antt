-- ===== src/Detection/Walk/Detected.antt =====
-- Every folder of the tree that a profile matches, and every LiveResponse, has its machine
-- (src/artifact_engine/core/detector.py).
use artifact_engine.Prelude.{
  ℕ, ◌≤◌, ◌≡◌, refl, subst, inl, inr, Bool, true, ◌||◌, List, [], ◌∷◌, ◌++◌, append-nil, any,
  length, Bool-cases, arith,
}
use artifact_engine.Prelude.Chars.{Chars}
use artifact_engine.Detection.{
  FolderPath, path_eq, path_eq_refl, eq_of_path_eq, is_at_or_above, Profile, Tree,
}
use artifact_engine.Detection.Profiles.{profile_matches}
use artifact_engine.Detection.Walk.{
  Sighted, nothing, is_among, with_machine, noted, visit_folder, walk, reconcile_one, reconcile,
  detect_machines,
}
use artifact_engine.Detection.Walk.Steps.{first_match-cases, reconcile_keeps}
use artifact_engine.Detection.Walk.Once.{is_among-append, live_resolved, detect_machines_once}
use artifact_engine.Detection.Walk.Complete.{
  down, goes_down, is_covered, is_covered_end, is_covered_mono, visit_folder-matched,
  visit_folder_profile, walk_reaches,
}

is_at_or_above_refl : (p : FolderPath) → is_at_or_above p p ≡ true
unfolding is_at_or_above path_eq
is_at_or_above_refl [] = refl
is_at_or_above_refl (c ∷ p) = ground (arith, path_eq_refl (c ∷ p))

any-snoc_at :
    {A : Type 0} (test : A → Bool) (xs ys : List A)
    → any test (xs ++ ys) ≡ (any test xs || any test ys)
any-snoc_at test [] ys = refl
any-snoc_at test (x ∷ xs) ys = ground (arith, any-snoc_at test xs ys)

module _ (tree : Tree) (root : FolderPath) (profiles : List Profile) (avoid_vss : Bool) where
  reconcile_one-matched :
      (rel : FolderPath) (s : Sighted)
      → (more : List FolderPath) × ((reconcile_one tree root profiles avoid_vss rel s).matched
          ≡ s.matched ++ more)
  unfolding reconcile_one
  reconcile_one-matched rel s =
      let rp : FolderPath = tree.resolve_path (rel ++ root) in
      elim (Bool-cases (any (is_at_or_above rp) s.matched)) [
        | inl carried ↦ ([], rw (carried, append-nil s.matched) refl)
        | inr lost ↦ (rp ∷ [], rw lost refl)
      ]

  -- What is matched, or carries a folder's LiveResponse, stays so.
  reconcile-is_covered :
      (at : FolderPath) (ds : List Chars) (rels : List FolderPath) (s : Sighted)
      → is_covered tree root at ds s.matched ≡ true
      → is_covered tree root at ds (reconcile tree root profiles avoid_vss rels s).matched ≡ true
  reconcile-is_covered at ds =
      reconcile_keeps tree root profiles avoid_vss
        (λ s. is_covered tree root at ds s.matched ≡ true)
        (λ rel s h.
          let (more, e) = reconcile_one-matched rel s in
          rw e (is_covered_mono tree root at ds s.matched more h))

  abbrev IsCarried : FolderPath → Sighted → Type 0
  IsCarried rel s = any (is_at_or_above (tree.resolve_path (rel ++ root))) s.matched ≡ true

  reconcile_one-IsCarried :
      (at rel : FolderPath) (s : Sighted)
      → IsCarried at s
      → IsCarried at (reconcile_one tree root profiles avoid_vss rel s)
  reconcile_one-IsCarried at rel s h =
      let (more, e) = reconcile_one-matched rel s in
      rw (e, any-snoc_at (is_at_or_above (tree.resolve_path (at ++ root))) s.matched more)
        (ground (arith, h))

  reconcile_one_carries :
      (rel : FolderPath) (s : Sighted)
      → IsCarried rel (reconcile_one tree root profiles avoid_vss rel s)
  unfolding reconcile_one
  reconcile_one_carries rel s =
      let rp : FolderPath = tree.resolve_path (rel ++ root) in
      elim (Bool-cases (any (is_at_or_above rp) s.matched)) [
        | inl carried ↦ rw carried carried
        | inr lost ↦
            rw (lost, any-snoc_at (is_at_or_above rp) s.matched (rp ∷ []), is_at_or_above_refl rp)
              (ground arith)
      ]

  reconcile_carries :
      (rel : FolderPath) (rels : List FolderPath) (s : Sighted)
      → is_among rel rels ≡ true
      → IsCarried rel (reconcile tree root profiles avoid_vss rels s)
  unfolding reconcile
  reconcile_carries rel [] s h = cc
  reconcile_carries rel (r ∷ rels) s h = elim (Bool-cases (path_eq rel r)) [
    | inl same ↦
        reconcile_keeps tree root profiles avoid_vss (IsCarried rel) (reconcile_one-IsCarried rel)
          rels (reconcile_one tree root profiles avoid_vss r s)
          (subst (λ q. IsCarried rel (reconcile_one tree root profiles avoid_vss q s))
            (eq_of_path_eq rel r same) (reconcile_one_carries rel s))
    | inr other ↦
        reconcile_carries rel rels (reconcile_one tree root profiles avoid_vss r s)
          (ground (arith, h, other))
  ]

  -- A visit keeps the folders noted for their LiveResponse and notes its own.
  visit_folder-lr_only :
      (rel : FolderPath) (s : Sighted)
      → (visit_folder tree root profiles avoid_vss rel s).0.lr_only
        ≡ (noted tree root profiles avoid_vss rel s).lr_only
  unfolding visit_folder with_machine
  visit_folder-lr_only rel s =
      elim (first_match-cases tree root profiles avoid_vss rel profiles
        (noted tree root profiles avoid_vss rel s)) [
          | inl (e, none_left) ↦ rw e refl
          | inr (p, e, new, fits) ↦ rw e refl
        ]

  visit_folder-is_noted :
      (at rel : FolderPath) (s : Sighted)
      → is_among at s.lr_only ≡ true
      → is_among at (visit_folder tree root profiles avoid_vss rel s).0.lr_only ≡ true
  visit_folder-is_noted at rel s h = elim (Bool-cases (tree.is_lr_dir (rel ++ root))) [
    | inl here ↦
        rw (visit_folder-lr_only rel s, here, is_among-append at s.lr_only (rel ∷ []))
          (ground (arith, h))
    | inr not_here ↦ rw (visit_folder-lr_only rel s, not_here) h
  ]

  visit_folder_notes :
      (rel : FolderPath) (s : Sighted)
      → tree.is_lr_dir (rel ++ root) ≡ true
      → is_among rel (visit_folder tree root profiles avoid_vss rel s).0.lr_only ≡ true
  visit_folder_notes rel s here =
      rw
        (
          visit_folder-lr_only rel s,
          here,
          is_among-append rel s.lr_only (rel ∷ []),
          path_eq_refl rel,
        )
        (ground arith)

  -- Every folder within the depth whose way down enters no shadow copy and no Velociraptor folder,
  -- and that some profile matches, has a machine in it or in a folder on the way to it.
  pub detect_machines_complete :
      (max_depth : ℕ) (ds : List Chars)
      → length ds ≤ max_depth
      → goes_down tree root [] ds ≡ true
      → any (profile_matches tree (down [] ds ++ root)) profiles ≡ true
      → is_covered tree root [] ds
          (live_resolved tree (detect_machines tree root profiles avoid_vss max_depth).machines)
        ≡ true
  unfolding detect_machines
  detect_machines_complete max_depth ds deep goes fits =
      let s : Sighted = walk tree root profiles avoid_vss max_depth [] nothing in
      let at : FolderPath = down [] ds in
      let once = detect_machines_once tree root profiles avoid_vss max_depth in
      let walked : is_covered tree root [] ds s.matched ≡ true =
        elim (walk_reaches tree root profiles avoid_vss at
          (λ s. is_among (tree.resolve_path (at ++ root)) s.matched ≡ true)
          (λ rel s h.
            let (more, e) = visit_folder-matched tree root profiles avoid_vss rel s in
            rw (e, is_among-append (tree.resolve_path (at ++ root)) s.matched more)
              (ground (arith, h)))
          (λ s. visit_folder_profile tree root profiles avoid_vss at s fits) ds max_depth [] nothing
          refl deep goes) [ inl h ↦ h | inr h ↦ is_covered_end tree root [] ds s.matched h ] in
      subst (λ ps. is_covered tree root [] ds ps ≡ true) once.1
        (reconcile-is_covered [] ds s.lr_only s walked)

  -- Every such folder that carries a LiveResponse has a machine in it, in a folder on the way to it
  -- or in one below it.
  pub liveresponse_complete :
      (max_depth : ℕ) (ds : List Chars)
      → length ds ≤ max_depth
      → goes_down tree root [] ds ≡ true
      → tree.is_lr_dir (down [] ds ++ root) ≡ true
      → (is_covered tree root [] ds
            (live_resolved tree (detect_machines tree root profiles avoid_vss max_depth).machines)
          || any (is_at_or_above (tree.resolve_path (down [] ds ++ root))) (
              live_resolved tree (detect_machines tree root profiles avoid_vss max_depth).machines))
        ≡ true
  unfolding detect_machines
  liveresponse_complete max_depth ds deep goes here =
      let s : Sighted = walk tree root profiles avoid_vss max_depth [] nothing in
      let at : FolderPath = down [] ds in
      let once = detect_machines_once tree root profiles avoid_vss max_depth in
      elim (walk_reaches tree root profiles avoid_vss at (λ s. is_among at s.lr_only ≡ true)
        (visit_folder-is_noted at) (λ s. visit_folder_notes at s here) ds max_depth [] nothing refl
        deep goes) [
          | inl h ↦ rw (← once.1) (ground (arith, reconcile-is_covered [] ds s.lr_only s h))
          | inr h ↦ rw (← once.1) (ground (arith, reconcile_carries at s.lr_only s h))
        ]
