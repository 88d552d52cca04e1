-- ===== src/Detection/Walk/Justified.antt =====
-- Why each machine is there (src/artifact_engine/core/detector.py).
use artifact_engine.Prelude.{
  ℕ, ◌≡◌, refl, inl, inr, Bool, true, false, not, ◌&&◌, ◌||◌, Option, none, some, List, [], ◌∷◌,
  ◌++◌, any, all, all-append, if◌then◌else◌, Bool-cases, arith,
}
use artifact_engine.Prelude.Chars.{Chars, chars_eq, chars_eq_refl, codes}
use artifact_engine.Detection.{FolderPath, parent, name_of, is_at_or_above, Machine, Profile, Tree}
use artifact_engine.Detection.Profiles.{windows, profile_matches}
use artifact_engine.Detection.Walk.{
  Sighted, nothing, starts_vss, vss_paths, vss_siblings, vss_machines, live_machine, lr_machine,
  kape_name, with_machine, noted, visit_folder, walk, reconcile_one, reconcile, detect_machines,
}
use artifact_engine.Detection.Walk.Steps.{first_match-cases, walk_keeps}

all-of_append :
    {A : Type 0} (test : A → Bool) (xs ys : List A)
    → all test xs ≡ true
    → all test ys ≡ true
    → all test (xs ++ ys) ≡ true
all-of_append test xs ys h k = rw (all-append test xs ys) (ground (arith, h, k))

module _ (tree : Tree) (root : FolderPath) (profiles : List Profile) (avoid_vss : Bool) where
  -- A shadow copy by its name; else a folder that its profile matches, or one with a LiveResponse.
  abbrev pub is_justified : Machine → Bool
  is_justified m =
      if m.is_vss
      then not avoid_vss && starts_vss (tree.upper (name_of m.path))
      else any (λ p. chars_eq p.id m.profile_id && profile_matches tree m.path p) profiles
        || (chars_eq m.profile_id (codes "windows_liveresponse") && tree.is_lr_dir m.path)

  is_justified-vss_machines :
      (name source : Chars) (p : Profile) (above : FolderPath) (names : Option (List Chars))
      → avoid_vss ≡ false
      → all is_justified (vss_machines tree name source p (vss_paths tree above names)) ≡ true
  is_justified-vss_machines name source p above none h = refl
  is_justified-vss_machines name source p above (some []) h = refl
  is_justified-vss_machines name source p above (some (d ∷ names)) h =
      elim (Bool-cases (starts_vss (tree.upper d))) [
        | inl copy ↦
            rw (copy, copy)
              (ground (arith, h, is_justified-vss_machines name source p above (some names) h))
        | inr other ↦ rw other (is_justified-vss_machines name source p above (some names) h)
      ]

  is_justified-if_vss :
      (name source : Chars) (p : Profile) (base : FolderPath)
      → all is_justified (
          if not avoid_vss && chars_eq p.os windows
          then vss_machines tree name source p (vss_siblings tree base)
          else [])
        ≡ true
  unfolding vss_siblings
  is_justified-if_vss name source p base =
      elim (Bool-cases (not avoid_vss && chars_eq p.os windows)) [
        | inl wanted ↦ rw wanted (
            is_justified-vss_machines name source p (parent base) (tree.sorted_dirs (parent base))
              (ground (arith, wanted)))
        | inr unwanted ↦ rw unwanted refl
      ]

  abbrev AllJustified : Sighted → Type 0
  AllJustified s =
      (all is_justified s.machines ≡ true)
      × (all (λ rel. tree.is_lr_dir (rel ++ root)) s.lr_only ≡ true)

  with_machine-AllJustified :
      (rel : FolderPath) (p : Profile) (s : Sighted)
      → any (λ q. chars_eq q.id p.id && profile_matches tree (rel ++ root) q) profiles ≡ true
      → AllJustified s
      → AllJustified (with_machine tree root profiles avoid_vss rel p s)
  unfolding with_machine live_machine
  with_machine-AllJustified rel p s fits h =
      let live : Machine = live_machine tree rel (rel ++ root) p in
      (
        all-of_append is_justified s.machines
            (live
              ∷ (if not avoid_vss && chars_eq p.os windows
                  then vss_machines tree live.name live.source p (vss_siblings tree (rel ++ root))
                  else []))
            h.0 (ground (arith, fits, is_justified-if_vss live.name live.source p (rel ++ root))),
        h.1,
      )

  noted-AllJustified :
      (rel : FolderPath) (s : Sighted)
      → AllJustified s
      → AllJustified (noted tree root profiles avoid_vss rel s)
  noted-AllJustified rel s h = elim (Bool-cases (tree.is_lr_dir (rel ++ root))) [
    | inl here ↦ rw here (
      h.0,
      all-of_append (λ rel. tree.is_lr_dir (rel ++ root)) s.lr_only (rel ∷ []) h.1
          (ground (arith, here)),
    )
    | inr not_here ↦ rw not_here h
  ]

  visit_folder-AllJustified :
      (rel : FolderPath) (s : Sighted)
      → AllJustified s
      → AllJustified (visit_folder tree root profiles avoid_vss rel s).0
  unfolding visit_folder
  visit_folder-AllJustified rel s h =
      let before : Sighted = noted tree root profiles avoid_vss rel s in
      elim (first_match-cases tree root profiles avoid_vss rel profiles before) [
        | inl (e, none_left) ↦ rw e (noted-AllJustified rel s h)
        | inr (p, e, new, fits) ↦
            rw e (with_machine-AllJustified rel p before fits (noted-AllJustified rel s h))
      ]

  reconcile_one-justified :
      (rel : FolderPath) (s : Sighted)
      → tree.is_lr_dir (rel ++ root) ≡ true
      → all is_justified s.machines ≡ true
      → all is_justified (reconcile_one tree root profiles avoid_vss rel s).machines ≡ true
  unfolding reconcile_one
  reconcile_one-justified rel s lr h =
      elim (Bool-cases (any (is_at_or_above (tree.resolve_path (rel ++ root))) s.matched)) [
        | inl carried ↦ rw carried h
        | inr lost ↦ rw lost (
            all-of_append is_justified s.machines
              (lr_machine tree (kape_name profiles) rel (rel ++ root) ∷ []) h
              (ground (arith, lr, chars_eq_refl (codes "windows_liveresponse"))))
      ]

  reconcile-justified :
      (rels : List FolderPath) (s : Sighted)
      → all (λ rel. tree.is_lr_dir (rel ++ root)) rels ≡ true
      → all is_justified s.machines ≡ true
      → all is_justified (reconcile tree root profiles avoid_vss rels s).machines ≡ true
  unfolding reconcile
  reconcile-justified [] s lr h = h
  reconcile-justified (rel ∷ rels) s lr h =
      reconcile-justified rels (reconcile_one tree root profiles avoid_vss rel s)
        (ground (arith, lr)) (reconcile_one-justified rel s (ground (arith, lr)) h)

  -- Every machine is there for a reason: a shadow copy only when they are wanted and by its name, any
  -- other because its folder matches a profile of its id or holds a LiveResponse.
  pub detect_machines_justified :
      (max_depth : ℕ)
      → all is_justified (detect_machines tree root profiles avoid_vss max_depth).machines ≡ true
  unfolding detect_machines
  detect_machines_justified max_depth =
      let s : Sighted = walk tree root profiles avoid_vss max_depth [] nothing in
      let h : AllJustified s =
        walk_keeps tree root profiles avoid_vss AllJustified visit_folder-AllJustified max_depth []
          nothing (refl, refl) in
      reconcile-justified s.lr_only s h.1 h.0
