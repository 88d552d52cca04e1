-- ===== src/Detection/Walk/Once.antt =====
-- No folder is detected twice (src/artifact_engine/core/detector.py).
use artifact_engine.Prelude.{
  ℕ, ◌≡◌, refl, sym, ap, ◌∙◌, subst, inl, inr, Bool, true, false, not, ◌&&◌, ◌||◌, List, [], ◌∷◌,
  ◌++◌, any, if◌then◌else◌, Bool-cases, arith,
}
use artifact_engine.Prelude.Chars.{Chars, chars_eq}
use artifact_engine.Detection.{
  FolderPath, path_eq, eq_of_path_eq, is_at_or_above, Machine, Profile, Tree,
}
use artifact_engine.Detection.Profiles.{windows}
use artifact_engine.Detection.Walk.{
  Sighted, nothing, is_among, vss_machines, vss_siblings, live_machine, with_machine, noted,
  visit_folder, walk, kape_name, lr_machine, reconcile_one, detect_machines,
}
use artifact_engine.Detection.Walk.Steps.{first_match-cases, walk_keeps, reconcile_keeps}

-- No path stands twice in a list.
abbrev pub no_repeat : List FolderPath → Bool
no_repeat [] = true
no_repeat (p ∷ ps) = not (is_among p ps) && no_repeat ps

path_eq_sym : (p q : FolderPath) → path_eq p q ≡ path_eq q p
path_eq_sym p q = elim (Bool-cases (path_eq p q)) [
  | inl same ↦ let e = eq_of_path_eq p q same in rw e refl
  | inr other ↦ elim (Bool-cases (path_eq q p)) [
    | inl same ↦ let e = eq_of_path_eq q p same in rw e refl
    | inr also ↦ other ∙ sym also
  ]
]

pub is_among-append :
    (p : FolderPath) (ps qs : List FolderPath)
    → is_among p (ps ++ qs) ≡ (is_among p ps || is_among p qs)
is_among-append p [] qs = refl
is_among-append p (q ∷ ps) qs = ground (arith, is_among-append p ps qs)

no_repeat-snoc :
    (ps : List FolderPath) (p : FolderPath)
    → no_repeat ps ≡ true
    → is_among p ps ≡ false
    → no_repeat (ps ++ p ∷ []) ≡ true
no_repeat-snoc [] p h new = refl
no_repeat-snoc (q ∷ ps) p h new =
    ground (arith, h, new, is_among-append q ps (p ∷ []), path_eq_sym p q, no_repeat-snoc ps p)

-- A folder at which no matched path lies is not among them.
is_among-carried :
    (rp : FolderPath) (ps : List FolderPath)
    → any (is_at_or_above rp) ps ≡ false
    → is_among rp ps ≡ false
unfolding is_at_or_above path_eq
is_among-carried rp [] h = refl
is_among-carried rp ([] ∷ ps) h = ground (arith, h, is_among-carried rp ps)
is_among-carried rp ((c ∷ p) ∷ ps) h = ground (arith, h, is_among-carried rp ps)

module _ (tree : Tree) where
  -- The folders of the machines that are no shadow copies.
  abbrev pub live_resolved : List Machine → List FolderPath
  live_resolved [] = []
  live_resolved (m ∷ ms) =
      let rest = live_resolved ms in if m.is_vss then rest else tree.resolve_path m.path ∷ rest

  live_resolved-append :
      (ms ns : List Machine) → live_resolved (ms ++ ns) ≡ live_resolved ms ++ live_resolved ns
  live_resolved-append [] ns = refl
  live_resolved-append (m ∷ ms) ns = elim (Bool-cases m.is_vss) [
    | inl copy ↦ rw copy (live_resolved-append ms ns)
    | inr live ↦ rw (live, live_resolved-append ms ns) refl
  ]

  live_resolved-vss_machines :
      (name source : Chars) (p : Profile) (vdirs : List FolderPath)
      → live_resolved (vss_machines tree name source p vdirs) ≡ []
  live_resolved-vss_machines name source p [] = refl
  live_resolved-vss_machines name source p (vdir ∷ vdirs) =
      live_resolved-vss_machines name source p vdirs

  live_resolved-if_vss :
      (wanted : Bool) (name source : Chars) (p : Profile) (vdirs : List FolderPath)
      → live_resolved (if wanted then vss_machines tree name source p vdirs else []) ≡ []
  live_resolved-if_vss true name source p vdirs = live_resolved-vss_machines name source p vdirs
  live_resolved-if_vss false name source p vdirs = refl

  -- The paths matched so far are those of the live machines, and none is there twice.
  abbrev IsSound : Sighted → Type 0
  IsSound s = (s.matched ≡ live_resolved s.machines) × (no_repeat s.matched ≡ true)

  module _ (root : FolderPath) (profiles : List Profile) (avoid_vss : Bool) where
    with_machine-IsSound :
        (rel : FolderPath) (p : Profile) (s : Sighted)
        → is_among (tree.resolve_path (rel ++ root)) s.matched ≡ false
        → IsSound s
        → IsSound (with_machine tree root profiles avoid_vss rel p s)
    unfolding with_machine live_machine
    with_machine-IsSound rel p s new h =
        let live : Machine = live_machine tree rel (rel ++ root) p in
        (
          (rw
              (
                live_resolved-append s.machines (
                    live
                    ∷ (if not avoid_vss && chars_eq p.os windows
                        then vss_machines tree live.name live.source p
                            (vss_siblings tree (rel ++ root))
                        else [])),
                live_resolved-if_vss (not avoid_vss && chars_eq p.os windows) live.name live.source
                    p (vss_siblings tree (rel ++ root)),
              )
              (ap (λ ps. ps ++ tree.resolve_path (rel ++ root) ∷ []) h.0)),
          no_repeat-snoc s.matched (tree.resolve_path (rel ++ root)) h.1 new,
        )

    noted-IsSound :
        (rel : FolderPath) (s : Sighted)
        → IsSound s
        → IsSound (noted tree root profiles avoid_vss rel s)
    noted-IsSound rel s h = elim (Bool-cases (tree.is_lr_dir (rel ++ root))) [
      | inl here ↦ rw here h
      | inr not_here ↦ rw not_here h
    ]

    pub noted-matched :
        (rel : FolderPath) (s : Sighted)
        → (noted tree root profiles avoid_vss rel s).matched ≡ s.matched
    noted-matched rel s = elim (Bool-cases (tree.is_lr_dir (rel ++ root))) [
      | inl here ↦ rw here refl
      | inr not_here ↦ rw not_here refl
    ]

    visit_folder-IsSound :
        (rel : FolderPath) (s : Sighted)
        → IsSound s
        → IsSound (visit_folder tree root profiles avoid_vss rel s).0
    unfolding visit_folder
    visit_folder-IsSound rel s h =
        let before : Sighted = noted tree root profiles avoid_vss rel s in
        elim (first_match-cases tree root profiles avoid_vss rel profiles before) [
          | inl (e, none_left) ↦ rw e (noted-IsSound rel s h)
          | inr (p, e, new, fits) ↦
              rw e (with_machine-IsSound rel p before new (noted-IsSound rel s h))
        ]

    reconcile_one-IsSound :
        (rel : FolderPath) (s : Sighted)
        → IsSound s
        → IsSound (reconcile_one tree root profiles avoid_vss rel s)
    unfolding reconcile_one
    reconcile_one-IsSound rel s h =
        let rp : FolderPath = tree.resolve_path (rel ++ root) in
        elim (Bool-cases (any (is_at_or_above rp) s.matched)) [
          | inl carried ↦ rw carried h
          | inr lost ↦
              rw
                (
                  lost,
                  live_resolved-append s.machines
                      (lr_machine tree (kape_name profiles) rel (rel ++ root) ∷ []),
                )
                (
                  ap (λ ps. ps ++ rp ∷ []) h.0,
                  no_repeat-snoc s.matched rp h.1 (is_among-carried rp s.matched lost),
                )
        ]

    detect_machines-IsSound :
        (max_depth : ℕ) → IsSound (detect_machines tree root profiles avoid_vss max_depth)
    unfolding detect_machines
    detect_machines-IsSound max_depth =
        reconcile_keeps tree root profiles avoid_vss IsSound reconcile_one-IsSound
          (walk tree root profiles avoid_vss max_depth [] nothing).lr_only
          (walk tree root profiles avoid_vss max_depth [] nothing)
          (walk_keeps tree root profiles avoid_vss IsSound visit_folder-IsSound max_depth [] nothing
            (refl, refl))

    -- No two machines stand in one folder, the shadow copies aside, and the folders of these
    -- machines are exactly those matched, in their order.
    pub detect_machines_once :
        (max_depth : ℕ)
        → (no_repeat
              (live_resolved (detect_machines tree root profiles avoid_vss max_depth).machines)
            ≡ true)
          × ((detect_machines tree root profiles avoid_vss max_depth).matched
              ≡ live_resolved (detect_machines tree root profiles avoid_vss max_depth).machines)
    detect_machines_once max_depth =
        let h = detect_machines-IsSound max_depth in
        (subst (λ ps. no_repeat ps ≡ true) h.0 h.1, h.0)
