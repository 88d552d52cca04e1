-- ===== src/Registry/Warnings.antt =====
-- When `_check_dependencies` of src/artifact_engine/registry.py is silent.
use artifact_engine.Prelude.{
  ◌≡◌, ◌↔◌, refl, ◌⊎◌, inl, inr, String, true, false, List, [], ◌∷◌, ◌++◌, All, Bool-cases,
}
use artifact_engine.Prelude.Texts.{str_eq, has}
use artifact_engine.Registry.{
  Links, Warning, replaced_warnings, dependency_warnings, warnings_from, ids_of_links,
  check_dependencies,
}

append_empty : (xs ys : List Warning) → (xs ++ ys ≡ []) ↔ ((xs ≡ []) × (ys ≡ []))
append_empty [] ys = (λ h. (refl, h), λ h. h.1)
append_empty (x ∷ xs) ys = (λ h. cc, λ h. cc)

-- Nothing a parser replaces is still there, and everything it depends on is.
abbrev pub IsLinked : List String → Links → Type 0
IsLinked ids p =
    All (λ old. has old ids ≡ false) p.replaces
    × All (λ dep. (str_eq dep "all" ≡ true) ⊎ (has dep ids ≡ true)) p.depends_on

module _ (ids : List String) where
  replaced-silent :
      (id : String) (replaces : List String)
      → (replaced_warnings ids id replaces ≡ []) ↔ All (λ old. has old ids ≡ false) replaces
  unfolding replaced_warnings
  replaced-silent id [] = (λ h. tt, λ h. refl)
  replaced-silent id (old ∷ replaces) = elim (Bool-cases (has old ids)) [
    | inl there ↦ rw there (λ h. cc, λ h. cc (h.0))
    | inr gone ↦
        rw gone
          (λ h. (refl, (replaced-silent id replaces).0 h), λ h. (replaced-silent id replaces).1 h.1)
  ]

  dependency-silent :
      (id : String) (depends_on : List String)
      → (dependency_warnings ids id depends_on ≡ [])
        ↔ All (λ dep. (str_eq dep "all" ≡ true) ⊎ (has dep ids ≡ true)) depends_on
  unfolding dependency_warnings
  dependency-silent id [] = (λ h. tt, λ h. refl)
  dependency-silent id (dep ∷ depends_on) = elim (Bool-cases (str_eq dep "all")) [
    | inl all ↦ rw all (
      λ h. (inl refl, (dependency-silent id depends_on).0 h),
      λ h. (dependency-silent id depends_on).1 h.1,
    )
    | inr named ↦ elim (Bool-cases (has dep ids)) [
      | inl there ↦
          rw (named, there)
            (
              λ h. (inr refl, (dependency-silent id depends_on).0 h),
              λ h. (dependency-silent id depends_on).1 h.1,
            )
      | inr absent ↦ rw (named, absent) (λ h. cc, λ h. elim h.0 [ inl e ↦ cc e | inr e ↦ cc e ])
    ]
  ]

  warnings_from-silent :
      (parsers : List Links) → (warnings_from ids parsers ≡ []) ↔ All (IsLinked ids) parsers
  unfolding warnings_from
  warnings_from-silent [] = (λ h. tt, λ h. refl)
  warnings_from-silent (p ∷ parsers) =
      let replaced = replaced_warnings ids p.id p.replaces in
      let missing = dependency_warnings ids p.id p.depends_on in
      (
        λ h.
            let (own, others) =
              (append_empty (replaced ++ missing) (warnings_from ids parsers)).0 h in
            let (r, d) = (append_empty replaced missing).0 own in
            (
              ((replaced-silent p.id p.replaces).0 r, (dependency-silent p.id p.depends_on).0 d),
              (warnings_from-silent parsers).0 others,
            ),
        λ h. (append_empty (replaced ++ missing) (warnings_from ids parsers)).1 (
          (append_empty replaced missing).1 (
            (replaced-silent p.id p.replaces).1 h.0.0,
            (dependency-silent p.id p.depends_on).1 h.0.1,
          ),
          (warnings_from-silent parsers).1 h.1,
        ),
      )

-- There is no warning exactly if no parser replaces one of the parsers, and each depends on parsers
-- among them, or on "all".
pub check_dependencies_iff :
    (parsers : List Links)
    → (check_dependencies parsers ≡ []) ↔ All (IsLinked (ids_of_links parsers)) parsers
unfolding check_dependencies
check_dependencies_iff parsers = warnings_from-silent (ids_of_links parsers) parsers
