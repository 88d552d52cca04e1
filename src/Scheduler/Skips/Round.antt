-- ===== src/Scheduler/Skips/Round.antt =====
-- One round of the loop that accounts cached tasks (src/artifact_engine/core/scheduler.py), and the
-- order that the tasks are in.
use artifact_engine.Prelude.{
  ℕ, ◌≡◌, refl, sym, ap, ◌∙◌, inl, inr, String, Bool, true, false, not, ◌&&◌, ◌||◌, List, [], ◌∷◌,
  ◌++◌, append-nil, append_assoc, map, keep, All, Bool-cases, if◌then◌else◌, arith,
}
use artifact_engine.Scheduler.Waiting.{Task, key}
use artifact_engine.Scheduler.Skips.{
  Answers, Key, is_among_rerun, awaits_rerun, has_rerun_dep, Skips, skip_one,
}

is_among_rerun-append :
    (k : Key) (xs ys : List Key)
    → is_among_rerun k (xs ++ ys) ≡ (is_among_rerun k xs || is_among_rerun k ys)
is_among_rerun-append k [] ys = refl
is_among_rerun-append k (x ∷ xs) ys = ground (arith, is_among_rerun-append k xs ys)

pub awaits_rerun-append :
    (i : ℕ) (path : String) (deps : List String) (xs ys : List Key)
    → awaits_rerun i path deps (xs ++ ys)
      ≡ (awaits_rerun i path deps xs || awaits_rerun i path deps ys)
awaits_rerun-append i path [] xs ys = refl
awaits_rerun-append i path (dep ∷ deps) xs ys =
    rw (is_among_rerun-append (i, path, dep) xs ys, awaits_rerun-append i path deps xs ys)
      (ground arith)

awaits_rerun-nil :
    (i : ℕ) (path : String) (deps : List String) → awaits_rerun i path deps [] ≡ false
awaits_rerun-nil i path [] = refl
awaits_rerun-nil i path (dep ∷ deps) = awaits_rerun-nil i path deps

-- No task is behind one that depends on it, or depends on itself.
abbrev pub InOrder : List Task → Type 0
InOrder [] = Unit
InOrder (t ∷ tasks) = All (λ u. has_rerun_dep t (key u ∷ []) ≡ false) (t ∷ tasks) × InOrder tasks

either_false : (b c : Bool) → b ≡ false → c ≡ false → (b || c) ≡ false
either_false b c h k = ground (arith, h, k)

pub no_more : (b c : Bool) → c ≡ false → (b || c) ≡ b
no_more b c k = ground (arith, k)

-- What runs of the tasks behind one is no dependency of it.
pub later_no_dep :
    (t : Task) (kept : Task → Bool) (tasks : List Task)
    → All (λ u. has_rerun_dep t (key u ∷ []) ≡ false) tasks
    → has_rerun_dep t (map key (keep kept tasks)) ≡ false
later_no_dep t kept [] h = awaits_rerun-nil t.m_idx t.volume.path t.parser.depends_on
later_no_dep t kept (u ∷ tasks) h = elim (Bool-cases (kept u)) [
  | inl runs ↦ rw runs (
      awaits_rerun-append t.m_idx t.volume.path t.parser.depends_on (key u ∷ [])
        (map key (keep kept tasks))
      ∙ either_false (has_rerun_dep t (key u ∷ [])) (has_rerun_dep t (map key (keep kept tasks)))
          h.0 (later_no_dep t kept tasks h.1))
  | inr skipped ↦ rw skipped (later_no_dep t kept tasks h.1)
]

pub keys_if :
    {A B : Type 0} (f : A → B) (b : Bool) (xs : List B) (x : A) (rest : List A)
    → (xs ++ (if b then f x ∷ [] else [])) ++ map f rest
      ≡ xs ++ map f (if b then x ∷ rest else rest)
keys_if f true xs x rest = append_assoc xs (f x ∷ []) (map f rest)
keys_if f false xs x rest = ap (λ l. l ++ map f rest) (append-nil xs)

pub entries_if :
    {A : Type 0} (b : Bool) (xs : List A) (x : A) (rest : List A)
    → (xs ++ (if b then x ∷ [] else [])) ++ rest ≡ xs ++ (if b then x ∷ rest else rest)
entries_if true xs x rest = append_assoc xs (x ∷ []) rest
entries_if false xs x rest = ap (λ l. l ++ rest) (append-nil xs)

module _ (is_older : Task → Bool) (answers : Answers) where
  -- A marker older than that of a dependency, or a list that was edited.
  abbrev pub is_stale : Task → Bool
  is_stale t = is_older t || (answers.is_cached t && not (answers.unchanged t))

  abbrev pub is_pending : List Key → Task → Bool
  is_pending rerun t =
      not (is_older t) && (answers.is_cached t && (answers.unchanged t && has_rerun_dep t rerun))

  -- Whether a task runs, or may once its dependencies have ended, given what runs.
  abbrev pub needs_run : List Key → Task → Bool
  needs_run rerun t =
      is_older t
      || (not (answers.is_cached t) || (not (answers.unchanged t) || has_rerun_dep t rerun))

  pub skip_one_lem :
      (t : Task) (s : Skips)
      → ((skip_one is_older answers t s).rerun
          ≡ s.rerun ++ (if needs_run s.rerun t then key t ∷ [] else []))
        × ((skip_one is_older answers t s).to_run
            ≡ s.to_run ++ (if needs_run s.rerun t then t ∷ [] else []))
        × ((skip_one is_older answers t s).stale_keys
            ≡ s.stale_keys ++ (if is_stale t then key t ∷ [] else []))
        × ((skip_one is_older answers t s).pending_keys
            ≡ s.pending_keys ++ (if is_pending s.rerun t then key t ∷ [] else []))
        × ((skip_one is_older answers t s).cached
            ≡ s.cached ++ (if not (needs_run s.rerun t) then t ∷ [] else []))
  unfolding skip_one
  skip_one_lem t s =
      let same_rerun = sym (append-nil s.rerun) in
      let same_runs = sym (append-nil s.to_run) in
      let same_stale = sym (append-nil s.stale_keys) in
      let same_pending = sym (append-nil s.pending_keys) in
      let same_cached = sym (append-nil s.cached) in
      elim (Bool-cases (is_older t)) [
        | inl older ↦ rw older (refl, refl, refl, same_pending, same_cached)
        | inr newer ↦ elim (Bool-cases (answers.is_cached t)) [
          | inl held ↦ elim (Bool-cases (answers.unchanged t)) [
            | inl same ↦ elim (Bool-cases (has_rerun_dep t s.rerun)) [
              | inl waits ↦
                  rw (newer, held, same, waits) (refl, refl, same_stale, refl, same_cached)
              | inr idle ↦
                  rw (newer, held, same, idle)
                    (same_rerun, same_runs, same_stale, same_pending, refl)
            ]
            | inr edited ↦ rw (newer, held, edited) (refl, refl, refl, same_pending, same_cached)
          ]
          | inr not_held ↦ rw (newer, not_held) (refl, refl, same_stale, same_pending, same_cached)
        ]
      ]

  -- A round leaves what runs of a task's dependencies as it was.
  pub skip_one-same_deps :
      (t : Task) (s : Skips)
      → has_rerun_dep t (key t ∷ []) ≡ false
      → has_rerun_dep t (skip_one is_older answers t s).rerun ≡ has_rerun_dep t s.rerun
  skip_one-same_deps t s own =
      let rerun = (skip_one_lem t s).0 in
      elim (Bool-cases (needs_run s.rerun t)) [
        | inl needed ↦
            rw
              (
                rerun,
                needed,
                awaits_rerun-append t.m_idx t.volume.path t.parser.depends_on s.rerun (key t ∷ []),
                own,
              )
              (ground arith)
        | inr done ↦ rw (rerun, done, append-nil s.rerun) refl
      ]
