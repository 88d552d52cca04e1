-- ===== src/Scheduler/Skips/Settled.antt =====
-- Which tasks are accounted as cached, read from the tasks that run in the end
-- (src/artifact_engine/core/scheduler.py).
use artifact_engine.Prelude.{
  ◌≡◌, sym, ap, ◌∙◌, subst, Bool, false, not, ◌&&◌, ◌||◌, List, [], ◌∷◌, ◌++◌, append-nil, map,
  keep, All, if◌then◌else◌,
}
use artifact_engine.Scheduler.Waiting.{Task, key}
use artifact_engine.Scheduler.Skips.{
  Answers, Key, has_rerun_dep, Skips, no_skips, skip_one, skip_all,
}
use artifact_engine.Scheduler.Skips.Round.{
  awaits_rerun-append, InOrder, no_more, later_no_dep, keys_if, entries_if, is_stale, is_pending,
  needs_run, skip_one_lem, skip_one-same_deps,
}

module _ (is_older : Task → Bool) (answers : Answers) where
  abbrev needs : List Key → Task → Bool
  needs = needs_run is_older answers

  abbrev waits_in : List Key → Task → Bool
  waits_in = is_pending is_older answers

  -- What a round adds, by what runs in the end.
  abbrev Follows : List Task → Skips → Skips → Type 0
  Follows tasks s final =
      (final.rerun ≡ s.rerun ++ map key (keep (needs final.rerun) tasks))
      × (final.to_run ≡ s.to_run ++ keep (needs final.rerun) tasks)
      × (final.stale_keys ≡ s.stale_keys ++ map key (keep (is_stale is_older answers) tasks))
      × (final.pending_keys ≡ s.pending_keys ++ map key (keep (waits_in final.rerun) tasks))
      × (final.cached ≡ s.cached ++ keep (λ t. not (needs final.rerun t)) tasks)

  same_deps :
      (t : Task) (tasks : List Task) (s final : Skips)
      → All (λ u. has_rerun_dep t (key u ∷ []) ≡ false) (t ∷ tasks)
      → final.rerun
        ≡ (skip_one is_older answers t s).rerun ++ map key (keep (needs final.rerun) tasks)
      → has_rerun_dep t final.rerun ≡ has_rerun_dep t s.rerun
  same_deps t tasks s final h e =
      let now : List Key = (skip_one is_older answers t s).rerun in
      let more : List Key = map key (keep (needs final.rerun) tasks) in
      ap (has_rerun_dep t) e
      ∙ awaits_rerun-append t.m_idx t.volume.path t.parser.depends_on now more
      ∙ no_more (has_rerun_dep t now) (has_rerun_dep t more)
          (later_no_dep t (needs final.rerun) tasks h.1)
      ∙ skip_one-same_deps is_older answers t s h.0

  Follows-cons :
      (t : Task) (tasks : List Task) (s final : Skips)
      → has_rerun_dep t final.rerun ≡ has_rerun_dep t s.rerun
      → Follows tasks (skip_one is_older answers t s) final
      → Follows (t ∷ tasks) s final
  Follows-cons t tasks s final same (rerun, runs, stale, pending, cached) =
      let (rerun', runs', stale', pending', cached') = skip_one_lem is_older answers t s in
      let same_need : needs final.rerun t ≡ needs s.rerun t =
        ap (λ b. is_older t || (not (answers.is_cached t) || (not (answers.unchanged t) || b)))
          same in
      let same_wait : waits_in final.rerun t ≡ waits_in s.rerun t =
        ap (λ b. not (is_older t) && (answers.is_cached t && (answers.unchanged t && b))) same in
      (
        rerun
            ∙ ap (λ l. l ++ map key (keep (needs final.rerun) tasks)) rerun'
            ∙ keys_if key (needs s.rerun t) s.rerun t (keep (needs final.rerun) tasks)
            ∙ ap
                (λ b.
                  s.rerun
                  ++ map key (
                      if b
                      then t ∷ keep (needs final.rerun) tasks
                      else keep (needs final.rerun) tasks))
                (sym same_need),
        runs
            ∙ ap (λ l. l ++ keep (needs final.rerun) tasks) runs'
            ∙ entries_if (needs s.rerun t) s.to_run t (keep (needs final.rerun) tasks)
            ∙ ap
                (λ b.
                  s.to_run
                  ++ (if b
                      then t ∷ keep (needs final.rerun) tasks
                      else keep (needs final.rerun) tasks))
                (sym same_need),
        stale
            ∙ ap (λ l. l ++ map key (keep (is_stale is_older answers) tasks)) stale'
            ∙ keys_if key (is_stale is_older answers t) s.stale_keys t
                (keep (is_stale is_older answers) tasks),
        pending
            ∙ ap (λ l. l ++ map key (keep (waits_in final.rerun) tasks)) pending'
            ∙ keys_if key (waits_in s.rerun t) s.pending_keys t (keep (waits_in final.rerun) tasks)
            ∙ ap
                (λ b.
                  s.pending_keys
                  ++ map key (
                      if b
                      then t ∷ keep (waits_in final.rerun) tasks
                      else keep (waits_in final.rerun) tasks))
                (sym same_wait),
        cached
            ∙ ap (λ l. l ++ keep (λ t. not (needs final.rerun t)) tasks) cached'
            ∙ entries_if (not (needs s.rerun t)) s.cached t
                (keep (λ t. not (needs final.rerun t)) tasks)
            ∙ ap
                (λ b.
                  s.cached
                  ++ (if not b
                      then t ∷ keep (λ t. not (needs final.rerun t)) tasks
                      else keep (λ t. not (needs final.rerun t)) tasks))
                (sym same_need),
      )

  skip_all-Follows :
      (tasks : List Task) (s : Skips)
      → InOrder tasks
      → Follows tasks s (skip_all is_older answers tasks s)
  unfolding skip_all
  skip_all-Follows [] s h = (
    sym (append-nil s.rerun),
    sym (append-nil s.to_run),
    sym (append-nil s.stale_keys),
    sym (append-nil s.pending_keys),
    sym (append-nil s.cached),
  )
  skip_all-Follows (t ∷ tasks) s h =
      let next : Skips = skip_one is_older answers t s in
      let final : Skips = skip_all is_older answers tasks next in
      let all = skip_all-Follows tasks next h.1 in
      Follows-cons t tasks s final (same_deps t tasks s final h.0 all.0) all

  -- If no task stands behind one that depends on it, then the tasks that run in the end are those
  -- whose marker is older than that of a dependency, that are not cached, whose lists were edited, or of
  -- which a dependency on their machine and volume runs; all others are accounted as cached. Stale are
  -- those with an older marker or, being cached, with edited lists, and pending those that only run for
  -- a dependency.
  pub skip_all_lem :
      (tasks : List Task)
      → InOrder tasks
      → let final : Skips = skip_all is_older answers tasks no_skips in
        (final.to_run ≡ keep (needs_run is_older answers (map key final.to_run)) tasks)
        × (final.cached
            ≡ keep (λ t. not (needs_run is_older answers (map key final.to_run) t)) tasks)
        × (final.stale_keys ≡ map key (keep (is_stale is_older answers) tasks))
        × (final.pending_keys
            ≡ map key (keep (is_pending is_older answers (map key final.to_run)) tasks))
        × (final.rerun ≡ map key final.to_run)
  skip_all_lem tasks h =
      let final : Skips = skip_all is_older answers tasks no_skips in
      let (rerun, runs, stale, pending, cached) = skip_all-Follows tasks no_skips h in
      let same : final.rerun ≡ map key final.to_run = rerun ∙ ap (map key) (sym runs) in
      (
        subst (λ r. final.to_run ≡ keep (needs_run is_older answers r) tasks) same runs,
        subst (λ r. final.cached ≡ keep (λ t. not (needs_run is_older answers r t)) tasks) same
            cached,
        stale,
        subst (λ r. final.pending_keys ≡ map key (keep (is_pending is_older answers r) tasks)) same
            pending,
        same,
      )
