-- ===== src/Scheduler/Run/Ends.antt =====
-- Whatever was cached before, the loop of `run_all` (src/artifact_engine/core/scheduler.py) ends with
-- every task accounted.
use artifact_engine.Prelude.{
  ℕ, zero, suc, ◌+◌, ◌<◌, ◌≤◌, ◌≡◌, refl, sym, ◌∙◌, subst, ◌⊎◌, inl, inr, Bool, true, false, some,
  List, [], ◌∷◌, ◌++◌, length, Any, All, All-at, All-of_at, Bool-cases, arith,
}
use artifact_engine.Scheduler.Manifest.{Parser, Machine}
use artifact_engine.Scheduler.Waiting.{Task, key, machine_key, same_machine_key}
use artifact_engine.Scheduler.Waiting.Counts.{SameLevels}
use artifact_engine.Scheduler.Release.{Status, waiting, ready, running, done, Slot, Older}
use artifact_engine.Scheduler.Release.Slots.{is_running}
use artifact_engine.Scheduler.Skips.{
  Answers, has_rerun_dep, Skips, no_skips, is_among_rerun, skip_one, skip_all,
}
use artifact_engine.Scheduler.Tasks.{run_tasks}
use artifact_engine.Scheduler.Tasks.Levelled.{run_tasks-SameLevels}
use artifact_engine.Scheduler.Dispatch.{Lane, proc, thread, Pool, State, RunsAt, Reached}
use artifact_engine.Scheduler.Dispatch.Lanes.{running_in}
use artifact_engine.Scheduler.Dispatch.Idle.{IsDone}
use artifact_engine.Scheduler.Dispatch.Loop.{Reached-IsSafe, Reached-IsDone, rounds-le}
use artifact_engine.Scheduler.Run.{planned_pools, pool_of, start_of}

SameLevels-sub :
    (tasks some_tasks : List Task)
    → All (λ t. Any (λ u. u ≡ t) tasks) some_tasks
    → SameLevels tasks
    → SameLevels some_tasks
SameLevels-sub tasks some_tasks sub h =
    All-of_at
      (λ t.
        All (λ u. (same_machine_key (machine_key t) (machine_key u) ≡ false) ⊎ (t.level ≡ u.level))
          some_tasks)
      some_tasks
      (λ t mt.
        All-of_at
          (λ u. (same_machine_key (machine_key t) (machine_key u) ≡ false) ⊎ (t.level ≡ u.level))
          some_tasks
          (λ u mu.
            All-at
              (λ u.
                (same_machine_key (machine_key t) (machine_key u) ≡ false) ⊎ (t.level ≡ u.level))
              tasks u
              (All-at
                (λ t.
                  All
                    (λ u.
                      (same_machine_key (machine_key t) (machine_key u) ≡ false)
                      ⊎ (t.level ≡ u.level))
                    tasks)
                tasks t h (All-at (λ t. Any (λ u. u ≡ t) tasks) some_tasks t sub mt))
              (All-at (λ t. Any (λ u. u ≡ t) tasks) some_tasks u sub mu)))

All-snoc :
    {A : Type 0} (P : A → Type 0) (xs : List A) (x : A) → All P xs → P x → All P (xs ++ x ∷ [])
All-snoc P [] x h k = (k, tt)
All-snoc P (y ∷ xs) x h k = (h.0, All-snoc P xs x h.1 k)

module _ (is_older : Task → Bool) (answers : Answers) where
  skip_one-All :
      (P : Task → Type 0) (t : Task) (s : Skips)
      → P t
      → All P s.to_run
      → All P (skip_one is_older answers t s).to_run
  unfolding skip_one
  skip_one-All P t s k h = elim (Bool-cases (is_older t)) [
    | inl older ↦ rw older (All-snoc P s.to_run t h k)
    | inr newer ↦ elim (Bool-cases (answers.is_cached t)) [
      | inl held ↦ elim (Bool-cases (answers.unchanged t)) [
        | inl same ↦ elim (Bool-cases (has_rerun_dep t s.rerun)) [
          | inl waits ↦ rw (newer, held, same, waits) (All-snoc P s.to_run t h k)
          | inr idle ↦ rw (newer, held, same, idle) h
        ]
        | inr edited ↦ rw (newer, held, edited) (All-snoc P s.to_run t h k)
      ]
      | inr not_held ↦ rw (newer, not_held) (All-snoc P s.to_run t h k)
    ]
  ]

  skip_all-All :
      (P : Task → Type 0) (tasks : List Task) (s : Skips)
      → All P tasks
      → All P s.to_run
      → All P (skip_all is_older answers tasks s).to_run
  unfolding skip_all
  skip_all-All P [] s h k = k
  skip_all-All P (t ∷ tasks) s h k =
      skip_all-All P tasks (skip_one is_older answers t s) h.1 (skip_one-All P t s h.0 k)

  skip_all-SameLevels :
      (tasks : List Task)
      → SameLevels tasks
      → SameLevels (skip_all is_older answers tasks no_skips).to_run
  skip_all-SameLevels tasks h =
      SameLevels-sub tasks (skip_all is_older answers tasks no_skips).to_run
        (skip_all-All (λ t. Any (λ u. u ≡ t) tasks) tasks no_skips
          (All-of_at (λ t. Any (λ u. u ≡ t) tasks) tasks (λ t m. m)) tt)
        h

run_tasks-levels :
    (parsers : List Parser) (machines : List Machine) (tasks : List Task)
    → run_tasks parsers machines ≡ some tasks
    → SameLevels tasks
run_tasks-levels parsers machines tasks e =
    let (made, e', same) = run_tasks-SameLevels parsers machines in
    let both : some made ≡ some tasks = sym e' ∙ e in
    let equal : made ≡ tasks = cc both in subst SameLevels equal same

status-running : (st : Status) → is_running st ≡ true → st ≡ running
status-running waiting h = cc
status-running ready h = cc
status-running running h = refl
status-running done h = cc

-- Where the tasks that run in a lane are counted, there is one.
running_in-RunsAt :
    (pool : Pool) (lane : Lane) (slots : List Slot)
    → 0 < running_in pool lane slots
    → (i : ℕ) × RunsAt i slots
running_in-RunsAt pool lane [] h = absurd (omega (arith, h))
running_in-RunsAt pool lane (s ∷ slots) h = elim (Bool-cases (is_running s.status)) [
  | inl here ↦ (0, status-running s.status here)
  | inr idle ↦
      let (i, runs) = running_in-RunsAt pool lane slots (ground (arith, h, idle)) in (suc i, runs)
]

busy_cases : (p t : ℕ) → (p + t ≡ 0) ⊎ ((0 < p) ⊎ (0 < t))
busy_cases zero zero = inl (omega arith)
busy_cases (suc p) t = inr (inl (omega arith))
busy_cases zero (suc t) = inr (inr (omega arith))

-- For the tasks of any parsers and machines, whatever the markers and the lists say: in every state of
-- the loop, either no future is left and every task that was not accounted as cached before is
-- accounted, or a task runs; and the loop has made no more rounds than there are such tasks.
pub run_all_ends :
    (parsers : List Parser) (machines : List Machine) (tasks : List Task) (is_older : Task → Bool)
    (answers : Answers) (max_workers : ℕ) (parse_processes : Bool) (older : Older) {n : ℕ}
    {st : State}
    → run_tasks parsers machines ≡ some tasks
    → let s : Skips = skip_all is_older answers tasks no_skips in
      Reached
        (pool_of (planned_pools max_workers parse_processes s.to_run))
        (start_of max_workers parse_processes older s)
        n
        st
      → (((st.busy_proc + st.busy_thread ≡ 0) × All IsDone st.slots)
          ⊎ ((i : ℕ) × RunsAt i st.slots))
        × (n ≤ length s.to_run)
unfolding start_of
run_all_ends parsers machines tasks is_older answers max_workers parse_processes older {n} {st} made
      reached =
    let s : Skips = skip_all is_older answers tasks no_skips in
    let pool : Pool = pool_of (planned_pools max_workers parse_processes s.to_run) in
    let is_pending : Task → Bool = λ t. is_among_rerun (key t) s.pending_keys in
    let is_stale : Task → Bool = λ t. is_among_rerun (key t) s.stale_keys in
    let same =
      skip_all-SameLevels is_older answers tasks (run_tasks-levels parsers machines tasks made) in
    let (_, _, procs_run, threads_run, _, _) =
      Reached-IsSafe pool is_pending is_stale older s.to_run same reached in
    (
      elim (busy_cases st.busy_proc st.busy_thread) [
        | inl idle ↦ inl (
          idle,
          Reached-IsDone pool is_pending is_stale older s.to_run same (omega arith) (omega arith)
              reached idle,
        )
        | inr (inl procs) ↦ inr (running_in-RunsAt pool proc st.slots (rw procs_run procs))
        | inr (inr threads) ↦ inr (running_in-RunsAt pool thread st.slots (rw threads_run threads))
      ],
      rounds-le pool is_pending is_stale older s.to_run same reached,
    )
