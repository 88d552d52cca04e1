-- ===== src/Scheduler/Dispatch/Begin.antt =====
-- What the loop `while futs` of `run_all` (src/artifact_engine/core/scheduler.py) starts from.
use artifact_engine.Prelude.{
  suc, ◌<◌, ◌≡◌, refl, ap, ◌∙◌, ◌⊎◌, inl, inr, Bool, false, List, [], ◌∷◌, length, Any, All, arith,
}
use artifact_engine.Scheduler.Waiting.{Task, MachineKey, machine_key, is_awaited, waiting_on}
use artifact_engine.Scheduler.Waiting.Counts.{
  SameLevels, awaited_tasks, length-waiting_on, waiting_on-level,
}
use artifact_engine.Scheduler.Release.{Slot, Older, slot_of, slots_of, start_from}
use artifact_engine.Scheduler.Release.Unblock.{opened, AllCounted}
use artifact_engine.Scheduler.Release.Finish.{awaited, start_from-IsStarted}
use artifact_engine.Scheduler.Dispatch.{Lane, proc, thread, Pool, State, pump, begin_dispatch}
use artifact_engine.Scheduler.Dispatch.Lanes.{running_in}
use artifact_engine.Scheduler.Dispatch.Pump.{
  SameTask, SamePlan, SamePlan-trans, IsSound, IsPumped, pump-IsPumped,
}
use artifact_engine.Scheduler.Dispatch.Complete.{
  All-of_HeldTo, AllKept-SamePlan, running_in-AllKept, length-AllKept,
}

-- What is waited for has a lower level.
abbrev pub IsLower : List Slot → Slot → Type 0
IsLower slots s =
    All (λ d. (is_awaited (machine_key d.task) s.waits ≡ false) ⊎ (d.task.level < s.task.level))
      slots

IsLower-SamePlan :
    (xs ys : List Slot) (s t : Slot) → SameTask s t → SamePlan xs ys → IsLower xs s → IsLower ys t
IsLower-SamePlan [] [] s t e p h = tt
IsLower-SamePlan [] (y ∷ ys) s t e p h = absurd p
IsLower-SamePlan (x ∷ xs) [] s t e p h = absurd p
IsLower-SamePlan (x ∷ xs) (y ∷ ys) s t e p h =
    (rw (e.task, e.waits, p.0.task) h.0, IsLower-SamePlan xs ys s t e p.1 h.1)

pub All-IsLower :
    (all alls xs ys : List Slot)
    → SamePlan all alls
    → SamePlan xs ys
    → All (IsLower all) xs
    → All (IsLower alls) ys
All-IsLower all alls [] [] a p h = tt
All-IsLower all alls [] (y ∷ ys) a p h = absurd p
All-IsLower all alls (x ∷ xs) [] a p h = absurd p
All-IsLower all alls (x ∷ xs) (y ∷ ys) a p h =
    (IsLower-SamePlan all alls x y p.0 a h.0, All-IsLower all alls xs ys a p.1 h.1)

module _ (is_pending is_stale : Task → Bool) where
  abbrev pub first_slots : List Task → List Task → List Slot
  first_slots all tasks = slots_of (slot_of all is_pending is_stale) tasks

  opened-first_slots :
      (all : List Task) (keys : List MachineKey) (tasks : List Task)
      → opened keys (first_slots all tasks) ≡ awaited_tasks keys tasks
  opened-first_slots all keys [] = refl
  opened-first_slots all keys (t ∷ tasks) = rw (opened-first_slots all keys tasks) refl

  pub length-first_slots : (all tasks : List Task) → length (first_slots all tasks) ≡ length tasks
  length-first_slots all [] = refl
  length-first_slots all (t ∷ tasks) = ap suc (length-first_slots all tasks)

  first_slots-AllCounted :
      (all tasks : List Task)
      → SameLevels all
      → AllCounted (awaited (first_slots all all) []) (first_slots all tasks)
  first_slots-AllCounted all [] same = tt
  first_slots-AllCounted all (t ∷ tasks) same = (
    (
      omega (arith, length-waiting_on all t same, opened-first_slots all (waiting_on all t) all),
      inl refl,
    ),
    first_slots-AllCounted all tasks same,
  )

  first_slots-IsLower' :
      (all : List Task) (t : Task) (tasks : List Task)
      → SameLevels all
      → ((d : Task) → Any (λ u. u ≡ d) tasks → Any (λ u. u ≡ d) all)
      → IsLower (first_slots all tasks) (slot_of all is_pending is_stale t)
  first_slots-IsLower' all t [] same sub = tt
  first_slots-IsLower' all t (d ∷ tasks) same sub = (
    waiting_on-level all t d same (sub d (inl refl)),
    first_slots-IsLower' all t tasks same (λ u m. sub u (inr m)),
  )

  pub first_slots-IsLower :
      (all tasks : List Task)
      → SameLevels all
      → All (IsLower (first_slots all all)) (first_slots all tasks)
  first_slots-IsLower all [] same = tt
  first_slots-IsLower all (t ∷ tasks) same =
      (first_slots-IsLower' all t all same (λ d m. m), first_slots-IsLower all tasks same)

  module _ (pool : Pool) where
    idle_first : (l : Lane) (all tasks : List Task) → running_in pool l (first_slots all tasks) ≡ 0
    idle_first l all [] = refl
    idle_first l all (t ∷ tasks) = omega (arith, idle_first l all tasks)

    pub begin-IsPumped :
        (older : Older) (tasks : List Task)
        → SameLevels tasks
        → IsPumped pool (begin_dispatch pool older is_pending is_stale tasks)
          × SamePlan
              (first_slots tasks tasks)
              (begin_dispatch pool older is_pending is_stale tasks).slots
    unfolding begin_dispatch
    begin-IsPumped older tasks same =
        let slots = first_slots tasks tasks in
        let begun = start_from older (length tasks) 0 slots in
        let started =
          start_from-IsStarted older (length tasks) 0 (length tasks) slots (omega arith)
            (first_slots-AllCounted tasks tasks same) tt in
        let size : length begun ≡ length tasks =
          length-AllKept slots begun started.kept ∙ length-first_slots tasks tasks in
        let sound : IsSound begun = record {
          counted = started.counted;
          held = All-of_HeldTo begun (rw size started.held);
        } in
        let st : State = record { slots = begun; busy_proc = 0; busy_thread = 0 } in
        let plan = AllKept-SamePlan slots begun started.kept in
        let (p, q, _) = pump-IsPumped pool st (record {
          sound = sound;
          procs =
              running_in-AllKept pool proc slots begun started.kept ∙ idle_first proc tasks tasks;
          threads =
              running_in-AllKept pool thread slots begun started.kept
              ∙ idle_first thread tasks tasks;
          proc_cap = omega arith;
          thread_cap = omega arith;
        }) in
        (p, SamePlan-trans slots begun (pump pool st).slots plan q)
