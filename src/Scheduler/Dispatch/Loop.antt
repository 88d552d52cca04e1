-- ===== src/Scheduler/Dispatch/Loop.antt =====
-- The loop `while futs` of `run_all` (src/artifact_engine/core/scheduler.py).
use artifact_engine.Prelude.{
  ℕ, suc, ◌+◌, ◌<◌, ◌≤◌, ◌≡◌, refl, ap, inl, inr, Bool, List, [], ◌∷◌, length, All, arith,
}
use artifact_engine.Scheduler.Waiting.{Task}
use artifact_engine.Scheduler.Waiting.Counts.{SameLevels}
use artifact_engine.Scheduler.Release.{Slot, Older}
use artifact_engine.Scheduler.Dispatch.{proc, thread, Pool, State, begin_dispatch, Reached}
use artifact_engine.Scheduler.Dispatch.Lanes.{undone, running_in}
use artifact_engine.Scheduler.Dispatch.Pump.{SamePlan, SamePlan-trans}
use artifact_engine.Scheduler.Dispatch.Begin.{
  first_slots, length-first_slots, first_slots-IsLower, All-IsLower, begin-IsPumped,
}
use artifact_engine.Scheduler.Dispatch.Rounds.{Reached-Rounds}
use artifact_engine.Scheduler.Dispatch.Idle.{NoneOpen, All-NoneOpen, All-IsIdle, IsDone, All-IsDone}

module _ (pool : Pool) where
  module _ (is_pending is_stale : Task → Bool) (older : Older) (tasks : List Task) where
    abbrev pub begun : State
    begun = begin_dispatch pool older is_pending is_stale tasks

    -- In every state of the loop, no pool has more tasks running than its cap, its counter is the
    -- number of its running tasks, the slots are those of the tasks in their order, and no released
    -- task waits for a task that is not accounted; this when tasks of one machine and parser have
    -- one level.
    pub Reached-IsSafe :
        {n : ℕ} {st : State}
        → SameLevels tasks
        → Reached pool begun n st
        → (running_in pool proc st.slots ≤ pool.cap_proc)
          × (running_in pool thread st.slots ≤ pool.cap_thread)
          × (running_in pool proc st.slots ≡ st.busy_proc)
          × (running_in pool thread st.slots ≡ st.busy_thread)
          × SamePlan (first_slots is_pending is_stale tasks tasks) st.slots
          × All (NoneOpen st.slots) st.slots
    Reached-IsSafe {n} {st} same reached =
        let (p, plan) = begin-IsPumped is_pending is_stale pool older tasks same in
        let g = Reached-Rounds pool reached p in
        let c = g.pumped.consistent in
        (
          omega (arith, c.procs, c.proc_cap),
          omega (arith, c.threads, c.thread_cap),
          c.procs,
          c.threads,
          SamePlan-trans (first_slots is_pending is_stale tasks tasks) begun.slots st.slots plan
              g.plan,
          All-NoneOpen st.slots st.slots c.sound.counted,
        )

    -- When the loop ends, no future being left, every task is accounted; this when both pools have a
    -- worker and tasks of one machine and parser have one level.
    pub Reached-IsDone :
        {n : ℕ} {st : State}
        → SameLevels tasks
        → 0 < pool.cap_proc
        → 0 < pool.cap_thread
        → Reached pool begun n st
        → st.busy_proc + st.busy_thread ≡ 0
        → All IsDone st.slots
    Reached-IsDone {n} {st} same procs threads reached idle =
        let (p, plan) = begin-IsPumped is_pending is_stale pool older tasks same in
        let g = Reached-Rounds pool reached p in
        let c = g.pumped.consistent in
        let first = first_slots is_pending is_stale tasks tasks in
        let moved = SamePlan-trans first begun.slots st.slots plan g.plan in
        All-IsDone st.slots
          (All-IsIdle pool st.slots (omega (arith, c.procs, idle)) (omega (arith, c.threads, idle))
            (elim g.pumped.procs_full [ inl none ↦ none | inr full ↦ absurd (omega arith) ])
            (elim g.pumped.threads_full [ inl none ↦ none | inr full ↦ absurd (omega arith) ]))
          c.sound
          (All-IsLower first st.slots first st.slots moved moved
            (first_slots-IsLower is_pending is_stale tasks tasks same))

    undone-le : (slots : List Slot) → undone slots ≤ length slots
    undone-le [] = omega arith
    undone-le (s ∷ slots) = ground (arith, undone-le slots)

    length-SamePlan : (xs ys : List Slot) → SamePlan xs ys → length ys ≡ length xs
    length-SamePlan [] [] h = refl
    length-SamePlan [] (y ∷ ys) h = absurd h
    length-SamePlan (x ∷ xs) [] h = absurd h
    length-SamePlan (x ∷ xs) (y ∷ ys) h = ap suc (length-SamePlan xs ys h.1)

    -- The loop makes no more rounds than there are tasks, when tasks of one machine and parser have
    -- one level.
    pub rounds-le :
        {n : ℕ} {st : State} → SameLevels tasks → Reached pool begun n st → n ≤ length tasks
    rounds-le {n} {st} same reached =
        let (p, plan) = begin-IsPumped is_pending is_stale pool older tasks same in
        let g = Reached-Rounds pool reached p in
        let first = first_slots is_pending is_stale tasks tasks in
        omega (
          arith,
          g.fewer,
          undone-le begun.slots,
          length-SamePlan first begun.slots plan,
          length-first_slots is_pending is_stale tasks tasks,
        )
