-- ===== src/Scheduler/Dispatch/Rounds.antt =====
-- The rounds of the loop `while futs` of `run_all` (src/artifact_engine/core/scheduler.py).
use artifact_engine.Prelude.{ℕ, ◌+◌, ◌≤◌, arith}
use artifact_engine.Scheduler.Dispatch.{
  Pool, State, pump, complete, Completed, nothing_yet, and_one, Reached, at_start, round,
}
use artifact_engine.Scheduler.Dispatch.Lanes.{undone}
use artifact_engine.Scheduler.Dispatch.Pump.{
  SamePlan, SamePlan-refl, SamePlan-trans, IsConsistent, IsPumped, pump-IsPumped,
}
use artifact_engine.Scheduler.Dispatch.Complete.{complete-Completes}

module _ (pool : Pool) where
  -- What a batch of finished tasks leaves.
  pub record Goes (st u : State) : Type 0 where
    pub consistent : IsConsistent pool u
    pub plan : SamePlan st.slots u.slots
    pub fewer : undone u.slots ≤ undone st.slots

  Completed-Goes : {st u : State} → Completed pool st u → IsConsistent pool st → Goes st u
  Completed-Goes {st} nothing_yet c = record {
    consistent = c;
    plan = SamePlan-refl st.slots;
    fewer = omega arith;
  }
  Completed-Goes {st} (and_one {u} older i before r) c =
      let g = Completed-Goes before c in
      let one = complete-Completes pool older i u g.consistent r in
      record {
        consistent = one.consistent;
        plan = SamePlan-trans st.slots u.slots (complete pool older i u).slots g.plan one.plan;
        fewer = omega (arith, g.fewer, one.fewer);
      }

  -- Each round accounts a task.
  pub record Rounds (n : ℕ) (start st : State) : Type 0 where
    pub pumped : IsPumped pool st
    pub plan : SamePlan start.slots st.slots
    pub fewer : n + undone st.slots ≤ undone start.slots

  pub Reached-Rounds :
      {start : State} {n : ℕ} {st : State}
      → Reached pool start n st
      → IsPumped pool start
      → Rounds n start st
  Reached-Rounds {start} at_start p = record {
    pumped = p;
    plan = SamePlan-refl start.slots;
    fewer = omega arith;
  }
  Reached-Rounds {start} (round {n} {st} {u} older i before batch r) p =
      let b = Reached-Rounds before p in
      let g = Completed-Goes batch b.pumped.consistent in
      let one = complete-Completes pool older i u g.consistent r in
      let next = complete pool older i u in
      let (q, plan, same) = pump-IsPumped pool next one.consistent in
      record {
        pumped = q;
        plan = SamePlan-trans start.slots st.slots (pump pool next).slots b.plan (
            SamePlan-trans st.slots u.slots (pump pool next).slots g.plan
              (SamePlan-trans u.slots next.slots (pump pool next).slots one.plan plan));
        fewer = omega (arith, b.fewer, g.fewer, one.fewer, same);
      }
