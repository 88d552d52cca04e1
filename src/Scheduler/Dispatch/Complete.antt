-- ===== src/Scheduler/Dispatch/Complete.antt =====
-- What a finished task changes in `run_all` of src/artifact_engine/core/scheduler.py.
use artifact_engine.Prelude.{
  ℕ, zero, suc, ◌+◌, ◌<◌, ◌≤◌, ◌≡◌, refl, ap, inl, inr, some, List, [], ◌∷◌, length, get_elem?, All,
  if◌then◌else◌, arith,
}
use artifact_engine.Scheduler.Waiting.{MachineKey, machine_key}
use artifact_engine.Scheduler.Release.{running, done, Slot, Older, settle_stack}
use artifact_engine.Scheduler.Release.Slots.{hit}
use artifact_engine.Scheduler.Release.Unblock.{
  IsCounted, opened, waiting_count, IsHeld, HeldTo, AllKept,
}
use artifact_engine.Scheduler.Release.Finish.{
  awaited, AllCounted-eq, Releases, settle_stack-Releases, waiting_count-le,
}
use artifact_engine.Scheduler.Dispatch.{
  Lane, proc, thread, Pool, State, same_lane, lane_of, account, free_worker, complete, RunsAt,
}
use artifact_engine.Scheduler.Dispatch.Lanes.{undone, running_in}
use artifact_engine.Scheduler.Dispatch.Pump.{
  SamePlan, SamePlan-refl, SamePlan-trans, IsSound, IsConsistent,
}

pub HeldTo-of_All : (slots : List Slot) (i : ℕ) → All IsHeld slots → HeldTo i slots
HeldTo-of_All slots zero h = tt
HeldTo-of_All [] (suc i) h = tt
HeldTo-of_All (s ∷ slots) (suc i) h = (h.0, HeldTo-of_All slots i h.1)

pub All-of_HeldTo : (slots : List Slot) → HeldTo (length slots) slots → All IsHeld slots
All-of_HeldTo [] h = tt
All-of_HeldTo (s ∷ slots) h = (h.0, All-of_HeldTo slots h.1)

pub AllKept-SamePlan : (xs ys : List Slot) → AllKept xs ys → SamePlan xs ys
AllKept-SamePlan [] [] h = tt
AllKept-SamePlan [] (y ∷ ys) h = h
AllKept-SamePlan (x ∷ xs) [] h = h
AllKept-SamePlan (x ∷ xs) (y ∷ ys) h =
    (record { task = h.0.task; waits = h.0.waits }, AllKept-SamePlan xs ys h.1)

pub length-AllKept : (xs ys : List Slot) → AllKept xs ys → length ys ≡ length xs
length-AllKept [] [] h = refl
length-AllKept [] (y ∷ ys) h = absurd h
length-AllKept (x ∷ xs) [] h = absurd h
length-AllKept (x ∷ xs) (y ∷ ys) h = ap suc (length-AllKept xs ys h.1)

undone-AllKept : (xs ys : List Slot) → AllKept xs ys → undone ys ≤ undone xs
undone-AllKept [] [] h = omega arith
undone-AllKept [] (y ∷ ys) h = absurd h
undone-AllKept (x ∷ xs) [] h = absurd h
undone-AllKept (x ∷ xs) (y ∷ ys) h = ground (arith, h.0.stays, undone-AllKept xs ys h.1)

-- The task at a place where one runs.
pub RunsAt-slot :
    (i : ℕ) (slots : List Slot) → RunsAt i slots → (s : Slot) × (get_elem? slots i ≡ some s)
RunsAt-slot i [] h = absurd h
RunsAt-slot zero (s ∷ slots) h = (s, refl)
RunsAt-slot (suc i) (s ∷ slots) h = RunsAt-slot i slots h

account-opened :
    (i : ℕ) (slots : List Slot) (s : Slot) (keys : List MachineKey)
    → RunsAt i slots
    → get_elem? slots i ≡ some s
    → opened keys slots ≡ hit (machine_key s.task) keys + opened keys (account i slots)
unfolding account
account-opened i [] s keys r e = absurd r
account-opened zero (t ∷ slots) s keys r e =
    let same : t ≡ s = cc e in rw (← same) (rw r (omega arith))
account-opened (suc i) (t ∷ slots) s keys r e = omega (arith, account-opened i slots s keys r e)

account-waiting_count :
    (i : ℕ) (slots : List Slot)
    → RunsAt i slots
    → 1 + waiting_count (account i slots) ≤ length (account i slots)
unfolding account
account-waiting_count i [] r = absurd r
account-waiting_count zero (t ∷ slots) r = omega (arith, waiting_count-le slots)
account-waiting_count (suc i) (t ∷ slots) r = ground (arith, account-waiting_count i slots r)

account-undone :
    (i : ℕ) (slots : List Slot) → RunsAt i slots → suc (undone (account i slots)) ≡ undone slots
unfolding account
account-undone i [] r = absurd r
account-undone zero (t ∷ slots) r = rw r (omega arith)
account-undone (suc i) (t ∷ slots) r = omega (arith, account-undone i slots r)

account-All :
    (P : Slot → Type 0) (i : ℕ) (slots : List Slot)
    → ((s : Slot) → s.status ≡ running → P s → P (record s { status = done }))
    → RunsAt i slots
    → All P slots
    → All P (account i slots)
unfolding account
account-All P i [] f r h = absurd r
account-All P zero (t ∷ slots) f r h = (f t r h.0, h.1)
account-All P (suc i) (t ∷ slots) f r h = (h.0, account-All P i slots f r h.1)

account-SamePlan : (i : ℕ) (slots : List Slot) → SamePlan slots (account i slots)
unfolding account
account-SamePlan i [] = tt
account-SamePlan zero (t ∷ slots) = (record { task = refl; waits = refl }, SamePlan-refl slots)
account-SamePlan (suc i) (t ∷ slots) =
    (record { task = refl; waits = refl }, account-SamePlan i slots)

module _ (pool : Pool) where
  pub running_in-AllKept :
      (l : Lane) (xs ys : List Slot) → AllKept xs ys → running_in pool l ys ≡ running_in pool l xs
  running_in-AllKept l [] [] h = refl
  running_in-AllKept l [] (y ∷ ys) h = absurd h
  running_in-AllKept l (x ∷ xs) [] h = absurd h
  running_in-AllKept l (x ∷ xs) (y ∷ ys) h =
      rw (h.0.runs, h.0.task, running_in-AllKept l xs ys h.1) refl

  account-running_in :
      (l : Lane) (i : ℕ) (slots : List Slot) (s : Slot)
      → RunsAt i slots
      → get_elem? slots i ≡ some s
      → running_in pool l slots
        ≡ running_in pool l (account i slots) + (if same_lane l (lane_of pool s.task) then 1 else 0)
  unfolding account
  account-running_in l i [] s r e = absurd r
  account-running_in l zero (t ∷ slots) s r e =
      let same : t ≡ s = cc e in rw (← same) (rw r (omega arith))
  account-running_in l (suc i) (t ∷ slots) s r e = omega (arith, account-running_in l i slots s r e)

  -- The slots after a finished task.
  abbrev pub slots_after : Older → ℕ → Slot → List Slot → List Slot
  slots_after older i s slots = settle_stack older (machine_key s.task ∷ []) (account i slots)

  slots_after-Releases :
      (older : Older) (i : ℕ) (s : Slot) (slots : List Slot)
      → IsSound slots
      → RunsAt i slots
      → get_elem? slots i ≡ some s
      → Releases (account i slots) (slots_after older i s slots)
  slots_after-Releases older i s slots sound r e =
      settle_stack-Releases older (machine_key s.task ∷ []) (account i slots)
        (account-waiting_count i slots r)
        (AllCounted-eq (account i slots) (awaited slots [])
          (awaited (account i slots) (machine_key s.task ∷ []))
          (λ keys. omega (arith, account-opened i slots s keys r e))
          (account-All (IsCounted (awaited slots [])) i slots
            (λ t run k. (k.0, elim k.1 [ inl waits ↦ cc (rw run at waits) | inr free ↦ inr free ]))
            r sound.counted))

  slots_after-IsSound :
      (older : Older) (i : ℕ) (s : Slot) (slots : List Slot)
      → IsSound slots
      → RunsAt i slots
      → get_elem? slots i ≡ some s
      → IsSound (slots_after older i s slots)
  slots_after-IsSound older i s slots sound r e =
      let rel = slots_after-Releases older i s slots sound r e in
      let held = account-All IsHeld i slots (λ t run k. inl refl) r sound.held in
      record {
        counted = rel.counted;
        held = All-of_HeldTo (slots_after older i s slots) (
            rel.held (length (slots_after older i s slots))
              (HeldTo-of_All (account i slots) (length (slots_after older i s slots)) held));
      }

  -- What a finished task leaves: the state is consistent, with fewer tasks to go.
  pub record Completes (st after : State) : Type 0 where
    pub consistent : IsConsistent pool after
    pub plan : SamePlan st.slots after.slots
    pub fewer : undone after.slots < undone st.slots

  complete_slot-IsConsistent :
      (older : Older) (i : ℕ) (s : Slot) (st : State)
      → IsConsistent pool st
      → RunsAt i st.slots
      → get_elem? st.slots i ≡ some s
      → (lane : Lane) → lane_of pool s.task ≡ lane
      → IsConsistent pool (record (free_worker lane st) { slots = slots_after older i s st.slots })
  complete_slot-IsConsistent older i s st c r e proc l =
      let rel = slots_after-Releases older i s st.slots c.sound r e in
      let after = slots_after older i s st.slots in
      let kp = running_in-AllKept proc (account i st.slots) after rel.kept in
      let kt = running_in-AllKept thread (account i st.slots) after rel.kept in
      let p = rw l at (account-running_in proc i st.slots s r e) in
      let t = rw l at (account-running_in thread i st.slots s r e) in
      record {
        sound = slots_after-IsSound older i s st.slots c.sound r e;
        procs = omega (arith, kp, p, c.procs);
        threads = omega (arith, kt, t, c.threads);
        proc_cap = omega (arith, c.proc_cap);
        thread_cap = c.thread_cap;
      }
  complete_slot-IsConsistent older i s st c r e thread l =
      let rel = slots_after-Releases older i s st.slots c.sound r e in
      let after = slots_after older i s st.slots in
      let kp = running_in-AllKept proc (account i st.slots) after rel.kept in
      let kt = running_in-AllKept thread (account i st.slots) after rel.kept in
      let p = rw l at (account-running_in proc i st.slots s r e) in
      let t = rw l at (account-running_in thread i st.slots s r e) in
      record {
        sound = slots_after-IsSound older i s st.slots c.sound r e;
        procs = omega (arith, kp, p, c.procs);
        threads = omega (arith, kt, t, c.threads);
        proc_cap = c.proc_cap;
        thread_cap = omega (arith, c.thread_cap);
      }

  pub complete-Completes :
      (older : Older) (i : ℕ) (st : State)
      → IsConsistent pool st
      → RunsAt i st.slots
      → Completes st (complete pool older i st)
  unfolding complete
  complete-Completes older i st c r =
      let (s, e) = RunsAt-slot i st.slots r in
      let rel = slots_after-Releases older i s st.slots c.sound r e in
      let after = slots_after older i s st.slots in
      rw e (record {
        consistent = complete_slot-IsConsistent older i s st c r e (lane_of pool s.task) refl;
        plan =
            SamePlan-trans st.slots (account i st.slots) after (account-SamePlan i st.slots)
              (AllKept-SamePlan (account i st.slots) after rel.kept);
        fewer = omega (
          arith,
          account-undone i st.slots r,
          undone-AllKept (account i st.slots) after rel.kept,
        );
      })
