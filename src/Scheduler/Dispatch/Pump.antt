-- ===== src/Scheduler/Dispatch/Pump.antt =====
-- What `_pump` of src/artifact_engine/core/scheduler.py leaves: every worker busy, or nothing ready.
use artifact_engine.Prelude.{
  ℕ, zero, suc, ◌+◌, ◌≤◌, ◌≡◌, refl, ◌∙◌, ◌⊎◌, inl, inr, true, false, not, ◌&&◌, Option-cases, List,
  [], ◌∷◌, length, All, ltb, if◌then◌else◌, arith, Bool-cases,
}
use artifact_engine.Scheduler.Release.{running, Slot}
use artifact_engine.Scheduler.Release.Unblock.{IsCounted, AllCounted, IsHeld}
use artifact_engine.Scheduler.Release.Finish.{awaited, AllCounted-eq}
use artifact_engine.Scheduler.Dispatch.{
  Lane, proc, thread, Pool, State, same_lane, is_ready, Rank, rank_of, rank_lt, ready_in,
  least_ready, start_first, pump_lane, pump,
}
use artifact_engine.Scheduler.Dispatch.Lanes.{
  undone, IsReady-IsReady, running_in, ready_count, least_ready-IsNext, least_ready-none, Starts,
  start_first-Starts,
}

-- The tasks and what they wait for are the same, slot by slot.
pub record SameTask (s t : Slot) : Type 0 where
  pub task : t.task ≡ s.task
  pub waits : t.waits ≡ s.waits

abbrev pub SamePlan : List Slot → List Slot → Type 0
SamePlan [] [] = Unit
SamePlan [] (t ∷ ts) = ⊥
SamePlan (s ∷ ss) [] = ⊥
SamePlan (s ∷ ss) (t ∷ ts) = SameTask s t × SamePlan ss ts

pub SamePlan-refl : (slots : List Slot) → SamePlan slots slots
SamePlan-refl [] = tt
SamePlan-refl (s ∷ slots) = (record { task = refl; waits = refl }, SamePlan-refl slots)

pub SamePlan-trans : (xs ys zs : List Slot) → SamePlan xs ys → SamePlan ys zs → SamePlan xs zs
SamePlan-trans [] [] [] h k = tt
SamePlan-trans [] [] (z ∷ zs) h k = absurd k
SamePlan-trans [] (y ∷ ys) zs h k = absurd h
SamePlan-trans (x ∷ xs) [] zs h k = absurd h
SamePlan-trans (x ∷ xs) (y ∷ ys) [] h k = absurd k
SamePlan-trans (x ∷ xs) (y ∷ ys) (z ∷ zs) h k = (
  record { task = k.0.task ∙ h.0.task; waits = k.0.waits ∙ h.0.waits },
  SamePlan-trans xs ys zs h.1 k.1,
)

-- `left` is right for every slot, and what is not released waits.
pub record IsSound (slots : List Slot) : Type 0 where
  pub counted : AllCounted (awaited slots []) slots
  pub held : All IsHeld slots

module _ (pool : Pool) where
  start_first-All :
      (P : Slot → Type 0) (lane : Lane) (r : Rank) (slots : List Slot)
      → ((s : Slot) → is_ready s.status ≡ true → P s → P (record s { status = running }))
      → All P slots
      → All P (start_first pool lane r slots)
  unfolding start_first
  start_first-All P lane r [] f h = tt
  start_first-All P lane r (s ∷ slots) f h =
      elim (Bool-cases
        (ready_in pool lane s && (not (rank_lt r (rank_of s)) && not (rank_lt (rank_of s) r)))) [
          | inl taken ↦ rw taken (f s (ground arith) h.0, h.1)
          | inr left ↦ rw left (h.0, start_first-All P lane r slots f h.1)
        ]

  start_first-SamePlan :
      (lane : Lane) (r : Rank) (slots : List Slot) → SamePlan slots (start_first pool lane r slots)
  unfolding start_first
  start_first-SamePlan lane r [] = tt
  start_first-SamePlan lane r (s ∷ slots) =
      elim (Bool-cases
        (ready_in pool lane s && (not (rank_lt r (rank_of s)) && not (rank_lt (rank_of s) r)))) [
          | inl taken ↦ rw taken (record { task = refl; waits = refl }, SamePlan-refl slots)
          | inr left ↦
              rw left (record { task = refl; waits = refl }, start_first-SamePlan lane r slots)
        ]

  start_first-IsSound :
      (lane : Lane) (r : Rank) (slots : List Slot)
      → Starts pool lane slots (start_first pool lane r slots)
      → IsSound slots
      → IsSound (start_first pool lane r slots)
  start_first-IsSound lane r slots starts sound = record {
    counted =
        AllCounted-eq (start_first pool lane r slots) (awaited slots [])
          (awaited (start_first pool lane r slots) []) (λ keys. omega (arith, starts.opens keys))
          (start_first-All (IsCounted (awaited slots [])) lane r slots
            (λ s rd k. (
              k.0,
              elim k.1 [
                | inl waits ↦ let i = IsReady-IsReady s.status rd in cc (waits, i.held)
                | inr free ↦ inr free
              ],
            ))
            sound.counted);
    held = start_first-All IsHeld lane r slots (λ s rd k. inl refl) sound.held;
  }

  -- The work of one lane.
  pub record Pumped (lane : Lane) (cap busy : ℕ) (slots : List Slot) (after : ℕ × List Slot)
      : Type 0 where
    pub sound : IsSound after.1
    pub plan : SamePlan slots after.1
    pub left : undone after.1 ≡ undone slots
    pub runs :
        (l : Lane)
        → running_in pool l after.1 + (if same_lane l lane then busy else 0)
          ≡ running_in pool l slots + (if same_lane l lane then after.0 else 0)
    pub readies :
        (l : Lane)
        → same_lane l lane ≡ false
        → ready_count pool l after.1 ≡ ready_count pool l slots
    pub full : (ready_count pool lane after.1 ≡ 0) ⊎ (cap ≤ after.0)
    pub bound : after.0 ≤ cap

  Pumped-same :
      (lane : Lane) (cap busy : ℕ) (slots : List Slot)
      → IsSound slots
      → busy ≤ cap
      → (ready_count pool lane slots ≡ 0) ⊎ (cap ≤ busy)
      → Pumped lane cap busy slots (busy, slots)
  Pumped-same lane cap busy slots sound bound full = record {
    sound = sound;
    plan = SamePlan-refl slots;
    left = refl;
    runs = λ l. refl;
    readies = λ l h. refl;
    full = full;
    bound = bound;
  }

  Pumped-step :
      (lane : Lane) (cap busy : ℕ) (slots next : List Slot) (after : ℕ × List Slot)
      → SamePlan slots next
      → Starts pool lane slots next
      → Pumped lane cap (suc busy) next after
      → Pumped lane cap busy slots after
  Pumped-step lane cap busy slots next after plan starts p = record {
    sound = p.sound;
    plan = SamePlan-trans slots next after.1 plan p.plan;
    left = p.left ∙ starts.left;
    runs = λ l. ground (arith, starts.runs l, p.runs l);
    readies = λ l h. ground (arith, starts.readies l, p.readies l h, h);
    full = p.full;
    bound = p.bound;
  }

  pump_lane-Pumped :
      (f : ℕ) (lane : Lane) (cap busy : ℕ) (slots : List Slot)
      → ready_count pool lane slots ≤ f
      → busy ≤ cap
      → IsSound slots
      → Pumped lane cap busy slots (pump_lane pool f lane cap busy slots)
  unfolding pump_lane
  pump_lane-Pumped zero lane cap busy slots few bound sound =
      Pumped-same lane cap busy slots sound bound (inl (omega arith))
  pump_lane-Pumped (suc f) lane cap busy slots few bound sound = elim (Bool-cases (ltb busy cap)) [
    | inl room ↦ elim (Option-cases (least_ready pool lane slots)) [
      | inl empty ↦
          rw (room, empty)
            (Pumped-same lane cap busy slots sound bound
              (inl (least_ready-none pool lane slots empty)))
      | inr (r, next) ↦
          let starts =
            start_first-Starts pool lane r slots (least_ready-IsNext pool lane slots r next) in
          let after = start_first pool lane r slots in
          rw (room, next)
            (Pumped-step lane cap busy slots after (pump_lane pool f lane cap (suc busy) after)
              (start_first-SamePlan lane r slots) starts
              (pump_lane-Pumped f lane cap (suc busy) after (fewer lane slots after few starts)
                (ground arith) (start_first-IsSound lane r slots starts sound)))
    ]
    | inr busy_all ↦ rw busy_all (Pumped-same lane cap busy slots sound bound (inr (ground arith)))
  ]
    where
      fewer :
          (lane : Lane) (slots after : List Slot)
          → ready_count pool lane slots ≤ suc f
          → Starts pool lane slots after
          → ready_count pool lane after ≤ f
      fewer proc slots after few starts = omega (arith, starts.readies proc)
      fewer thread slots after few starts = omega (arith, starts.readies thread)

  ready_count-le : (lane : Lane) (slots : List Slot) → ready_count pool lane slots ≤ length slots
  ready_count-le lane [] = omega arith
  ready_count-le lane (s ∷ slots) = ground (arith, ready_count-le lane slots)

  -- A state between two steps of the loop: the counters are right, and no pool is over its cap.
  pub record IsConsistent (st : State) : Type 0 where
    pub sound : IsSound st.slots
    pub procs : running_in pool proc st.slots ≡ st.busy_proc
    pub threads : running_in pool thread st.slots ≡ st.busy_thread
    pub proc_cap : st.busy_proc ≤ pool.cap_proc
    pub thread_cap : st.busy_thread ≤ pool.cap_thread

  -- After `_pump` no ready task waits while a worker of its lane is free.
  pub record IsPumped (st : State) : Type 0 where
    pub consistent : IsConsistent st
    pub procs_full : (ready_count pool proc st.slots ≡ 0) ⊎ (pool.cap_proc ≤ st.busy_proc)
    pub threads_full : (ready_count pool thread st.slots ≡ 0) ⊎ (pool.cap_thread ≤ st.busy_thread)

  pub pump-IsPumped :
      (st : State)
      → IsConsistent st
      → IsPumped (pump pool st)
        × SamePlan st.slots (pump pool st).slots
        × (undone (pump pool st).slots ≡ undone st.slots)
  unfolding pump
  pump-IsPumped st c =
      let p =
        pump_lane-Pumped (length st.slots) proc pool.cap_proc st.busy_proc st.slots
          (ready_count-le proc st.slots) c.proc_cap c.sound in
      let mid = pump_lane pool (length st.slots) proc pool.cap_proc st.busy_proc st.slots in
      let t =
        pump_lane-Pumped (length mid.1) thread pool.cap_thread st.busy_thread mid.1
          (ready_count-le thread mid.1) c.thread_cap p.sound in
      let last = pump_lane pool (length mid.1) thread pool.cap_thread st.busy_thread mid.1 in
      (
        record {
          consistent = record {
            sound = t.sound;
            procs = omega (arith, p.runs proc, t.runs proc, c.procs);
            threads = omega (arith, p.runs thread, t.runs thread, c.threads);
            proc_cap = p.bound;
            thread_cap = t.bound;
          };
          procs_full = elim p.full [
            | inl empty ↦ inl (t.readies proc refl ∙ empty)
            | inr full ↦ inr full
          ];
          threads_full = t.full;
        },
        SamePlan-trans st.slots mid.1 last.1 p.plan t.plan,
        t.left ∙ p.left,
      )
