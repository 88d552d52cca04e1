-- ===== src/Scheduler/Dispatch.antt =====
-- `_pump` of `run_all` in src/artifact_engine/core/scheduler.py, and its loop over finished tasks.
pub mod Lanes
pub mod Pump
pub mod Complete
pub mod Begin
pub mod Rounds
pub mod Idle
pub mod Loop
mod Tests
use artifact_engine.Prelude.{
  ℕ, zero, suc, ◌+◌, ◌-◌, ◌≡◌, Bool, true, false, not, ◌&&◌, ◌||◌, Option, none, some, List, [],
  ◌∷◌, length, get_elem?, ltb, ◌==◌, if◌then◌else◌,
}
use artifact_engine.Scheduler.Manifest.{Weight, normal, heavy}
use artifact_engine.Scheduler.Waiting.{Task, machine_key, waiting_on}
use artifact_engine.Scheduler.Release.{
  Status, waiting, ready, running, done, Slot, Older, settle_stack, start_from, slot_of, slots_of,
}

pub data Lane : Type 0 where
  proc thread : Lane

pub record Pool : Type 0 where
  pub use_proc : Bool
  pub cap_proc : ℕ
  pub cap_thread : ℕ

pub record State : Type 0 where
  pub slots : List Slot
  pub busy_proc : ℕ
  pub busy_thread : ℕ

abbrev pub same_lane : Lane → Lane → Bool
same_lane proc proc = true
same_lane thread thread = true
same_lane proc thread = false
same_lane thread proc = false

abbrev pub is_ready : Status → Bool
is_ready waiting = false
is_ready ready = true
is_ready running = false
is_ready done = false

-- What a heap compares before the order of the tasks.
abbrev pub weight_rank : Weight → ℕ
weight_rank heavy = 0
weight_rank normal = 1

abbrev pub Rank : Type 0
Rank = ℕ × ℕ

abbrev pub rank_of : Slot → Rank
rank_of s = (weight_rank s.task.parser.weight, s.task.m_idx)

abbrev pub rank_lt : Rank → Rank → Bool
rank_lt (a, b) (c, d) = ltb a c || (a == c && ltb b d)

abbrev pub lower_rank : Rank → Option Rank → Rank
lower_rank r none = r
lower_rank r (some q) = if rank_lt q r then q else r

-- `fut.result()` is in: the task at a place is accounted.
unfoldable pub account : ℕ → List Slot → List Slot
account i [] = []
account zero (s ∷ slots) = record s { status = done } ∷ slots
account (suc i) (s ∷ slots) = s ∷ account i slots

-- `busy[_lane(t)] -= 1`
abbrev pub free_worker : Lane → State → State
free_worker proc st = record st { busy_proc = st.busy_proc - 1 }
free_worker thread st = record st { busy_thread = st.busy_thread - 1 }

module _ (pool : Pool) where
  -- `_lane`
  abbrev pub lane_of : Task → Lane
  lane_of t = if pool.use_proc && not t.parser.has_command then proc else thread

  abbrev pub ready_in : Lane → Slot → Bool
  ready_in lane s = is_ready s.status && same_lane lane (lane_of s.task)

  unfoldable pub least_ready : Lane → List Slot → Option Rank
  least_ready lane [] = none
  least_ready lane (s ∷ slots) =
      let rest = least_ready lane slots in
      if ready_in lane s then some (lower_rank (rank_of s) rest) else rest

  -- `heapq.heappop` and the submission: the first task of the least rank is handed to the pool.
  unfoldable pub start_first : Lane → Rank → List Slot → List Slot
  start_first lane r [] = []
  start_first lane r (s ∷ slots) =
      let rest = start_first lane r slots in
      if ready_in lane s && (not (rank_lt r (rank_of s)) && not (rank_lt (rank_of s) r))
      then record s { status = running } ∷ slots
      else s ∷ rest

  -- `while heap and busy[lane] < cap[lane]`
  abbrev pub while_free :
      Bool → Option Rank → (Rank → ℕ × List Slot) → ℕ × List Slot → ℕ × List Slot
  while_free false heap next stop = stop
  while_free true none next stop = stop
  while_free true (some r) next stop = next r

  -- The loop of `_pump` for a lane: the workers busy, and the slots.
  unfoldable pub pump_lane : ℕ → Lane → (cap busy : ℕ) → List Slot → ℕ × List Slot
  unfolding least_ready start_first
  pump_lane zero lane cap busy slots = (busy, slots)
  pump_lane (suc f) lane cap busy slots =
      while_free (ltb busy cap) (least_ready lane slots)
        (λ r. pump_lane f lane cap (suc busy) (start_first lane r slots)) (busy, slots)

  unfoldable pub pump : State → State
  unfolding pump_lane
  pump st =
      let (bp, slots) = pump_lane (length st.slots) proc pool.cap_proc st.busy_proc st.slots in
      let (bt, slots') = pump_lane (length slots) thread pool.cap_thread st.busy_thread slots in
      record { slots = slots'; busy_proc = bp; busy_thread = bt }

  abbrev pub complete_slot : Older → ℕ → Option Slot → State → State
  complete_slot older i none st = st
  complete_slot older i (some s) st =
      let freed = free_worker (lane_of s.task) st in
      record freed { slots = settle_stack older (machine_key s.task ∷ []) (account i st.slots) }

  -- The body of the loop over a finished future.
  unfoldable pub complete : Older → ℕ → State → State
  unfolding settle_stack account
  complete older i st = complete_slot older i (get_elem? st.slots i) st

-- What the loop `while futs` starts from.
unfoldable pub begin_dispatch : Pool → Older → (Task → Bool) → (Task → Bool) → List Task → State
unfolding start_from pump waiting_on
begin_dispatch pool older is_pending is_stale tasks =
    let slots = slots_of (slot_of tasks is_pending is_stale) tasks in
    pump pool
      (record { slots = start_from older (length tasks) 0 slots; busy_proc = 0; busy_thread = 0 })

-- A task runs at a place.
abbrev pub RunsAt : ℕ → List Slot → Type 0
RunsAt i [] = ⊥
RunsAt zero (s ∷ slots) = s.status ≡ running
RunsAt (suc i) (s ∷ slots) = RunsAt i slots

-- The futures that `wait` gives, one after the other, are of tasks that run.
pub data Completed (pool : Pool) (st : State) : State → Type 0 where
  nothing_yet : Completed pool st st
  and_one :
      {u : State} (older : Older) (i : ℕ)
      → Completed pool st u
      → RunsAt i u.slots
      → Completed pool st (complete pool older i u)

-- The states of the loop `while futs`, by how many rounds it has made.
pub data Reached (pool : Pool) (start : State) : ℕ → State → Type 0 where
  at_start : Reached pool start zero start
  round :
      {n : ℕ} {st u : State} (older : Older) (i : ℕ)
      → Reached pool start n st
      → Completed pool st u
      → RunsAt i u.slots
      → Reached pool start (suc n) (pump pool (complete pool older i u))
