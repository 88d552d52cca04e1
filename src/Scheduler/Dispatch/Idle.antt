-- ===== src/Scheduler/Dispatch/Idle.antt =====
-- What it means for the loop of `run_all` (src/artifact_engine/core/scheduler.py) that nothing runs.
use artifact_engine.Prelude.{
  ℕ, zero, suc, ◌<◌, ◌≤◌, ◌≡◌, refl, ◌⊎◌, inl, inr, true, false, ◌&&◌, not, List, [], ◌∷◌, All,
  All-at, All-of_at, arith, Bool-cases,
}
use artifact_engine.Scheduler.Waiting.{MachineKey, machine_key, is_awaited}
use artifact_engine.Scheduler.Release.{Status, waiting, ready, running, done, Slot}
use artifact_engine.Scheduler.Release.Slots.{is_waiting, is_done, is_running}
use artifact_engine.Scheduler.Release.Unblock.{opened, AllCounted, IsHeld}
use artifact_engine.Scheduler.Release.Finish.{awaited}
use artifact_engine.Scheduler.Dispatch.{Lane, proc, thread, Pool, same_lane, lane_of, is_ready}
use artifact_engine.Scheduler.Dispatch.Lanes.{running_in, ready_count}
use artifact_engine.Scheduler.Dispatch.Pump.{IsSound}
use artifact_engine.Scheduler.Dispatch.Begin.{IsLower}

-- A task that is released waits for no task that is not accounted.
abbrev pub NoneOpen : List Slot → Slot → Type 0
NoneOpen slots s = (s.status ≡ waiting) ⊎ (opened s.waits slots ≡ 0)

waiting-eq : (st : Status) → is_waiting st ≡ true → st ≡ waiting
waiting-eq waiting h = refl
waiting-eq ready h = cc
waiting-eq running h = cc
waiting-eq done h = cc

pub All-NoneOpen :
    (all slots : List Slot) → AllCounted (awaited all []) slots → All (NoneOpen all) slots
All-NoneOpen all [] h = tt
All-NoneOpen all (s ∷ slots) h = (
  elim h.0.1 [
    | inl waits ↦ inl (waiting-eq s.status waits)
    | inr free ↦ inr (omega (arith, free, h.0.0))
  ],
  All-NoneOpen all slots h.1,
)

-- With no worker busy, a slot waits or is accounted.
abbrev pub IsIdle : Slot → Type 0
IsIdle s = (is_done s.status ≡ true) ⊎ (is_waiting s.status ≡ true)

idle_slot :
    (st : Status) (l : Lane)
    → (is_running st && same_lane proc l) ≡ false
    → (is_running st && same_lane thread l) ≡ false
    → (is_ready st && same_lane proc l) ≡ false
    → (is_ready st && same_lane thread l) ≡ false
    → (is_done st ≡ true) ⊎ (is_waiting st ≡ true)
idle_slot waiting l a b c d = inr refl
idle_slot ready proc a b c d = cc
idle_slot ready thread a b c d = cc
idle_slot running proc a b c d = cc
idle_slot running thread a b c d = cc
idle_slot done l a b c d = inl refl

module _ (pool : Pool) where
  pub All-IsIdle :
      (slots : List Slot)
      → running_in pool proc slots ≡ 0
      → running_in pool thread slots ≡ 0
      → ready_count pool proc slots ≡ 0
      → ready_count pool thread slots ≡ 0
      → All IsIdle slots
  All-IsIdle [] a b c d = tt
  All-IsIdle (s ∷ slots) a b c d = (
    idle_slot s.status (lane_of pool s.task) (ground arith) (ground arith) (ground arith)
        (ground arith),
    All-IsIdle slots (omega arith) (omega arith) (omega arith) (omega arith),
  )

-- Something that is waited for is not accounted, and has a lower level.
open_below :
    (slots : List Slot) (keys : List MachineKey) (level n : ℕ)
    → 0 < opened keys slots
    → All (λ d. (is_awaited (machine_key d.task) keys ≡ false) ⊎ (d.task.level < level)) slots
    → All (λ d. (is_done d.status ≡ true) ⊎ (n ≤ d.task.level)) slots
    → n < level
open_below [] keys level n h low up = absurd (omega arith)
open_below (d ∷ slots) keys level n h low up =
    elim (Bool-cases (not (is_done d.status) && is_awaited (machine_key d.task) keys)) [
      | inl here ↦ elim low.0 [
        | inl apart ↦ ground arith
        | inr less ↦ elim up.0 [ inl over ↦ ground arith | inr above ↦ omega arith ]
      ]
      | inr elsewhere ↦
          let rest : 0 < opened keys slots = ground arith in
          open_below slots keys level n rest low.1 up.1
    ]

above-All :
    (n : ℕ) (all slots : List Slot)
    → All IsIdle slots
    → All IsHeld slots
    → AllCounted (awaited all []) slots
    → All (IsLower all) slots
    → All (λ d. (is_done d.status ≡ true) ⊎ (n ≤ d.task.level)) all
    → All (λ d. (is_done d.status ≡ true) ⊎ (suc n ≤ d.task.level)) slots
above-All n all [] idle held counted low up = tt
above-All n all (s ∷ slots) idle held counted low up = (
  elim idle.0 [
    | inl over ↦ inl over
    | inr waits ↦ elim held.0 [
      | inl free ↦ cc
      | inr some ↦
          inr (open_below all s.waits s.task.level n (omega (arith, some, counted.0.0)) low.0 up)
    ]
  ],
  above-All n all slots idle.1 held.1 counted.1 low.1 up,
)

trivially_above :
    (slots : List Slot) → All (λ d. (is_done d.status ≡ true) ⊎ (0 ≤ d.task.level)) slots
trivially_above [] = tt
trivially_above (d ∷ slots) = (inr (omega arith), trivially_above slots)

All-above :
    (n : ℕ) (slots : List Slot)
    → All IsIdle slots
    → IsSound slots
    → All (IsLower slots) slots
    → All (λ d. (is_done d.status ≡ true) ⊎ (n ≤ d.task.level)) slots
All-above zero slots idle sound low = trivially_above slots
All-above (suc n) slots idle sound low =
    above-All n slots slots idle sound.held sound.counted low (All-above n slots idle sound low)

abbrev pub IsDone : Slot → Type 0
IsDone s = is_done s.status ≡ true

pub All-IsDone :
    (slots : List Slot)
    → All IsIdle slots
    → IsSound slots
    → All (IsLower slots) slots
    → All IsDone slots
All-IsDone slots idle sound low = All-of_at IsDone slots (λ s m.
    elim (All-at (λ d. (is_done d.status ≡ true) ⊎ (suc s.task.level ≤ d.task.level)) slots s
      (All-above (suc s.task.level) slots idle sound low) m) [
        | inl over ↦ over
        | inr above ↦ absurd (omega arith)
      ])
