-- ===== src/Scheduler/Dispatch/Lanes.antt =====
-- What `_pump` hands to a lane, one task at a time (src/artifact_engine/core/scheduler.py).
use artifact_engine.Prelude.{
  ℕ, ◌+◌, ◌≡◌, refl, ◌⊎◌, inl, inr, Bool, true, false, not, ◌&&◌, Option, none, some, List, [], ◌∷◌,
  Any, if◌then◌else◌, arith, Bool-cases,
}
use artifact_engine.Scheduler.Waiting.{MachineKey}
use artifact_engine.Scheduler.Release.{Status, waiting, ready, running, done, Slot}
use artifact_engine.Scheduler.Release.Slots.{is_waiting, is_done, is_running}
use artifact_engine.Scheduler.Release.Unblock.{opened}
use artifact_engine.Scheduler.Dispatch.{
  Lane, proc, thread, Pool, same_lane, is_ready, Rank, rank_of, rank_lt, lower_rank, lane_of,
  ready_in, least_ready, start_first,
}

pub same_lane_refl : (l : Lane) → same_lane l l ≡ true
same_lane_refl proc = refl
same_lane_refl thread = refl

pub same_lane-swap : (l a b : Lane) → same_lane a b ≡ true → same_lane l b ≡ same_lane l a
same_lane-swap proc proc proc h = refl
same_lane-swap proc thread thread h = refl
same_lane-swap thread proc proc h = refl
same_lane-swap thread thread thread h = refl
same_lane-swap l proc thread h = cc
same_lane-swap l thread proc h = cc

-- A task that is ready is in no other state.
pub record IsReady (st : Status) : Type 0 where
  pub held : is_waiting st ≡ false
  pub undone : is_done st ≡ false
  pub idle : is_running st ≡ false

pub IsReady-IsReady : (st : Status) → is_ready st ≡ true → IsReady st
IsReady-IsReady waiting h = cc
IsReady-IsReady ready h = record { held = refl; undone = refl; idle = refl }
IsReady-IsReady running h = cc
IsReady-IsReady done h = cc

-- How many tasks are not accounted.
abbrev pub undone_one : Slot → ℕ
undone_one s = if is_done s.status then 0 else 1

abbrev pub undone : List Slot → ℕ
undone [] = 0
undone (s ∷ slots) = undone_one s + undone slots

module _ (pool : Pool) where
  abbrev pub runs_one : Lane → Slot → ℕ
  runs_one lane s = if is_running s.status && same_lane lane (lane_of pool s.task) then 1 else 0

  -- How many tasks run, and how many are ready, in a lane.
  abbrev pub running_in : Lane → List Slot → ℕ
  running_in lane [] = 0
  running_in lane (s ∷ slots) = runs_one lane s + running_in lane slots

  abbrev pub ready_one : Lane → Slot → ℕ
  ready_one lane s = if ready_in pool lane s then 1 else 0

  abbrev pub ready_count : Lane → List Slot → ℕ
  ready_count lane [] = 0
  ready_count lane (s ∷ slots) = ready_one lane s + ready_count lane slots

  abbrev pub one_if : Bool → ℕ
  one_if b = if b then 1 else 0

  -- A slot that `start_first` would take.
  abbrev pub IsNext : Lane → Rank → Slot → Type 0
  IsNext lane r s =
      (ready_in pool lane s ≡ true)
      × ((not (rank_lt r (rank_of s)) && not (rank_lt (rank_of s) r)) ≡ true)

  own_rank : (r : Rank) → (not (rank_lt r r) && not (rank_lt r r)) ≡ true
  own_rank (a, b) = ground arith

  least_ready-cases :
      (lane : Lane) (s : Slot) (slots : List Slot) (rest : Option Rank) (r : Rank)
      → ready_in pool lane s ≡ true
      → some (lower_rank (rank_of s) rest) ≡ some r
      → (rank_of s ≡ r) ⊎ (rest ≡ some r)
  least_ready-cases lane s slots none r h e = inl (cc)
  least_ready-cases lane s slots (some q) r h e = elim (Bool-cases (rank_lt q (rank_of s))) [
    | inl lower ↦ inr (cc (rw lower at e))
    | inr own ↦ inl (cc (rw own at e))
  ]

  pub least_ready-IsNext :
      (lane : Lane) (slots : List Slot) (r : Rank)
      → least_ready pool lane slots ≡ some r
      → Any (IsNext lane r) slots
  unfolding least_ready
  least_ready-IsNext lane [] r e = cc
  least_ready-IsNext lane (s ∷ slots) r e = elim (Bool-cases (ready_in pool lane s)) [
    | inl here ↦
        elim (least_ready-cases lane s slots (least_ready pool lane slots) r here (rw here at e)) [
          | inl own ↦ inl (here, rw (← own) (own_rank (rank_of s)))
          | inr later ↦ inr (least_ready-IsNext lane slots r later)
        ]
    | inr elsewhere ↦ inr (least_ready-IsNext lane slots r (rw elsewhere at e))
  ]

  pub least_ready-none :
      (lane : Lane) (slots : List Slot)
      → least_ready pool lane slots ≡ none
      → ready_count lane slots ≡ 0
  unfolding least_ready
  least_ready-none lane [] e = refl
  least_ready-none lane (s ∷ slots) e = elim (Bool-cases (ready_in pool lane s)) [
    | inl here ↦ cc (rw here at e)
    | inr elsewhere ↦ rw elsewhere (omega (arith, least_ready-none lane slots (rw elsewhere at e)))
  ]

  -- What the start of the next task changes: one more runs in the lane, one less is ready there.
  pub record Starts (lane : Lane) (slots after : List Slot) : Type 0 where
    pub runs : (l : Lane) → running_in l after ≡ running_in l slots + one_if (same_lane l lane)
    pub readies : (l : Lane) → ready_count l after + one_if (same_lane l lane) ≡ ready_count l slots
    pub opens : (keys : List MachineKey) → opened keys after ≡ opened keys slots
    pub left : undone after ≡ undone slots

  start_one-Starts :
      (lane : Lane) (s : Slot) (slots : List Slot)
      → ready_in pool lane s ≡ true
      → Starts lane (s ∷ slots) (record s { status = running } ∷ slots)
  start_one-Starts lane s slots h =
      let is_r : is_ready s.status ≡ true = ground arith in
      let r = IsReady-IsReady s.status is_r in
      let mine : same_lane lane (lane_of pool s.task) ≡ true = ground arith in
      record {
        runs = λ l. ground (arith, r.idle, same_lane-swap l lane (lane_of pool s.task) mine);
        readies = λ l. ground (arith, is_r, same_lane-swap l lane (lane_of pool s.task) mine);
        opens = λ keys. rw r.undone refl;
        left = rw r.undone refl;
      }

  pub start_first-Starts :
      (lane : Lane) (r : Rank) (slots : List Slot)
      → Any (IsNext lane r) slots
      → Starts lane slots (start_first pool lane r slots)
  unfolding start_first
  start_first-Starts lane r [] h = absurd h
  start_first-Starts lane r (s ∷ slots) h =
      elim (Bool-cases
        (ready_in pool lane s && (not (rank_lt r (rank_of s)) && not (rank_lt (rank_of s) r)))) [
          | inl taken ↦ rw taken (start_one-Starts lane s slots (ground arith))
          | inr other ↦
              let later : Any (IsNext lane r) slots = elim h [
                | inl here ↦ cc (rw (here.0, here.1) at other)
                | inr there ↦ there
              ] in
              let rest = start_first-Starts lane r slots later in
              rw other (record {
                runs = λ l. omega (arith, rest.runs l);
                readies = λ l. omega (arith, rest.readies l);
                opens = λ keys. omega (arith, rest.opens keys);
                left = omega (arith, rest.left);
              })
        ]
