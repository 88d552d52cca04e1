-- ===== src/Scheduler/Release.antt =====
-- `_release` and `_finished` of `run_all` in src/artifact_engine/core/scheduler.py. What the source keeps in dicts by a task's key (`left`,
-- `released`, `pending_keys`, `stale_keys`, the heaps, `futs`) is in one slot per task, in the order
-- of `to_run`; a heap is the slots that are ready in its lane. Whether a task's marker is older than
-- a dependency's is read from the disk when a task is released, so it comes with each event.
pub mod Slots
pub mod Unblock
pub mod Finish
use artifact_engine.Prelude.{
  ℕ, zero, suc, ◌+◌, ◌-◌, max, ◌≡◌, String, Bool, true, false, not, ◌&&◌, ◌||◌, Option, none, some,
  List, [], ◌∷◌, ◌++◌, length, get_elem?, any, ltb, leb, ◌==◌, if◌then◌else◌,
}
use artifact_engine.Prelude.Texts.{str_eq}
use artifact_engine.Scheduler.Manifest.{Parser, Weight, normal, heavy}
use artifact_engine.Scheduler.Waiting.{Task, MachineKey, machine_key, is_awaited, waiting_on}

-- Not yet released, in a heap, handed to a pool, accounted.
pub data Status : Type 0 where
  waiting ready running done : Status

pub record Slot : Type 0 where
  pub task : Task
  pub waits : List MachineKey
  pub left : ℕ
  pub pending : Bool
  pub stale : Bool
  pub status : Status

-- Whether a task's marker is older than a dependency's, now.
abbrev pub Older : Type 0
Older = Task → Bool

-- `_release`: the tasks that are accounted at once, and the slot.
abbrev pub release_from : Status → Older → Slot → List MachineKey × Slot
release_from waiting older s =
    if s.pending && not (older s.task)
    then (machine_key s.task ∷ [], record s { status = done })
    else ([], record s { status = ready; stale = s.stale || s.pending })
release_from ready older s = ([], s)
release_from running older s = ([], s)
release_from done older s = ([], s)

unfoldable pub release : Older → Slot → List MachineKey × Slot
release older s = release_from s.status older s

-- One round of the loop over `unblocks` in `_finished`.
unfoldable pub unblock_one : Older → MachineKey → Slot → List MachineKey × Slot
unfolding release
unblock_one older k s =
    if is_awaited k s.waits
    then if s.left == 1
      then release older (record s { left = 0 })
      else ([], record s { left = s.left - 1 })
    else ([], s)

unfoldable pub unblock : Older → MachineKey → List Slot → List MachineKey × List Slot
unfolding unblock_one
unblock older k [] = ([], [])
unblock older k (s ∷ slots) =
    let (new, s') = unblock_one older k s in
    let (news, slots') = unblock older k slots in (new ++ news, s' ∷ slots')

-- `stack += keys`, with the top in front
abbrev pub push_all : List MachineKey → List MachineKey → List MachineKey
push_all [] stack = stack
push_all (k ∷ keys) stack = push_all keys (k ∷ stack)

-- `_finished`, from a stack on; what is left of the stack when the fuel ends.
unfoldable pub finished : ℕ → Older → List MachineKey → List Slot → List MachineKey × List Slot
unfolding unblock
finished zero older stack slots = (stack, slots)
finished (suc f) older [] slots = ([], slots)
finished (suc f) older (k ∷ stack) slots =
    let (new, slots') = unblock older k slots in finished f older (push_all new stack) slots'

-- A task enters the stack when it is accounted, so a round for each slot is enough.
unfoldable pub settle_stack : Older → List MachineKey → List Slot → List Slot
unfolding finished
settle_stack older stack slots = (finished (suc (length slots)) older stack slots).1

-- `if left[_key(t)] == 0: _release(t)`, at a place
unfoldable pub release_at : Older → ℕ → List Slot → List MachineKey × List Slot
unfolding release
release_at older i [] = ([], [])
release_at older zero (s ∷ slots) =
    let (new, s') = if s.left == 0 then release older s else ([], s) in (new, s' ∷ slots)
release_at older (suc i) (s ∷ slots) =
    let (new, slots') = release_at older i slots in (new, s ∷ slots')

unfoldable pub start_at : Older → ℕ → List Slot → List Slot
unfolding release_at settle_stack
start_at older i slots =
    let (new, slots') = release_at older i slots in settle_stack older new slots'

-- The loop over `to_run` before the first `_pump`: `n` rounds from a place on.
unfoldable pub start_from : Older → ℕ → ℕ → List Slot → List Slot
unfolding start_at
start_from older zero i slots = slots
start_from older (suc n) i slots = start_from older n (suc i) (start_at older i slots)

-- The slots before the first release.
abbrev pub slot_of : List Task → (Task → Bool) → (Task → Bool) → Task → Slot
slot_of tasks is_pending is_stale t =
    let waits = waiting_on tasks t in
    record {
      task = t;
      waits = waits;
      left = length waits;
      pending = is_pending t;
      stale = is_stale t;
      status = waiting;
    }

abbrev pub slots_of : (Task → Slot) → List Task → List Slot
slots_of make [] = []
slots_of make (t ∷ tasks) = make t ∷ slots_of make tasks
