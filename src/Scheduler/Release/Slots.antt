-- ===== src/Scheduler/Release/Slots.antt =====
-- What `_release` and a round of `_finished` (src/artifact_engine/core/scheduler.py) do to one slot.
use artifact_engine.Prelude.{
  ℕ, ◌+◌, ◌≤◌, length, ◌≡◌, refl, ◌⊎◌, inl, inr, Bool, true, false, not, ◌&&◌, List, [], ◌∷◌, ◌++◌,
  if◌then◌else◌, arith, Bool-cases,
}
use artifact_engine.Scheduler.Waiting.{is_awaited, MachineKey, machine_key}
use artifact_engine.Scheduler.Release.{
  Status, waiting, ready, running, done, Slot, Older, release_from, release, push_all,
}

abbrev pub is_done : Status → Bool
is_done waiting = false
is_done ready = false
is_done running = false
is_done done = true

abbrev pub is_waiting : Status → Bool
is_waiting waiting = true
is_waiting ready = false
is_waiting running = false
is_waiting done = false

abbrev pub is_running : Status → Bool
is_running waiting = false
is_running ready = false
is_running running = true
is_running done = false

-- The slot's task, if it is not accounted, is one that these keys wait for.
abbrev pub open_one : List MachineKey → Slot → ℕ
open_one keys s = if not (is_done s.status) && is_awaited (machine_key s.task) keys then 1 else 0

abbrev pub hit : MachineKey → List MachineKey → ℕ
hit k keys = if is_awaited k keys then 1 else 0

-- How many entries of a stack these keys wait for.
abbrev pub on_stack : List MachineKey → List MachineKey → ℕ
on_stack keys [] = 0
on_stack keys (k ∷ stack) = hit k keys + on_stack keys stack

pub on_stack-append :
    (keys xs ys : List MachineKey) → on_stack keys (xs ++ ys) ≡ on_stack keys xs + on_stack keys ys
on_stack-append keys [] ys = omega arith
on_stack-append keys (x ∷ xs) ys = omega (arith, on_stack-append keys xs ys)

pub on_stack-push_all :
    (keys xs stack : List MachineKey)
    → on_stack keys (push_all xs stack) ≡ on_stack keys xs + on_stack keys stack
on_stack-push_all keys [] stack = omega arith
on_stack-push_all keys (x ∷ xs) stack = omega (arith, on_stack-push_all keys xs (x ∷ stack))

-- The task and what it waits for stay, no task begins or ends to run, and what is accounted stays so.
pub record Kept (s t : Slot) : Type 0 where
  pub task : t.task ≡ s.task
  pub waits : t.waits ≡ s.waits
  pub runs : is_running t.status ≡ is_running s.status
  pub stays : (is_done s.status ≡ false) ⊎ (is_done t.status ≡ true)

pub stays_refl : (st : Status) → (is_done st ≡ false) ⊎ (is_done st ≡ true)
stays_refl waiting = inl refl
stays_refl ready = inl refl
stays_refl running = inl refl
stays_refl done = inr refl

release_from-Kept :
    (st : Status) (older : Older) (s : Slot) → s.status ≡ st → Kept s (release_from st older s).1
release_from-Kept waiting older s e = elim (Bool-cases (s.pending && not (older s.task))) [
  | inl cached ↦
      rw cached (record { task = refl; waits = refl; runs = rw e refl; stays = inl (rw e refl) })
  | inr fresh ↦
      rw fresh (record { task = refl; waits = refl; runs = rw e refl; stays = inl (rw e refl) })
]
release_from-Kept ready older s e = record {
  task = refl;
  waits = refl;
  runs = refl;
  stays = stays_refl s.status;
}
release_from-Kept running older s e = record {
  task = refl;
  waits = refl;
  runs = refl;
  stays = stays_refl s.status;
}
release_from-Kept done older s e = record {
  task = refl;
  waits = refl;
  runs = refl;
  stays = stays_refl s.status;
}

pub release-Kept : (older : Older) (s : Slot) → Kept s (release older s).1
unfolding release
release-Kept older s = release_from-Kept s.status older s refl

-- A slot that `_release` accounts is counted on the stack instead.
release_from-open :
    (st : Status) (older : Older) (s : Slot) (keys : List MachineKey)
    → s.status ≡ st
    → open_one keys s
      ≡ on_stack keys (release_from st older s).0 + open_one keys (release_from st older s).1
release_from-open waiting older s keys e = elim (Bool-cases (s.pending && not (older s.task))) [
  | inl cached ↦ rw (cached, e) (omega arith)
  | inr fresh ↦ rw (fresh, e) (omega arith)
]
release_from-open ready older s keys e = omega arith
release_from-open running older s keys e = omega arith
release_from-open done older s keys e = omega arith

pub release-open :
    (older : Older) (s : Slot) (keys : List MachineKey)
    → open_one keys s ≡ on_stack keys (release older s).0 + open_one keys (release older s).1
unfolding release
release-open older s keys = release_from-open s.status older s keys refl

release_from-left :
    (st : Status) (older : Older) (s : Slot) → (release_from st older s).1.left ≡ s.left
release_from-left waiting older s = elim (Bool-cases (s.pending && not (older s.task))) [
  | inl cached ↦ rw cached refl
  | inr fresh ↦ rw fresh refl
]
release_from-left ready older s = refl
release_from-left running older s = refl
release_from-left done older s = refl

pub release-left : (older : Older) (s : Slot) → (release older s).1.left ≡ s.left
unfolding release
release-left older s = release_from-left s.status older s

release_from-freed :
    (st : Status) (older : Older) (s : Slot)
    → s.status ≡ st
    → is_waiting (release_from st older s).1.status ≡ false
release_from-freed waiting older s e = elim (Bool-cases (s.pending && not (older s.task))) [
  | inl cached ↦ rw cached refl
  | inr fresh ↦ rw fresh refl
]
release_from-freed ready older s e = rw e refl
release_from-freed running older s e = rw e refl
release_from-freed done older s e = rw e refl

pub release-freed : (older : Older) (s : Slot) → is_waiting (release older s).1.status ≡ false
unfolding release
release-freed older s = release_from-freed s.status older s refl

-- A task that is accounted at once was waiting.
release_from-waiting :
    (st : Status) (older : Older) (s : Slot)
    → s.status ≡ st
    → length (release_from st older s).0
        + (if is_waiting (release_from st older s).1.status then 1 else 0)
      ≤ (if is_waiting s.status then 1 else 0)
release_from-waiting waiting older s e = elim (Bool-cases (s.pending && not (older s.task))) [
  | inl cached ↦ rw (cached, e) (omega arith)
  | inr fresh ↦ rw (fresh, e) (omega arith)
]
release_from-waiting ready older s e = omega arith
release_from-waiting running older s e = omega arith
release_from-waiting done older s e = omega arith

pub release-waiting :
    (older : Older) (s : Slot)
    → length (release older s).0 + (if is_waiting (release older s).1.status then 1 else 0)
      ≤ (if is_waiting s.status then 1 else 0)
unfolding release
release-waiting older s = release_from-waiting s.status older s refl
