-- ===== src/Scheduler/Release/Finish.antt =====
-- What `_finished` and the first releases of `run_all` (src/artifact_engine/core/scheduler.py) leave.
use artifact_engine.Prelude.{
  ℕ, zero, suc, ◌+◌, ◌<◌, ◌≤◌, ◌≡◌, refl, ◌∙◌, inl, inr, List, [], ◌∷◌, length, ◌==◌, arith,
  Bool-cases,
}
use artifact_engine.Scheduler.Waiting.{MachineKey}
use artifact_engine.Scheduler.Release.{
  Slot, Older, unblock, push_all, finished, settle_stack, release_at, start_at, start_from,
}
use artifact_engine.Scheduler.Release.Slots.{
  on_stack, on_stack-push_all, stays_refl, release-Kept, release-open, release-left, release-freed,
  release-waiting,
}
use artifact_engine.Scheduler.Release.Unblock.{
  opened, unblock-opened, waiting_count, unblock-waiting_count, AllCounted, unblock-AllCounted,
  HeldTo, unblock-HeldTo, AllKept, unblock-AllKept, AllKept-refl, AllKept-trans,
}

-- What a slot is counted by while tasks are on the stack.
abbrev pub awaited : List Slot → List MachineKey → List MachineKey → ℕ
awaited slots stack keys = opened keys slots + on_stack keys stack

pub length-push_all :
    (xs stack : List MachineKey) → length (push_all xs stack) ≡ length xs + length stack
length-push_all [] stack = omega arith
length-push_all (x ∷ xs) stack = omega (arith, length-push_all xs (x ∷ stack))

-- What a run of releases leaves of the slots before.
pub record Releases (slots after : List Slot) : Type 0 where
  pub counted : AllCounted (awaited after []) after
  pub held : (i : ℕ) → HeldTo i slots → HeldTo i after
  pub kept : AllKept slots after

finished-Releases :
    (f : ℕ) (older : Older) (stack : List MachineKey) (slots : List Slot)
    → length stack + waiting_count slots < f
    → AllCounted (awaited slots stack) slots
    → Releases slots (finished f older stack slots).1
unfolding finished
finished-Releases zero older stack slots enough h = absurd (omega arith)
finished-Releases (suc f) older [] slots enough h = record {
  counted = h;
  held = λ i k. k;
  kept = AllKept-refl slots;
}
finished-Releases (suc f) older (k ∷ stack) slots enough h =
    let new = (unblock older k slots).0 in
    let next = (unblock older k slots).1 in
    let fewer : length (push_all new stack) + waiting_count next < f =
      omega (arith, length-push_all new stack, unblock-waiting_count older k slots) in
    let rest = finished-Releases f older (push_all new stack) next fewer (
      unblock-AllCounted older k slots (awaited slots (k ∷ stack))
        (awaited next (push_all new stack))
        (λ keys. omega (arith, unblock-opened older k slots keys, on_stack-push_all keys new stack))
        h) in
    record {
      counted = rest.counted;
      held = λ i held. rest.held i (unblock-HeldTo older k i slots held);
      kept =
          AllKept-trans slots next (finished f older (push_all new stack) next).1
            (unblock-AllKept older k slots) rest.kept;
    }

-- The stack is worked off within a round for each slot.
pub settle_stack-Releases :
    (older : Older) (stack : List MachineKey) (slots : List Slot)
    → length stack + waiting_count slots ≤ length slots
    → AllCounted (awaited slots stack) slots
    → Releases slots (settle_stack older stack slots)
unfolding settle_stack
settle_stack-Releases older stack slots enough h =
    finished-Releases (suc (length slots)) older stack slots (omega arith) h

pub waiting_count-le : (slots : List Slot) → waiting_count slots ≤ length slots
waiting_count-le [] = omega arith
waiting_count-le (s ∷ slots) = ground (arith, waiting_count-le slots)

-- A release at a place.
release_at-opened :
    (older : Older) (i : ℕ) (slots : List Slot) (keys : List MachineKey)
    → opened keys slots
      ≡ on_stack keys (release_at older i slots).0 + opened keys (release_at older i slots).1
unfolding release_at
release_at-opened older i [] keys = omega arith
release_at-opened older zero (s ∷ slots) keys = elim (Bool-cases (s.left == 0)) [
  | inl free ↦ rw free (omega (arith, release-open older s keys))
  | inr held ↦ rw held (omega arith)
]
release_at-opened older (suc i) (s ∷ slots) keys =
    omega (arith, release_at-opened older i slots keys)

release_at-waiting_count :
    (older : Older) (i : ℕ) (slots : List Slot)
    → length (release_at older i slots).0 + waiting_count (release_at older i slots).1
      ≤ waiting_count slots
unfolding release_at
release_at-waiting_count older i [] = omega arith
release_at-waiting_count older zero (s ∷ slots) = elim (Bool-cases (s.left == 0)) [
  | inl free ↦ rw free (omega (arith, release-waiting older s))
  | inr held ↦ rw held (omega arith)
]
release_at-waiting_count older (suc i) (s ∷ slots) =
    omega (arith, release_at-waiting_count older i slots)

length-release_at :
    (older : Older) (i : ℕ) (slots : List Slot) → length (release_at older i slots).1 ≡ length slots
unfolding release_at
length-release_at older i [] = refl
length-release_at older zero (s ∷ slots) = refl
length-release_at older (suc i) (s ∷ slots) = omega (arith, length-release_at older i slots)

pub AllCounted-eq :
    (slots : List Slot) (before after : List MachineKey → ℕ)
    → ((keys : List MachineKey) → before keys ≡ after keys)
    → AllCounted before slots
    → AllCounted after slots
AllCounted-eq [] before after e h = tt
AllCounted-eq (s ∷ slots) before after e h =
    ((h.0.0 ∙ e s.waits, h.0.1), AllCounted-eq slots before after e h.1)

release_at-AllCounted :
    (older : Older) (i : ℕ) (slots : List Slot) (count : List MachineKey → ℕ)
    → AllCounted count slots
    → AllCounted count (release_at older i slots).1
unfolding release_at
release_at-AllCounted older i [] count h = tt
release_at-AllCounted older zero (s ∷ slots) count h = elim (Bool-cases (s.left == 0)) [
  | inl free ↦
      let kept = release-Kept older s in
      rw free (
        (
          rw (release-left older s, kept.waits) h.0.0,
          inr (rw (release-left older s) (ground arith)),
        ),
        h.1,
      )
  | inr held ↦ rw held h
]
release_at-AllCounted older (suc i) (s ∷ slots) count h =
    (h.0, release_at-AllCounted older i slots count h.1)

-- The slot at the place is held too.
release_at-HeldTo :
    (older : Older) (i : ℕ) (slots : List Slot)
    → HeldTo i slots
    → HeldTo (suc i) (release_at older i slots).1
unfolding release_at
release_at-HeldTo older i [] h = tt
release_at-HeldTo older zero (s ∷ slots) h = elim (Bool-cases (s.left == 0)) [
  | inl free ↦ rw free (inl (release-freed older s), tt)
  | inr held ↦ rw held (inr (ground arith), tt)
]
release_at-HeldTo older (suc i) (s ∷ slots) h = (h.0, release_at-HeldTo older i slots h.1)

release_at-AllKept :
    (older : Older) (i : ℕ) (slots : List Slot) → AllKept slots (release_at older i slots).1
unfolding release_at
release_at-AllKept older i [] = tt
release_at-AllKept older zero (s ∷ slots) = elim (Bool-cases (s.left == 0)) [
  | inl free ↦
      let kept = release-Kept older s in
      rw free (
        record { task = kept.task; waits = kept.waits; runs = kept.runs; stays = kept.stays },
        AllKept-refl slots,
      )
  | inr held ↦ rw held (AllKept-refl (s ∷ slots))
]
release_at-AllKept older (suc i) (s ∷ slots) = (
  record { task = refl; waits = refl; runs = refl; stays = stays_refl s.status },
  release_at-AllKept older i slots,
)

-- The slots before the first `_pump`.
pub record IsStarted (slots after : List Slot) (i : ℕ) : Type 0 where
  pub counted : AllCounted (awaited after []) after
  pub held : HeldTo i after
  pub kept : AllKept slots after

start_at-IsStarted :
    (older : Older) (i : ℕ) (slots : List Slot)
    → AllCounted (awaited slots []) slots
    → HeldTo i slots
    → IsStarted slots (start_at older i slots) (suc i)
unfolding start_at
start_at-IsStarted older i slots h held =
    let new = (release_at older i slots).0 in
    let next = (release_at older i slots).1 in
    let rest =
      settle_stack-Releases older new next
        (omega (
          arith,
          release_at-waiting_count older i slots,
          waiting_count-le slots,
          length-release_at older i slots,
        ))
        (AllCounted-eq next (awaited slots []) (awaited next new)
          (λ keys. omega (arith, release_at-opened older i slots keys))
          (release_at-AllCounted older i slots (awaited slots []) h)) in
    record {
      counted = rest.counted;
      held = rest.held (suc i) (release_at-HeldTo older i slots held);
      kept =
          AllKept-trans slots next (settle_stack older new next) (release_at-AllKept older i slots)
            rest.kept;
    }

pub start_from-IsStarted :
    (older : Older) (n i j : ℕ) (slots : List Slot)
    → i + n ≡ j
    → AllCounted (awaited slots []) slots
    → HeldTo i slots
    → IsStarted slots (start_from older n i slots) j
unfolding start_from
start_from-IsStarted older zero i j slots e h held =
    let same : i ≡ j = omega arith in
    record { counted = h; held = rw (← same) held; kept = AllKept-refl slots }
start_from-IsStarted older (suc n) i j slots e h held =
    let one = start_at-IsStarted older i slots h held in
    let rest =
      start_from-IsStarted older n (suc i) j (start_at older i slots) (omega arith) one.counted
        one.held in
    record {
      counted = rest.counted;
      held = rest.held;
      kept =
          AllKept-trans slots (start_at older i slots)
            (start_from older n (suc i) (start_at older i slots)) one.kept rest.kept;
    }
