-- ===== src/Scheduler/Release/Unblock.antt =====
-- What a round of `_finished` (src/artifact_engine/core/scheduler.py) does to all the slots.
use artifact_engine.Prelude.{
  ℕ, zero, suc, ◌+◌, ◌<◌, ◌≤◌, ◌≡◌, refl, ◌∙◌, ◌⊎◌, inl, inr, true, false, List, [], ◌∷◌, length,
  length-append, All, ◌==◌, if◌then◌else◌, arith, Bool-cases,
}
use artifact_engine.Scheduler.Waiting.{is_awaited, MachineKey}
use artifact_engine.Scheduler.Release.{Slot, Older, unblock_one, unblock}
use artifact_engine.Scheduler.Release.Slots.{
  is_waiting, open_one, hit, on_stack, on_stack-append, Kept, stays_refl, release-Kept,
  release-open, release-left, release-freed, release-waiting,
}

pub unblock_one-Kept :
    (older : Older) (k : MachineKey) (s : Slot) → Kept s (unblock_one older k s).1
unfolding unblock_one
unblock_one-Kept older k s = elim (Bool-cases (is_awaited k s.waits)) [
  | inl waited ↦ elim (Bool-cases (s.left == 1)) [
    | inl last ↦
        let h = release-Kept older (record s { left = 0 }) in
        rw (waited, last)
          (record { task = h.task; waits = h.waits; runs = h.runs; stays = h.stays })
    | inr more ↦
        rw (waited, more)
          (record { task = refl; waits = refl; runs = refl; stays = stays_refl s.status })
  ]
  | inr apart ↦
      rw apart (record { task = refl; waits = refl; runs = refl; stays = stays_refl s.status })
]

unblock_one-open :
    (older : Older) (k : MachineKey) (s : Slot) (keys : List MachineKey)
    → open_one keys s
      ≡ on_stack keys (unblock_one older k s).0 + open_one keys (unblock_one older k s).1
unfolding unblock_one
unblock_one-open older k s keys = elim (Bool-cases (is_awaited k s.waits)) [
  | inl waited ↦ elim (Bool-cases (s.left == 1)) [
    | inl last ↦ rw (waited, last) (release-open older (record s { left = 0 }) keys)
    | inr more ↦ rw (waited, more) (omega arith)
  ]
  | inr apart ↦ rw apart (omega arith)
]

abbrev pub waiting_one : Slot → ℕ
waiting_one s = if is_waiting s.status then 1 else 0

unblock_one-waiting :
    (older : Older) (k : MachineKey) (s : Slot)
    → length (unblock_one older k s).0 + waiting_one (unblock_one older k s).1 ≤ waiting_one s
unfolding unblock_one
unblock_one-waiting older k s = elim (Bool-cases (is_awaited k s.waits)) [
  | inl waited ↦ elim (Bool-cases (s.left == 1)) [
    | inl last ↦ rw (waited, last) (release-waiting older (record s { left = 0 }))
    | inr more ↦ rw (waited, more) (omega arith)
  ]
  | inr apart ↦ rw apart (omega arith)
]

-- `left` is what the keys of the slot still wait for, and only a slot with nothing left is released.
abbrev pub IsCounted : (List MachineKey → ℕ) → Slot → Type 0
IsCounted count s = (s.left ≡ count s.waits) × ((is_waiting s.status ≡ true) ⊎ (s.left ≡ 0))

unblock_one-IsCounted :
    (older : Older) (k : MachineKey) (s : Slot) (before after : List MachineKey → ℕ)
    → before s.waits ≡ hit k s.waits + after s.waits
    → IsCounted before s
    → IsCounted after (unblock_one older k s).1
unfolding unblock_one
unblock_one-IsCounted older k s before after e (l, w) = elim (Bool-cases (is_awaited k s.waits)) [
  | inl waited ↦
      let some_left : s.left ≡ 1 + after s.waits = ground (arith, e, l) in
      elim (Bool-cases (s.left == 1)) [
        | inl last ↦
            let freed = record s { left = 0 } in
            let kept = release-Kept older freed in
            rw (waited, last) (rw (release-left older freed, kept.waits) (ground arith, inr refl))
        | inr more ↦
            rw (waited, more)
              (ground arith, inl (elim w [ inl waits ↦ waits | inr none ↦ absurd (omega arith) ]))
      ]
  | inr apart ↦ rw apart (ground (arith, e, l), w)
]

-- A slot that is not released has something left.
abbrev pub IsHeld : Slot → Type 0
IsHeld s = (is_waiting s.status ≡ false) ⊎ (0 < s.left)

unblock_one-IsHeld :
    (older : Older) (k : MachineKey) (s : Slot) → IsHeld s → IsHeld (unblock_one older k s).1
unfolding unblock_one
unblock_one-IsHeld older k s h = elim (Bool-cases (is_awaited k s.waits)) [
  | inl waited ↦ elim (Bool-cases (s.left == 1)) [
    | inl last ↦ rw (waited, last) (inl (release-freed older (record s { left = 0 })))
    | inr more ↦ rw (waited, more) (elim h [ inl free ↦ inl free | inr some ↦ inr (ground arith) ])
  ]
  | inr apart ↦ rw apart h
]

-- The same, for all the slots.
abbrev pub opened : List MachineKey → List Slot → ℕ
opened keys [] = 0
opened keys (s ∷ slots) = open_one keys s + opened keys slots

pub unblock-opened :
    (older : Older) (k : MachineKey) (slots : List Slot) (keys : List MachineKey)
    → opened keys slots
      ≡ on_stack keys (unblock older k slots).0 + opened keys (unblock older k slots).1
unfolding unblock
unblock-opened older k [] keys = omega arith
unblock-opened older k (s ∷ slots) keys =
    let new = (unblock_one older k s).0 in
    let news = (unblock older k slots).0 in
    omega (
      arith,
      unblock_one-open older k s keys,
      unblock-opened older k slots keys,
      on_stack-append keys new news,
    )

abbrev pub waiting_count : List Slot → ℕ
waiting_count [] = 0
waiting_count (s ∷ slots) = waiting_one s + waiting_count slots

pub unblock-waiting_count :
    (older : Older) (k : MachineKey) (slots : List Slot)
    → length (unblock older k slots).0 + waiting_count (unblock older k slots).1
      ≤ waiting_count slots
unfolding unblock
unblock-waiting_count older k [] = omega arith
unblock-waiting_count older k (s ∷ slots) =
    let new = (unblock_one older k s).0 in
    let news = (unblock older k slots).0 in
    omega (
      arith,
      unblock_one-waiting older k s,
      unblock-waiting_count older k slots,
      length-append {0} new news,
    )

abbrev pub AllCounted : (List MachineKey → ℕ) → List Slot → Type 0
AllCounted count slots = All (IsCounted count) slots

pub unblock-AllCounted :
    (older : Older) (k : MachineKey) (slots : List Slot) (before after : List MachineKey → ℕ)
    → ((keys : List MachineKey) → before keys ≡ hit k keys + after keys)
    → AllCounted before slots
    → AllCounted after (unblock older k slots).1
unfolding unblock
unblock-AllCounted older k [] before after e h = tt
unblock-AllCounted older k (s ∷ slots) before after e h = (
  unblock_one-IsCounted older k s before after (e s.waits) h.0,
  unblock-AllCounted older k slots before after e h.1,
)

-- The first slots are held.
abbrev pub HeldTo : ℕ → List Slot → Type 0
HeldTo zero slots = Unit
HeldTo (suc i) [] = Unit
HeldTo (suc i) (s ∷ slots) = IsHeld s × HeldTo i slots

pub unblock-HeldTo :
    (older : Older) (k : MachineKey) (i : ℕ) (slots : List Slot)
    → HeldTo i slots
    → HeldTo i (unblock older k slots).1
unfolding unblock
unblock-HeldTo older k zero slots h = tt
unblock-HeldTo older k (suc i) [] h = tt
unblock-HeldTo older k (suc i) (s ∷ slots) h =
    (unblock_one-IsHeld older k s h.0, unblock-HeldTo older k i slots h.1)

-- The slots are kept, one by one.
abbrev pub AllKept : List Slot → List Slot → Type 0
AllKept [] [] = Unit
AllKept [] (t ∷ ts) = ⊥
AllKept (s ∷ ss) [] = ⊥
AllKept (s ∷ ss) (t ∷ ts) = Kept s t × AllKept ss ts

pub unblock-AllKept :
    (older : Older) (k : MachineKey) (slots : List Slot) → AllKept slots (unblock older k slots).1
unfolding unblock
unblock-AllKept older k [] = tt
unblock-AllKept older k (s ∷ slots) = (unblock_one-Kept older k s, unblock-AllKept older k slots)

pub AllKept-refl : (slots : List Slot) → AllKept slots slots
AllKept-refl [] = tt
AllKept-refl (s ∷ slots) = (
  record { task = refl; waits = refl; runs = refl; stays = stays_refl s.status },
  AllKept-refl slots,
)

pub AllKept-trans : (xs ys zs : List Slot) → AllKept xs ys → AllKept ys zs → AllKept xs zs
AllKept-trans [] [] [] h k = tt
AllKept-trans [] [] (z ∷ zs) h k = absurd k
AllKept-trans [] (y ∷ ys) zs h k = absurd h
AllKept-trans (x ∷ xs) [] zs h k = absurd h
AllKept-trans (x ∷ xs) (y ∷ ys) [] h k = absurd k
AllKept-trans (x ∷ xs) (y ∷ ys) (z ∷ zs) h k = (
  record {
    task = k.0.task ∙ h.0.task;
    waits = k.0.waits ∙ h.0.waits;
    runs = k.0.runs ∙ h.0.runs;
    stays = elim h.0.stays [
      | inl undone ↦ inl undone
      | inr over ↦ elim k.0.stays [ inl undone ↦ cc | inr still ↦ inr still ]
    ];
  },
  AllKept-trans xs ys zs h.1 k.1,
)
