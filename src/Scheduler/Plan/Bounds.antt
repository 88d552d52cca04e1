-- ===== src/Scheduler/Plan/Bounds.antt =====
-- What `_applicable` and `_plan_pools` of src/artifact_engine/core/scheduler.py promise.
use artifact_engine.Prelude.{
  ℕ, ◌≤◌, ◌<◌, ◌≡◌, ◌↔◌, ◌⊎◌, refl, sym, inl, inr, Bool, true, false, not, ◌&&◌, ◌||◌, List, [],
  ◌∷◌, arith, ltb, ◌==◌, keep, Any, Bool-cases,
}
use artifact_engine.Prelude.Texts.{str_eq, has, Member-has, has-Member}
use artifact_engine.Scheduler.Manifest.{Parser, Machine}
use artifact_engine.Scheduler.Plan.{memory_pointer, fits_os, applicable, Pools, plan_pools}

abbrev pub In : Parser → List Parser → Type 0
In p ps = Any (λ q. q ≡ p) ps

keep_iff :
    (test : Parser → Bool) (ps : List Parser) (p : Parser)
    → In p (keep test ps) ↔ (In p ps × (test p ≡ true))
keep_iff test ps p = (forth ps, λ h. back ps h.0 h.1)
  where
    forth : (qs : List Parser) → In p (keep test qs) → In p qs × (test p ≡ true)
    forth [] h = absurd h
    forth (q ∷ qs) h = elim (Bool-cases (test q)) [
      | inl kept ↦ elim (rw kept at h) [
        | inl e ↦ (inl e, rw (← e) kept)
        | inr later ↦ let (m, t) = forth qs later in (inr m, t)
      ]
      | inr dropped ↦ let (m, t) = forth qs (rw dropped at h) in (inr m, t)
    ]

    back : (qs : List Parser) → In p qs → test p ≡ true → In p (keep test qs)
    back [] h t = absurd h
    back (q ∷ qs) (inl e) t = rw (e, t) (inl refl)
    back (q ∷ qs) (inr h) t = elim (Bool-cases (test q)) [
      | inl kept ↦ rw kept (inr (back qs h t))
      | inr dropped ↦ rw dropped (back qs h t)
    ]

-- The parser's system is the machine's, a memory parser goes with a memory image and with nothing
-- else, and a parser that skips snapshots runs on none.
pub record Suits (m : Machine) (p : Parser) : Type 0 where
  pub system : (p.os ≡ m.os) ⊎ (p.os ≡ "any")
  pub image : has memory_pointer p.requires ≡ str_eq m.collector "memory"
  pub snapshot : (m.is_vss ≡ false) ⊎ (p.on_vss ≡ true) ⊎ (str_eq m.collector "memory" ≡ true)

fits_os_iff : (m : Machine) (p : Parser) → (fits_os m p ≡ true) ↔ ((p.os ≡ m.os) ⊎ (p.os ≡ "any"))
fits_os_iff m p = (
  λ h. elim (Member-has p.os (m.os ∷ "any" ∷ []) h) [
    | inl own ↦ inl (sym own)
    | inr (inl whole) ↦ inr (sym whole)
    | inr (inr e) ↦ absurd e
  ],
  λ h.
      has-Member p.os (m.os ∷ "any" ∷ [])
        (elim h [ inl own ↦ inl (sym own) | inr whole ↦ inr (inl (sym whole)) ]),
)

-- Exactly the given parsers that suit the machine are run on it.
pub applicable_iff :
    (m : Machine) (ps : List Parser) (p : Parser) → In p (applicable m ps) ↔ (In p ps × Suits m p)
unfolding applicable
applicable_iff m ps p = elim (Bool-cases (str_eq m.collector "memory")) [
  | inl image ↦ rw image (
    λ h.
        let (i, t) = (keep_iff (λ p. has memory_pointer p.requires && fits_os m p) ps p).0 h in
        (
          i,
          record {
            system = (fits_os_iff m p).0 (ground arith);
            image = ground arith;
            snapshot = inr (inr image);
          },
        ),
    λ (i, s).
        (keep_iff (λ p. has memory_pointer p.requires && fits_os m p) ps p).1
          (i, ground (arith, (fits_os_iff m p).1 s.system, s.image)),
  )
  | inr disk ↦
      let test : Parser → Bool =
        λ p. fits_os m p && ((p.on_vss || not m.is_vss) && not (has memory_pointer p.requires)) in
      rw disk (
        λ h.
            let (i, t) = (keep_iff test ps p).0 h in
            (
              i,
              record {
                system = (fits_os_iff m p).0 (ground arith);
                image = ground arith;
                snapshot = elim (Bool-cases m.is_vss) [
                  | inl vss ↦ inr (inl (ground arith))
                  | inr live ↦ inl live
                ];
              },
            ),
        λ (i, s).
            (keep_iff test ps p).1
              (i, ground (arith, (fits_os_iff m p).1 s.system, s.image, s.snapshot)),
      )
]

-- What the pools are for: none is larger than allowed, commands have a thread, and Python parsers a
-- process or a thread; processes are used only for more parsers than a pool may have.
pub record Serves (py cmd max_workers : ℕ) (pools : Pools) : Type 0 where
  pub proc_bound : pools.proc_workers ≤ max_workers
  pub thread_bound : pools.thread_workers ≤ max_workers
  pub commands : (cmd ≡ 0) ⊎ (0 < pools.thread_workers)
  pub handlers :
      (py ≡ 0)
      ⊎ ((pools.use_proc ≡ true) × (0 < pools.proc_workers) × (max_workers < py))
      ⊎ ((pools.use_proc ≡ false) × (0 < pools.thread_workers))

-- Where at least one worker is allowed, the planned pools serve the tasks.
pub plan_pools-Serves :
    (py cmd max_workers : ℕ) (parse_processes : Bool)
    → 0 < max_workers
    → Serves py cmd max_workers (plan_pools py cmd max_workers parse_processes)
unfolding plan_pools
plan_pools-Serves py cmd max_workers parse_processes h = record {
  proc_bound = ground arith;
  thread_bound = ground arith;
  commands = ground arith;
  handlers = elim (Bool-cases (parse_processes && ltb max_workers py)) [
    | inl processes ↦ inr (inl (processes, ground arith, ground arith))
    | inr threads ↦ elim (Bool-cases (py == 0)) [
      | inl idle ↦ inl (ground arith)
      | inr busy ↦ inr (inr (threads, ground arith))
    ]
  ];
}
