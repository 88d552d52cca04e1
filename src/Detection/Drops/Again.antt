-- ===== src/Detection/Drops/Again.antt =====
-- Naming the event logs again changes nothing (src/artifact_engine/core/detector.py).
use artifact_engine.Prelude.{◌≡◌, refl, inl, inr, List, [], ◌∷◌, Bool-cases, Option-cases}
use artifact_engine.Prelude.Chars.{chars_eq, chars_eq_refl, codes}
use artifact_engine.Detection.{Machine}
use artifact_engine.Detection.Drops.{EventTables, host_of_events, named_machine, name_evtx_drops}

module _ (events : EventTables) where
  named_machine_again :
      (m : Machine) → named_machine events (named_machine events m) ≡ named_machine events m
  unfolding named_machine
  named_machine_again m = elim (Bool-cases (chars_eq m.collector (codes "evtx"))) [
    | inl drop_folder ↦ elim (Option-cases (host_of_events events m.path)) [
      | inl no_name ↦ rw (drop_folder, no_name, drop_folder, no_name) refl
      | inr (host, named) ↦ rw (drop_folder, named, drop_folder, named) refl
    ]
    | inr other ↦ rw (other, other) refl
  ]

  -- Naming the machines again leaves them all as they are and reports none as renamed.
  pub name_evtx_drops_again :
      (machines : List Machine)
      → name_evtx_drops events (name_evtx_drops events machines).0
        ≡ ((name_evtx_drops events machines).0, [])
  unfolding name_evtx_drops
  name_evtx_drops_again [] = refl
  name_evtx_drops_again (m ∷ machines) =
      rw
        (
          name_evtx_drops_again machines,
          named_machine_again m,
          chars_eq_refl (named_machine events m).name,
        )
        refl
