-- ===== src/WebShard/Order.antt =====
-- The results of `in_order` (src/artifact_engine/handlers/_webshard.py).
use artifact_engine.Prelude.{
  ℕ, zero, suc, ◌+◌, ◌*◌, ◌≤◌, ◌≡◌, refl, ap, ◌∙◌, inl, inr, some, List, [], ◌∷◌, ◌++◌,
  append_assoc, map, length, length-append, leb, Bool-cases, arith,
}
use artifact_engine.WebShard.{raised, yielded, fill, drain, in_order}

module _ {P R : Type 0} (fn : P → R) where
  -- Nothing is lost or reordered at the start, and no more is submitted than twice the workers.
  fill-append :
      (workers : ℕ) (pending todo : List P)
      → (fill fn workers pending todo).0 ++ (fill fn workers pending todo).1 ≡ pending ++ todo
  unfolding fill
  fill-append workers pending [] = refl
  fill-append workers pending (p ∷ todo) =
      elim (Bool-cases (leb (2 * workers) (length (pending ++ p ∷ [])))) [
        | inl full ↦ rw full (append_assoc pending (p ∷ []) todo)
        | inr free ↦
            rw free
              (fill-append workers (pending ++ p ∷ []) todo ∙ append_assoc pending (p ∷ []) todo)
      ]

  fill-some :
      (workers : ℕ) (pending todo : List P)
      → length (fill fn workers pending todo).0 ≡ 0
      → length (fill fn workers pending todo).1 ≡ 0
  unfolding fill
  fill-some workers pending [] h = refl
  fill-some workers pending (p ∷ todo) h =
      elim (Bool-cases (leb (2 * workers) (length (pending ++ p ∷ [])))) [
        | inl full ↦
            let none_pending = rw full at h in
            absurd (omega (arith, none_pending, length-append pending (p ∷ [])))
        | inr free ↦ rw free (fill-some workers (pending ++ p ∷ []) todo (rw free at h))
      ]

  pub fill-le :
      (workers : ℕ) (pending todo : List P)
      → length pending + 1 ≤ 2 * workers
      → length (fill fn workers pending todo).0 ≤ 2 * workers
  unfolding fill
  fill-le workers pending [] h = omega (arith, h)
  fill-le workers pending (p ∷ todo) h =
      elim (Bool-cases (leb (2 * workers) (length (pending ++ p ∷ [])))) [
        | inl full ↦ rw full (omega (arith, h, length-append pending (p ∷ [])))
        | inr free ↦
            let few : length (pending ++ p ∷ []) + 1 ≤ 2 * workers = ground (arith, free) in
            rw free (fill-le workers (pending ++ p ∷ []) todo (omega (arith, few)))
      ]

  drain-map :
      (fuel : ℕ) (pending todo : List P)
      → length pending + length todo ≤ fuel
      → (length pending ≡ 0 → length todo ≡ 0)
      → drain fn fuel pending todo ≡ some (map fn (pending ++ todo))
  unfolding drain
  drain-map fuel [] [] h g = refl
  drain-map fuel [] (q ∷ todo) h g = absurd (omega (arith, g refl))
  drain-map zero (p ∷ pending) todo h g = absurd (omega (arith, h))
  drain-map (suc fuel) (p ∷ pending) [] h g =
      rw (drain-map fuel pending [] (omega (arith, h)) (λ e. refl)) refl
  drain-map (suc fuel) (p ∷ pending) (q ∷ todo) h g =
      rw
        (
          drain-map fuel (pending ++ q ∷ []) todo (omega (arith, h, length-append pending (q ∷ [])))
              (λ e. absurd (omega (arith, e, length-append pending (q ∷ [])))),
          append_assoc pending (q ∷ []) todo,
        )
        refl

  -- With no workers `in_order` raises; with any other number, the results are those of the parts in
  -- their order, and at the start no more parts are submitted than twice the workers.
  pub in_order-map :
      (n : ℕ) (parts : List P)
      → (in_order fn 0 parts ≡ raised)
        × (in_order fn (suc n) parts ≡ yielded (some (map fn parts)))
        × (length (fill fn (suc n) [] parts).0 ≤ 2 * suc n)
  unfolding in_order
  in_order-map n parts =
      let (pending, todo) = fill fn (suc n) [] parts in
      let same = fill-append (suc n) [] parts in
      (
        refl,
        ap yielded (
            drain-map (length parts) pending todo
              (omega (arith, length-append pending todo, ap length same))
              (fill-some (suc n) [] parts)
            ∙ ap (λ ps. some (map fn ps)) same),
        fill-le (suc n) [] parts (omega arith),
      )
