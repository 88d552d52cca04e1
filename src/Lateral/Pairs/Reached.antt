-- ===== src/Lateral/Pairs/Reached.antt =====
-- The pairs that `_pair_times` (src/artifact_engine/core/lateral.py) gives are times of the two lists,
-- within the window.
use artifact_engine.Prelude.{
  ◌≡◌, refl, inl, inr, true, Option, none, some, List, [], ◌∷◌, Any, Bool-cases,
}
use artifact_engine.Lateral.Pairs.{Clock, advance, is_within, pair_from, pair_times}

module _ {T : Type 0} (clock : Clock T) (later : T → T) where
  abbrev pub IsReached : (ts_in ts_out : List T) → Option (T × T) → Type 0
  IsReached ts_in ts_out none = Unit
  IsReached ts_in ts_out (some (a, z)) =
      Any (λ t. t ≡ a) ts_in × Any (λ t. t ≡ z) ts_out × (is_within clock later a z ≡ true)

  Any-advance :
      (P : T → Type 0) (t_out t : T) (rest : List T)
      → let (u, after) = advance clock t_out t rest in Any P (u ∷ after) → Any P (t ∷ rest)
  unfolding advance
  Any-advance P t_out t [] h = h
  Any-advance P t_out t (s ∷ rest) h = elim (Bool-cases (clock.le s t_out)) [
    | inl on ↦ inr (Any-advance P t_out s rest (rw on at h))
    | inr stop ↦ rw stop at h
  ]

  IsReached-wider :
      (t_out t : T) (rest ts_out : List T) (pair : Option (T × T))
      → let (u, after) = advance clock t_out t rest in
        IsReached (u ∷ after) ts_out pair → IsReached (t ∷ rest) (t_out ∷ ts_out) pair
  IsReached-wider t_out t rest ts_out none h = tt
  IsReached-wider t_out t rest ts_out (some (a, z)) (i, o, near) =
      (Any-advance (λ s. s ≡ a) t_out t rest i, inr o, near)

  pair_from-IsReached :
      (t : T) (rest ts_out : List T)
      → IsReached (t ∷ rest) ts_out (pair_from clock later t rest ts_out)
  unfolding pair_from
  pair_from-IsReached t rest [] = tt
  pair_from-IsReached t rest (t_out ∷ ts_out) =
      let (u, after) = advance clock t_out t rest in
      elim (Bool-cases (is_within clock later u t_out)) [
        | inl near ↦ rw near (Any-advance (λ s. s ≡ u) t_out t rest (inl refl), inl refl, near)
        | inr apart ↦ rw apart (
            IsReached-wider t_out t rest ts_out (pair_from clock later u after ts_out)
              (pair_from-IsReached u after ts_out))
      ]

  pub pair_times-IsReached :
      (ts_in ts_out : List T) → IsReached ts_in ts_out (pair_times clock later ts_in ts_out)
  unfolding pair_times
  pair_times-IsReached [] ts_out = tt
  pair_times-IsReached (t ∷ ts_in) ts_out = pair_from-IsReached t ts_in ts_out
