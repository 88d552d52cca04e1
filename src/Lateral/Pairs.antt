-- ===== src/Lateral/Pairs.antt =====
-- `_pair_times` of src/artifact_engine/core/lateral.py, over any times: the source has floats, whose
-- addition rounds.
pub mod Earliest
pub mod Reached
use artifact_engine.Prelude.{
  ◌≡◌, Bool, true, false, ◌&&◌, Option, none, some, List, [], ◌∷◌, if◌then◌else◌,
}

-- `<=`, and what `+ window` makes of a time.
pub record Clock (T : Type 0) : Type 0 where
  pub le : T → T → Bool
  pub le_refl : (a : T) → le a a ≡ true
  pub le_trans : (a b c : T) → le a b ≡ true → le b c ≡ true → le a c ≡ true
  pub le_total : (a b : T) → le a b ≡ false → le b a ≡ true

module _ {T : Type 0} (clock : Clock T) where
  -- `while i + 1 < len(ts_in) and ts_in[i + 1] <= t_out`: the time at `i`, and those behind it.
  unfoldable pub advance : T → T → List T → T × List T
  advance t_out t [] = (t, [])
  advance t_out t (s ∷ rest) =
      let next = advance t_out s rest in if clock.le s t_out then next else (t, s ∷ rest)

  module _ (later : T → T) where
    abbrev pub is_within : T → T → Bool
    is_within t t_out = clock.le t t_out && clock.le t_out (later t)

    -- The loop over `ts_out`, from a place in `ts_in` on.
    unfoldable pub pair_from : T → List T → List T → Option (T × T)
    unfolding advance
    pair_from t rest [] = none
    pair_from t rest (t_out ∷ ts_out) =
        let (u, after) = advance t_out t rest in
        let next = pair_from u after ts_out in if is_within u t_out then some (u, t_out) else next

    -- `_pair_times`, with `later t` for `t + window`.
    unfoldable pub pair_times : List T → List T → Option (T × T)
    unfolding pair_from
    pair_times [] ts_out = none
    pair_times (t ∷ ts_in) ts_out = pair_from t ts_in ts_out
