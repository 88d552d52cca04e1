-- ===== src/Lateral/Pairs/Earliest.antt =====
-- `_pair_times` (src/artifact_engine/core/lateral.py) against a search through all pairs.
use artifact_engine.Prelude.{
  ◌≡◌, refl, sym, ap, ◌∙◌, inl, inr, Bool, true, false, not, ◌&&◌, ◌||◌, Option, none, some, List,
  [], ◌∷◌, any, all, if◌then◌else◌, Bool-cases, arith,
}
use artifact_engine.Lateral.Pairs.{Clock, advance, is_within, pair_from, pair_times}

module _ {T : Type 0} (clock : Clock T) where
  -- In order, none before the one in front.
  abbrev pub is_sorted : List T → Bool
  is_sorted [] = true
  is_sorted (t ∷ ts) = all (clock.le t) ts && is_sorted ts

  -- The last of the times that is not after `t_out`, or the first time.
  abbrev pub latest : T → T → List T → T
  latest t_out t [] = t
  latest t_out t (s ∷ rest) = if clock.le s t_out then latest t_out s rest else latest t_out t rest

  -- Nothing is at or before a time when nothing in front of it is.
  all_after :
      (t_out s : T) (rest : List T)
      → clock.le s t_out ≡ false
      → all (clock.le s) rest ≡ true
      → all (λ r. not (clock.le r t_out)) rest ≡ true
  all_after t_out s [] h a = refl
  all_after t_out s (r ∷ rest) h a = elim (Bool-cases (clock.le r t_out)) [
    | inl before ↦ cc (clock.le_trans s r t_out (ground (arith, a)) before, h)
    | inr after ↦ rw after (all_after t_out s rest h (ground (arith, a)))
  ]

  latest-after :
      (t_out t : T) (rest : List T)
      → all (λ r. not (clock.le r t_out)) rest ≡ true
      → latest t_out t rest ≡ t
  latest-after t_out t [] h = refl
  latest-after t_out t (s ∷ rest) h = elim (Bool-cases (clock.le s t_out)) [
    | inl before ↦ cc (rw before at h)
    | inr after ↦ rw after (latest-after t_out t rest (rw after at h))
  ]

  advance-latest :
      (t_out t : T) (rest : List T)
      → is_sorted rest ≡ true
      → (advance clock t_out t rest).0 ≡ latest t_out t rest
  unfolding advance
  advance-latest t_out t [] h = refl
  advance-latest t_out t (s ∷ rest) h = elim (Bool-cases (clock.le s t_out)) [
    | inl before ↦ rw before (advance-latest t_out s rest (ground (arith, h)))
    | inr after ↦
        rw after
          (sym (latest-after t_out t rest (all_after t_out s rest after (ground (arith, h)))))
  ]

  -- Later times find the same from where the search has got to.
  latest-advance :
      (t_out u t : T) (rest : List T)
      → clock.le t_out u ≡ true
      → latest u (advance clock t_out t rest).0 (advance clock t_out t rest).1 ≡ latest u t rest
  unfolding advance
  latest-advance t_out u t [] h = refl
  latest-advance t_out u t (s ∷ rest) h = elim (Bool-cases (clock.le s t_out)) [
    | inl before ↦ rw (before, clock.le_trans s t_out u before h) (latest-advance t_out u s rest h)
    | inr after ↦ rw after refl
  ]

  is_sorted-advance :
      (t_out t : T) (rest : List T)
      → is_sorted (t ∷ rest) ≡ true
      → is_sorted ((advance clock t_out t rest).0 ∷ (advance clock t_out t rest).1) ≡ true
  unfolding advance
  is_sorted-advance t_out t [] h = refl
  is_sorted-advance t_out t (s ∷ rest) h = elim (Bool-cases (clock.le s t_out)) [
    | inl before ↦ rw before (is_sorted-advance t_out s rest (ground (arith, h)))
    | inr after ↦ rw after h
  ]

  module _ (later : T → T) where
    -- The first time out that any time in is within reach of, with the latest time in before it.
    abbrev pub first_pair : T → List T → List T → Option (T × T)
    first_pair t rest [] = none
    first_pair t rest (t_out ∷ ts_out) =
        let next = first_pair t rest ts_out in
        if any (λ s. is_within clock later s t_out) (t ∷ rest)
        then some (latest t_out t rest, t_out)
        else next

    abbrev pub earliest_pair : List T → List T → Option (T × T)
    earliest_pair [] ts_out = none
    earliest_pair (t ∷ ts_in) ts_out = first_pair t ts_in ts_out

    none_within :
        (t_out : T) (rest : List T)
        → all (λ r. not (clock.le r t_out)) rest ≡ true
        → any (λ s. is_within clock later s t_out) rest ≡ false
    none_within t_out [] h = refl
    none_within t_out (s ∷ rest) h = elim (Bool-cases (clock.le s t_out)) [
      | inl before ↦ cc (rw before at h)
      | inr after ↦ rw after (none_within t_out rest (rw after at h))
    ]

    module _
        (later_le : (a b : T) → clock.le a b ≡ true → clock.le (later a) (later b) ≡ true) where
      within_later :
          (t s t_out : T)
          → clock.le t s ≡ true
          → clock.le s t_out ≡ true
          → is_within clock later t t_out ≡ true
          → is_within clock later s t_out ≡ true
      within_later t s t_out h before w =
          rw (before, clock.le_trans t_out (later t) (later s) (ground (arith, w)) (later_le t s h))
            refl

      any_within :
          (t_out t : T) (rest : List T)
          → is_sorted (t ∷ rest) ≡ true
          → any (λ s. is_within clock later s t_out) (t ∷ rest)
            ≡ is_within clock later (latest t_out t rest) t_out
      any_within t_out t [] h = ground arith
      any_within t_out t (s ∷ rest) h = elim (Bool-cases (clock.le s t_out)) [
        | inr after ↦
            let behind : all (λ r. not (clock.le r t_out)) rest ≡ true =
              all_after t_out s rest after (ground (arith, h)) in
            rw (after, latest-after t_out t rest behind, none_within t_out rest behind)
              (ground arith)
        | inl before ↦
            let step : latest t_out t (s ∷ rest) ≡ latest t_out s rest = rw before refl in
            let goal =
              any_within t_out s rest (ground (arith, h))
              ∙ sym (ap (λ r. is_within clock later r t_out) step) in
            elim (Bool-cases (is_within clock later t t_out)) [
              | inr apart ↦
                  ap (λ w. w || any (λ r. is_within clock later r t_out) (s ∷ rest)) apart ∙ goal
              | inl near ↦
                  let nearer = within_later t s t_out (ground (arith, h)) before near in
                  ap (λ w. w || any (λ r. is_within clock later r t_out) (s ∷ rest)) near
                  ∙ sym (ap (λ w. w || any (λ r. is_within clock later r t_out) rest) nearer)
                  ∙ goal
            ]
      ]

      -- The search goes on from where it has got to.
      first_pair-advance :
          (t_out t : T) (rest ts_out : List T)
          → is_sorted (t ∷ rest) ≡ true
          → all (clock.le t_out) ts_out ≡ true
          → first_pair (advance clock t_out t rest).0 (advance clock t_out t rest).1 ts_out
            ≡ first_pair t rest ts_out
      first_pair-advance t_out t rest [] h a = refl
      first_pair-advance t_out t rest (u ∷ ts_out) h a =
          let (here, after) = advance clock t_out t rest in
          let same = latest-advance t_out u t rest (ground (arith, a)) in
          rw
            (
              any_within u here after (is_sorted-advance t_out t rest h),
              any_within u t rest h,
              same,
              first_pair-advance t_out t rest ts_out h (ground (arith, a)),
            )
            refl

      pair_from-first_pair :
          (t : T) (rest ts_out : List T)
          → is_sorted (t ∷ rest) ≡ true
          → is_sorted ts_out ≡ true
          → pair_from clock later t rest ts_out ≡ first_pair t rest ts_out
      unfolding pair_from
      pair_from-first_pair t rest [] h k = refl
      pair_from-first_pair t rest (t_out ∷ ts_out) h k =
          rw
            (
              any_within t_out t rest h,
              sym (advance-latest t_out t rest (ground (arith, h))),
              pair_from-first_pair (advance clock t_out t rest).0 (advance clock t_out t rest).1
                  ts_out (is_sorted-advance t_out t rest h) (ground (arith, k)),
              first_pair-advance t_out t rest ts_out h (ground (arith, k)),
            )
            refl

      -- On sorted times, `_pair_times` gives what a search through all pairs gives: the first time
      -- out that lies within the window of any time in, with the latest time in not after it, and
      -- nothing if there is none. This when a window that starts later ends no earlier.
      pub pair_times-earliest_pair :
          (ts_in ts_out : List T)
          → is_sorted ts_in ≡ true
          → is_sorted ts_out ≡ true
          → pair_times clock later ts_in ts_out ≡ earliest_pair ts_in ts_out
      unfolding pair_times
      pair_times-earliest_pair [] ts_out h k = refl
      pair_times-earliest_pair (t ∷ ts_in) ts_out h k = pair_from-first_pair t ts_in ts_out h k
