-- ===== src/Lateral/Chains/Pivot.antt =====
-- What a chain of `_find_chains` (src/artifact_engine/core/lateral.py) is to be, said of its two logons
-- apart from the tests of the search.
use artifact_engine.Prelude.{
  ℕ, ◌≡◌, refl, ◌≢◌, ◌⊎◌, inl, inr, true, false, not, ◌||◌, List, [], ◌∷◌, ◌++◌, Any, ◌==◌, ==_iff,
  if◌then◌else◌, Bool-cases, arith,
}
use artifact_engine.Prelude.Chars.{Chars, codes, chars_eq, chars_eq_refl, eq_of_chars_eq}
use artifact_engine.Lateral.{Edge, Reader, is_any_of, short_user}
use artifact_engine.Lateral.Pairs.{Clock, is_within}
use artifact_engine.Lateral.Chains.{
  Placed, Chain, is_empty, ends_in_dollar, user_or, lands, leaves_from, window_of, is_candidate,
}

-- The events of a logon on the destination, and those of a logon to elsewhere.
abbrev pub landing_events : List Chars
landing_events =
    codes "4624"
    ∷ codes "LSM-21"
    ∷ codes "LSM-25"
    ∷ codes "RCM-1149"
    ∷ codes "ssh"
    ∷ codes "wtmp"
    ∷ []

abbrev pub leaving_events : List Chars
leaving_events =
    codes "4624"
    ∷ codes "4648"
    ∷ codes "4769"
    ∷ codes "1024"
    ∷ codes "1102"
    ∷ codes "TSC-MRU"
    ∷ codes "TypedPath"
    ∷ codes "LSM-21"
    ∷ codes "LSM-25"
    ∷ codes "RCM-1149"
    ∷ codes "ssh"
    ∷ codes "wtmp"
    ∷ []

-- The account of a machine ends in `$`.
abbrev pub IsMachineAccount : Chars → Type 0
IsMachineAccount account = (s : Chars) × (account ≡ s ++ b'$' ∷ [])

-- Twelve hours, or one when the second logon has no account.
abbrev pub seconds_for : Chars → ℕ
seconds_for [] = 3600
seconds_for (c ∷ account) = 43200

Any-of_is_any_of : (x : Chars) (ys : List Chars) → is_any_of x ys ≡ true → Any (λ y. y ≡ x) ys
Any-of_is_any_of x [] h = cc h
Any-of_is_any_of x (y ∷ ys) h = elim (Bool-cases (chars_eq x y)) [
  | inl same ↦ let e = eq_of_chars_eq x y same in inl (cc e)
  | inr other ↦ inr (Any-of_is_any_of x ys (rw other at h))
]

ends_in_dollar-append : (s : Chars) → ends_in_dollar (s ++ b'$' ∷ []) ≡ true
ends_in_dollar-append [] = refl
ends_in_dollar-append (c ∷ []) = refl
ends_in_dollar-append (c ∷ d ∷ s) = ends_in_dollar-append (d ∷ s)

no_machine : (account : Chars) → ends_in_dollar account ≡ false → ¬ IsMachineAccount account
no_machine account h (s, e) = let k = rw e at h in cc (k, ends_in_dollar-append s)

not_empty : {A : Type 0} → (xs : List A) → is_empty xs ≡ false → xs ≢ []
not_empty [] h e = cc h
not_empty (x ∷ xs) h e = cc e

empty_or_same : (a c : Chars) → (is_empty c || chars_eq a c) ≡ true → (c ≡ []) ⊎ (a ≡ c)
empty_or_same a [] h = inl refl
empty_or_same a (x ∷ c) h = inr (eq_of_chars_eq a (x ∷ c) h)

module _ {T : Type 0} (reader : Reader T) (clock : Clock T) (plus : ℕ → T → T) where
  -- A successful logon on a host of the case by an account of a user.
  pub record IsLanding (e : Edge T) : Type 0 where
    pub event : Any (λ id. id ≡ e.event_id) landing_events
    pub succeeded : e.status ≡ codes "ok"
    pub dst_of_case : e.dst_case ≡ true
    pub has_times : e.ts ≢ []
    pub has_account : short_user reader e.user ≢ []
    pub no_machine_account : ¬ IsMachineAccount (short_user reader e.user)

  -- A successful logon from a host of the case, by an account of a user or none.
  pub record IsLeaving (e : Edge T) : Type 0 where
    pub event : Any (λ id. id ≡ e.event_id) leaving_events
    pub succeeded : e.status ≡ codes "ok"
    pub src_of_case : e.src_case ≡ true
    pub has_times : e.ts ≢ []
    pub no_machine_account : ¬ IsMachineAccount (short_user reader e.user)

  -- The second logon leaves the host of the first, by the same account if it has one, to another
  -- host than the first came from, at times of theirs, at most the seconds later; the account is one
  -- of theirs.
  pub record IsPivot (c : Chain reader clock plus) : Type 0 where
    pub landing : IsLanding c.landed.1
    pub leaving : IsLeaving c.left.1
    pub over_host : c.landed.1.dst ≡ c.left.1.src
    pub same_account :
        (short_user reader c.left.1.user ≡ [])
        ⊎ (short_user reader c.landed.1.user ≡ short_user reader c.left.1.user)
    pub two_edges : c.landed.0 ≢ c.left.0
    pub not_back : c.landed.1.src ≢ c.left.1.dst
    pub time_of_landing : Any (λ t. t ≡ c.t_in) c.landed.1.ts
    pub time_of_leaving : Any (λ t. t ≡ c.t_out) c.left.1.ts
    pub not_before : clock.le c.t_in c.t_out ≡ true
    pub in_time :
        clock.le c.t_out (plus (seconds_for (short_user reader c.left.1.user)) c.t_in) ≡ true
    pub account :
        ((c.landed.1.user ≢ []) × (c.chain_user ≡ c.landed.1.user))
        ⊎ ((c.landed.1.user ≡ []) × (c.chain_user ≡ c.left.1.user))

  IsLanding-of_lands : (e : Edge T) → lands reader clock plus e ≡ true → IsLanding e
  IsLanding-of_lands e h = record {
    event = Any-of_is_any_of e.event_id landing_events (ground (arith, h));
    succeeded = eq_of_chars_eq e.status (codes "ok") (ground (arith, h));
    dst_of_case = ground (arith, h);
    has_times = not_empty e.ts (ground (arith, h));
    has_account = not_empty (short_user reader e.user) (ground (arith, h));
    no_machine_account = no_machine (short_user reader e.user) (ground (arith, h));
  }

  IsLeaving-of_leaves_from : (e : Edge T) → leaves_from reader clock plus e ≡ true → IsLeaving e
  IsLeaving-of_leaves_from e h = record {
    event = Any-of_is_any_of e.event_id leaving_events (ground (arith, h));
    succeeded = eq_of_chars_eq e.status (codes "ok") (ground (arith, h));
    src_of_case = ground (arith, h);
    has_times = not_empty e.ts (ground (arith, h));
    no_machine_account = no_machine (short_user reader e.user) (ground (arith, h));
  }

  window_of-seconds_for :
      (e : Edge T) → window_of reader clock plus e ≡ seconds_for (short_user reader e.user)
  window_of-seconds_for e = by_account (short_user reader e.user)
    where
      by_account : (a : Chars) → (if is_empty a then 3600 else 43200) ≡ seconds_for a
      by_account [] = refl
      by_account (c ∷ a) = refl

  which_user : (a c : Chars) → ((a ≢ []) × (user_or a c ≡ a)) ⊎ ((a ≡ []) × (user_or a c ≡ c))
  which_user [] c = inr (refl, refl)
  which_user (x ∷ a) c = inl ((λ e. cc e), refl)

  pub IsPivot-of_tests :
      (ine out : Placed reader clock plus) (t z : T)
      → leaves_from reader clock plus out.1 ≡ true
      → is_candidate reader clock plus out.1 ine.1 ≡ true
      → not (ine.0 == out.0 || chars_eq ine.1.src out.1.dst) ≡ true
      → Any (λ s. s ≡ t) ine.1.ts
      → Any (λ s. s ≡ z) out.1.ts
      → is_within clock (plus (window_of reader clock plus out.1)) t z ≡ true
      → IsPivot (record {
        chain_user = user_or ine.1.user out.1.user;
        landed = ine;
        left = out;
        t_in = t;
        t_out = z;
      })
  IsPivot-of_tests ine out t z l h k t_of z_of w =
      let near = rw (window_of-seconds_for out.1) at w in
      record {
        landing = IsLanding-of_lands ine.1 (ground (arith, h));
        leaving = IsLeaving-of_leaves_from out.1 l;
        over_host = eq_of_chars_eq ine.1.dst out.1.src (ground (arith, h));
        same_account =
            empty_or_same (short_user reader ine.1.user) (short_user reader out.1.user)
              (ground (arith, h));
        two_edges = λ e. let same = (==_iff ine.0 out.0).1 e in ground (arith, k, same);
        not_back = λ e.
            let same : chars_eq ine.1.src out.1.dst ≡ true = rw e (chars_eq_refl out.1.dst) in
            ground (arith, k, same);
        time_of_landing = t_of;
        time_of_leaving = z_of;
        not_before = ground (arith, near);
        in_time = ground (arith, near);
        account = which_user ine.1.user out.1.user;
      }
