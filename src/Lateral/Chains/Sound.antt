-- ===== src/Lateral/Chains/Sound.antt =====
-- Every chain that `_find_chains` (src/artifact_engine/core/lateral.py) gives is one.
use artifact_engine.Prelude.{
  ℕ, zero, suc, ◌≡◌, refl, inl, inr, Bool, true, false, not, ◌&&◌, ◌||◌, Option, none, some, List,
  [], ◌∷◌, ◌==◌, Any, All, All-at, All-of_at, if◌then◌else◌, Bool-cases, arith,
}
use artifact_engine.Prelude.Chars.{chars_eq}
use artifact_engine.Prelude.Sorting.{sorted, Any-of_sorted}
use artifact_engine.Lateral.{Edge, Reader}
use artifact_engine.Lateral.Pairs.{Clock, pair_times}
use artifact_engine.Lateral.Chains.Pivot.{IsPivot, IsPivot-of_tests}
use artifact_engine.Lateral.Pairs.Reached.{IsReached, pair_times-IsReached}
use artifact_engine.Lateral.Chains.{
  max_chains, user_or, first_some, Placed, Chain, placed_from, leaves_from, window_of, is_candidate,
  same_chain, put_chain, is_known, Found, with_chain, with_pair, try_pair, try_all, chains_from,
  chain_lt, find_chains,
}

module _ {T : Type 0} (reader : Reader T) (clock : Clock T) (plus : ℕ → T → T) where
  abbrev pub IsAmong : List (Placed reader clock plus) → Placed reader clock plus → Type 0
  IsAmong edges p = Any (λ q. q ≡ p) edges

  -- Two edges of the case, and a pivot between them.
  abbrev pub IsChain : List (Placed reader clock plus) → Chain reader clock plus → Type 0
  IsChain edges c = IsAmong edges c.landed × (IsAmong edges c.left × IsPivot reader clock plus c)

  module _ (edges : List (Placed reader clock plus)) where
    abbrev AllChains : List (Chain reader clock plus) → Type 0
    AllChains = All (IsChain edges)

    put_chain-IsChain :
        (c : Chain reader clock plus) (found : List (Chain reader clock plus))
        → IsChain edges c
        → AllChains found
        → AllChains (put_chain reader clock plus c found)
    unfolding put_chain
    put_chain-IsChain c [] h a = (h, tt)
    put_chain-IsChain c (d ∷ found) h a = elim (Bool-cases (same_chain reader clock plus c d)) [
      | inl same ↦ rw same (h, a.1)
      | inr other ↦ rw other (a.0, put_chain-IsChain c found h a.1)
    ]

    with_chain-IsChain :
        (c : Chain reader clock plus) (f : Found reader clock plus)
        → IsChain edges c
        → AllChains f.1
        → AllChains (with_chain reader clock plus c f).1
    with_chain-IsChain c (marked, found) h a =
        elim (Bool-cases (is_known reader clock plus c found)) [
          | inl known ↦ rw known a
          | inr other ↦ rw other (put_chain-IsChain c found h a)
        ]

    with_pair-IsChain :
        (ine out : Placed reader clock plus) (pair : Option (T × T)) (f : Found reader clock plus)
        → IsAmong edges ine
        → IsAmong edges out
        → leaves_from reader clock plus out.1 ≡ true
        → is_candidate reader clock plus out.1 ine.1 ≡ true
        → not (ine.0 == out.0 || chars_eq ine.1.src out.1.dst) ≡ true
        → IsReached clock (plus (window_of reader clock plus out.1)) ine.1.ts out.1.ts pair
        → AllChains f.1
        → AllChains (with_pair reader clock plus ine out pair f).1
    with_pair-IsChain ine out none f i o l h k r a = a
    with_pair-IsChain ine out (some (t, z)) f i o l h k (t_of, z_of, w) a =
        with_chain-IsChain
          (record {
            chain_user = user_or ine.1.user out.1.user;
            landed = ine;
            left = out;
            t_in = t;
            t_out = z;
          })
          f (i, (o, IsPivot-of_tests reader clock plus ine out t z l h k t_of z_of w)) a

    try_pair-IsChain :
        (out ine : Placed reader clock plus) (f : Found reader clock plus)
        → IsAmong edges ine
        → IsAmong edges out
        → leaves_from reader clock plus out.1 ≡ true
        → AllChains f.1
        → AllChains (try_pair reader clock plus out ine f).1
    unfolding try_pair
    try_pair-IsChain out ine f i o l a =
        elim (Bool-cases (
          is_candidate reader clock plus out.1 ine.1
          && not (ine.0 == out.0 || chars_eq ine.1.src out.1.dst))) [
            | inr passed ↦ rw passed a
            | inl tried ↦ rw tried (
                with_pair-IsChain ine out
                  (pair_times clock (plus (window_of reader clock plus out.1)) ine.1.ts out.1.ts) f
                  i o l (ground (arith, tried)) (ground (arith, tried))
                  (pair_times-IsReached clock (plus (window_of reader clock plus out.1)) ine.1.ts
                    out.1.ts)
                  a)
          ]

    try_all-IsChain :
        (out : Placed reader clock plus) (these : List (Placed reader clock plus))
        (f : Found reader clock plus)
        → All (IsAmong edges) these
        → IsAmong edges out
        → leaves_from reader clock plus out.1 ≡ true
        → AllChains f.1
        → AllChains (try_all reader clock plus out these f).1
    unfolding try_all
    try_all-IsChain out [] f i o l a = a
    try_all-IsChain out (ine ∷ these) f i o l a =
        try_all-IsChain out these (try_pair reader clock plus out ine f) i.1 o l
          (try_pair-IsChain out ine f i.0 o l a)

    either-IsChain :
        (b : Bool) (g f : Found reader clock plus)
        → (b ≡ true → AllChains g.1)
        → AllChains f.1
        → AllChains (if b then g else f).1
    either-IsChain true g f h a = h refl
    either-IsChain false g f h a = a

    chains_from-IsChain :
        (outs : List (Placed reader clock plus)) (f : Found reader clock plus)
        → All (IsAmong edges) edges
        → All (IsAmong edges) outs
        → AllChains f.1
        → AllChains (chains_from reader clock plus edges outs f).1
    unfolding chains_from
    chains_from-IsChain [] f e o a = a
    chains_from-IsChain (out ∷ outs) f e o a =
        chains_from-IsChain outs
          (if leaves_from reader clock plus out.1 then try_all reader clock plus out edges f else f)
          e o.1
          (either-IsChain (leaves_from reader clock plus out.1)
            (try_all reader clock plus out edges f) f
            (λ leaves. try_all-IsChain out edges f e o.0 leaves a) a)

  first_some-All :
      (P : Chain reader clock plus → Type 0) (n : ℕ) (cs : List (Chain reader clock plus))
      → All P cs
      → All P (first_some n cs)
  first_some-All P zero cs h = tt
  first_some-All P (suc n) [] h = tt
  first_some-All P (suc n) (c ∷ cs) h = (h.0, first_some-All P n cs h.1)

  -- Every chain that is given has two edges of the case, their times sorted: a successful logon on a
  -- host of the case, and one from this host to another than the first came from, by the same account
  -- if the second has one, within twelve hours of a time of the first, or one hour if it has none;
  -- neither account is that of a machine, and both events are among those that count.
  pub find_chains-IsChain :
      (edges : List (Edge T))
      → All
          (IsChain (placed_from reader clock plus 0 edges))
          (find_chains reader clock plus edges).0
  unfolding find_chains
  find_chains-IsChain edges =
      let placed = placed_from reader clock plus 0 edges in
      let found = (chains_from reader clock plus placed placed ([], [])).1 in
      let own = All-of_at (IsAmong placed) placed (λ p m. m) in
      let all = chains_from-IsChain placed placed ([], []) own own tt in
      first_some-All (IsChain placed) max_chains (sorted (chain_lt reader clock plus) found) (
        All-of_at (IsChain placed) (sorted (chain_lt reader clock plus) found) (λ c m.
          All-at (IsChain placed) found c all
            (Any-of_sorted (chain_lt reader clock plus) (λ d. d ≡ c) found m)))
