-- ===== src/Lateral/Chains.antt =====
-- `_find_chains` of src/artifact_engine/core/lateral.py. An edge is told from another by its place in
-- the list; the times of each are sorted once, before the search. A dict of lists, read at a key, is
-- the entries with this key in their order. What is displayed of a time is not modelled.
pub mod Pivot
pub mod Sound
use artifact_engine.Prelude.{
  ℕ, zero, suc, ◌+◌, Bool, true, false, not, ◌&&◌, ◌||◌, Option, none, some, List, [], ◌∷◌, ◌++◌,
  map, ltb, ◌==◌, ◌-◌, if◌then◌else◌,
}
use artifact_engine.Prelude.Chars.{Chars, chars_eq, codes}
use artifact_engine.Prelude.Sorting.{sorted}
use artifact_engine.Lateral.{Edge, Reader, is_any_of, short_user, with_reason}
use artifact_engine.Lateral.Pairs.{Clock, pair_times}

-- `_CHAIN_WINDOW`, `_CHAIN_WINDOW_NOUSER` and `_MAX_CHAINS`
abbrev pub chain_window : ℕ
chain_window = 43200

abbrev pub chain_window_nouser : ℕ
chain_window_nouser = 3600

abbrev pub max_chains : ℕ
max_chains = 200

-- `_CHAIN_IN_EIDS`
abbrev pub chain_in_eids : List Chars
chain_in_eids =
    codes "4624"
    ∷ codes "LSM-21"
    ∷ codes "LSM-25"
    ∷ codes "RCM-1149"
    ∷ codes "ssh"
    ∷ codes "wtmp"
    ∷ []

-- `_CHAIN_OUT_EIDS`
abbrev pub chain_out_eids : List Chars
chain_out_eids =
    codes "4624"
    ∷ codes "4648"
    ∷ codes "4769"
    ∷ codes "1024"
    ∷ codes "1102"
    ∷ codes "TSC-MRU"
    ∷ codes "TypedPath"
    ∷ codes "LSM-21"
    ∷ codes "LSM-25"
    ∷ codes "RCM-1149"
    ∷ codes "ssh"
    ∷ codes "wtmp"
    ∷ []

abbrev pub is_empty : {A : Type 0} → List A → Bool
is_empty [] = true
is_empty (x ∷ xs) = false

-- `u.endswith("$")`
abbrev pub ends_in_dollar : Chars → Bool
ends_in_dollar [] = false
ends_in_dollar (c ∷ []) = c == b'$'
ends_in_dollar (c ∷ d ∷ s) = ends_in_dollar (d ∷ s)

-- `ine.user or out.user`
abbrev pub user_or : Chars → Chars → Chars
user_or [] other = other
user_or (c ∷ user) other = c ∷ user

abbrev pub first_some : {A : Type 0} → ℕ → List A → List A
first_some zero xs = []
first_some (suc n) [] = []
first_some (suc n) (x ∷ xs) = x ∷ first_some n xs

module _ {T : Type 0} (reader : Reader T) (clock : Clock T) (plus : ℕ → T → T) where
  -- An edge with its place.
  abbrev pub Placed : Type 0
  Placed = ℕ × Edge T

  pub record Chain : Type 0 where
    pub chain_user : Chars
    pub landed : Placed
    pub left : Placed
    pub t_in : T
    pub t_out : T

  abbrev pub time_lt : T → T → Bool
  time_lt a c = not (clock.le c a)

  abbrev pub placed_from : ℕ → List (Edge T) → List Placed
  placed_from i [] = []
  placed_from i (e ∷ edges) = (i, record e { ts = sorted time_lt e.ts }) ∷ placed_from (suc i) edges

  -- What is put into `inbound` and `by_pivot`.
  abbrev pub lands : Edge T → Bool
  lands e =
      (is_any_of e.event_id chain_in_eids && chars_eq e.status (codes "ok"))
      && ((e.dst_case && not (is_empty e.ts))
          && (not (is_empty (short_user reader e.user))
              && not (ends_in_dollar (short_user reader e.user))))

  -- What is not passed over in the loop over `out`.
  abbrev pub leaves_from : Edge T → Bool
  leaves_from e =
      (is_any_of e.event_id chain_out_eids && chars_eq e.status (codes "ok"))
      && ((e.src_case && not (is_empty e.ts)) && not (ends_in_dollar (short_user reader e.user)))

  abbrev pub window_of : Edge T → ℕ
  window_of out =
      if is_empty (short_user reader out.user) then chain_window_nouser else chain_window

  -- Whether an edge is among the candidates for one that leaves.
  abbrev pub is_candidate : Edge T → Edge T → Bool
  is_candidate out e =
      lands e
      && (chars_eq e.dst out.src
          && (is_empty (short_user reader out.user)
              || chars_eq (short_user reader e.user) (short_user reader out.user)))

  -- Whether two chains have one key.
  abbrev pub same_chain : Chain → Chain → Bool
  same_chain c d =
      chars_eq (short_user reader c.chain_user) (short_user reader d.chain_user)
      && (chars_eq c.landed.1.src d.landed.1.src
          && (chars_eq c.left.1.src d.left.1.src && chars_eq c.left.1.dst d.left.1.dst))

  -- `found[key] = ...`
  unfoldable pub put_chain : Chain → List Chain → List Chain
  unfolding chars_eq short_user
  put_chain c [] = c ∷ []
  put_chain c (d ∷ found) =
      let rest = put_chain c found in if same_chain c d then c ∷ found else d ∷ rest

  -- `key in found and found[key]["_t0"] <= pair[0]`
  unfoldable pub is_known : Chain → List Chain → Bool
  unfolding chars_eq short_user
  is_known c [] = false
  is_known c (d ∷ found) =
      let rest = is_known c found in if same_chain c d then clock.le d.t_in c.t_in else rest

  -- The places that get the reason, and the chains found.
  abbrev pub Found : Type 0
  Found = List ℕ × List Chain

  abbrev pub with_chain : Chain → Found → Found
  with_chain c (marked, found) =
      if is_known c found
      then (marked, found)
      else (c.left.0 ∷ c.landed.0 ∷ marked, put_chain c found)

  abbrev pub with_pair : Placed → Placed → Option (T × T) → Found → Found
  with_pair ine out none f = f
  with_pair ine out (some (a, z)) f =
      with_chain
        (record {
          chain_user = user_or ine.1.user out.1.user;
          landed = ine;
          left = out;
          t_in = a;
          t_out = z;
        })
        f

  -- One round of the loop over the candidates.
  unfoldable pub try_pair : Placed → Placed → Found → Found
  unfolding put_chain is_known pair_times chars_eq short_user
  try_pair out ine f =
      if is_candidate out.1 ine.1 && not (ine.0 == out.0 || chars_eq ine.1.src out.1.dst)
      then with_pair ine out (pair_times clock (plus (window_of out.1)) ine.1.ts out.1.ts) f
      else f

  unfoldable pub try_all : Placed → List Placed → Found → Found
  unfolding try_pair
  try_all out [] f = f
  try_all out (ine ∷ edges) f = try_all out edges (try_pair out ine f)

  unfoldable pub chains_from : List Placed → List Placed → Found → Found
  unfolding try_all chars_eq short_user
  chains_from edges [] f = f
  chains_from edges (out ∷ outs) f =
      chains_from edges outs (if leaves_from out.1 then try_all out edges f else f)

  abbrev pub is_marked : ℕ → List ℕ → Bool
  is_marked i [] = false
  is_marked i (j ∷ places) = i == j || is_marked i places

  abbrev pub with_marks : List ℕ → List Placed → List (Edge T)
  with_marks marked [] = []
  with_marks marked ((i, e) ∷ edges) =
      (if is_marked i marked
        then record e { reasons = with_reason (codes "chain") e.reasons }
        else e)
      ∷ with_marks marked edges

  abbrev pub chain_lt : Chain → Chain → Bool
  chain_lt c d = time_lt c.t_in d.t_in

  -- `_find_chains`: the chains, and the edges as they are then.
  unfoldable pub find_chains : List (Edge T) → List Chain × List (Edge T)
  unfolding chains_from sorted
  find_chains edges =
      let placed = placed_from 0 edges in
      let (marked, found) = chains_from placed placed ([], []) in
      (first_some max_chains (sorted chain_lt found), with_marks marked placed)
