-- ===== src/Lateral/Tests.antt =====
-- Logons over a pivot and a guessed password, for src/artifact_engine/core/lateral.py.
use artifact_engine.Prelude.{
  ℕ, ◌+◌, ◌≡◌, refl, true, false, none, List, [], ◌∷◌, map, leb, All, arith,
}
use artifact_engine.Prelude.Chars.{Chars, chars_eq, codes}
use artifact_engine.Lateral.{
  Edge, Reader, short_user, add_fails, fails_of, count_fails, mark_brute_success,
}
use artifact_engine.Lateral.Brute.{flagged, mark_brute_success-flagged}
use artifact_engine.Lateral.Pairs.{Clock, pair_times}
use artifact_engine.Lateral.Pairs.Earliest.{earliest_pair, pair_times-earliest_pair}
use artifact_engine.Lateral.Chains.{placed_from, find_chains}
use artifact_engine.Lateral.Chains.Sound.{IsChain, find_chains-IsChain}

leb_refl : (a : ℕ) → leb a a ≡ true
leb_refl a = ground arith

leb_trans : (a b c : ℕ) → leb a b ≡ true → leb b c ≡ true → leb a c ≡ true
leb_trans a b c h k = ground arith

leb_total : (a b : ℕ) → leb a b ≡ false → leb b a ≡ true
leb_total a b h = ground arith

-- Times in whole seconds.
abbrev seconds : Clock ℕ
seconds = record { le = leb; le_refl = leb_refl; le_trans = leb_trans; le_total = leb_total }

abbrev reader : Reader ℕ
reader = record { strip = λ s. s; lower = λ s. s; parse_ts = λ s. none }

abbrev logon : Chars → Chars → Chars → Chars → ℕ → List ℕ → Edge ℕ
logon src dst event_id status count ts = record {
  src = src;
  dst = dst;
  user = codes "CORP\\eve";
  logon_type = none;
  event_id = event_id;
  status = status;
  src_case = true;
  dst_case = true;
  count = count;
  first = [];
  last = [];
  reasons = [];
  ts = ts;
}

-- From a to b, and an hour on from b to c.
abbrev pivot : List (Edge ℕ)
pivot =
    logon (codes "a") (codes "b") (codes "4624") (codes "ok") 1 (100 ∷ [])
    ∷ logon (codes "b") (codes "c") (codes "4624") (codes "ok") 1 (3700 ∷ [])
    ∷ []

abbrev guessed : List (Edge ℕ)
guessed =
    logon (codes "a") (codes "b") (codes "btmp") (codes "failed") 7 []
    ∷ logon (codes "a") (codes "b") (codes "ssh") (codes "ok") 1 []
    ∷ []

-- A login at 100 is flagged for failures at 200.
abbrev failed_later : List (Edge ℕ)
failed_later =
    logon (codes "a") (codes "b") (codes "ssh") (codes "ok") 1 (100 ∷ [])
    ∷ logon (codes "a") (codes "b") (codes "btmp") (codes "failed") 5 (200 ∷ [])
    ∷ []

flagged_before_failures :
    map (λ (e : Edge ℕ). e.reasons) (mark_brute_success reader failed_later)
    ≡ (codes "brute_success" ∷ []) ∷ [] ∷ []
unfolding mark_brute_success count_fails add_fails fails_of short_user chars_eq
flagged_before_failures = refl

later_leb : (a b : ℕ) → leb a b ≡ true → leb (a + 10) (b + 10) ≡ true
later_leb a b h = ground arith

pair_times-earliest_pair_example :
    pair_times seconds (λ t. t + 10) (1 ∷ 20 ∷ 40 ∷ []) (15 ∷ 45 ∷ [])
    ≡ earliest_pair seconds (λ t. t + 10) (1 ∷ 20 ∷ 40 ∷ []) (15 ∷ 45 ∷ [])
pair_times-earliest_pair_example =
    pair_times-earliest_pair seconds (λ t. t + 10) later_leb (1 ∷ 20 ∷ 40 ∷ []) (15 ∷ 45 ∷ []) refl
      refl

mark_brute_success-flagged_example :
    mark_brute_success reader guessed ≡ map (flagged reader guessed) guessed
mark_brute_success-flagged_example = mark_brute_success-flagged reader guessed

find_chains-IsChain_example :
    All
      (IsChain reader seconds (λ w t. t + w) (placed_from reader seconds (λ w t. t + w) 0 pivot))
      (find_chains reader seconds (λ w t. t + w) pivot).0
find_chains-IsChain_example = find_chains-IsChain reader seconds (λ w t. t + w) pivot
