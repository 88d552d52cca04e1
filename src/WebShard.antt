-- ===== src/WebShard.antt =====
-- The web timeline in slices: `ranges` and `in_order` of src/artifact_engine/handlers/_webshard.py. A
-- file is its bytes, a place in it a number.
pub mod Ranges
pub mod Order
mod Tests
use artifact_engine.Prelude.{
  ℕ, zero, suc, ◌+◌, ◌*◌, min, Bool, true, false, Option, none, some, List, [], ◌∷◌, ◌++◌, length,
  ltb, leb, ◌==◌, if◌then◌else◌,
}
use artifact_engine.Prelude.Options.{◌>>=◌}

abbrev pub drop_bytes : ℕ → List ℕ → List ℕ
drop_bytes zero s = s
drop_bytes (suc n) [] = []
drop_bytes (suc n) (c ∷ s) = drop_bytes n s

-- How far `readline` goes: behind the next line break, or to the end.
abbrev pub line_end : List ℕ → ℕ
line_end [] = 0
line_end (c ∷ s) = let rest = line_end s in if c == 10 then 1 else suc rest

-- Where a slice that starts at `lo` ends.
abbrev pub slice_end : List ℕ → ℕ → ℕ → ℕ
slice_end file size lo =
    let place = min (lo + size) (length file) in
    if ltb place (length file) then place + line_end (drop_bytes place file) else place

-- `while lo < total`
unfoldable pub ranges_from : ℕ → List ℕ → ℕ → ℕ → Option (List (ℕ × ℕ))
ranges_from zero file size lo = if ltb lo (length file) then none else some []
ranges_from (suc fuel) file size lo =
    let rest = ranges_from fuel file size (slice_end file size lo) in
    if ltb lo (length file)
    then (rest >>= λ out. some ((lo, slice_end file size lo) ∷ out))
    else some []

-- `ranges`, on the bytes of a file; a round goes on by at least one byte.
unfoldable pub ranges : List ℕ → ℕ → Option (List (ℕ × ℕ))
unfolding ranges_from
ranges file size = ranges_from (length file) file size (line_end file)

-- What a consumer gets: the ValueError, or the results; nothing when the rounds are too few.
pub data Pooled (R : Type 0) : Type 0 where
  raised : Pooled R
  yielded : Option (List R) → Pooled R

module _ {P R : Type 0} (fn : P → R) where
  -- What is submitted at first, and what is left to do.
  unfoldable pub fill : ℕ → List P → List P → List P × List P
  fill workers pending [] = (pending, [])
  fill workers pending (p ∷ todo) =
      let next = fill workers (pending ++ p ∷ []) todo in
      if leb (2 * workers) (length (pending ++ p ∷ [])) then (pending ++ p ∷ [], todo) else next

  -- `while pending`: a result is taken from the front, and the next part submitted behind.
  unfoldable pub drain : ℕ → List P → List P → Option (List R)
  drain fuel [] todo = some []
  drain zero (p ∷ pending) todo = none
  drain (suc fuel) (p ∷ pending) [] = drain fuel pending [] >>= λ rest. some (fn p ∷ rest)
  drain (suc fuel) (p ∷ pending) (q ∷ todo) =
      drain fuel (pending ++ q ∷ []) todo >>= λ rest. some (fn p ∷ rest)

  -- `in_order`, with a round for each part; a pool of no workers is the ValueError of the executor,
  -- before any part is submitted.
  unfoldable pub in_order : ℕ → List P → Pooled R
  unfolding fill drain
  in_order zero parts = raised
  in_order (suc n) parts =
      let (pending, todo) = fill (suc n) [] parts in yielded (drain (length parts) pending todo)
