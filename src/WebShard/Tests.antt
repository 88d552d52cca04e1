-- ===== src/WebShard/Tests.antt =====
-- A small timeline for src/artifact_engine/handlers/_webshard.py.
use artifact_engine.Prelude.{ℕ, ◌+◌, ◌*◌, ◌≤◌, ◌≡◌, some, List, [], ◌∷◌, map, length}
use artifact_engine.WebShard.{line_end, ranges, raised, yielded, fill, in_order}
use artifact_engine.WebShard.Ranges.{Covers, ranges-Covers}
use artifact_engine.WebShard.Order.{in_order-map}

-- A header and three rows.
abbrev timeline : List ℕ
timeline = b'h' ∷ 10 ∷ b'a' ∷ 10 ∷ b'b' ∷ b'c' ∷ 10 ∷ b'd' ∷ []

ranges-Covers_example :
    (out : List (ℕ × ℕ)) × (ranges timeline 1 ≡ some out) × Covers timeline (line_end timeline) out
ranges-Covers_example = ranges-Covers timeline 1

in_order-map_example :
    (in_order (λ p. p + 1) 0 (1 ∷ 2 ∷ 3 ∷ []) ≡ raised)
    × (in_order (λ p. p + 1) 1 (1 ∷ 2 ∷ 3 ∷ [])
        ≡ yielded (some (map (λ p. p + 1) (1 ∷ 2 ∷ 3 ∷ []))))
    × (length (fill (λ p. p + 1) 1 [] (1 ∷ 2 ∷ 3 ∷ [])).0 ≤ 2 * 1)
in_order-map_example = in_order-map (λ p. p + 1) 0 (1 ∷ 2 ∷ 3 ∷ [])
