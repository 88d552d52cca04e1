-- ===== src/ConsoleGroups.antt =====
-- Which machines share a console line, and what it says: src/artifact_engine/core/console_groups.py.
-- A dict is an association list in insertion order.
pub mod Lines
pub mod Keys
mod Tests
use artifact_engine.Prelude.{
  ℕ, zero, suc, ◌-◌, Bool, true, false, not, ◌&&◌, ◌||◌, Option, none, some, List, [], ◌∷◌, ◌++◌,
  map, length, get_elem?, any, keep, ltb, ◌==◌, if◌then◌else◌,
}
use artifact_engine.Prelude.Chars.{Chars, codes, chars_eq, Unicode, lower}

-- What the module reads of a machine (core/detector.py).
pub record Host : Type 0 where
  pub name : Chars
  pub os : Chars
  pub collector : Chars
  pub display : Chars
  pub is_vss : Bool
  pub has_lr : Bool

-- What the module uses of the language's library: `_VSS_SUFFIX.sub("", name)`, `str.strip`,
-- `str.upper` and the digits of a number.
pub record Builtins : Type 0 where
  pub unicode : Unicode
  pub without_vss : Chars → Chars
  pub strip : Chars → Chars
  pub upper : Chars → Chars
  pub digits : ℕ → Chars

abbrev pub own_line : List Chars
own_line = codes "weblogs" ∷ codes "fortigate" ∷ codes "evtx" ∷ []

abbrev pub not_a_host : List Chars
not_a_host =
    [] ∷ codes "localhost" ∷ codes "localhost.localdomain" ∷ codes "unknown" ∷ codes "(none)" ∷ []

abbrev pub is_one_of : List Chars → Chars → Bool
is_one_of texts s = any (chars_eq s) texts

-- `s[:k]` and `s[k:]`
abbrev pub take : ℕ → Chars → Chars
take zero s = []
take (suc k) [] = []
take (suc k) (c ∷ s) = c ∷ take k s

abbrev pub drop : ℕ → Chars → Chars
drop zero s = s
drop (suc k) [] = []
drop (suc k) (c ∷ s) = drop k s

unfoldable pub endswith : Chars → Chars → Bool
unfolding chars_eq
endswith s tail =
    not (ltb (length s) (length tail)) && chars_eq (drop (length s - length tail) s) tail

pub data Key : Type 0 where
  own : ℕ → Key
  of_host : (os host : Chars) → Key

unfoldable pub key_eq : Key → Key → Bool
unfolding chars_eq
key_eq (own i) (own j) = i == j
key_eq (of_host os h) (of_host os' h') = chars_eq os os' && chars_eq h h'
key_eq _ _ = false

abbrev pub Group : Type 0
Group = Key × List ℕ

unfoldable pub add_index : ℕ → Key → List Group → List Group
unfolding key_eq
add_index i k [] = (k, i ∷ []) ∷ []
add_index i k ((l, members) ∷ groups) =
    let rest = add_index i k groups in
    if key_eq k l then (l, members ++ i ∷ []) ∷ groups else (l, members) ∷ rest

abbrev pub Line : Type 0
Line = Chars × List ℕ

-- `count[c] = count.get(c, 0) + 1`
unfoldable pub count_up : Chars → List (Chars × ℕ) → List (Chars × ℕ)
unfolding chars_eq
count_up c [] = (c, 1) ∷ []
count_up c ((d, n) ∷ counts) =
    let rest = count_up c counts in if chars_eq c d then (d, suc n) ∷ counts else (d, n) ∷ rest

abbrev pub is_counted : Host → Bool
is_counted m =
    not m.is_vss && not (is_one_of (codes "velociraptor" ∷ codes "kape" ∷ []) m.collector)

unfoldable pub collectors : List (Chars × ℕ) → List Host → List (Chars × ℕ)
unfolding count_up chars_eq
collectors counts [] = counts
collectors counts (m ∷ members) =
    collectors (if is_counted m then count_up m.collector counts else counts) members

-- `", ".join(tags)`
abbrev pub commas : List Chars → Chars
commas [] = []
commas (t ∷ []) = t
commas (t ∷ s ∷ tags) = t ++ codes ", " ++ commas (s ∷ tags)

-- `[machines[i] for i in members]`; no index is out of range.
abbrev pub select : List Host → List ℕ → List Host
select machines [] = []
select machines (i ∷ members) =
    let rest = select machines members in
    elim (get_elem? machines i) [ none ↦ rest | some m ↦ m ∷ rest ]

module _ (b : Builtins) where
  unfoldable pub host_of : Host → Chars
  unfolding endswith lower
  host_of m =
      let name = if m.is_vss then b.without_vss m.name else m.name in
      let tail = codes "_" ++ m.collector in
      if (ltb 0 (length m.collector) && endswith (lower b.unicode name) (lower b.unicode tail))
        && ltb (length tail) (length name)
      then take (length name - length tail) name
      else name

  unfoldable pub key : ℕ → Host → Key
  unfolding host_of lower chars_eq
  key i m =
      if is_one_of own_line m.collector
        || is_one_of not_a_host (lower b.unicode (b.strip (host_of m)))
      then own i
      else of_host m.os (lower b.unicode (host_of m))

  abbrev pub count_tag : Chars × ℕ → Chars
  count_tag (collector, n) =
      let word = if chars_eq collector (codes "memory") then codes "mem" else b.upper collector in
      if n == 1 then word else word ++ codes " x" ++ b.digits n

  unfoldable pub tags : List Host → List Chars
  unfolding collectors chars_eq
  tags members =
      let vss = length (keep (λ m. m.is_vss) members) in
      let kape = length (keep (λ m. chars_eq m.collector (codes "kape") && not m.is_vss) members) in
      (if ltb 1 kape then (codes "KAPE x" ++ b.digits kape) ∷ [] else [])
      ++ (if any (λ m. m.has_lr) members then codes "LR" ∷ [] else [])
      ++ (if ltb 0 vss then (b.digits vss ++ codes " VSS") ∷ [] else [])
      ++ map count_tag (collectors [] members)

  abbrev pub bracketed : Chars → List Chars → Chars
  bracketed host [] = host
  bracketed host (t ∷ ts) = host ++ codes " [" ++ commas (t ∷ ts) ++ codes "]"

  -- `m.display or m.name`
  abbrev pub shown : Host → Chars
  shown m = if length m.display == 0 then m.name else m.display

  -- A line has a machine.
  unfoldable pub label : List Host → Chars
  unfolding tags host_of chars_eq
  label [] = []
  label (first ∷ members) =
      if is_one_of own_line first.collector
      then shown first
      else bracketed (host_of first) (tags (first ∷ members))

  -- The first loop of `group`, from an index on.
  unfoldable pub gather : ℕ → List Host → List Group → List Group
  unfolding add_index key
  gather i [] groups = groups
  gather i (m ∷ machines) groups = gather (suc i) machines (add_index i (key i m) groups)

  abbrev pub label_lines : List Host → List Group → List Line
  label_lines machines [] = []
  label_lines machines ((k, members) ∷ groups) =
      (label (select machines members), members) ∷ label_lines machines groups

  -- `seen[text]`
  abbrev pub times : Chars → List Line → ℕ
  times text lines = length (keep (λ line. chars_eq text line.0) lines)

  abbrev pub own_text : List Host → List ℕ → Chars
  own_text [] members = []
  own_text (m ∷ others) members =
      if length members == 1
      then shown m
      else shown m ++ codes " [+" ++ b.digits (length members - 1) ++ codes "]"

  -- The last loop: a text that several lines would have gives way to the machine's own.
  abbrev pub fix : List Host → List Line → List Line → List Line
  fix machines out [] = []
  fix machines out ((text, members) ∷ lines) =
      (if ltb 1 (times text out) then own_text (select machines members) members else text, members)
      ∷ fix machines out lines

  unfoldable pub group : List Host → List Line
  unfolding gather label chars_eq
  group machines = let out = label_lines machines (gather 0 machines []) in fix machines out out
