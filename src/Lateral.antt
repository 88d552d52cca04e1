-- ===== src/Lateral.antt =====
-- The edges of the graph of logons in src/artifact_engine/core/lateral.py: `_Edge`, `_add_edge`,
-- `_short_user` and `_mark_brute_success`.
pub mod Pairs
pub mod Brute
pub mod Chains
mod Tests
use artifact_engine.Prelude.{
  ℕ, zero, suc, ◌+◌, Bool, true, false, not, ◌&&◌, ◌||◌, Option, none, some, List, [], ◌∷◌, ◌++◌,
  ltb, leb, ◌==◌, length, if◌then◌else◌,
}
use artifact_engine.Prelude.Chars.{Chars, chars_eq, chars_lt, codes}

-- `_Edge`, with times of any type; a logon type is a number or none.
pub record Edge (T : Type 0) : Type 0 where
  pub src : Chars
  pub dst : Chars
  pub user : Chars
  pub logon_type : Option ℕ
  pub event_id : Chars
  pub status : Chars
  pub src_case : Bool
  pub dst_case : Bool
  pub count : ℕ
  pub first : Chars
  pub last : Chars
  pub reasons : List Chars
  pub ts : List T

-- `str.strip` and `str.lower`, and `_parse_ts`, which reads a time with a regex.
pub record Reader (T : Type 0) : Type 0 where
  pub strip : Chars → Chars
  pub lower : Chars → Chars
  pub parse_ts : Chars → Option T

-- `x in xs`
abbrev pub is_any_of : Chars → List Chars → Bool
is_any_of x [] = false
is_any_of x (y ∷ ys) = chars_eq x y || is_any_of x ys

-- `user.split("\\")[-1]`
abbrev pub after_backslash : Chars → Chars → Chars
after_backslash part [] = part
after_backslash part (c ∷ s) =
    let cut = after_backslash s s in
    let rest = after_backslash part s in if c == b'\\' then cut else rest

-- `reasons.add(reason)`
abbrev pub with_reason : Chars → List Chars → List Chars
with_reason r reasons = if is_any_of r reasons then reasons else reasons ++ r ∷ []

module _ {T : Type 0} (reader : Reader T) where
  -- `_short_user`
  unfoldable pub short_user : Chars → Chars
  short_user user = reader.lower (reader.strip (after_backslash user user))

  abbrev pub same_type : Option ℕ → Option ℕ → Bool
  same_type none none = true
  same_type (some a) (some c) = a == c
  same_type none (some c) = false
  same_type (some a) none = false

  -- Whether two edges have one `_edge_key`.
  abbrev pub same_edge : Edge T → Edge T → Bool
  same_edge e d =
      chars_eq e.src d.src
      && (chars_eq e.dst d.dst
          && (chars_eq e.user d.user
              && (same_type e.logon_type d.logon_type && chars_eq e.event_id d.event_id)))

  -- `_CHAIN_TS_CAP`
  abbrev pub ts_cap : ℕ
  ts_cap = 400

  abbrev pub with_time : Option T → List T → List T
  with_time none ts = ts
  with_time (some t) ts = ts ++ t ∷ []

  abbrev pub earlier : Chars → Chars → Chars
  earlier [] ts = ts
  earlier (c ∷ first) ts = if chars_lt ts (c ∷ first) then ts else c ∷ first

  abbrev pub later_text : Chars → Chars → Chars
  later_text last ts = if chars_lt last ts then ts else last

  -- What `_add_edge` makes of the aggregate, with a time of the event or none.
  unfoldable pub bump : Chars → Edge T → Edge T
  unfolding chars_lt
  bump [] agg = record agg { count = agg.count + 1 }
  bump (c ∷ ts) agg = record agg {
    count = agg.count + 1;
    first = earlier agg.first (c ∷ ts);
    last = later_text agg.last (c ∷ ts);
    ts = if ltb (length agg.ts) ts_cap then with_time (reader.parse_ts (c ∷ ts)) agg.ts else agg.ts;
  }

  -- `_add_edge`, on the aggregates in the order of their first events.
  unfoldable pub add_edge : Edge T → Chars → List (Edge T) → List (Edge T)
  unfolding bump chars_eq
  add_edge edge ts [] = bump ts edge ∷ []
  add_edge edge ts (agg ∷ edges) =
      let rest = add_edge edge ts edges in
      if same_edge edge agg then bump ts agg ∷ edges else agg ∷ rest

-- `_BRUTE_MIN_FAILS`
abbrev pub brute_min_fails : ℕ
brute_min_fails = 5

-- The accounts that failed, by source, host and account, with how often.
abbrev pub Fails : Type 0
Fails = List ((Chars × (Chars × Chars)) × ℕ)

abbrev pub same_login : Chars × (Chars × Chars) → Chars × (Chars × Chars) → Bool
same_login (a, (b, c)) (d, (e, f)) = chars_eq a d && (chars_eq b e && chars_eq c f)

-- `fails[key] += count`
unfoldable pub add_fails : Chars × (Chars × Chars) → ℕ → Fails → Fails
unfolding chars_eq
add_fails k n [] = (k, n) ∷ []
add_fails k n ((l, m) ∷ fails) =
    let rest = add_fails k n fails in if same_login k l then (l, m + n) ∷ fails else (l, m) ∷ rest

-- `fails.get(key, 0)`
unfoldable pub fails_of : Chars × (Chars × Chars) → Fails → ℕ
unfolding chars_eq
fails_of k [] = 0
fails_of k ((l, m) ∷ fails) = let rest = fails_of k fails in if same_login k l then m else rest

module _ {T : Type 0} (reader : Reader T) where
  abbrev pub login_of : Edge T → Chars × (Chars × Chars)
  login_of e = (e.src, (e.dst, short_user reader e.user))

  abbrev pub is_failure : Edge T → Bool
  is_failure e =
      chars_eq e.status (codes "failed")
      && is_any_of e.event_id (codes "btmp" ∷ codes "ssh_fail" ∷ codes "ssh_invalid" ∷ [])

  abbrev pub is_success : Edge T → Bool
  is_success e =
      chars_eq e.status (codes "ok") && is_any_of e.event_id (codes "ssh" ∷ codes "wtmp" ∷ [])

  unfoldable pub count_fails : List (Edge T) → Fails → Fails
  unfolding add_fails chars_eq short_user
  count_fails [] fails = fails
  count_fails (e ∷ edges) fails =
      count_fails edges (if is_failure e then add_fails (login_of e) e.count fails else fails)

  abbrev pub mark : Fails → Edge T → Edge T
  mark fails e =
      if is_success e && leb brute_min_fails (fails_of (login_of e) fails)
      then record e { reasons = with_reason (codes "brute_success") e.reasons }
      else e

  abbrev pub mark_all : Fails → List (Edge T) → List (Edge T)
  mark_all fails [] = []
  mark_all fails (e ∷ edges) = mark fails e ∷ mark_all fails edges

  -- `_mark_brute_success`
  unfoldable pub mark_brute_success : List (Edge T) → List (Edge T)
  unfolding count_fails fails_of chars_eq short_user
  mark_brute_success edges = mark_all (count_fails edges []) edges
