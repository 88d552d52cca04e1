-- ===== src/Outputs/Tests.antt =====
-- A folder with an old table and a new one, for src/artifact_engine/core/outputs.py.
use artifact_engine.Prelude.{
  ℕ, zero, suc, ◌≡◌, refl, ap, inl, Bool, true, false, ◌&&◌, Option, none, some, List, [], ◌∷◌,
  ◌++◌, map, length, all, Any, ◌⊎◌, ◌==◌, if◌then◌else◌,
}
use artifact_engine.Prelude.Chars.{Chars, codes, ascii_lower, chars_eq}
use artifact_engine.Outputs.{System, Entry, Folder, stat, unlink, restamp}
use artifact_engine.Outputs.Record.{Stamp, at, Dict, assign, is_safe, lookup, read, write}
use artifact_engine.Outputs.Record.RoundTrip.{in_a_number, Decimal}
use artifact_engine.Outputs.Record.Written.{read_at, read-write}
use artifact_engine.Outputs.Settle.{Candidate, candidates_of, settle_one, settle}
use artifact_engine.Outputs.Settle.Outcome.{file_after, settle_removes, settle_keeps_fresh}
use artifact_engine.Outputs.Retire.{previous_of, retire}
use artifact_engine.Outputs.Due.{MustGo}
use artifact_engine.Outputs.Retire.Named.{known_names, Retires}
use artifact_engine.Outputs.Retire.Removal.{retire_removes}

-- Numbers as strokes, one more than they count_strokes.
abbrev ones : ℕ → Chars
ones zero = []
ones (suc n) = b'1' ∷ ones n

abbrev strokes : Chars → Bool
strokes [] = false
strokes (c ∷ s) = c == b'1' && all (λ d. d == b'1') s

abbrev count_strokes : Chars → Option ℕ
count_strokes [] = none
count_strokes (c ∷ s) = some (length s)

-- Names without case, as for Windows.
abbrev windows : System
windows = record {
  resolved = map ascii_lower;
  casefold = map ascii_lower;
  isdigit = strokes;
  int = count_strokes;
  str = λ n. b'1' ∷ ones n;
}

length-ones : (n : ℕ) → length (ones n) ≡ n
length-ones zero = refl
length-ones (suc n) = ap suc (length-ones n)

ones_strokes : (n : ℕ) → all (λ d. d == b'1') (ones n) ≡ true
ones_strokes zero = refl
ones_strokes (suc n) = ones_strokes n

ones_visible : (n : ℕ) → all in_a_number (ones n) ≡ true
ones_visible zero = refl
ones_visible (suc n) = ones_visible n

windows-Decimal : Decimal windows
windows-Decimal = record {
  isdigit-str = ones_strokes;
  int-str = λ n. ap some (length-ones n);
  str_visible = ones_visible;
  isdigit-empty = refl;
  isdigit-minus_one = refl;
}

abbrev old_table : Chars
old_table = codes "old.csv"

abbrev new_table : Chars
new_table = codes "New.csv"

abbrev old_entry : Entry
old_entry = record { stamp = 2; leaves = none }

-- The record has both tables, the new one under a name in another case.
abbrev record_text : Chars
record_text = old_table ++ 9 ∷ (ones 3 ++ 10 ∷ (codes "new.csv" ++ 9 ∷ (ones 4 ++ 10 ∷ [])))

abbrev folder : Folder
folder = record {
  files = (old_table, old_entry) ∷ (new_table, record { stamp = 3; leaves = none }) ∷ [];
  stored = some record_text;
  writable = true;
  marker = true;
  record_deletable = true;
  marker_deletable = true;
}

abbrev judged_candidates : List Candidate
judged_candidates = (old_table, some (at 2)) ∷ (codes "new.csv", some (at 3)) ∷ []

abbrev recorded_dict : Dict Stamp
recorded_dict = (old_table, at 2) ∷ (codes "new.csv", at 3) ∷ []

readable : candidates_of windows (read windows folder.stored) [] ≡ some judged_candidates
unfolding read assign chars_eq
readable = refl

previous_readable : previous_of windows (read windows folder.stored) ≡ some recorded_dict
unfolding read assign chars_eq
previous_readable = refl

old_found : stat windows old_table folder.files ≡ some old_entry
unfolding stat chars_eq ascii_lower
old_found = refl

read-write_example :
    read_at old_table (read windows (write windows recorded_dict folder).stored)
    ≡ some (if is_safe old_table then lookup old_table recorded_dict else none)
unfolding chars_eq
read-write_example =
    read-write windows recorded_dict folder old_table windows-Decimal refl refl refl

settle_removes_example :
    (Any (MustGo windows (new_table ∷ []) 5 old_table 2) judged_candidates
      × (file_after windows old_table (settle windows (new_table ∷ []) [] 5 folder) ≡ some none))
    ⊎ ((¬ Any (MustGo windows (new_table ∷ []) 5 old_table 2) judged_candidates)
        × (file_after windows old_table (settle windows (new_table ∷ []) [] 5 folder)
            ≡ some (some old_entry)))
settle_removes_example =
    settle_removes windows (new_table ∷ []) [] 5 folder old_table old_entry judged_candidates
      readable old_found refl

settle_keeps_fresh_example :
    file_after windows new_table (settle windows (new_table ∷ []) [] 5 folder)
    ≡ some (stat windows new_table folder.files)
settle_keeps_fresh_example =
    settle_keeps_fresh windows (new_table ∷ []) [] 5 folder new_table judged_candidates readable
      (λ a b h. h) (inl refl)

retire_removes_example :
    (Any
        (Retires windows recorded_dict (old_table ∷ []) (new_table ∷ []) old_table 2)
        (known_names recorded_dict (old_table ∷ []))
      × (file_after windows old_table (retire windows (old_table ∷ []) (new_table ∷ []) folder)
          ≡ some none))
    ⊎ ((¬ Any
          (Retires windows recorded_dict (old_table ∷ []) (new_table ∷ []) old_table 2)
          (known_names recorded_dict (old_table ∷ [])))
        × (file_after windows old_table (retire windows (old_table ∷ []) (new_table ∷ []) folder)
            ≡ some (some old_entry)))
retire_removes_example =
    retire_removes windows (old_table ∷ []) (new_table ∷ []) folder recorded_dict old_table
      old_entry previous_readable old_found refl

-- The old table goes.
old_table_goes :
    file_after windows old_table (settle windows (new_table ∷ []) [] 5 folder) ≡ some none
unfolding settle settle_one stat is_safe ascii_lower unlink
old_table_goes = refl

-- A directory that is removed in part has another stamp, and the next run forgets it.
abbrev emptied : Folder
emptied = record folder {
  files =
      (old_table, record { stamp = 2; leaves = some 4 })
      ∷ (new_table, record { stamp = 3; leaves = none })
      ∷ [];
}

abbrev settle_again : Option (List Chars × Folder) → Option (List Chars × Folder)
settle_again none = none
settle_again (some (removed, f)) = settle windows (new_table ∷ []) [] 5 f

abbrev recorded_after : Option (List Chars × Folder) → Option (Option Stamp)
recorded_after none = none
recorded_after (some (removed, f)) = read_at old_table (read windows f.stored)

abbrev recorded_twice : Option (Option Stamp) × Option (Option Stamp)
recorded_twice =
    let first = settle windows (new_table ∷ []) [] 5 emptied in
    (recorded_after first, recorded_after (settle_again first))

emptied_is_forgotten : recorded_twice ≡ (some (some (at 2)), some none)
unfolding settle settle_one stat is_safe ascii_lower chars_eq read assign write lookup restamp
emptied_is_forgotten = refl
