-- ===== src/Outputs/Record/Written.antt =====
-- `_read` behind `_write` of src/artifact_engine/core/outputs.py.
use artifact_engine.Prelude.{
  ◌≡◌, refl, ◌∙◌, true, false, not, Option, none, some, [], ◌∷◌, any, all, if◌then◌else◌, arith,
}
use artifact_engine.Prelude.Chars.{Chars}
use artifact_engine.Prelude.Sorting.{sorted, any-sorted}
use artifact_engine.Outputs.{System, Folder}
use artifact_engine.Outputs.Record.{
  Stamp, Dict, lookup, item_lt, is_safe, Reading, no_record, raised, entries, read, write,
}
use artifact_engine.Outputs.Record.Dicts.{
  has_names_once, once-sorted, lookup-sorted, lookup-update-keep,
}
use artifact_engine.Outputs.Record.RoundTrip.{is_plain, Decimal, read_lines-text_of}

-- What a reading has for a name; nothing when there is no dict.
abbrev pub read_at : Chars → Reading → Option (Option Stamp)
read_at k no_record = none
read_at k raised = none
read_at k (entries d) = some (lookup k d)

all_plain :
    (d : Dict Stamp) → any (λ i. not (is_plain i.0)) d ≡ false → all (λ i. is_plain i.0) d ≡ true
all_plain [] h = refl
all_plain (i ∷ d) h = ground (arith, h, all_plain d)

-- What `_write` wrote, `_read` reads back: the stamp of every safe name, and no other name; this
-- when the folder can be written, and no name holds a break or a tab or starts with a blank.
pub read-write :
    (sys : System) (d : Dict Stamp) (f : Folder) (k : Chars)
    → Decimal sys
    → f.writable ≡ true
    → has_names_once d ≡ true
    → any (λ i. not (is_plain i.0)) d ≡ false
    → read_at k (read sys (write sys d f).stored) ≡ some (if is_safe k then lookup k d else none)
unfolding write read
read-write sys d f k num can once plain =
    rw
      (
        can,
        read_lines-text_of sys num (sorted item_lt d) []
            (all_plain (sorted item_lt d) (any-sorted item_lt (λ i. not (is_plain i.0)) d ∙ plain)),
        lookup-update-keep is_safe k (sorted item_lt d) (once-sorted d once),
        lookup-sorted k d once,
      )
      refl
