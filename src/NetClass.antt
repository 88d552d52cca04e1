-- ===== src/NetClass.antt =====
-- src/artifact_engine/core/netclass.py: which side of the perimeter an address is on. The standard
-- library's addresses and networks are a parameter.
pub mod Declared
mod Tests
use artifact_engine.Prelude.{
  ℕ, zero, suc, Bool, true, false, not, ◌||◌, ◌&&◌, Option, none, some, List, [], ◌∷◌, ◌++◌, any,
  length, ◌==◌, if◌then◌else◌,
}
use artifact_engine.Prelude.Chars.{Chars, chars_eq, codes}
use artifact_engine.Outputs.Record.{is_space, strip}

-- `ip_address` and `ip_network` (nothing: ValueError), `ip in net`, `is_global`, and `str` of a number.
pub record Addresses : Type 1 where
  pub Addr : Type 0
  pub Net : Type 0
  pub ip_address : Chars → Option Addr
  pub ip_network : Chars → Option Net
  pub is_within_net : Addr → Net → Bool
  pub is_global : Addr → Bool
  pub str_of : ℕ → Chars

-- What `internal_networks` may be: None, one text, several, or another value by its text.
pub data Entries : Type 0 where
  missing : Entries
  one_text : Chars → Entries
  several : List Chars → Entries
  other_value : Chars → Entries

-- `entries.replace(",", " ")`
abbrev pub commas_blank : Chars → Chars
commas_blank [] = []
commas_blank (c ∷ s) = (if c == b',' then b' ' else c) ∷ commas_blank s

abbrev pub in_word : ℕ → List Chars → List Chars
in_word c [] = (c ∷ []) ∷ []
in_word c (w ∷ words) = (c ∷ w) ∷ words

-- The parts between blanks, some of them empty.
abbrev pub parts_of : Chars → List Chars
parts_of [] = [] ∷ []
parts_of (c ∷ s) = let rest = parts_of s in if is_space c then [] ∷ rest else in_word c rest

abbrev pub full_parts : List Chars → List Chars
full_parts [] = []
full_parts ([] ∷ words) = full_parts words
full_parts ((c ∷ w) ∷ words) = (c ∷ w) ∷ full_parts words

-- `_as_entries`
abbrev pub as_entries : Entries → List Chars
as_entries missing = []
as_entries (one_text s) = full_parts (parts_of (commas_blank s))
as_entries (several texts) = texts
as_entries (other_value s) = s ∷ []

-- `not text or text.startswith("#")`
abbrev pub is_comment : Chars → Bool
is_comment [] = true
is_comment (c ∷ s) = c == b'#'

abbrev pub internal : Chars
internal = codes "internal"

abbrev pub private_scope : Chars
private_scope = codes "private"

abbrev pub public : Chars
public = codes "public"

module _ (lib : Addresses) where
  -- `NetClass`
  pub record NetClass : Type 0 where
    pub networks : List lib.Net
    pub rejected : List Chars

  -- `_as_ip`
  abbrev pub as_ip : Chars → Option lib.Addr
  as_ip value = lib.ip_address (strip value)

  -- `NetClass.contains`
  unfoldable pub contains : NetClass → lib.Addr → Bool
  contains nc ip = any (lib.is_within_net ip) nc.networks

  abbrev pub contains_found : NetClass → Option lib.Addr → Bool
  contains_found nc none = false
  contains_found nc (some ip) = contains nc ip

  -- `NetClass.contains` of a text.
  unfoldable pub contains_text : NetClass → Chars → Bool
  unfolding contains
  contains_text nc value = contains_found nc (as_ip value)

  abbrev pub scope_of : NetClass → Option lib.Addr → Chars
  scope_of nc none = []
  scope_of nc (some ip) =
      if contains nc ip then internal else if lib.is_global ip then public else private_scope

  -- `NetClass.scope`
  unfoldable pub scope : NetClass → Chars → Chars
  unfolding contains
  scope nc value = scope_of nc (as_ip value)

  -- `NetClass.is_public`
  unfoldable pub is_public : NetClass → Chars → Bool
  unfolding scope chars_eq
  is_public nc value = chars_eq (scope nc value) public

  abbrev pub with_network : Chars → Option lib.Net → NetClass → NetClass
  with_network text none nc = record nc { rejected = nc.rejected ++ text ∷ [] }
  with_network text (some net) nc = record nc { networks = nc.networks ++ net ∷ [] }

  -- The loop of `parse`.
  unfoldable pub parse_all : List Chars → NetClass → NetClass
  parse_all [] nc = nc
  parse_all (raw ∷ entries) nc = parse_all entries (
      if is_comment (strip raw)
      then nc
      else with_network (strip raw) (lib.ip_network (strip raw)) nc)

  -- `parse`
  unfoldable pub parse : Entries → NetClass
  unfolding parse_all
  parse entries = parse_all (as_entries entries) (record { networks = []; rejected = [] })

  abbrev pub first_five : ℕ → List Chars → List Chars
  first_five zero texts = []
  first_five (suc n) [] = []
  first_five (suc n) (t ∷ texts) = t ∷ first_five n texts

  abbrev pub joined : Chars → List Chars → Chars
  joined sep [] = []
  joined sep (t ∷ []) = t
  joined sep (t ∷ u ∷ texts) = t ++ (sep ++ joined sep (u ∷ texts))

  abbrev pub rejected_part : List Chars → List Chars
  rejected_part [] = []
  rejected_part (t ∷ rejected) =
      (lib.str_of (length (t ∷ rejected))
        ++ (codes " unreadable and IGNORED: " ++ joined (codes ", ") (first_five 5 (t ∷ rejected))))
      ∷ []

  abbrev pub described : List lib.Net → List Chars → Chars
  described [] [] = []
  described networks rejected = joined (codes "; ") (
      (lib.str_of (length networks) ++ codes " internal range(s) declared")
      ∷ rejected_part rejected)

  -- `describe`
  unfoldable pub describe : NetClass → Chars
  describe nc = described nc.networks nc.rejected
