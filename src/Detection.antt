-- ===== src/Detection.antt =====
-- The machines of an extracted tree (src/artifact_engine/core/detector.py), their profiles
-- (src/artifact_engine/models.py), and what the detection asks of the file system.
pub mod Profiles
pub mod Walk
pub mod Displays
pub mod Drops
mod Tests
use artifact_engine.Prelude.{
  ℕ, Bool, true, false, ◌&&◌, ◌||◌, Option, List, [], ◌∷◌, ◌≡◌, arith, if◌then◌else◌,
}
use artifact_engine.Prelude.Chars.{Chars, chars_eq, eq_of_chars_eq, chars_eq_refl}

-- The names of a path, its last one first: `path.parent` is the rest.
abbrev pub FolderPath : Type 0
FolderPath = List Chars

unfoldable pub path_eq : FolderPath → FolderPath → Bool
unfolding chars_eq
path_eq [] [] = true
path_eq [] (d ∷ q) = false
path_eq (c ∷ p) [] = false
path_eq (c ∷ p) (d ∷ q) = chars_eq c d && path_eq p q

-- `path.parent`
abbrev pub parent : FolderPath → FolderPath
parent [] = []
parent (c ∷ p) = p

-- `path.name`
abbrev pub name_of : FolderPath → Chars
name_of [] = []
name_of (c ∷ p) = c

-- `rp == c or rp in c.parents`
unfoldable pub is_at_or_above : FolderPath → FolderPath → Bool
unfolding path_eq
is_at_or_above rp [] = path_eq rp []
is_at_or_above rp (c ∷ p) = path_eq rp (c ∷ p) || is_at_or_above rp p

-- `Volume`
pub record Volume : Type 0 where
  pub name : Chars
  pub path : FolderPath
  pub is_live : Bool

-- `Machine`, with `display` for its label on the console.
pub record Machine : Type 0 where
  pub name : Chars
  pub os : Chars
  pub collector : Chars
  pub profile_id : Chars
  pub path : FolderPath
  pub source : Chars
  pub volumes : List Volume
  pub display : Chars
  pub is_vss : Bool
  pub has_lr : Bool
  pub outputs_at : Option FolderPath

-- `DetectClause`
pub record Clause : Type 0 where
  pub exists : Option Chars
  pub glob : Option Chars
  pub dir_name : Option Chars

-- `MachineName`
pub record NameSpec : Type 0 where
  pub strategy : Chars
  pub file : Option Chars
  pub regex : Option Chars
  pub fallback : Chars
  pub suffix : Chars

-- `ProfileManifest`, with the two lists of its `detect`.
pub record Profile : Type 0 where
  pub id : Chars
  pub os : Chars
  pub collector : Chars
  pub any_of : List Clause
  pub all_of : List Clause
  pub machine_name : NameSpec

-- What the detection asks of the tree, of `re` and of `str`.
pub record Tree : Type 0 where
  -- `(base / relative).exists()` and `any(base.glob(pattern))`
  pub exists : FolderPath → Chars → Bool
  pub has_match : FolderPath → Chars → Bool
  -- The text of `base / file`, undecodable bytes replaced; nothing if it is no file or cannot be read.
  pub read_text : FolderPath → Chars → Option Chars
  -- The folders that `os.walk` enters from one, and the folders in one by their names in order
  -- (nothing: OSError).
  pub subdirs : FolderPath → List Chars
  pub sorted_dirs : FolderPath → Option (List Chars)
  -- `(base / "Velociraptor/LiveResponse/results").is_dir()`
  pub is_lr_dir : FolderPath → Bool
  pub resolve_path : FolderPath → FolderPath
  -- `re.fullmatch(pattern, name, re.IGNORECASE) is not None`; the first group of `re.match`, if it
  -- took part.
  pub fullmatch_ignoring_case : Chars → Chars → Bool
  pub match_group : Chars → Chars → Option Chars
  pub upper : Chars → Chars
  pub lower : Chars → Chars

pub path_eq_refl : (p : FolderPath) → path_eq p p ≡ true
unfolding path_eq
path_eq_refl [] = ground arith
path_eq_refl (c ∷ p) = ground (arith, chars_eq_refl c, path_eq_refl p)

pub eq_of_path_eq : (p q : FolderPath) → path_eq p q ≡ true → p ≡ q
unfolding path_eq
eq_of_path_eq [] [] h = ground arith
eq_of_path_eq [] (d ∷ q) h = ground arith
eq_of_path_eq (c ∷ p) [] h = ground arith
eq_of_path_eq (c ∷ p) (d ∷ q) h = ground (arith, eq_of_chars_eq c d, eq_of_path_eq p q)
