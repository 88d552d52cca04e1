-- ===== src/Prelude/Chars.antt =====
-- Text as its code points: for what walks a text character by character. Python's `str.lower`
-- comes from the Unicode tables of the interpreter, so it is a parameter.
use Prim.Native.Nat.{ℕ, ◌+◌, ◌<◌}
use Prim.Native.Char.{code}
use Prim.Native.String.{String}
use mathlib.Core.Path.{◌≡◌, refl, sym, ap, ◌∙◌}
use mathlib.Core.Bool.{Bool, true, false, ◌&&◌}
use mathlib.Core.List.{List, [], ◌∷◌, ◌++◌, append_assoc, append-nil}
use native.Mathlib.Omega.{arith}
use artifact_engine.Prelude.Tests.{ltb, leb, ◌==◌, if◌then◌else◌}
use artifact_engine.Prelude.Lists.{all}

abbrev pub Chars : Type 0
Chars = List ℕ

abbrev pub codes : String → Chars
codes String.[] = []
codes (String.◌∷◌ c s) = code c ∷ codes s

unfoldable pub chars_eq : Chars → Chars → Bool
chars_eq [] [] = true
chars_eq (c ∷ s) (d ∷ t) = c == d && chars_eq s t
chars_eq _ _ = false

pub chars_eq_refl : (s : Chars) → chars_eq s s ≡ true
unfolding chars_eq
chars_eq_refl [] = refl
chars_eq_refl (c ∷ s) = ground (arith, chars_eq_refl s)

pub eq_of_chars_eq : (s t : Chars) → chars_eq s t ≡ true → s ≡ t
unfolding chars_eq
eq_of_chars_eq [] [] h = refl
eq_of_chars_eq (c ∷ s) (d ∷ t) h = ground (arith, eq_of_chars_eq s t)
eq_of_chars_eq [] (d ∷ t) h = cc
eq_of_chars_eq (c ∷ s) [] h = cc

-- The order of texts.
unfoldable pub chars_lt : Chars → Chars → Bool
chars_lt s [] = false
chars_lt [] (d ∷ t) = true
chars_lt (c ∷ s) (d ∷ t) = if c == d then chars_lt s t else ltb c d

-- `needle in text`
abbrev pub Occurs : Chars → Chars → Type 0
Occurs needle text = (before : Chars) × (after : Chars) × (text ≡ before ++ (needle ++ after))

pub Occurs-self : (s : Chars) → Occurs s s
Occurs-self s = ([], [], sym (append-nil s))

pub Occurs-append_left : (s t before : Chars) → Occurs s t → Occurs s (before ++ t)
Occurs-append_left s t before (a, b, e) =
    (before ++ a, b, ap (λ r. before ++ r) e ∙ sym (append_assoc before a (s ++ b)))

pub Occurs-append_right : (s t after : Chars) → Occurs s t → Occurs s (t ++ after)
Occurs-append_right s t after (a, b, e) = (a, b ++ after, rw e (simp append_assoc))

pub is_ascii : ℕ → Bool
is_ascii c = ltb c 128

-- `str.isascii`
unfoldable pub isascii : Chars → Bool
unfolding is_ascii
isascii s = all is_ascii s

unfoldable pub ascii_lower : ℕ → ℕ
ascii_lower c = if leb b'A' c && leb c b'Z' then c + 32 else c

-- `str.lower`, a character at a time. What it makes of an ASCII character is documented.
pub record Unicode : Type 0 where
  pub lower_char : ℕ → Chars
  pub lower_char_ascii : (c : ℕ) → c < 128 → lower_char c ≡ ascii_lower c ∷ []

module _ (u : Unicode) where
  unfoldable pub lower : Chars → Chars
  lower [] = []
  lower (c ∷ s) = u.lower_char c ++ lower s

  pub lower-append : (s t : Chars) → lower (s ++ t) ≡ lower s ++ lower t
  unfolding lower
  lower-append [] t = refl
  lower-append (c ∷ s) t =
      rw (lower-append s t) (sym (append_assoc (u.lower_char c) (lower s) (lower t)))

  pub Occurs-lower : (s t : Chars) → Occurs s t → Occurs (lower s) (lower t)
  Occurs-lower s t (a, b, e) = (
    lower a,
    lower b,
    ap lower e ∙ lower-append a (s ++ b) ∙ ap (λ r. lower a ++ r) (lower-append s b),
  )

-- The characters beyond ASCII left as they are: a `Unicode` for examples.
abbrev pub plain : Unicode
plain = record { lower_char = λ c. ascii_lower c ∷ []; lower_char_ascii = λ c h. refl }
