-- ===== src/NetClass/Tests.antt =====
-- Concrete runs of the network classes, over addresses and networks of one character.
use artifact_engine.Prelude.{
  ℕ, ◌+◌, ◌≡◌, refl, true, false, Option, none, some, [], ◌∷◌, ltb, ◌==◌, if◌then◌else◌,
}
use artifact_engine.Prelude.Chars.{Chars, codes, chars_eq}
use artifact_engine.NetClass.{
  Addresses, Entries, one_text, internal, public, contains_text, scope, is_public, parse,
  as_entries, describe,
}
use artifact_engine.NetClass.Declared.{scope-parse}

abbrev digit : Chars → Option ℕ
digit [] = none
digit (c ∷ []) = if c == b'?' then none else some c
digit (c ∷ d ∷ s) = none

abbrev digits : Addresses
digits = record {
  Addr = ℕ;
  Net = ℕ;
  ip_address = digit;
  ip_network = digit;
  is_within_net = λ ip net. ip == net;
  is_global = λ ip. ltb b'4' ip;
  str_of = λ n. (b'0' + n) ∷ [];
}

abbrev configured : Entries
configured = one_text (codes "1, 8 #x ? ")

configured-as_entries : as_entries configured ≡ codes "1" ∷ codes "8" ∷ codes "#x" ∷ codes "?" ∷ []
configured-as_entries = refl

contains_text-declared : contains_text digits (parse digits configured) (codes "8 ") ≡ true
unfolding contains_text parse
contains_text-declared = refl

scope-declared : scope digits (parse digits configured) (codes " 8") ≡ internal
unfolding scope parse
scope-declared = refl

scope-global : scope digits (parse digits configured) (codes "9") ≡ public
unfolding scope parse
scope-global = refl

is_public-no_address : is_public digits (parse digits configured) (codes "?") ≡ false
unfolding is_public parse chars_eq
is_public-no_address = refl

describe-configured :
    describe digits (parse digits configured)
    ≡ codes "2 internal range(s) declared; 1 unreadable and IGNORED: ?"
unfolding describe parse
describe-configured = refl

scope-parse_example : scope digits (parse digits configured) (codes " 8") ≡ internal
scope-parse_example = scope-parse digits configured (codes " 8")
