-- ===== src/NetClass/Declared.antt =====
-- What the entries of `internal_networks` say of an address (src/artifact_engine/core/netclass.py).
use artifact_engine.Prelude.{
  ◌≡◌, refl, inl, inr, Bool, false, not, ◌||◌, ◌&&◌, Option, none, some, List, [], ◌∷◌, ◌++◌, any,
  if◌then◌else◌, Bool-cases, arith,
}
use artifact_engine.Prelude.Chars.{Chars}
use artifact_engine.Outputs.Record.{strip}
use artifact_engine.NetClass.{
  Addresses, Entries, as_entries, is_comment, internal, private_scope, public, NetClass, as_ip,
  contains, scope_of, scope, with_network, parse_all, parse,
}

any-snoc :
    {A : Type 0} (test : A → Bool) (xs : List A) (x : A)
    → any test (xs ++ x ∷ []) ≡ (any test xs || test x)
any-snoc test [] x = ground arith
any-snoc test (y ∷ xs) x = ground (arith, any-snoc test xs x)

module _ (lib : Addresses) (ip : lib.Addr) where
  abbrev pub holds : Option lib.Net → Bool
  holds none = false
  holds (some net) = lib.is_within_net ip net

  -- Whether an entry declares an address.
  abbrev pub declares : Chars → Bool
  declares raw = not (is_comment (strip raw)) && holds (lib.ip_network (strip raw))

  contains-with_network :
      (text : Chars) (net : Option lib.Net) (nc : NetClass lib)
      → contains lib (with_network lib text net nc) ip ≡ (contains lib nc ip || holds net)
  unfolding contains
  contains-with_network text none nc = ground arith
  contains-with_network text (some net) nc = any-snoc (lib.is_within_net ip) nc.networks net

  contains-parse_all :
      (entries : List Chars) (nc : NetClass lib)
      → contains lib (parse_all lib entries nc) ip ≡ (contains lib nc ip || any declares entries)
  unfolding parse_all
  contains-parse_all [] nc = ground arith
  contains-parse_all (raw ∷ entries) nc = elim (Bool-cases (is_comment (strip raw))) [
    | inl comment ↦ rw comment (contains-parse_all entries nc)
    | inr entry ↦ rw entry (
        ground (
          arith,
          contains-parse_all entries (with_network lib (strip raw) (lib.ip_network (strip raw)) nc),
          contains-with_network (strip raw) (lib.ip_network (strip raw)) nc,
        ))
  ]

  contains-parse :
      (entries : Entries) → contains lib (parse lib entries) ip ≡ any declares (as_entries entries)
  unfolding parse contains
  contains-parse entries =
      contains-parse_all (as_entries entries) (record { networks = []; rejected = [] })

module _ (lib : Addresses) where
  -- The scope of an address read straight from the configured entries.
  abbrev pub declared_scope : Entries → Option lib.Addr → Chars
  declared_scope entries none = []
  declared_scope entries (some ip) =
      if any (declares lib ip) (as_entries entries)
      then internal
      else if lib.is_global ip
      then public
      else private_scope

  scope_of-parse :
      (entries : Entries) (addr : Option lib.Addr)
      → scope_of lib (parse lib entries) addr ≡ declared_scope entries addr
  scope_of-parse entries none = refl
  scope_of-parse entries (some ip) = rw (contains-parse lib ip entries) refl

  -- The scope under the parsed entries is read straight from the entries: no address has the empty
  -- scope, an address that some entry (stripped, no blank and no comment) declares is internal, and
  -- any other is public when it is global and private when it is not.
  pub scope-parse :
      (entries : Entries) (value : Chars)
      → scope lib (parse lib entries) value ≡ declared_scope entries (as_ip lib value)
  unfolding scope
  scope-parse entries value = scope_of-parse entries (as_ip lib value)
