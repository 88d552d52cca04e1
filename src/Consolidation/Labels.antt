-- ===== src/Consolidation/Labels.antt =====
-- `_labels_for` of src/artifact_engine/core/consolidate.py: it ends, and gives no label twice.
use artifact_engine.Prelude.{
  ℕ, zero, suc, ◌≤◌, ◌<◌, ◌≡◌, refl, sym, ap, ◌∙◌, inl, inr, Bool, true, false, not, ◌&&◌, some,
  List, [], ◌∷◌, ◌++◌, keep, length, Bool-cases, arith,
}
use artifact_engine.Prelude.Chars.{Chars, chars_eq, eq_of_chars_eq}
use artifact_engine.Consolidation.{
  Machine, Builtins, vol_label, is_seen, numbered, free_label, labels_from, labels_for,
}

chars_eq-append : (p s t : Chars) → chars_eq (p ++ s) (p ++ t) ≡ chars_eq s t
unfolding chars_eq
chars_eq-append [] s t = refl
chars_eq-append (c ∷ p) s t = ground (arith, chars_eq-append p s t)

longer_ne : (p : Chars) (c : ℕ) (s : Chars) → chars_eq p (p ++ c ∷ s) ≡ false
unfolding chars_eq
longer_ne [] c s = refl
longer_ne (d ∷ p) c s = ground (arith, longer_ne p c s)

abbrev without : Chars → List Chars → List Chars
without l = keep (λ x. not (chars_eq l x))

is_seen-without :
    (l k : Chars) (xs : List Chars)
    → chars_eq l k ≡ false
    → is_seen k xs ≡ true
    → is_seen k (without l xs) ≡ true
is_seen-without l k [] apart h = cc
is_seen-without l k (x ∷ xs) apart h = elim (Bool-cases (chars_eq k x)) [
  | inl here ↦
      let other : chars_eq l x ≡ false = ap (chars_eq l) (sym (eq_of_chars_eq k x here)) ∙ apart in
      rw (other, here) refl
  | inr there ↦
      let rest = is_seen-without l k xs apart (rw there at h) in
      elim (Bool-cases (chars_eq l x)) [
        | inl gone ↦ rw gone rest
        | inr kept ↦ rw (kept, there) rest
      ]
]

length-without_le : (l : Chars) (xs : List Chars) → length (without l xs) ≤ length xs
length-without_le l [] = omega arith
length-without_le l (x ∷ xs) = elim (Bool-cases (chars_eq l x)) [
  | inl gone ↦ rw gone (omega (arith, length-without_le l xs))
  | inr kept ↦ rw kept (omega (arith, length-without_le l xs))
]

length-without :
    (l : Chars) (xs : List Chars) → is_seen l xs ≡ true → length (without l xs) < length xs
length-without l [] h = cc
length-without l (x ∷ xs) h = elim (Bool-cases (chars_eq l x)) [
  | inl gone ↦ rw gone (omega (arith, length-without_le l xs))
  | inr kept ↦ rw kept (omega (arith, length-without l xs (rw kept at h)))
]

-- Numbers are written apart.
abbrev pub OneNumber : Builtins → Type 0
OneNumber b = (m n : ℕ) → b.str m ≡ b.str n → m ≡ n

-- Each label is neither seen nor given twice.
abbrev pub are_new : List Chars → List Chars → Bool
are_new seen [] = true
are_new seen (l ∷ labels) = not (is_seen l seen) && are_new (l ∷ seen) labels

module _ (b : Builtins) (one : OneNumber b) where
  numbered_apart :
      (base : Chars) (i j : ℕ) → i < j → chars_eq (numbered b base i) (numbered b base j) ≡ false
  unfolding chars_eq
  numbered_apart base i j h = chars_eq-append base (b'#' ∷ b.str i) (b'#' ∷ b.str j) ∙ apart
    where
      apart : chars_eq (b.str i) (b.str j) ≡ false
      apart = elim (Bool-cases (chars_eq (b.str i) (b.str j))) [
        | inl same ↦
            let e = one i j (eq_of_chars_eq (b.str i) (b.str j) same) in
            absurd (omega (arith, h, e))
        | inr other ↦ other
      ]

  free_label-some :
      (fuel : ℕ) (base : Chars) (i : ℕ) (label : Chars) (seen remaining : List Chars)
      → length remaining < fuel
      → (is_seen label seen ≡ true → is_seen label remaining ≡ true)
      → ((j : ℕ)
          → i ≤ j
          → is_seen (numbered b base j) seen ≡ true
          → is_seen (numbered b base j) remaining ≡ true)
      → ((j : ℕ) → i ≤ j → chars_eq label (numbered b base j) ≡ false)
      → (l : Chars) × (free_label b fuel base i label seen ≡ some l) × (is_seen l seen ≡ false)
  unfolding free_label
  free_label-some zero base i label seen remaining fewer here later apart =
      absurd (omega (arith, fewer))
  free_label-some (suc fuel) base i label seen remaining fewer here later apart =
      elim (Bool-cases (is_seen label seen)) [
        | inr free ↦ (label, rw free refl, free)
        | inl taken ↦
            let shorter = length-without label remaining (here taken) in
            let (l, found, fresh) =
              free_label-some fuel base (suc i) (numbered b base i) seen (without label remaining)
                (omega (arith, fewer, shorter))
                (λ h.
                  is_seen-without label (numbered b base i) remaining (apart i (omega arith))
                    (later i (omega arith) h))
                (λ j le h.
                  is_seen-without label (numbered b base j) remaining (apart j (omega (arith, le)))
                    (later j (omega (arith, le)) h))
                (λ j le. numbered_apart base i j (omega (arith, le))) in
            (l, rw taken found, fresh)
      ]

  labels_from-some :
      (machines : List Machine) (seen : List Chars)
      → (labels : List Chars) × (labels_from b machines seen ≡ some labels)
        × (are_new seen labels ≡ true)
  unfolding labels_from
  labels_from-some [] seen = ([], refl, refl)
  labels_from-some (m ∷ machines) seen =
      let (l, found, fresh) =
        free_label-some (suc (length seen)) (vol_label m) 1 (vol_label m) seen seen (omega arith)
          (λ h. h) (λ j le h. h) (λ j le. longer_ne (vol_label m) b'#' (b.str j)) in
      let (labels, rest, new) = labels_from-some machines (l ∷ seen) in
      (l ∷ labels, rw (found, rest) refl, rw (fresh, new) refl)

  -- The labels of any machines are found within the rounds given, and none is given twice. This when
  -- numbers are written apart.
  pub labels_for-some :
      (machines : List Machine)
      → (labels : List Chars) × (labels_for b machines ≡ some labels) × (are_new [] labels ≡ true)
  unfolding labels_for
  labels_for-some machines = labels_from-some machines []
