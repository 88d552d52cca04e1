-- ===== src/Lateral/Brute.antt =====
-- `_mark_brute_success` of src/artifact_engine/core/lateral.py against a count over all edges.
use artifact_engine.Prelude.{
  ℕ, ◌+◌, ◌≡◌, refl, sym, ap, ◌∙◌, inl, inr, Bool, true, false, ◌&&◌, ◌||◌, List, [], ◌∷◌, map, leb,
  if◌then◌else◌, Bool-cases, arith,
}
use artifact_engine.Prelude.Chars.{Chars, chars_eq, codes, chars_eq_refl, eq_of_chars_eq}
use artifact_engine.Prelude.Sums.{total}
use artifact_engine.Lateral.{
  Edge, Reader, with_reason, short_user, Fails, same_login, add_fails, fails_of, login_of,
  is_failure, count_fails, mark, mark_all, mark_brute_success,
}

eq_of_same_login : (k l : Chars × (Chars × Chars)) → same_login k l ≡ true → k ≡ l
eq_of_same_login (a, (b, c)) (d, (e, f)) h =
    let first = eq_of_chars_eq a d (ground (arith, h)) in
    let second = eq_of_chars_eq b e (ground (arith, h)) in
    let third = eq_of_chars_eq c f (ground (arith, h)) in cc (first, second, third)

same_login_refl : (k : Chars × (Chars × Chars)) → same_login k k ≡ true
same_login_refl (a, (b, c)) = rw (chars_eq_refl a, chars_eq_refl b, chars_eq_refl c) refl

fails_of-add_fails :
    (k l : Chars × (Chars × Chars)) (n : ℕ) (fails : Fails)
    → fails_of k (add_fails l n fails) ≡ fails_of k fails + (if same_login k l then n else 0)
unfolding fails_of add_fails
fails_of-add_fails k l n [] = omega arith
fails_of-add_fails k l n ((x, m) ∷ fails) = elim (Bool-cases (same_login l x)) [
  | inl same ↦
      let one : same_login k l ≡ same_login k x = ap (same_login k) (eq_of_same_login l x same) in
      rw (same, one) (ground arith)
  | inr other ↦ elim (Bool-cases (same_login k x)) [
    | inr there ↦ rw (other, there) (fails_of-add_fails k l n fails)
    | inl here ↦
        let apart : same_login k l ≡ false = elim (Bool-cases (same_login k l)) [
          | inl equal ↦
              cc (ap (λ y. same_login y x) (sym (eq_of_same_login k l equal)), here, other)
          | inr different ↦ different
        ] in
        rw (other, here, apart) (omega arith)
  ]
]

module _ {T : Type 0} (reader : Reader T) where
  -- A failed attempt at a host by an account of a source.
  abbrev pub has_failed : (src dst account : Chars) → Edge T → Bool
  has_failed src dst account e =
      (chars_eq e.status (codes "failed")
        && (chars_eq e.event_id (codes "btmp")
            || (chars_eq e.event_id (codes "ssh_fail")
                || chars_eq e.event_id (codes "ssh_invalid"))))
      && (chars_eq src e.src && (chars_eq dst e.dst && chars_eq account (short_user reader e.user)))

  abbrev pub has_logged_in : Edge T → Bool
  has_logged_in e =
      chars_eq e.status (codes "ok")
      && (chars_eq e.event_id (codes "ssh") || chars_eq e.event_id (codes "wtmp"))

  -- How often this failed, over all edges.
  abbrev pub failures_of : (src dst account : Chars) → List (Edge T) → ℕ
  failures_of src dst account = total (λ e. if has_failed src dst account e then e.count else 0)

  failed_count :
      (src dst account : Chars) (e : Edge T)
      → (if has_failed src dst account e then e.count else 0) ≡ (
          if is_failure reader e
          then (if same_login (src, (dst, account)) (login_of reader e) then e.count else 0)
          else 0)
  failed_count src dst account e = ground arith

  fails_of-count_fails :
      (src dst account : Chars) (edges : List (Edge T)) (fails : Fails)
      → fails_of (src, (dst, account)) (count_fails reader edges fails)
        ≡ fails_of (src, (dst, account)) fails + failures_of src dst account edges
  unfolding count_fails
  fails_of-count_fails src dst account [] fails = omega arith
  fails_of-count_fails src dst account (e ∷ edges) fails = elim (Bool-cases (is_failure reader e)) [
    | inl failed ↦
        rw (failed_count src dst account e, failed)
          (omega (
            arith,
            fails_of-count_fails src dst account edges
                (add_fails (login_of reader e) e.count fails),
            fails_of-add_fails (src, (dst, account)) (login_of reader e) e.count fails,
          ))
    | inr other ↦
        rw (failed_count src dst account e, other)
          (omega (arith, fails_of-count_fails src dst account edges fails))
  ]

  -- An edge, flagged if it is a login whose account failed five times in the given edges.
  abbrev pub flagged : List (Edge T) → Edge T → Edge T
  flagged edges e =
      if has_logged_in e && leb 5 (failures_of e.src e.dst (short_user reader e.user) edges)
      then record e { reasons = with_reason (codes "brute_success") e.reasons }
      else e

  mark-flagged :
      (edges : List (Edge T)) (e : Edge T)
      → mark reader (count_fails reader edges []) e ≡ flagged edges e
  unfolding fails_of
  mark-flagged edges e =
      let failures : ℕ = failures_of e.src e.dst (short_user reader e.user) edges in
      let none_yet : 0 + failures ≡ failures = omega arith in
      let same : fails_of (login_of reader e) (count_fails reader edges []) ≡ failures =
        fails_of-count_fails e.src e.dst (short_user reader e.user) edges [] ∙ none_yet in
      rw same (ground arith)

  mark_all-flagged :
      (all these : List (Edge T))
      → mark_all reader (count_fails reader all []) these ≡ map (flagged all) these
  mark_all-flagged all [] = refl
  mark_all-flagged all (e ∷ these) = rw (mark-flagged all e, mark_all-flagged all these) refl

  -- A successful login is flagged exactly if the logins of the same account from the same source on
  -- the same host failed at least five times over all edges, whether before the success or after it;
  -- nothing else of an edge changes.
  pub mark_brute_success-flagged :
      (edges : List (Edge T)) → mark_brute_success reader edges ≡ map (flagged edges) edges
  unfolding mark_brute_success
  mark_brute_success-flagged edges = mark_all-flagged edges edges
