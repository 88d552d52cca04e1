-- ===== src/Registry/Loaded.antt =====
-- Which manifests src/artifact_engine/registry.py keeps.
use artifact_engine.Prelude.{
  ◌≡◌, refl, sym, ap, ◌∙◌, inl, inr, String, true, Option, none, some, List, [], ◌∷◌, ◌++◌, arith,
  All, Bool-cases,
}
use artifact_engine.Prelude.Texts.{
  DistinctTexts, has-snoc_text, DistinctTexts-snoc, str_eq_refl, has,
}
use artifact_engine.Registry.{
  File, Content, load_yaml_dir, Accepted, accept, accept_all, load_manifests,
}

module _ {M : Type 0} (id_of : M → String) where
  abbrev pub ids_in : List M → List String
  ids_in [] = []
  ids_in (m ∷ manifests) = id_of m ∷ ids_in manifests

  ids_in-snoc : (ms : List M) (m : M) → ids_in (ms ++ m ∷ []) ≡ ids_in ms ++ id_of m ∷ []
  ids_in-snoc [] m = refl
  ids_in-snoc (n ∷ ms) m = ap (λ r. id_of n ∷ r) (ids_in-snoc ms m)

  -- A valid manifest's id is among those.
  abbrev pub IsLoaded : List M → Option M → Type 0
  IsLoaded manifests none = Unit
  IsLoaded manifests (some m) = has (id_of m) (ids_in manifests) ≡ true

module _ {D M : Type 0} (id_of : M → String) (validate : D → Option M) where
  -- The ids are those of the manifests, none twice.
  record IsSound (a : Accepted M) : Type 0 where
    same : (x : String) → has x a.ids ≡ has x (ids_in id_of a.manifests)
    distinct : DistinctTexts (ids_in id_of a.manifests)

  -- The id of a valid manifest is among the ids, and ids stay.
  abbrev Covers : Accepted M → Option M → Type 0
  Covers a none = Unit
  Covers a (some m) = has (id_of m) a.ids ≡ true

  accept-IsSound : (m : Option M) (a : Accepted M) → IsSound a → IsSound (accept id_of m a)
  unfolding accept
  accept-IsSound none a s = s
  accept-IsSound (some m) a s = elim (Bool-cases (has (id_of m) a.ids)) [
    | inl old ↦ rw old s
    | inr new ↦ rw new (record {
      same = added;
      distinct = rw (ids_in-snoc id_of a.manifests m) (
          DistinctTexts-snoc (ids_in id_of a.manifests) (id_of m) s.distinct
            (sym (s.same (id_of m)) ∙ new));
    })
  ]
    where
      added : (x : String) → has x (id_of m ∷ a.ids) ≡ has x (ids_in id_of (a.manifests ++ m ∷ []))
      added x =
          rw (ids_in-snoc id_of a.manifests m)
            (ground (arith, has-snoc_text x (ids_in id_of a.manifests) (id_of m), s.same x))

  accept_keeps :
      (x : String) (m : Option M) (a : Accepted M)
      → has x a.ids ≡ true
      → has x (accept id_of m a).ids ≡ true
  unfolding accept
  accept_keeps x none a h = h
  accept_keeps x (some m) a h = elim (Bool-cases (has (id_of m) a.ids)) [
    | inl old ↦ rw old h
    | inr new ↦ rw new (ground (arith, h))
  ]

  accept-Covers : (m : Option M) (a : Accepted M) → Covers (accept id_of m a) m
  unfolding accept
  accept-Covers none a = tt
  accept-Covers (some m) a = elim (Bool-cases (has (id_of m) a.ids)) [
    | inl old ↦ rw old old
    | inr new ↦ rw new (ground (arith, str_eq_refl (id_of m)))
  ]

  Covers-accept_all :
      (m : Option M) (docs : List (File × D)) (a : Accepted M)
      → Covers a m
      → Covers (accept_all id_of validate docs a) m
  unfolding accept_all
  Covers-accept_all m [] a h = h
  Covers-accept_all none ((f, d) ∷ docs) a h = tt
  Covers-accept_all (some m) ((f, d) ∷ docs) a h =
      Covers-accept_all (some m) docs (accept id_of (validate d) a)
        (accept_keeps (id_of m) (validate d) a h)

  accept_all-All :
      (docs : List (File × D)) (a : Accepted M)
      → IsSound a
      → IsSound (accept_all id_of validate docs a)
        × All (λ doc. Covers (accept_all id_of validate docs a) (validate doc.1)) docs
  unfolding accept_all
  accept_all-All [] a s = (s, tt)
  accept_all-All ((f, d) ∷ docs) a s =
      let next = accept id_of (validate d) a in
      let (t, others) = accept_all-All docs next (accept-IsSound (validate d) a s) in
      (t, (Covers-accept_all (validate d) docs next (accept-Covers (validate d) a), others))

  IsLoaded-of :
      (a : Accepted M) (m : Option M) → IsSound a → Covers a m → IsLoaded id_of a.manifests m
  IsLoaded-of a none s h = tt
  IsLoaded-of a (some m) s h = sym (s.same (id_of m)) ∙ h

  All-IsLoaded :
      (a : Accepted M) (docs : List (File × D))
      → IsSound a
      → All (λ doc. Covers a (validate doc.1)) docs
      → All (λ doc. IsLoaded id_of a.manifests (validate doc.1)) docs
  All-IsLoaded a [] s h = tt
  All-IsLoaded a ((f, d) ∷ docs) s h = (IsLoaded-of a (validate d) s h.0, All-IsLoaded a docs s h.1)

  -- No id is loaded twice, and of every document that is a valid manifest the id is loaded.
  pub load_manifests_once :
      (content : File → Content D) (dirs : List (Option (List File)))
      → DistinctTexts (ids_in id_of (load_manifests id_of validate content dirs))
        × All
            (λ doc. IsLoaded id_of (load_manifests id_of validate content dirs) (validate doc.1))
            (load_yaml_dir content dirs)
  unfolding load_manifests
  load_manifests_once content dirs =
      let docs = load_yaml_dir content dirs in
      let start : Accepted M = record { ids = []; manifests = [] } in
      let (s, covered) = accept_all-All docs start (record { same = λ x. refl; distinct = tt }) in
      (s.distinct, All-IsLoaded (accept_all id_of validate docs start) docs s covered)
