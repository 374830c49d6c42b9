-- ===== src/Catalog/Mapping/Selection.antt =====
-- What `SelectMappedRepositories` of catalog/target.go selects.
use cvetool.Prelude.{
  Option-cases, is_some, All, In, Distinct, Sorted, All-mono, filter_by, In-filter_by,
  filter_by-Sorted, filter_by-Distinct, Error, Result, ok, err, wrap, >>=-eq-ok, Result-cases,
  String, ◌≡◌, refl, ap, ◌≢◌, ◌↔◌, inl, inr, Bool, true, false, not, Option, none, some, List, [],
  ◌∷◌, ◌++◌, append-nil, append_assoc, arith,
}
use cvetool.Text.{
  Str, str_le, sort_by, Le, str_le-TotalOrder, sort_by-Sorted, In-sort_by, In_sort_by, sort_strings,
  unseen, In-unseen, In_unseen, unseen-Distinct, unseen-Sorted,
}
use cvetool.Catalog.Mapping.{
  RepositoryMapping, lookup_cpes, validate_cpes, validate_row, validate, RepositorySelection,
  select_from, nothing_mapped, select_mapped_repositories,
}

module _ (unbind : Str → Result (Unit {0})) where
  -- The row is there and is not empty, and all its CPEs are accepted.
  abbrev pub IsUsable : Option (List Str) → Type 0
  IsUsable none = ⊥
  IsUsable (some cpes) = (cpes ≢ []) × All (λ c. unbind c ≡ ok tt) cpes

  wrap_iff :
      (r : Result (Unit {0})) (format : String) (args : List Str)
      → (wrap format args r ≡ ok tt) ↔ (r ≡ ok tt)
  wrap_iff (ok tt) format args = (λ h. refl, λ h. refl)
  wrap_iff (err e) format args = (λ h. cc, λ h. cc)

  validate_cpes_iff :
      (id : Str) (cpes : List Str)
      → (validate_cpes unbind id cpes ≡ ok tt) ↔ All (λ c. unbind c ≡ ok tt) cpes
  unfolding validate_cpes
  validate_cpes_iff id [] = (λ h. tt, λ h. refl)
  validate_cpes_iff id (c ∷ cs) = (
    λ h.
        let (u, e1, e2) = >>=-eq-ok (wrap _ (id ∷ c ∷ []) (unbind c)) _ h in
        ((wrap_iff (unbind c) _ _).0 e1, (validate_cpes_iff id cs).0 e2),
    λ h. rw h.0 ((validate_cpes_iff id cs).1 h.1),
  )

  -- A repository is valid exactly when it has a CPE and all its CPEs are accepted.
  pub validate_iff :
      (m : RepositoryMapping) (id : Str)
      → (validate unbind m id ≡ ok tt) ↔ IsUsable (lookup_cpes m id)
  unfolding validate
  validate_iff m id = row (lookup_cpes m id)
    where
      row : (o : Option (List Str)) → (validate_row unbind id o ≡ ok tt) ↔ IsUsable o
      row none = (λ h. unfold validate_row in cc h, λ h. absurd h)
      row (some []) = (λ h. unfold validate_row in cc h, λ h. absurd (h.0 refl))
      row (some (c ∷ cs)) = (
        λ h. (λ e. cc e, (validate_cpes_iff id (c ∷ cs)).0 (unfold validate_row in h)),
        λ h. unfold validate_row in (validate_cpes_iff id (c ∷ cs)).1 h.1,
      )

module _ (unbind : Str → Result (Unit {0})) (m : RepositoryMapping) where
  -- The identifiers that the mapping has, and those that it has not.
  known : List Str → List Str
  unfolding filter_by
  known = filter_by (λ id. is_some (lookup_cpes m id))

  unknown : List Str → List Str
  unfolding filter_by
  unknown = filter_by (λ id. not (is_some (lookup_cpes m id)))

  not_ok :
      (s t : RepositorySelection) (x : Error)
      → ◌≡◌ {A = RepositorySelection × Result (Unit {0})} (s, err x) (t, ok tt)
      → ⊥
  not_ok s t x h = cc h

  select_from-ok :
      (ids : List Str) (s t : RepositorySelection)
      → select_from unbind m ids s ≡ (t, ok tt)
      → (t.mapped ≡ s.mapped ++ known ids)
        × (t.skipped ≡ s.skipped ++ unknown ids)
        × All (λ id. validate unbind m id ≡ ok tt) (known ids)
  unfolding select_from known unknown
  select_from-ok [] s t h = let e : s ≡ t = cc h in (rw (append-nil, e), rw (append-nil, e), tt)
  select_from-ok (id ∷ ids) s t h = elim (Option-cases (lookup_cpes m id)) [
    | inl e ↦
        let (a, b, c) =
          select_from-ok ids (record s { skipped = s.skipped ++ (id ∷ []) }) t
            (rw (e, select_from) at h) in
        rw e (a, rw append_assoc at b, c)
    | inr (cpes, e) ↦ elim (Result-cases (validate unbind m id)) [
      | inl (u, v) ↦
          let (a, b, c) =
            select_from-ok ids (record s { mapped = s.mapped ++ (id ∷ []) }) t
              (rw (e, v, select_from) at h) in
          rw e (rw append_assoc at a, b, (v, c))
      | inr (x, v) ↦ absurd (not_ok s t x (rw (e, v, select_from) at h))
    ]
  ]

  nothing_mapped-ok :
      (mapped : List Str) (r : Result (Unit {0}))
      → nothing_mapped unbind m mapped r ≡ ok tt
      → (r ≡ ok tt) × (mapped ≢ [])
  unfolding nothing_mapped
  nothing_mapped-ok mapped (err e) h = cc h
  nothing_mapped-ok [] (ok u) h = cc h
  nothing_mapped-ok (id ∷ ids) (ok u) h = (refl, λ e. cc e)

  In-passing :
      (a : Str) (xs : List Str) (p : Str → Bool)
      → In a (filter_by p (unseen [] (sort_by str_le xs))) ↔ (In a xs × (p a ≡ true))
  In-passing a xs p = (
    λ i.
        let (j, e) = (In-filter_by p a (unseen [] (sort_by str_le xs))).0 i in
        (In-sort_by str_le a xs (In-unseen a [] (sort_by str_le xs) j).0, e),
    λ h.
        (In-filter_by p a (unseen [] (sort_by str_le xs))).1
          (In_unseen a [] (sort_by str_le xs) (In_sort_by str_le a xs h.0) (λ z. z), h.1),
  )

  passing_not :
      (a : Str) (xs : List Str)
      → In a (unknown (unseen [] (sort_by str_le xs)))
        ↔ (In a xs × (is_some (lookup_cpes m a) ≡ false))
  unfolding unknown
  passing_not a xs =
      let q = In-passing a xs (λ j. not (is_some (lookup_cpes m j))) in
      (λ i. ((q.0 i).0, not_true (is_some (lookup_cpes m a)) (q.0 i).1), λ h. q.1 (h.0, rw h.1))
    where
      not_true : (b : Bool) → not b ≡ true → b ≡ false
      not_true b h = ground arith

  -- What a selection from the enabled repositories is.
  pub record IsSelection (enabled : List Str) (s : RepositorySelection) : Type 0 where
    pub sorted : Sorted (Le str_le) s.mapped
    pub distinct : Distinct s.mapped
    pub nonempty : s.mapped ≢ []
    pub usable : All (λ id. IsUsable unbind (lookup_cpes m id)) s.mapped
    pub mapped : (id : Str) → In id s.mapped ↔ (In id enabled × (is_some (lookup_cpes m id) ≡ true))
    pub skipped :
        (id : Str) → In id s.skipped ↔ (In id enabled × (is_some (lookup_cpes m id) ≡ false))

  -- A selection without an error has exactly the enabled repositories that the mapping has, sorted,
  -- each once, each with accepted CPEs only and at least one, and there is one; the others are skipped.
  pub select_mapped_repositories-IsSelection :
      (enabled : List Str) {s : RepositorySelection}
      → select_mapped_repositories unbind m enabled ≡ (s, ok tt)
      → IsSelection enabled s
  unfolding select_mapped_repositories sort_strings filter_by known unseen
  select_mapped_repositories-IsSelection enabled {s} h =
      let ids = unseen [] (sort_by str_le enabled) in
      let start : RepositorySelection = record { mapped = []; skipped = [] } in
      let (done, nonempty) =
        nothing_mapped-ok _ (select_from unbind m ids start).1 (ap (λ q. q.1) h) in
      let e : (select_from unbind m ids start).0 ≡ s = ap (λ q. q.0) h in
      let (a, b, c) = select_from-ok ids start s (λ i. (e i, done i)) in
      record {
        sorted = rw a (
            filter_by-Sorted _ (Le str_le) ids (
              unseen-Sorted (Le str_le) [] (sort_by str_le enabled)
                (sort_by-Sorted str_le str_le-TotalOrder enabled)));
        distinct = rw a (filter_by-Distinct _ ids (unseen-Distinct [] (sort_by str_le enabled)));
        nonempty = rw e at nonempty;
        usable = rw a (All-mono _ _ (known ids) (λ id v. (validate_iff unbind m id).0 v) c);
        mapped = λ id. rw a (In-passing id enabled (λ j. is_some (lookup_cpes m j)));
        skipped = λ id. rw b (passing_not id enabled);
      }
