-- ===== src/Catalog/Enrich/Report.antt =====
-- What `EnrichIndexReport` of catalog/enrich.go adds to the environments of an index report.
use mathlib.Core.Path.{subst}
use cvetool.Prelude.{
  Bool-cases, is_some, All, In, In-append_left, In-append_right, Result, ◌≡◌, refl, sym, ap, ◌∙◌,
  ◌⊎◌, inl, inr, true, false, List, [], ◌∷◌, ◌++◌, append-nil,
}
use cvetool.Text.{
  Str, str_eq, str_eq_iff, contains, contains_In, In_contains, Dict, lookup, lookup-insert,
  lookup-insert_self,
}
use cvetool.Catalog.Json.{Match}
use cvetool.Catalog.Enrich.{
  ReportRepository, synthetic_repository_id, Progress, add_repository_of, append_id,
  enrich_environment,
}

module _ {Wfn : Type 0} (unbind : Str → Result Wfn) (sha256_hex : Str → Str) where
  -- The report has a repository of that identifier.
  abbrev pub Registered : Dict (ReportRepository Wfn) → Str → Type 0
  Registered repositories id = is_some (lookup repositories id) ≡ true

  add_repository_of-Registered :
      (id : Str) (m : Match) (wfn : Wfn) (p : Progress unbind sha256_hex)
      → Registered (add_repository_of unbind sha256_hex id m wfn p).repositories id
  unfolding add_repository_of
  add_repository_of-Registered id m wfn p = elim (Bool-cases (is_some (lookup p.repositories id))) [
    | inl e ↦ rw e e
    | inr e ↦ rw e (rw lookup-insert_self)
  ]

  -- A repository that is there stays as it is.
  lookup-add_repository_of :
      (id k : Str) (m : Match) (wfn : Wfn) (p : Progress unbind sha256_hex)
      → Registered p.repositories k
      → lookup (add_repository_of unbind sha256_hex id m wfn p).repositories k
        ≡ lookup p.repositories k
  unfolding add_repository_of
  lookup-add_repository_of id k m wfn p h = elim (Bool-cases (is_some (lookup p.repositories id))) [
    | inl e ↦ rw e
    | inr e ↦
        rw (e, lookup-insert)
          (elim (Bool-cases (str_eq id k)) [
            | inl t ↦ cc (e, h, ap (λ z. is_some (lookup p.repositories z)) ((str_eq_iff id k).0 t))
            | inr f ↦ rw f
          ])
  ]

  -- The repositories that are there stay as they are.
  pub lookup-enrich_environment :
      (ms : List (Match × Wfn)) (ids : List Str) (p : Progress unbind sha256_hex) (k : Str)
      → Registered p.repositories k
      → lookup (enrich_environment unbind sha256_hex ms ids p).1.repositories k
        ≡ lookup p.repositories k
  unfolding enrich_environment
  lookup-enrich_environment [] ids p k h = refl
  lookup-enrich_environment ((m, wfn) ∷ ms) ids p k h =
      elim (Bool-cases (contains ids m.repository_id)) [
        | inl e ↦ rw e (lookup-enrich_environment ms ids p k h)
        | inr e ↦
            let q =
              add_repository_of unbind sha256_hex (synthetic_repository_id unbind sha256_hex m) m
                wfn p in
            let same =
              lookup-add_repository_of (synthetic_repository_id unbind sha256_hex m) k m wfn p h in
            rw e (lookup-enrich_environment ms _ q k (ap is_some same ∙ h) ∙ same)
      ]

  append_id-Extends :
      (ids : List Str) (id : Str)
      → (extra : List Str) × (append_id unbind sha256_hex ids id ≡ ids ++ extra)
        × All (λ x. id ≡ x) extra
  unfolding append_id
  append_id-Extends ids id = elim (Bool-cases (contains ids id)) [
    | inl e ↦ ([], rw (e, append-nil), tt)
    | inr e ↦ (id ∷ [], rw e, (refl, tt))
  ]

  In-append_id : (ids : List Str) (id : Str) → In id (append_id unbind sha256_hex ids id)
  unfolding append_id
  In-append_id ids id = elim (Bool-cases (contains ids id)) [
    | inl e ↦ rw e (contains_In ids id e)
    | inr e ↦ rw e (In-append_right id ids (id ∷ []) (inl refl))
  ]

  In_append_id :
      (x : Str) (ids : List Str) (id : Str) → In x ids → In x (append_id unbind sha256_hex ids id)
  unfolding append_id
  In_append_id x ids id i = elim (Bool-cases (contains ids id)) [
    | inl e ↦ rw e i
    | inr e ↦ rw e (In-append_left x ids (id ∷ []) i)
  ]

  -- The environment has the repository of the match, or a registered one that stands for it.
  abbrev pub IsCovered : List Str → Dict (ReportRepository Wfn) → Match → Type 0
  IsCovered ids repositories m =
      In m.repository_id ids
      ⊎ (In (synthetic_repository_id unbind sha256_hex m) ids
          × Registered repositories (synthetic_repository_id unbind sha256_hex m))

  In-enrich_environment :
      (ms : List (Match × Wfn)) (ids : List Str) (p : Progress unbind sha256_hex) (x : Str)
      → In x ids
      → In x (enrich_environment unbind sha256_hex ms ids p).0
  unfolding enrich_environment
  In-enrich_environment [] ids p x i = i
  In-enrich_environment ((m, wfn) ∷ ms) ids p x i =
      elim (Bool-cases (contains ids m.repository_id)) [
        | inl e ↦ rw e (In-enrich_environment ms ids p x i)
        | inr e ↦ rw e (
            In-enrich_environment ms _ _ x
              (In_append_id x ids (synthetic_repository_id unbind sha256_hex m) i))
      ]

  IsCovered-enrich_environment :
      (ms : List (Match × Wfn)) (ids : List Str) (p : Progress unbind sha256_hex) (m : Match)
      → IsCovered ids p.repositories m
      → IsCovered
          (enrich_environment unbind sha256_hex ms ids p).0
          (enrich_environment unbind sha256_hex ms ids p).1.repositories
          m
  IsCovered-enrich_environment ms ids p m (inl i) =
      inl (In-enrich_environment ms ids p m.repository_id i)
  IsCovered-enrich_environment ms ids p m (inr (i, h)) =
      let id = synthetic_repository_id unbind sha256_hex m in
      inr (
        In-enrich_environment ms ids p id i,
        ap is_some (lookup-enrich_environment ms ids p id h) ∙ h,
      )

  abbrev AllCovered : List (Match × Wfn) → List Str × Progress unbind sha256_hex → Type 0
  AllCovered ms r = All (λ v. IsCovered r.0 r.1.repositories v.0) ms

  enrich_skip :
      (m : Match) (wfn : Wfn) (ms : List (Match × Wfn)) (ids : List Str)
      (p : Progress unbind sha256_hex)
      → contains ids m.repository_id ≡ true
      → enrich_environment unbind sha256_hex ((m, wfn) ∷ ms) ids p
        ≡ enrich_environment unbind sha256_hex ms ids p
  unfolding enrich_environment
  enrich_skip m wfn ms ids p e = rw e

  enrich_add :
      (m : Match) (wfn : Wfn) (ms : List (Match × Wfn)) (ids : List Str)
      (p : Progress unbind sha256_hex)
      → contains ids m.repository_id ≡ false
      → enrich_environment unbind sha256_hex ((m, wfn) ∷ ms) ids p
        ≡ enrich_environment unbind sha256_hex ms
            (append_id unbind sha256_hex ids (synthetic_repository_id unbind sha256_hex m))
            (add_repository_of unbind sha256_hex
              (synthetic_repository_id unbind sha256_hex m)
              m
              wfn
              p)
  unfolding enrich_environment
  enrich_add m wfn ms ids p e = rw e

  -- After the loop over the matches every match is covered: the environment has its repository, or the
  -- synthetic one, which the report has.
  pub enrich_environment-IsCovered :
      (ms : List (Match × Wfn)) (ids : List Str) (p : Progress unbind sha256_hex)
      → All
          (λ v.
            IsCovered
              (enrich_environment unbind sha256_hex ms ids p).0
              (enrich_environment unbind sha256_hex ms ids p).1.repositories
              v.0)
          ms
  enrich_environment-IsCovered [] ids p = tt
  enrich_environment-IsCovered ((m, wfn) ∷ ms) ids p =
      elim (Bool-cases (contains ids m.repository_id)) [
        | inl e ↦ subst (AllCovered ((m, wfn) ∷ ms)) (sym (enrich_skip m wfn ms ids p e)) (
          IsCovered-enrich_environment ms ids p m (inl (contains_In ids m.repository_id e)),
          enrich_environment-IsCovered ms ids p,
        )
        | inr e ↦
            let id = synthetic_repository_id unbind sha256_hex m in
            let q = add_repository_of unbind sha256_hex id m wfn p in
            subst (AllCovered ((m, wfn) ∷ ms)) (sym (enrich_add m wfn ms ids p e)) (
              IsCovered-enrich_environment ms (append_id unbind sha256_hex ids id) q m
                  (inr (In-append_id ids id, add_repository_of-Registered id m wfn p)),
              enrich_environment-IsCovered ms (append_id unbind sha256_hex ids id) q,
            )
      ]

  add-Registered :
      (id : Str) (m : Match) (wfn : Wfn) (p : Progress unbind sha256_hex)
      → Registered p.repositories id
      → add_repository_of unbind sha256_hex id m wfn p ≡ p
  unfolding add_repository_of
  add-Registered id m wfn p h = rw h

  append_present :
      (ids : List Str) (id : Str) → In id ids → append_id unbind sha256_hex ids id ≡ ids
  unfolding append_id
  append_present ids id i = rw (In_contains ids id i)

  enrich_covered :
      (ms : List (Match × Wfn)) (ids : List Str) (p : Progress unbind sha256_hex)
      → All (λ v. IsCovered ids p.repositories v.0) ms
      → enrich_environment unbind sha256_hex ms ids p ≡ (ids, p)
  unfolding enrich_environment
  enrich_covered [] ids p h = refl
  enrich_covered ((m, wfn) ∷ ms) ids p (inl i, hs) =
      rw (In_contains ids m.repository_id i) (enrich_covered ms ids p hs)
  enrich_covered ((m, wfn) ∷ ms) ids p (inr (i, r), hs) =
      elim (Bool-cases (contains ids m.repository_id)) [
        | inl e ↦ rw e (enrich_covered ms ids p hs)
        | inr e ↦
            rw
              (
                e,
                append_present ids (synthetic_repository_id unbind sha256_hex m) i,
                add-Registered (synthetic_repository_id unbind sha256_hex m) m wfn p r,
              )
              (enrich_covered ms ids p hs)
      ]

  -- Enriching an environment again with the same matches changes nothing and adds no repository.
  pub enrich_environment_idem :
      (ms : List (Match × Wfn)) (ids : List Str) (p : Progress unbind sha256_hex)
      → enrich_environment unbind sha256_hex ms
          (enrich_environment unbind sha256_hex ms ids p).0
          (enrich_environment unbind sha256_hex ms ids p).1
        ≡ enrich_environment unbind sha256_hex ms ids p
  enrich_environment_idem ms ids p =
      enrich_covered ms (enrich_environment unbind sha256_hex ms ids p).0
        (enrich_environment unbind sha256_hex ms ids p).1 (enrich_environment-IsCovered ms ids p)
