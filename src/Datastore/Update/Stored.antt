-- ===== src/Datastore/Update/Stored.antt =====
-- updateVulnerabilities: the second iteration, which stores the vulnerabilities of the batch.
use cvetool.Prelude.{
  if◌then◌else◌, Bool-cases, Option-cases, is_some, In, Error, wrapf, Result, err, ok, ok_injective,
  ℕ, ◌≡◌, refl, sym, ◌∙◌, ◌↔◌, ◌⊎◌, inl, inr, true, false, Option, none, some, List, [], ◌∷◌, ◌++◌,
}
use cvetool.Text.{Str, codes, str_eq, str_eq_refl}
use cvetool.Datastore.Tables.{PackageInfo, Vulnerability, VulnRow, Database, next_id, associate}
use cvetool.Datastore.Update.{
  id_of_hash, insert_vuln, assoc, md5_vuln, get_metadata, vuln_row, store_package, insert_item,
  insert_items,
}
use cvetool.Datastore.Update.Carried.{In-associate}
use mathlib.Core.Path.{subst}

-- A vulnerability that is stored: it is no inversion, and its package has a name.
abbrev pub IsStored : Vulnerability → Type 0
IsStored v =
    (v.invert ≡ false) × ((p : PackageInfo) × (v.pkg ≡ some p) × (str_eq p.name [] ≡ false))

abbrev pub first_error : List (Result Vulnerability) → Option Error
first_error [] = none
first_error (err e ∷ items) = some e
first_error (ok v ∷ items) = first_error items

id_of_hash-append :
    (rows : List VulnRow) (row : VulnRow) (h : Str)
    → id_of_hash (rows ++ (row ∷ [])) h ≡ (
        if is_some (id_of_hash rows h)
        then id_of_hash rows h
        else if str_eq row.hash h
        then some row.id
        else none)
unfolding id_of_hash
id_of_hash-append [] row h = refl
id_of_hash-append (r ∷ rows) row h = elim (Bool-cases (str_eq r.hash h)) [
  | inl e ↦ rw e
  | inr e ↦ rw e (id_of_hash-append rows row h)
]

-- A row that is there stays.
id_of_hash-insert_vuln :
    (row : VulnRow) (rows : List VulnRow) (h : Str) (k : ℕ)
    → id_of_hash rows h ≡ some k
    → id_of_hash (insert_vuln row rows) h ≡ some k
unfolding insert_vuln
id_of_hash-insert_vuln row rows h k e = elim (Bool-cases (is_some (id_of_hash rows row.hash))) [
  | inl old ↦ rw old e
  | inr new ↦ rw (new, id_of_hash-append rows row h, e)
]

-- After the insertion there is a row with the hash.
insert_vuln_there :
    (row : VulnRow) (rows : List VulnRow)
    → (k : ℕ) × (id_of_hash (insert_vuln row rows) row.hash ≡ some k)
unfolding insert_vuln
insert_vuln_there row rows = elim (Option-cases (id_of_hash rows row.hash)) [
  | inr (k, old) ↦ (k, rw (old, old))
  | inl new ↦ (row.id, rw (new, id_of_hash-append rows row row.hash, new, str_eq_refl row.hash))
]

assoc_lem :
    (uo : ℕ) (h : Str) (d : Database) (k : ℕ)
    → id_of_hash d.vulns h ≡ some k
    → assoc uo h d ≡ ok (record d { uo_vuln = associate uo k d.uo_vuln })
unfolding assoc
assoc_lem uo h d k e = rw (assoc, e)

module _ (md5 : Str → Str) (uo : ℕ) where
  -- What a part of the second iteration does to the database: it keeps the operations and the
  -- identifiers of the hashes that have one, and adds the pairs `(uo, k)` with `New d' k`.
  pub record Adds (New : Database → ℕ → Type 0) (d d' : Database) : Type 0 where
    pub operations_kept : d'.operations ≡ d.operations
    pub seq_kept : d'.operation_seq ≡ d.operation_seq
    pub hashes_kept :
        (h : Str) (k : ℕ) → id_of_hash d.vulns h ≡ some k → id_of_hash d'.vulns h ≡ some k
    pub pairs : (m k : ℕ) → In (m, k) d'.uo_vuln ↔ (In (m, k) d.uo_vuln ⊎ ((uo ≡ m) × New d' k))

  abbrev pub StoredAs : Vulnerability → Database → ℕ → Type 0
  StoredAs v d k = IsStored v × (id_of_hash d.vulns (md5_vuln md5 v) ≡ some k)

  abbrev pub SomeStoredAs : List (Result Vulnerability) → Database → ℕ → Type 0
  SomeStoredAs items d k = (v : Vulnerability) × In (ok v) items × StoredAs v d k

  -- A stored vulnerability has an identifier.
  abbrev HasId : Vulnerability → Database → Type 0
  HasId v d = IsStored v → (k : ℕ) × (id_of_hash d.vulns (md5_vuln md5 v) ≡ some k)

  skip_Adds : (v : Vulnerability) (d : Database) → ¬ IsStored v → Adds (StoredAs v) d d
  skip_Adds v d n = record {
    operations_kept = refl;
    seq_kept = refl;
    hashes_kept = λ h k p. p;
    pairs = λ m k. (λ i. inl i, λ i. elim i [ inl l ↦ l | inr (q, (s, r)) ↦ absurd (n s) ]);
  }

  unnamed-not_IsStored :
      (v : Vulnerability) (p : PackageInfo)
      → v.pkg ≡ some p
      → str_eq p.name [] ≡ true
      → ¬ IsStored v
  unnamed-not_IsStored v p e b (i, (q, f, c)) = cc

  insert_Adds :
      (v : Vulnerability) (d : Database) (row : VulnRow) (k : ℕ)
      → IsStored v
      → id_of_hash (insert_vuln row d.vulns) (md5_vuln md5 v) ≡ some k
      → Adds
          (StoredAs v)
          d
          (record d { vulns = insert_vuln row d.vulns; uo_vuln = associate uo k d.uo_vuln })
  insert_Adds v d row k s there = record {
    operations_kept = refl;
    seq_kept = refl;
    hashes_kept = id_of_hash-insert_vuln row d.vulns;
    pairs = λ m j. (
      λ i. elim ((In-associate uo k d.uo_vuln m j).0 i) [
        | inl l ↦ inl l
        | inr (q, e) ↦ inr (q, (s, cc))
      ],
      λ i.
          (In-associate uo k d.uo_vuln m j).1
            (elim i [ inl l ↦ inl l | inr (q, (z, e)) ↦ inr (q, cc) ]),
    );
  }

  store_package_lem :
      (v : Vulnerability) (o : Option PackageInfo) (a b : ℕ) (d : Database)
      → v.invert ≡ false
      → v.pkg ≡ o
      → (d' : Database) × (store_package md5 uo v o a b d ≡ ok d')
        × Adds (StoredAs v) d d'
        × HasId v d'
  unfolding store_package
  store_package_lem v none a b d i e =
      (d, refl, skip_Adds v d (λ s. cc (s.1.1, e)), λ s. cc (s.1.1, e))
  store_package_lem v (some p) a b d i e = elim (Bool-cases (str_eq p.name [])) [
    | inl z ↦ (
      d,
      rw z,
      skip_Adds v d (unnamed-not_IsStored v p e z),
      λ s. absurd (unnamed-not_IsStored v p e z s),
    )
    | inr z ↦
        let row = vuln_row md5 (next_id (λ r. r.id) d.vulns) v p a b in
        let (k, there) = insert_vuln_there row d.vulns in
        (
          record d { vulns = insert_vuln row d.vulns; uo_vuln = associate uo k d.uo_vuln },
          rw z (
              assoc_lem uo (md5_vuln md5 v) (record d { vulns = insert_vuln row d.vulns }) k
                (unfold vuln_row in there)),
          insert_Adds v d row k (i, (p, e, z)) (unfold vuln_row in there),
          λ s. (k, unfold vuln_row in there),
        )
  ]

  insert_item_lem :
      (v : Vulnerability) (d : Database)
      → (d' : Database) × (insert_item md5 uo v d ≡ ok d') × Adds (StoredAs v) d d' × HasId v d'
  unfolding insert_item
  insert_item_lem v d = elim (Bool-cases v.invert) [
    | inl inverted ↦
        (d, rw inverted, skip_Adds v d (λ s. cc (s.0, inverted)), λ s. cc (s.0, inverted))
    | inr kept ↦
        let description = get_metadata md5 (codes "description") v.description d.metadata in
        let name = get_metadata md5 (codes "name") v.name description.1 in
        let (d', e, a, there) =
          store_package_lem v v.pkg description.0 name.0 (record d { metadata = name.1 }) kept
            refl in
        (
          d',
          rw kept e,
          record {
            operations_kept = a.operations_kept;
            seq_kept = a.seq_kept;
            hashes_kept = a.hashes_kept;
            pairs = a.pairs;
          },
          there,
        )
  ]

  stored_before :
      (v : Vulnerability) {d : Database} (c d' : Database) (m k : ℕ)
      → Adds (StoredAs v) d c
      → HasId v c
      → ((h : Str) (k : ℕ) → id_of_hash c.vulns h ≡ some k → id_of_hash d'.vulns h ≡ some k)
      → uo ≡ m
      → StoredAs v d' k
      → In (m, k) c.uo_vuln
  stored_before v c d' m k a there kept q (s, e) =
      let (j, f) = there s in
      let same : j ≡ k = cc (kept (md5_vuln md5 v) j f, e) in
      (a.pairs m k).1 (inr (q, (s, rw same at f)))

  join_Adds :
      (v : Vulnerability) (items : List (Result Vulnerability)) (d c d' : Database)
      → Adds (StoredAs v) d c
      → Adds (SomeStoredAs items) c d'
      → HasId v c
      → Adds (SomeStoredAs (ok v ∷ items)) d d'
  join_Adds v items d c d' a b there = record {
    operations_kept = b.operations_kept ∙ a.operations_kept;
    seq_kept = b.seq_kept ∙ a.seq_kept;
    hashes_kept = λ h k e. b.hashes_kept h k (a.hashes_kept h k e);
    pairs = λ m k. (
      λ i. elim ((b.pairs m k).0 i) [
        | inr (q, (w, j, s)) ↦ inr (q, (w, inr j, s))
        | inl l ↦ elim ((a.pairs m k).0 l) [
          | inl o ↦ inl o
          | inr (q, (s, e)) ↦ inr (q, (v, inl refl, (s, b.hashes_kept (md5_vuln md5 v) k e)))
        ]
      ],
      λ i. (b.pairs m k).1 (elim i [
        | inl l ↦ inl ((a.pairs m k).1 (inl l))
        | inr (q, (w, inr j, s)) ↦ inr (q, (w, j, s))
        | inr (q, (w, inl e, s)) ↦ inl (
            stored_before v c d' m k a there b.hashes_kept q
              (subst (λ z. StoredAs z d' k) (sym (ok_injective e)) s))
      ]),
    );
  }

  pub insert_items_lem :
      (items : List (Result Vulnerability)) (d : Database)
      → first_error items ≡ none
      → (d' : Database) × (insert_items md5 uo items d ≡ ok d') × Adds (SomeStoredAs items) d d'
  unfolding insert_items
  insert_items_lem [] d n = (
    d,
    refl,
    record {
      operations_kept = refl;
      seq_kept = refl;
      hashes_kept = λ h k p. p;
      pairs = λ m k. (λ i. inl i, λ i. elim i [ inl l ↦ l | inr (q, (w, b, s)) ↦ absurd b ]);
    },
  )
  insert_items_lem (err e ∷ items) d n = cc
  insert_items_lem (ok v ∷ items) d n =
      let (c, e, a, there) = insert_item_lem v d in
      let (d', f, b) = insert_items_lem items c n in
      (d', rw e f, join_Adds v items d c d' a b there)

  pub insert_items_fails :
      (items : List (Result Vulnerability)) (d : Database) (e : Error)
      → first_error items ≡ some e
      → insert_items md5 uo items d ≡ err (wrapf "iterating on vulnerabilities" [] e)
  unfolding insert_items
  insert_items_fails [] d e n = cc
  insert_items_fails (err f ∷ items) d e n = cc
  insert_items_fails (ok v ∷ items) d e n =
      let (c, f, a, there) = insert_item_lem v d in rw f (insert_items_fails items c e n)
