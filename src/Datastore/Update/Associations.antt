-- ===== src/Datastore/Update/Associations.antt =====
-- updateVulnerabilities: the associations of the new operation, those of the operations before it,
-- and the rows of `latest_update_operations`.
use cvetool.Prelude.{
  if◌then◌else◌, All, In, All-append, All-mono, Error, wrapf, Result, err, ok, ℕ, suc, ◌≤◌, ◌<◌,
  ◌≡◌, refl, sym, ap, ◌≢◌, ◌↔◌, ◌⊎◌, inl, inr, Option, none, some, List, [], ◌∷◌, ◌++◌, arith,
}
use cvetool.Text.{Str, str_eq}
use cvetool.Datastore.Tables.{Vulnerability, vulnerability_kind, Operation, Database, latest_of}
use cvetool.Datastore.Update.{
  batch_names, associate_old, carried, create, finish, update_vulnerabilities,
}
use cvetool.Datastore.Update.Carried.{Holds, Existing, Holds-carried, In-associate_old}
use cvetool.Datastore.Update.Stored.{
  first_error, Adds, SomeStoredAs, insert_items_lem, insert_items_fails,
}
use mathlib.Core.Path.{subst}

-- No identifier of an operation is larger than `operation_seq`.
pub record IsFresh (d : Database) : Type 0 where
  pub operations_le : All (λ o. o.id ≤ d.operation_seq) d.operations
  pub pairs_le : (m k : ℕ) → In (m, k) d.uo_vuln → m ≤ d.operation_seq

-- An old vulnerability that the update carries over: one of the updater's last operation, which the
-- batch does not name and which is not deleted; none, if the update is not a delta.
abbrev pub IsCarried : Database → Str → List (Result Vulnerability) → Option (List Str) → ℕ → Type 0
IsCarried d updater items none k = ⊥
IsCarried d updater items (some deleted) k =
    (name : Str) × Existing d updater name k × (¬ In name (batch_names items)) × (¬ In name deleted)

Holds-iff_IsCarried :
    (d : Database) (updater : Str) (items : List (Result Vulnerability))
    (deleted : Option (List Str)) (k : ℕ)
    → ((name : Str) × Holds (carried d updater items deleted) name k)
      ↔ IsCarried d updater items deleted k
unfolding carried
Holds-iff_IsCarried d updater items none k = (λ h. h.1, λ h. absurd h)
Holds-iff_IsCarried d updater items (some deleted) k = (
  λ h. let (e, b, n) = (Holds-carried d updater items deleted h.0 k).0 h.1 in (h.0, e, b, n),
  λ h.
      let (name, e, b, n) = h in (name, (Holds-carried d updater items deleted name k).1 (e, b, n)),
)

latest_of-append :
    (os : List Operation) (o : Operation) (u : Str)
    → All (λ p. p.id < o.id) os
    → latest_of (os ++ (o ∷ [])) u ≡ (if str_eq o.updater u then some o else latest_of os u)
unfolding latest_of
latest_of-append [] o u h = ground arith
latest_of-append (p ∷ os) o u (l, h) = rw (latest_of-append os o u h) (ground arith)

module _ (md5 : Str → Str) (updater fingerprint ref : Str) (date : ℕ)
    (items : List (Result Vulnerability)) (deleted : Option (List Str)) (d : Database) where
  -- The database after the statement `create` and the associations of the old vulnerabilities.
  abbrev begun : Database
  unfolding create
  begun = record (create updater fingerprint ref vulnerability_kind date d) {
    uo_vuln = associate_old (suc d.operation_seq) (carried d updater items deleted) d.uo_vuln;
  }

  begun_lem :
      first_error items ≡ none
      → (d' : Database) × (update_vulnerabilities md5 updater fingerprint ref date items deleted d
          ≡ (d', ok ref))
        × Adds md5 (suc d.operation_seq) (SomeStoredAs md5 (suc d.operation_seq) items) begun d'
  unfolding update_vulnerabilities create finish
  begun_lem n =
      let (d', e, a) = insert_items_lem md5 (suc d.operation_seq) items begun n in
      (d', ap (finish d ref) e, a)

  after : first_error items ≡ none → Database
  after n = (begun_lem n).0

  pairs_after :
      (n : first_error items ≡ none) (m k : ℕ)
      → In (m, k) (after n).uo_vuln ↔ (
          In (m, k) d.uo_vuln
          ⊎ ((suc d.operation_seq ≡ m)
              × (IsCarried d updater items deleted k
                  ⊎ SomeStoredAs md5 (suc d.operation_seq) items (after n) k)))
  unfolding after associate_old begun
  pairs_after n m k =
      let a = (begun_lem n).2 in
      let old =
        In-associate_old (suc d.operation_seq) (carried d updater items deleted) d.uo_vuln m k in
      let held = Holds-iff_IsCarried d updater items deleted k in
      (
        λ i. elim ((a.pairs m k).0 i) [
          | inr (q, s) ↦ inr (q, inr s)
          | inl l ↦ elim (old.0 l) [ inl o ↦ inl o | inr (q, h) ↦ inr (q, inl (held.0 h)) ]
        ],
        λ i. (a.pairs m k).1 (elim i [
          | inl l ↦ inl (old.1 (inl l))
          | inr (q, inl c) ↦ inl (old.1 (inr (q, held.1 c)))
          | inr (q, inr s) ↦ inr (q, s)
        ]),
      )

  -- If no operation has an identifier above the sequence and the iterator yields no error, the
  -- update returns its reference. The vulnerabilities of the new operation are then exactly those
  -- that it carries over and those of the batch that are stored (no inversions, and a named
  -- package), each under the identifier of its hash; those of the older operations are as they
  -- were.
  pub uo_vuln-update_vulnerabilities :
      IsFresh d
      → first_error items ≡ none
      → (d' : Database) × (update_vulnerabilities md5 updater fingerprint ref date items deleted d
          ≡ (d', ok ref))
        × ((k : ℕ)
            → In (suc d.operation_seq, k) d'.uo_vuln ↔ (
                IsCarried d updater items deleted k
                ⊎ SomeStoredAs md5 (suc d.operation_seq) items d' k))
        × ((m k : ℕ) → m ≢ suc d.operation_seq → In (m, k) d'.uo_vuln ↔ In (m, k) d.uo_vuln)
  unfolding after
  uo_vuln-update_vulnerabilities f n = (
    (begun_lem n).0,
    (begun_lem n).1,
    λ k. (
      λ i. elim ((pairs_after n (suc d.operation_seq) k).0 i) [
        | inl l ↦ absurd (omega (arith, f.pairs_le (suc d.operation_seq) k l))
        | inr (q, c) ↦ c
      ],
      λ c. (pairs_after n (suc d.operation_seq) k).1 (inr (refl, c)),
    ),
    λ m k ne. (
      λ i. elim ((pairs_after n m k).0 i) [ inl l ↦ l | inr (q, c) ↦ absurd (ne (sym q)) ],
      λ l. (pairs_after n m k).1 (inl l),
    ),
  )

  after-IsFresh : IsFresh d → (n : first_error items ≡ none) → IsFresh (after n)
  unfolding after create
  after-IsFresh f n =
      let a = (begun_lem n).2 in
      record {
        operations_le =
            subst (λ os. All (λ o. o.id ≤ (begun_lem n).0.operation_seq) os) (sym a.operations_kept)
              (subst (λ q. All (λ o. o.id ≤ q) begun.operations) (sym a.seq_kept)
                (All-append _ d.operations _
                  (All-mono _ _ d.operations (λ o l. omega (arith, l)) f.operations_le)
                  (omega arith, tt)));
        pairs_le = λ m k i. rw a.seq_kept (elim ((pairs_after n m k).0 i) [
          | inl l ↦ omega (arith, f.pairs_le m k l)
          | inr (q, c) ↦ omega (arith, q)
        ]);
      }

  -- If no operation has an identifier above the sequence and the iterator yields no error, an
  -- update makes its operation the updater's row of `latest_update_operations` and leaves the rows
  -- of the other updaters; the identifiers of the operations stay below the next one.
  pub latest_of-update_vulnerabilities :
      IsFresh d
      → first_error items ≡ none
      → (d' : Database) × (update_vulnerabilities md5 updater fingerprint ref date items deleted d
          ≡ (d', ok ref))
        × ((u : Str)
            → latest_of d'.operations u ≡ (
                if str_eq updater u
                then some (record {
                  id = suc d.operation_seq;
                  ref = ref;
                  updater = updater;
                  fingerprint = fingerprint;
                  kind = vulnerability_kind;
                  date = date;
                })
                else latest_of d.operations u))
        × IsFresh d'
  unfolding after create
  latest_of-update_vulnerabilities f n =
      let a = (begun_lem n).2 in
      (
        (begun_lem n).0,
        (begun_lem n).1,
        λ u. rw a.operations_kept (
            latest_of-append d.operations _ u
              (All-mono _ _ d.operations (λ o l. omega (arith, l)) f.operations_le)),
        after-IsFresh f n,
      )

  -- The first error of the iterator is the update's, wrapped, and the database stays as it was.
  pub update_vulnerabilities_fails :
      (e : Error)
      → first_error items ≡ some e
      → update_vulnerabilities md5 updater fingerprint ref date items deleted d
        ≡ (d, err (wrapf "iterating on vulnerabilities" [] e))
  unfolding update_vulnerabilities create finish
  update_vulnerabilities_fails e n =
      ap (finish d ref) (insert_items_fails md5 (suc d.operation_seq) items begun e n)
