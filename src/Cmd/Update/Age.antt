-- ===== src/Cmd/Update/Age.antt =====
-- A database is refused exactly where all of its vulnerability operations are old.
use native.Mathlib.Nat.{le_trans}
use cvetool.Prelude.{
  ltb, ◌==◌, Bool-cases, All, In, Sorted, All_In, All-append, All-from_members, Error, errorf, err,
  ok, fail_if, ℕ, ◌+◌, ◌-◌, ◌≤◌, ◌<◌, ◌≡◌, refl, sym, ap, ◌∙◌, ◌⊎◌, inl, inr, Bool, true, false,
  not, ◌&&◌, some, List, [], ◌∷◌, ◌++◌, map, arith,
}
use cvetool.Text.{Str, str_eq, Dict, lookup, insert}
use cvetool.Catalog.Json.{entries}
use cvetool.Datastore.Tables.{vulnerability_kind, Operation, Database, max}
use cvetool.Datastore.Operations.{
  UpdateOperation, update_operation_of, updaters_or_all, quoted, has_kind, rows_of,
  append_operation, group, get_update_operations,
}
use cvetool.Datastore.Operations.Grouped.{In-rows_of, lookup-get_update_operations}
use cvetool.Cmd.Update.{Calls}
use cvetool.Cmd.Update.{
  old_database_threshold, format_database_age_threshold, last_update, check_age, Calls,
  database_path, checked, stored, located, update,
}

-- An entry of a map of lists is at most the result of the loop, and so is its start.
last_update_start : (m : Dict (List UpdateOperation)) (n : ℕ) → n ≤ last_update m n
unfolding last_update
last_update_start [] n = omega arith
last_update_start ((u, []) ∷ m) n = last_update_start m n
last_update_start ((u, o ∷ os) ∷ m) n = ground (arith, last_update_start m (max n o.date))

last_update_bound :
    (m : Dict (List UpdateOperation)) (n : ℕ) (u : Str) (x : UpdateOperation)
    (xs : List UpdateOperation)
    → entries (lookup m u) ≡ x ∷ xs
    → x.date ≤ last_update m n
unfolding last_update lookup
last_update_bound [] n u x xs h = cc h
last_update_bound ((k, ys) ∷ m) n u x xs h = elim (Bool-cases (str_eq k u)) [
  | inl e ↦ at_key ys (rw e at h)
  | inr e ↦ later (λ k. last_update_bound m k u x xs) ys (rw e at h)
]
  where
    at_key : (ys : List UpdateOperation) → ys ≡ x ∷ xs → x.date ≤ last_update ((k, ys) ∷ m) n
    at_key [] q = cc q
    at_key (o ∷ os) q =
        let same : o.date ≡ x.date = cc q in ground (arith, last_update_start m (max n o.date))

    later :
        ((k : ℕ) → entries (lookup m u) ≡ x ∷ xs → x.date ≤ last_update m k)
        → (ys : List UpdateOperation) → entries (lookup m u) ≡ x ∷ xs
        → x.date ≤ last_update ((k, ys) ∷ m) n
    later ih [] q = ih n q
    later ih (o ∷ os) q = ih (max n o.date) q

later_of : (n k : ℕ) → ltb n k ≡ true → max n k ≡ k
later_of n k h = rw h refl

earlier_of : (n k : ℕ) → ltb n k ≡ false → max n k ≡ n
earlier_of n k h = rw h refl

-- Every value of every list of the map.
abbrev AllValues : (UpdateOperation → Type 0) → Dict (List UpdateOperation) → Type 0
AllValues P m = All (λ e. All P e.1) m

module _ (P : UpdateOperation → Type 0) where
  entries-All :
      (m : Dict (List UpdateOperation)) (u : Str) → AllValues P m → All P (entries (lookup m u))
  unfolding lookup
  entries-All [] u h = tt
  entries-All ((k, ys) ∷ m) u (hy, hm) = elim (Bool-cases (str_eq k u)) [
    | inl e ↦ rw e hy
    | inr e ↦ rw e (entries-All m u hm)
  ]

  insert-All :
      (m : Dict (List UpdateOperation)) (u : Str) (xs : List UpdateOperation)
      → AllValues P m
      → All P xs
      → AllValues P (insert m u xs)
  unfolding insert
  insert-All [] u xs h hx = (hx, tt)
  insert-All ((k, ys) ∷ m) u xs (hy, hm) hx = elim (Bool-cases (str_eq k u)) [
    | inl e ↦ rw e (hx, hm)
    | inr e ↦ rw e (hy, insert-All m u xs hm hx)
  ]

  group-All :
      (os : List Operation) (m : Dict (List UpdateOperation))
      → All (λ o. P (update_operation_of o)) os
      → AllValues P m
      → AllValues P (group os m)
  unfolding group append_operation
  group-All [] m h hm = hm
  group-All (o ∷ os) m (ho, h) hm = group-All os (append_operation m (update_operation_of o)) h (
      insert-All m o.updater (entries (lookup m o.updater) ++ (update_operation_of o ∷ [])) hm (
        All-append P (entries (lookup m o.updater)) (update_operation_of o ∷ [])
          (entries-All m o.updater hm) (ho, tt)))

  -- The result of the loop is its start or the date of a value.
  last_update_values :
      (m : Dict (List UpdateOperation)) (n : ℕ)
      → AllValues P m
      → (last_update m n ≡ n) ⊎ ((uo : UpdateOperation) × P uo × (uo.date ≡ last_update m n))
  unfolding last_update
  last_update_values [] n h = inl refl
  last_update_values ((u, []) ∷ m) n (hy, h) = last_update_values m n h
  last_update_values ((u, o ∷ os) ∷ m) n ((ho, hs), h) =
      elim (last_update_values m (max n o.date) h) [
        | inr found ↦ inr found
        | inl e ↦ elim (Bool-cases (ltb n o.date)) [
          | inl t ↦ inr (o, ho, sym (e ∙ later_of n o.date t))
          | inr t ↦ inl (e ∙ earlier_of n o.date t)
        ]
      ]

-- The date of the newest update, as the command computes it.
last_of : Database → ℕ
last_of d = last_update (get_update_operations (some vulnerability_kind) [] d) 0

-- A later operation has no earlier date.
abbrev pub IsMonotone : Database → Type 0
IsMonotone d =
    (a b : Operation) → In a d.operations → In b d.operations → a.id ≤ b.id → a.date ≤ b.date

-- `o` is a vulnerability operation of the database.
abbrev pub IsUpdate : Database → Operation → Type 0
IsUpdate d o = In o d.operations × (has_kind (some vulnerability_kind) o ≡ true)

first_row :
    (d : Database) (o : Operation) (rows : List Operation)
    → IsMonotone d
    → In o d.operations
    → ((p : Operation) → In p rows → In p d.operations)
    → Sorted (λ a b. b.id ≤ a.id) rows
    → In o rows
    → (p : Operation) × (ps : List Operation) × (rows ≡ p ∷ ps) × (o.date ≤ p.date)
first_row d o [] mono io all sorted i = absurd i
first_row d o (p ∷ ps) mono io all (hp, hs) (inl e) =
    (p, ps, refl, mono o p io (all p (inl refl)) (omega (arith, ap (λ z. z.id) e)))
first_row d o (p ∷ ps) mono io all (hp, hs) (inr j) =
    (p, ps, refl, mono o p io (all p (inl refl)) (All_In (λ b. b.id ≤ p.id) ps o hp j))

last_of-bound : (d : Database) (o : Operation) → IsMonotone d → IsUpdate d o → o.date ≤ last_of d
unfolding last_of first_row last_update get_update_operations
last_of-bound d o mono (i, k) =
    let (rows, e, sorted, members) =
      lookup-get_update_operations (some vulnerability_kind) [] d o.updater (inl refl) in
    let (p, ps, q, le) =
      first_row d o rows mono i (λ z j. ((members z).0 j).0) sorted ((members o).1 (i, refl, k)) in
    le_trans le (
      last_update_bound (get_update_operations (some vulnerability_kind) [] d) 0 o.updater
        (update_operation_of p) (map update_operation_of ps) (e ∙ ap (map update_operation_of) q))

-- A value with the date of a vulnerability operation.
abbrev IsDated : Database → UpdateOperation → Type 0
IsDated d uo = (o : Operation) × IsUpdate d o × (o.date ≡ uo.date)

dated :
    (d : Database) → AllValues (IsDated d) (get_update_operations (some vulnerability_kind) [] d)
unfolding get_update_operations
dated d =
    let us = quoted (updaters_or_all [] d.operations) in
    let rows = rows_of d.operations (some vulnerability_kind) us in
    group-All (IsDated d) rows []
      (All-from_members (λ o. IsDated d (update_operation_of o)) rows
        λ o i.
          let (j, a, b) = (In-rows_of d.operations (some vulnerability_kind) us o).0 i in
          (o, (j, b), refl))
      tt

last_of-In :
    (d : Database) → (last_of d ≡ 0) ⊎ ((o : Operation) × IsUpdate d o × (o.date ≡ last_of d))
unfolding last_of
last_of-In d =
    elim (last_update_values (IsDated d) (get_update_operations (some vulnerability_kind) [] d) 0
      (dated d)) [ inl e ↦ inl e | inr (uo, (o, u, e), f) ↦ inr (o, u, e ∙ f) ]

module _ (calls : Calls) (c : ℕ) (path : Str) where
  refused : (allow : Bool) → ℕ → Bool
  refused allow last =
      not (last == 0) && (ltb old_database_threshold (calls.now - last) && not allow)

  pub refusal : Error
  unfolding format_database_age_threshold
  refusal =
      errorf
        "Database more than %s old, refusing to update. Delete the database at %s and run this command again."
        (format_database_age_threshold calls.duration_string old_database_threshold
          ∷ (c ∷ path)
          ∷ [])

  update-eq :
      (allow : Bool) (d : Database)
      → calls.new_store (c ∷ path) ≡ ok d
      → update calls (c ∷ path) allow ≡ checked calls (fail_if (refused allow (last_of d)) refusal)
  unfolding update database_path stored last_of refused refusal located check_age
  update-eq allow d e = rw e refl

  recent_passes :
      (last date : ℕ)
      → date ≤ last
      → calls.now ≤ date + old_database_threshold
      → refused false last ≡ false
  unfolding refused
  recent_passes last date h k = ground arith

  allowed_passes : (last : ℕ) → refused true last ≡ false
  unfolding refused
  allowed_passes last = ground arith

  old_fails :
      (last : ℕ) → 0 < last → last + old_database_threshold < calls.now → refused false last ≡ true
  unfolding refused
  old_fails last h k = ground arith

  -- On a database with an update, whose dates do not fall with the identifiers, `update` without the
  -- flag does what it does with the flag if some vulnerability operation is no older than 30 days,
  -- and if all of them are older, it fails before anything is fetched or changed.
  pub update_refuses :
      (d : Database) (o : Operation)
      → calls.new_store (c ∷ path) ≡ ok d
      → IsMonotone d
      → IsUpdate d o
      → 0 < o.date
      → (((p : Operation) × IsUpdate d p × (calls.now ≤ p.date + old_database_threshold))
          → update calls (c ∷ path) false ≡ update calls (c ∷ path) true)
        × (((p : Operation) → IsUpdate d p → p.date + old_database_threshold < calls.now)
            → update calls (c ∷ path) false ≡ ([], err refusal))
  unfolding checked
  update_refuses d o e mono u dated_after = (
    λ (p, v, recent).
        update-eq false d e
        ∙ ap (λ b. checked calls (fail_if b refusal))
            (recent_passes (last_of d) p.date (last_of-bound d p mono v) recent
              ∙ sym (allowed_passes (last_of d)))
        ∙ sym (update-eq true d e),
    λ old. elim (last_of-In d) [
      | inl z ↦ absurd (omega (arith, last_of-bound d o mono u))
      | inr (p, v, q) ↦
          update-eq false d e
          ∙ ap (λ b. checked calls (fail_if b refusal))
              (old_fails (last_of d) (omega (arith, last_of-bound d o mono u))
                (omega (arith, old p v)))
    ],
  )
