-- ===== src/Datastore/Get/Results.antt =====
-- Get: what is in the results.
use cvetool.Prelude.{
  if◌then◌else◌, Bool-cases, All, In, Distinct, In-append_left, In-append_right, In-append,
  Distinct-snoc, ok, ◌≡◌, refl, sym, ap, ◌∙◌, ◌↔◌, ◌⊎◌, inl, inr, Bool, false, Option, none, List,
  [], ◌∷◌, ◌++◌, map,
}
use cvetool.Text.{
  Str, str_eq, str_eq_iff, contains, contains_In, not_In_of_contains, Dict, lookup, insert,
  lookup-insert,
}
use cvetool.Datastore.Tables.{Database}
use cvetool.Datastore.Get.{
  record_rows, record_loop, IndexRecord, GetOpts, Found, GetState, or_empty, add_found, row_loop,
  get,
}
use mathlib.Core.Path.{subst}

-- The identifiers of the results of a package.
abbrev pub ids_of : Dict (List Found) → Str → List Str
unfolding lookup
ids_of results rid = map (λ f. f.id) (or_empty (lookup results rid))

-- `vulnSet` has the identifiers of the results, and no package has one twice.
record Agrees (s : GetState) : Type 0 where
  pub same : (rid a : Str) → In a (or_empty (lookup s.vuln_set rid)) ↔ In a (ids_of s.results rid)
  pub distinct : (rid : Str) → Distinct (ids_of s.results rid)

map-append_one :
    (xs : List Found) (f : Found)
    → map (λ g. g.id) (xs ++ (f ∷ [])) ≡ map (λ g. g.id) xs ++ (f.id ∷ [])
map-append_one [] f = refl
map-append_one (x ∷ xs) f = ap (λ z. x.id ∷ z) (map-append_one xs f)

ids_after :
    (m : Dict (List Found)) (rid r : Str) (f : Found)
    → ids_of (insert m rid (or_empty (lookup m rid) ++ (f ∷ []))) r
      ≡ (if str_eq rid r then ids_of m rid ++ (f.id ∷ []) else ids_of m r)
unfolding ids_of str_eq
ids_after m rid r f = elim (Bool-cases (str_eq rid r)) [
  | inl e ↦
      rw (lookup-insert m rid r (or_empty (lookup m rid) ++ (f ∷ [])), e)
        (map-append_one (or_empty (lookup m rid)) f)
  | inr e ↦ rw (lookup-insert m rid r (or_empty (lookup m rid) ++ (f ∷ [])), e)
]

-- The identifiers of one package after a row, in the two cases.
added_here :
    (m : Dict (List Found)) (rid r : Str) (f : Found)
    → rid ≡ r
    → ids_of (insert m rid (or_empty (lookup m rid) ++ (f ∷ []))) r ≡ ids_of m r ++ (f.id ∷ [])
added_here m rid r f e =
    ids_after m rid r f
    ∙ ap (λ b. if b then ids_of m rid ++ (f.id ∷ []) else ids_of m r) ((str_eq_iff rid r).1 e)
    ∙ ap (λ z. ids_of m z ++ (f.id ∷ [])) e

added_elsewhere :
    (m : Dict (List Found)) (rid r : Str) (f : Found)
    → str_eq rid r ≡ false
    → ids_of (insert m rid (or_empty (lookup m rid) ++ (f ∷ []))) r ≡ ids_of m r
added_elsewhere m rid r f e =
    ids_after m rid r f ∙ ap (λ b. if b then ids_of m rid ++ (f.id ∷ []) else ids_of m r) e

In-added :
    (m : Dict (List Found)) (rid r : Str) (f : Found) (a : Str)
    → In a (ids_of (insert m rid (or_empty (lookup m rid) ++ (f ∷ []))) r)
      ↔ (In a (ids_of m r) ⊎ ((rid ≡ r) × (f.id ≡ a)))
In-added m rid r f a = elim (Bool-cases (str_eq rid r)) [
  | inl e ↦
      let same : rid ≡ r = (str_eq_iff rid r).0 e in
      (
        λ i.
            elim (In-append a (ids_of m r) (f.id ∷ [])
              (subst (In a) (added_here m rid r f same) i)) [
                | inl l ↦ inl l
                | inr (inl q) ↦ inr (same, q)
                | inr (inr b) ↦ absurd b
              ],
        λ h. subst (In a) (sym (added_here m rid r f same)) (elim h [
          | inl l ↦ In-append_left a (ids_of m r) (f.id ∷ []) l
          | inr (p, q) ↦ In-append_right a (ids_of m r) (f.id ∷ []) (inl q)
        ]),
      )
  | inr e ↦ (
    λ i. inl (subst (In a) (added_elsewhere m rid r f e) i),
    λ h.
        subst (In a) (sym (added_elsewhere m rid r f e))
          (elim h [ inl l ↦ l | inr (p, q) ↦ cc (e, (str_eq_iff rid r).1 p) ]),
  )
]

In-set :
    (m : Dict (List Str)) (rid r b a : Str)
    → In a (or_empty (lookup (insert m rid (b ∷ or_empty (lookup m rid))) r))
      ↔ (In a (or_empty (lookup m r)) ⊎ ((rid ≡ r) × (b ≡ a)))
In-set m rid r b a = elim (Bool-cases (str_eq rid r)) [
  | inl e ↦
      let same : rid ≡ r = (str_eq_iff rid r).0 e in
      rw (lookup-insert m rid r (b ∷ or_empty (lookup m rid)), e)
        (
          λ i. elim i [
            | inl q ↦ inr (same, q)
            | inr j ↦ inl (subst (λ z. In a (or_empty (lookup m z))) same j)
          ],
          λ h. elim h [
            | inl j ↦ inr (subst (λ z. In a (or_empty (lookup m z))) (sym same) j)
            | inr (p, q) ↦ inl q
          ],
        )
  | inr e ↦
      rw (lookup-insert m rid r (b ∷ or_empty (lookup m rid)), e)
        (λ i. inl i, λ h. elim h [ inl l ↦ l | inr (p, q) ↦ cc (e, (str_eq_iff rid r).1 p) ])
]

added_Agrees :
    (rid : Str) (f : Found) (s : GetState)
    → Agrees s
    → contains (or_empty (lookup s.vuln_set rid)) f.id ≡ false
    → Agrees (record {
      results = insert s.results rid (or_empty (lookup s.results rid) ++ (f ∷ []));
      vuln_set = insert s.vuln_set rid (f.id ∷ or_empty (lookup s.vuln_set rid));
    })
added_Agrees rid f s g new = record {
  same = λ r a.
      let left = In-set s.vuln_set rid r f.id a in
      let right = In-added s.results rid r f a in
      let old = g.same r a in
      (
        λ i. right.1 (elim (left.0 i) [ inl j ↦ inl (old.0 j) | inr h ↦ inr h ]),
        λ i. left.1 (elim (right.0 i) [ inl j ↦ inl (old.1 j) | inr h ↦ inr h ]),
      );
  distinct = λ r. elim (Bool-cases (str_eq rid r)) [
    | inr e ↦ subst Distinct (sym (added_elsewhere s.results rid r f e)) (g.distinct r)
    | inl e ↦
        let same : rid ≡ r = (str_eq_iff rid r).0 e in
        subst Distinct (sym (added_here s.results rid r f same)) (
          Distinct-snoc f.id (ids_of s.results r)
            (λ i.
              not_In_of_contains (or_empty (lookup s.vuln_set rid)) f.id new
                ((g.same rid f.id).1 (subst (λ z. In f.id (ids_of s.results z)) (sym same) i)))
            (g.distinct r))
  ];
}

-- What is added for one row.
add_found_lem :
    (rid : Str) (f : Found) (s : GetState)
    → Agrees s
    → Agrees (add_found rid f s)
      × ((r a : Str)
          → In a (ids_of (add_found rid f s).results r)
            ↔ (In a (ids_of s.results r) ⊎ ((rid ≡ r) × (f.id ≡ a))))
unfolding add_found
add_found_lem rid f s g = elim (Bool-cases (contains (or_empty (lookup s.vuln_set rid)) f.id)) [
  | inl old ↦ rw old (
    g,
    λ r a. (
      λ i. inl i,
      λ h. elim h [
        | inl i ↦ i
        | inr (p, q) ↦
            subst (λ z. In z (ids_of s.results r)) q
              (subst (λ z. In f.id (ids_of s.results z)) p
                ((g.same rid f.id).0 (contains_In (or_empty (lookup s.vuln_set rid)) f.id old)))
      ],
    ),
  )
  | inr new ↦ rw new (added_Agrees rid f s g new, λ r a. In-added s.results rid r f a)
]

module _ (version_in : Str → Str → Bool) (base64 : Str → Str) (date_error : Str → Option Str) where
  -- The dates of the rows can be read.
  abbrev pub DatesAreRead : List Found → Type 0
  DatesAreRead fs = All (λ f. date_error f.row.issued ≡ none) fs

  row_loop_lem :
      (rid : Str) (fs : List Found) (s : GetState)
      → Agrees s
      → DatesAreRead fs
      → (t : GetState) × (row_loop date_error rid fs s ≡ ok t)
        × Agrees t
        × ((r a : Str)
            → In a (ids_of t.results r)
              ↔ (In a (ids_of s.results r) ⊎ ((rid ≡ r) × In a (map (λ f. f.id) fs))))
  unfolding row_loop
  row_loop_lem rid [] s g d =
      (s, refl, g, λ r a. (λ i. inl i, λ h. elim h [ inl l ↦ l | inr (p, b) ↦ absurd b ]))
  row_loop_lem rid (f ∷ fs) s g (d, ds) =
      let (h, first) = add_found_lem rid f s g in
      let (t, e, k, rest) = row_loop_lem rid fs (add_found rid f s) h ds in
      (
        t,
        rw (row_loop, d) e,
        k,
        λ r a. (
          λ i. elim ((rest r a).0 i) [
            | inr (p, j) ↦ inr (p, inr j)
            | inl l ↦ elim ((first r a).0 l) [ inl o ↦ inl o | inr (p, q) ↦ inr (p, inl q) ]
          ],
          λ x. (rest r a).1 (elim x [
            | inl l ↦ inl ((first r a).1 (inl l))
            | inr (p, inl q) ↦ inl ((first r a).1 (inr (p, q)))
            | inr (p, inr j) ↦ inr (p, j)
          ]),
        ),
      )

  record_loop_lem :
      (d : Database) (opts : GetOpts) (records : List IndexRecord) (s : GetState)
      → Agrees s
      → All (λ r. DatesAreRead (record_rows version_in base64 date_error d opts r)) records
      → (t : GetState) × (record_loop version_in base64 date_error d opts records s ≡ ok t)
        × Agrees t
        × ((rid a : Str)
            → In a (ids_of t.results rid) ↔ (
                In a (ids_of s.results rid)
                ⊎ ((r : IndexRecord) × In r records
                    × (r.pkg.id ≡ rid)
                    × In a (map (λ f. f.id) (record_rows version_in base64 date_error d opts r)))))
  unfolding record_loop
  record_loop_lem d opts [] s g h =
      (s, refl, g, λ rid a. (λ i. inl i, λ x. elim x [ inl l ↦ l | inr (r, b, p, m) ↦ absurd b ]))
  record_loop_lem d opts (r ∷ rs) s g (h, hs) =
      let (u, e, k, first) =
        row_loop_lem r.pkg.id (record_rows version_in base64 date_error d opts r) s g h in
      let (t, e', k', rest) = record_loop_lem d opts rs u k hs in
      (
        t,
        rw e e',
        k',
        λ rid a. (
          λ i. elim ((rest rid a).0 i) [
            | inr (q, j, p, m) ↦ inr (q, inr j, p, m)
            | inl l ↦ elim ((first rid a).0 l) [
              | inl o ↦ inl o
              | inr (p, m) ↦ inr (r, inl refl, p, m)
            ]
          ],
          λ x. (rest rid a).1 (elim x [
            | inl l ↦ inl ((first rid a).1 (inl l))
            | inr (q, inr j, p, m) ↦ inr (q, j, p, m)
            | inr (q, inl same, p, m) ↦ inl (
                (first rid a).1 (
                  subst
                    (λ z.
                      In a (ids_of s.results rid)
                      ⊎ ((z.pkg.id ≡ rid)
                          × In a (
                              map (λ f. f.id) (record_rows version_in base64 date_error d opts z))))
                    (sym same) (inr (p, m))))
          ]),
        ),
      )

  -- If the dates of the rows can be read, `Get` returns, for each package, the IDs of the
  -- vulnerabilities in the rows of its records and no others, and none twice, also where records or
  -- rows are repeated.
  pub get_lem :
      (d : Database) (opts : GetOpts) (records : List IndexRecord)
      → All (λ r. DatesAreRead (record_rows version_in base64 date_error d opts r)) records
      → (results : Dict (List Found)) × (get version_in base64 date_error d records opts
          ≡ ok results)
        × ((rid : Str) → Distinct (ids_of results rid))
        × ((rid a : Str)
            → In a (ids_of results rid) ↔ (
                (r : IndexRecord) × In r records
                × (r.pkg.id ≡ rid)
                × In a (map (λ f. f.id) (record_rows version_in base64 date_error d opts r))))
  unfolding get
  get_lem d opts records h =
      let (t, e, k, f) =
        record_loop_lem d opts records (record { results = []; vuln_set = [] }) start h in
      (
        t.results,
        rw e,
        k.distinct,
        λ rid a. (
          λ i. elim ((f rid a).0 i) [ inl b ↦ none_before rid a b | inr x ↦ x ],
          λ x. (f rid a).1 (inr x),
        ),
      )
    where
      none_before : {P : Type 0} (rid a : Str) → In a (ids_of [] rid) → P
      none_before rid a b = absurd b

      start : Agrees (record { results = []; vuln_set = [] })
      start = record { same = λ rid a. (λ i. i, λ i. i); distinct = λ rid. tt }
