-- ===== src/Datastore/Update/Carried.antt =====
-- updateVulnerabilities: the old vulnerabilities that a delta update carries over, and their
-- associations.
use cvetool.Prelude.{
  ◌==◌, Bool-cases, Option-cases, In, In-append_left, In-append_right, In-append, Result, ℕ, ◌≡◌,
  refl, sym, ap, ◌∙◌, ◌↔◌, ◌⊎◌, inl, inr, true, ◌&&◌, some, List, [], ◌∷◌, arith,
}
use cvetool.Text.{Str, str_eq, str_eq_iff, Dict, remove}
use cvetool.Datastore.Tables.{
  Vulnerability, vulnerability_kind, Database, contains_pair, associate, is_latest,
}
use cvetool.Datastore.Update.{
  append_at, name_of_vuln, add_existing, old_vulns, batch_names, delete_all, associate_ids,
  associate_old, carried,
}
use mathlib.Core.Path.{subst}

-- An entry of the grouped map: `id` stands in a group of that name.
abbrev pub Holds : Dict (List ℕ) → Str → ℕ → Type 0
Holds [] name id = ⊥
Holds ((j, ids) ∷ m) name id = ((j ≡ name) × In id ids) ⊎ Holds m name id

pub Holds-append_at :
    (m : Dict (List ℕ)) (k : Str) (v : ℕ) (name : Str) (id : ℕ)
    → Holds (append_at m k v) name id ↔ (Holds m name id ⊎ ((k ≡ name) × (v ≡ id)))
unfolding append_at
Holds-append_at [] k v name id = (
  λ h. elim h [ inl (e, inl q) ↦ inr (e, q) | inl (e, inr b) ↦ absurd b | inr b ↦ absurd b ],
  λ h. elim h [ inl b ↦ absurd b | inr (e, q) ↦ inl (e, inl q) ],
)
Holds-append_at ((j, ids) ∷ m) k v name id = elim (Bool-cases (str_eq j k)) [
  | inl same ↦ rw same (
    λ h. elim h [
      | inl (e, i) ↦ elim (In-append id ids (v ∷ []) i) [
        | inl old ↦ inl (inl (e, old))
        | inr (inl q) ↦ inr (sym ((str_eq_iff j k).0 same) ∙ e, q)
        | inr (inr b) ↦ absurd b
      ]
      | inr r ↦ inl (inr r)
    ],
    λ h. elim h [
      | inl (inl (e, i)) ↦ inl (e, In-append_left id ids (v ∷ []) i)
      | inl (inr r) ↦ inr r
      | inr (e, q) ↦ inl ((str_eq_iff j k).0 same ∙ e, In-append_right id ids (v ∷ []) (inl q))
    ],
  )
  | inr other ↦ rw other (
    λ h. elim h [
      | inl l ↦ inl (inl l)
      | inr r ↦ elim ((Holds-append_at m k v name id).0 r) [ inl a ↦ inl (inr a) | inr b ↦ inr b ]
    ],
    λ h. elim h [
      | inl (inl l) ↦ inl l
      | inl (inr r) ↦ inr ((Holds-append_at m k v name id).1 (inl r))
      | inr b ↦ inr ((Holds-append_at m k v name id).1 (inr b))
    ],
  )
]

Holds-remove :
    (m : Dict (List ℕ)) (k name : Str) (id : ℕ)
    → Holds (remove m k) name id ↔ (Holds m name id × (¬ (k ≡ name)))
unfolding remove
Holds-remove [] k name id = (λ h. absurd h, λ h. h.0)
Holds-remove ((j, ids) ∷ m) k name id = elim (Bool-cases (str_eq j k)) [
  | inl same ↦ rw same (
    λ h. let (r, n) = (Holds-remove m k name id).0 h in (inr r, n),
    λ h. elim h.0 [
      | inl (e, i) ↦ absurd (h.1 (sym ((str_eq_iff j k).0 same) ∙ e))
      | inr r ↦ (Holds-remove m k name id).1 (r, h.1)
    ],
  )
  | inr other ↦ rw other (
    λ h. elim h [
      | inl (e, i) ↦ (inl (e, i), λ q. cc (other, (str_eq_iff j k).1 (e ∙ sym q)))
      | inr r ↦ let (r', n) = (Holds-remove m k name id).0 r in (inr r', n)
    ],
    λ h. elim h.0 [ inl l ↦ inl l | inr r ↦ inr ((Holds-remove m k name id).1 (r, h.1)) ],
  )
]

pub Holds-delete_all :
    (m : Dict (List ℕ)) (ks : List Str) (name : Str) (id : ℕ)
    → Holds (delete_all m ks) name id ↔ (Holds m name id × (¬ In name ks))
unfolding delete_all
Holds-delete_all m [] name id = (λ h. (h, λ b. b), λ h. h.0)
Holds-delete_all m (k ∷ ks) name id = (
  λ h.
      let (r, n) = (Holds-delete_all (remove m k) ks name id).0 h in
      let (r', n') = (Holds-remove m k name id).0 r in
      (r', λ i. elim i [ inl e ↦ n' e | inr j ↦ n j ]),
  λ h.
      (Holds-delete_all (remove m k) ks name id).1
        ((Holds-remove m k name id).1 (h.0, λ e. h.1 (inl e)), λ i. h.1 (inr i)),
)

-- A row of `selectExisting`.
abbrev pub Existing : Database → Str → Str → ℕ → Type 0
Existing d updater name id =
    (uo : ℕ) × In (uo, id) d.uo_vuln
    × (is_latest d uo vulnerability_kind ≡ true)
    × (name_of_vuln d.vulns d.metadata updater id ≡ some name)

abbrev RowOf : Database → Str → List (ℕ × ℕ) → Str → ℕ → Type 0
RowOf d updater pairs name id =
    (uo : ℕ) × In (uo, id) pairs
    × (is_latest d uo vulnerability_kind ≡ true)
    × (name_of_vuln d.vulns d.metadata updater id ≡ some name)

abbrev IsRow : Database → Str → ℕ → ℕ → Str → Type 0
IsRow d updater uo id name =
    (is_latest d uo vulnerability_kind ≡ true)
    × (name_of_vuln d.vulns d.metadata updater id ≡ some name)

Holds-add_existing :
    (d : Database) (updater : Str) (uo i : ℕ) (m : Dict (List ℕ)) (name : Str) (id : ℕ)
    → Holds (add_existing d updater uo i m) name id
      ↔ (Holds m name id ⊎ ((i ≡ id) × IsRow d updater uo i name))
unfolding add_existing
Holds-add_existing d updater uo i m name id =
    elim (Bool-cases (is_latest d uo vulnerability_kind)) [
      | inr e ↦ rw e (λ h. inl h, λ h. elim h [ inl l ↦ l | inr (q, (f, r)) ↦ cc ])
      | inl e ↦ rw e (elim (Option-cases (name_of_vuln d.vulns d.metadata updater i)) [
        | inl o ↦ rw o (λ h. inl h, λ h. elim h [ inl l ↦ l | inr (q, (f, r)) ↦ cc ])
        | inr (n, o) ↦ rw o (
          λ h. elim ((Holds-append_at m n i name id).0 h) [
            | inl l ↦ inl l
            | inr (q, p) ↦ inr (p, (refl, cc))
          ],
          λ h.
              (Holds-append_at m n i name id).1
                (elim h [ inl l ↦ inl l | inr (q, (f, r)) ↦ inr (cc, q) ]),
        )
      ])
    ]

Holds-old_vulns :
    (d : Database) (updater : Str) (pairs : List (ℕ × ℕ)) (m : Dict (List ℕ)) (name : Str) (id : ℕ)
    → Holds (old_vulns d updater pairs m) name id
      ↔ (Holds m name id ⊎ RowOf d updater pairs name id)
unfolding old_vulns
Holds-old_vulns d updater [] m name id =
    (λ h. inl h, λ h. elim h [ inl l ↦ l | inr r ↦ absurd r.1 ])
Holds-old_vulns d updater ((uo, i) ∷ pairs) m name id =
    let step = Holds-add_existing d updater uo i m name id in
    let rest = Holds-old_vulns d updater pairs (add_existing d updater uo i m) name id in
    (
      λ h. elim (rest.0 h) [
        | inr (u, j, f, r) ↦ inr (u, inr j, f, r)
        | inl l ↦ elim (step.0 l) [
          | inl old ↦ inl old
          | inr (q, (f, r)) ↦ inr (uo, inl (cc), f, rw q at r)
        ]
      ],
      λ h. elim h [
        | inl l ↦ rest.1 (inl (step.1 (inl l)))
        | inr (u, inr j, f, r) ↦ rest.1 (inr (u, j, f, r))
        | inr (u, inl e, f, r) ↦
            let first : uo ≡ u = ap (λ p. p.0) e in
            let second : i ≡ id = ap (λ p. p.1) e in
            rest.1 (inl (step.1 (inr (second, (rw first f, rw second r)))))
      ],
    )

-- What a delta update carries over: the rows of the updater's last operation whose name is neither
-- in the batch nor among the deleted names.
pub Holds-carried :
    (d : Database) (updater : Str) (items : List (Result Vulnerability)) (deleted : List Str)
    (name : Str) (id : ℕ)
    → Holds (carried d updater items (some deleted)) name id
      ↔ (Existing d updater name id × (¬ In name (batch_names items)) × (¬ In name deleted))
unfolding carried
Holds-carried d updater items deleted name id =
    let old = old_vulns d updater d.uo_vuln [] in
    let kept = Holds-delete_all old (batch_names items) name id in
    let all = Holds-delete_all (delete_all old (batch_names items)) deleted name id in
    let rows = Holds-old_vulns d updater d.uo_vuln [] name id in
    (
      λ h.
          let (k, n) = all.0 h in
          let (o, b) = kept.0 k in
          (elim (rows.0 o) [ inl none_yet ↦ absurd none_yet | inr r ↦ r ], b, n),
      λ h. all.1 (kept.1 (rows.1 (inr h.0), h.1), h.2),
    )

pub In-associate :
    (uo id : ℕ) (ps : List (ℕ × ℕ)) (m k : ℕ)
    → In (m, k) (associate uo id ps) ↔ (In (m, k) ps ⊎ ((uo ≡ m) × (id ≡ k)))
unfolding associate
In-associate uo id ps m k = elim (Bool-cases (contains_pair ps uo id)) [
  | inl e ↦ rw e (
    λ h. inl h,
    λ h. elim h [
      | inl l ↦ l
      | inr (q, r) ↦ subst (λ p. In p ps) (cc) (In-contains_pair ps uo id e)
    ],
  )
  | inr e ↦ rw e (
    λ h. elim (In-append (m, k) ps ((uo, id) ∷ []) h) [
      | inl l ↦ inl l
      | inr (inl q) ↦ inr (ap (λ p. p.0) q, ap (λ p. p.1) q)
      | inr (inr b) ↦ absurd b
    ],
    λ h. elim h [
      | inl l ↦ In-append_left (m, k) ps ((uo, id) ∷ []) l
      | inr (q, r) ↦ In-append_right (m, k) ps ((uo, id) ∷ []) (inl (cc))
    ],
  )
]
  where
    In-contains_pair : (ps : List (ℕ × ℕ)) (a b : ℕ) → contains_pair ps a b ≡ true → In (a, b) ps
    In-contains_pair [] a b h = cc
    In-contains_pair ((x, y) ∷ ps) a b h = elim (Bool-cases ((x == a) && (y == b))) [
      | inl e ↦ inl (ground arith)
      | inr e ↦ inr (In-contains_pair ps a b (rw e at h))
    ]

In-associate_ids :
    (uo : ℕ) (ids : List ℕ) (ps : List (ℕ × ℕ)) (m k : ℕ)
    → In (m, k) (associate_ids uo ids ps) ↔ (In (m, k) ps ⊎ ((uo ≡ m) × In k ids))
unfolding associate_ids
In-associate_ids uo [] ps m k = (λ h. inl h, λ h. elim h [ inl l ↦ l | inr r ↦ absurd r.1 ])
In-associate_ids uo (id ∷ ids) ps m k =
    let rest = In-associate_ids uo ids (associate uo id ps) m k in
    let first = In-associate uo id ps m k in
    (
      λ h. elim (rest.0 h) [
        | inr (e, i) ↦ inr (e, inr i)
        | inl l ↦ elim (first.0 l) [ inl o ↦ inl o | inr (e, q) ↦ inr (e, inl q) ]
      ],
      λ h. elim h [
        | inl l ↦ rest.1 (inl (first.1 (inl l)))
        | inr (e, inl q) ↦ rest.1 (inl (first.1 (inr (e, q))))
        | inr (e, inr i) ↦ rest.1 (inr (e, i))
      ],
    )

pub In-associate_old :
    (uo : ℕ) (old : Dict (List ℕ)) (ps : List (ℕ × ℕ)) (m k : ℕ)
    → In (m, k) (associate_old uo old ps)
      ↔ (In (m, k) ps ⊎ ((uo ≡ m) × ((name : Str) × Holds old name k)))
unfolding associate_old
In-associate_old uo [] ps m k = (λ h. inl h, λ h. elim h [ inl l ↦ l | inr (e, (n, b)) ↦ absurd b ])
In-associate_old uo ((name, ids) ∷ old) ps m k =
    let rest = In-associate_old uo old (associate_ids uo ids ps) m k in
    let first = In-associate_ids uo ids ps m k in
    (
      λ h. elim (rest.0 h) [
        | inr (e, (n, i)) ↦ inr (e, (n, inr i))
        | inl l ↦ elim (first.0 l) [ inl o ↦ inl o | inr (e, i) ↦ inr (e, (name, inl (refl, i))) ]
      ],
      λ h. elim h [
        | inl l ↦ rest.1 (inl (first.1 (inl l)))
        | inr (e, (n, inl (q, i))) ↦ rest.1 (inl (first.1 (inr (e, i))))
        | inr (e, (n, inr i)) ↦ rest.1 (inr (e, (n, i)))
      ],
    )
