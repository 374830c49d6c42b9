-- ===== src/Cmd/ScanCatalog/Prepare/Owned.antt =====
-- Whatever the calls of a preparation answer, what it has acquired is its own or removed again.
use mathlib.Core.Path.{subst}
use cvetool.Text.{Str}
use cvetool.Catalog.Nevra.{is_empty}
use cvetool.Catalog.Json.{Catalog}
use cvetool.Catalog.Target.Roots.{absolute}
use cvetool.Cmd.ScanCatalog.{no_op, unlinks, prepare_repository_mapping}
use cvetool.Prelude.{
  In, Error, Result, err, ok, wrap, ◌>>◌, ◌≡◌, refl, ◌⊎◌, inl, inr, true, false, none, some, [],
  ◌∷◌,
}
use cvetool.Cmd.ScanCatalog.Prepare.{M, Resource}
use cvetool.Cmd.ScanCatalog.Prepare.{
  ScanCatalogOptions, Environment, open_json_reader, Resource, reader, directory, mapping,
  Preparation, after, bind, lift, opened, prepare_explicit, make_directory, keep_absolute,
  check_target, generate_target, generate_reader, prepare_root, prepare_target, written,
  mapping_file, keep_mapping, start, prepare_source, prepare_body,
}

-- The resource is in the fields of `prepared`, where `Close` finds it; a directory under its absolute
-- path, which is not empty; a mapping file with the cleanup that removes it, or it has been removed
-- already.
abbrev pub IsHeld : Environment → Preparation → Resource → Type 0
IsHeld env s reader = s.prepared.reader ≡ true
IsHeld env s (directory dir) =
    (absolute env.system dir ≡ ok s.prepared.temp_dir) × (is_empty s.prepared.temp_dir ≡ false)
IsHeld env s (mapping path) =
    ((s.prepared.mapping_cleanup ≡ some (unlinks path)) × (s.prepared.mapping_path ≡ path))
    ⊎ In path s.removed

abbrev pub IsOwned : Environment → Preparation → Type 0
IsOwned env s = (r : Resource) → In r s.acquired → IsHeld env s r

-- The working directory is found, and an absolute path is not empty, for what os.MkdirTemp returns.
abbrev pub HasAbsolute : Environment → Type 0
HasAbsolute env =
    (dir : Str)
    → env.mkdir_temp ≡ ok dir
    → (path : Str) × (absolute env.system dir ≡ ok path) × (is_empty path ≡ false)

-- Before there is a mapping.
abbrev IsUnmapped : Environment → Preparation → Type 0
IsUnmapped env s = IsOwned env s × ((path : Str) → ¬ In (mapping path) s.acquired)

after-keeps :
    {A B : Type 0} (P : Preparation → Type 0) (rest : A → M B) (p : Preparation × Result A)
    → P p.0
    → ((a : A) → P (rest a p.0).0)
    → P (after rest p).0
after-keeps P rest (s, err e) h k = h
after-keeps P rest (s, ok a) h k = k a

module _ (env : Environment) where
  start-IsUnmapped : IsUnmapped env start
  start-IsUnmapped = (λ r i. absurd i, λ path i. i)

  opened-IsUnmapped :
      (r : Result Catalog) (s : Preparation) → IsUnmapped env s → IsUnmapped env (opened r s).0
  unfolding opened
  opened-IsUnmapped (err e) s h = h
  opened-IsUnmapped (ok c) s (owned, unmapped) = (
    λ r i. opened_held c s owned unmapped r i,
    λ path i. elim i [ inl e ↦ cc e | inr j ↦ unmapped path j ],
  )
    where
      opened_held :
          (c : Catalog) (s : Preparation)
          → IsOwned env s
          → ((path : Str) → ¬ In (mapping path) s.acquired)
          → (r : Resource) → In r (opened (ok c) s).0.acquired
          → IsHeld env (opened (ok c) s).0 r
      opened_held c s owned unmapped reader i = refl
      opened_held c s owned unmapped (directory dir) (inl e) = absurd (cc e)
      opened_held c s owned unmapped (directory dir) (inr j) = owned (directory dir) j
      opened_held c s owned unmapped (mapping path) (inl e) = absurd (cc e)
      opened_held c s owned unmapped (mapping path) (inr j) = absurd (unmapped path j)

  -- The state after both assignments of the directory.
  abbrev in_directory : Str → Str → Preparation
  in_directory dir path = record start {
    prepared = record start.prepared { temp_dir = path };
    acquired = directory dir ∷ [];
  }

  in_directory-IsUnmapped :
      (dir path : Str)
      → absolute env.system dir ≡ ok path
      → is_empty path ≡ false
      → IsUnmapped env (in_directory dir path)
  in_directory-IsUnmapped dir path e n = (
    λ r i. elim i [
      | inl q ↦ subst (IsHeld env (in_directory dir path)) q (e, n)
      | inr j ↦ absurd j
    ],
    λ p i. elim i [ inl q ↦ cc q | inr j ↦ j ],
  )

  made-IsUnmapped :
      (rest : Str → M (Unit {0})) (r : Result Str)
      → ((dir : Str)
          → r ≡ ok dir
          → (path : Str) × (absolute env.system dir ≡ ok path) × (is_empty path ≡ false))
      → ((path : Str) (s : Preparation) → IsUnmapped env s → IsUnmapped env (rest path s).0)
      → IsUnmapped env
          (bind
            (make_directory (wrap "create scan catalog directory" [] r))
            (λ made.
              bind
                (keep_absolute
                  (wrap "resolve scan catalog directory" [] (absolute env.system made)))
                rest)
            start).0
  unfolding make_directory keep_absolute
  made-IsUnmapped rest (err e) abs keeps = start-IsUnmapped
  made-IsUnmapped rest (ok dir) abs keeps =
      let (path, e, n) = abs dir refl in
      rw e (keeps path (in_directory dir path) (in_directory-IsUnmapped dir path e n))

  generate_reader-IsUnmapped :
      (options : ScanCatalogOptions) (root dir : Str) (s : Preparation)
      → IsUnmapped env s
      → IsUnmapped env (generate_reader env options root dir s).0
  unfolding generate_reader
  generate_reader-IsUnmapped options root dir s h =
      after-keeps (IsUnmapped env)
        (λ path. opened (wrap "open generated catalog" [] (open_json_reader env path)))
        (s, generate_target env options root dir) h
        λ path. opened-IsUnmapped (wrap "open generated catalog" [] (open_json_reader env path)) s h

  prepare_root-IsUnmapped :
      (options : ScanCatalogOptions) (root : Str)
      → HasAbsolute env
      → IsUnmapped env (prepare_root env options root start).0
  unfolding prepare_root
  prepare_root-IsUnmapped options root abs =
      made-IsUnmapped (generate_reader env options root) env.mkdir_temp abs
        (generate_reader-IsUnmapped options root)

  prepare_target-IsUnmapped :
      (options : ScanCatalogOptions)
      → HasAbsolute env
      → IsUnmapped env (prepare_target env options start).0
  unfolding prepare_target
  prepare_target-IsUnmapped options abs =
      let root = wrap "resolve target root" [] (absolute env.system options.target_root) in
      after-keeps (IsUnmapped env) (λ u. bind (lift root) (prepare_root env options))
        (start, check_target options) start-IsUnmapped
        λ u.
          after-keeps (IsUnmapped env) (prepare_root env options) (start, root) start-IsUnmapped
            λ r. prepare_root-IsUnmapped options r abs

  prepare_source-IsUnmapped :
      (options : ScanCatalogOptions)
      → HasAbsolute env
      → IsUnmapped env (prepare_source env options start).0
  unfolding prepare_source prepare_explicit
  prepare_source-IsUnmapped options abs = from_path options.explicit_path
    where
      from_path :
          (path : Str)
          → IsUnmapped env
              (elim path as (λ p. M (Unit {0})) [
                | [] ↦ prepare_target env options
                | c ∷ p ↦ prepare_explicit env (c ∷ p)
              ]
                start).0
      from_path [] = prepare_target-IsUnmapped options abs
      from_path (c ∷ p) =
          opened-IsUnmapped (wrap "open explicit catalog" [] (open_json_reader env (c ∷ p))) start
            start-IsUnmapped

  failed-IsHeld :
      (e : Error) (s : Preparation)
      → IsOwned env s
      → ((path : Str) → In (mapping path) s.acquired → In path s.removed)
      → (r : Resource) → In r s.acquired
      → IsHeld env (keep_mapping ([], some no_op, some e) s).0 r
  unfolding keep_mapping prepare_repository_mapping
  failed-IsHeld e s owned removed reader i = owned reader i
  failed-IsHeld e s owned removed (directory dir) i = owned (directory dir) i
  failed-IsHeld e s owned removed (mapping path) i = inr (removed path i)

  mapped-IsHeld :
      (path : Str) (s : Preparation)
      → IsUnmapped env s
      → (r : Resource) → In r (mapping path ∷ s.acquired)
      → IsHeld env
          (keep_mapping
            (path, some (unlinks path), none)
            (record s { acquired = mapping path ∷ s.acquired })).0
          r
  unfolding keep_mapping prepare_repository_mapping
  mapped-IsHeld path s (owned, unmapped) reader (inl e) = absurd (cc e)
  mapped-IsHeld path s (owned, unmapped) reader (inr j) = owned reader j
  mapped-IsHeld path s (owned, unmapped) (directory dir) (inl e) = absurd (cc e)
  mapped-IsHeld path s (owned, unmapped) (directory dir) (inr j) = owned (directory dir) j
  mapped-IsHeld path s (owned, unmapped) (mapping q) (inl e) = inl (cc e, cc e)
  mapped-IsHeld path s (owned, unmapped) (mapping q) (inr j) = absurd (unmapped q j)

  removed-IsHeld :
      (path : Str) (e : Error) (s : Preparation)
      → IsUnmapped env s
      → (r : Resource) → In r (mapping path ∷ s.acquired)
      → IsHeld env
          (keep_mapping
            ([], some no_op, some e)
            (record s { acquired = mapping path ∷ s.acquired; removed = path ∷ s.removed })).0
          r
  unfolding keep_mapping prepare_repository_mapping
  removed-IsHeld path e s (owned, unmapped) reader (inl q) = absurd (cc q)
  removed-IsHeld path e s (owned, unmapped) reader (inr j) = owned reader j
  removed-IsHeld path e s (owned, unmapped) (directory dir) (inl q) = absurd (cc q)
  removed-IsHeld path e s (owned, unmapped) (directory dir) (inr j) = owned (directory dir) j
  removed-IsHeld path e s (owned, unmapped) (mapping p) (inl q) = inr (inl (cc q))
  removed-IsHeld path e s (owned, unmapped) (mapping p) (inr j) = absurd (unmapped p j)

  written-IsOwned :
      (path : Str) (w : Result (Unit {0})) (s : Preparation)
      → IsUnmapped env s
      → IsOwned env
          (after keep_mapping
            (written path w (record s { acquired = mapping path ∷ s.acquired }))).0
  unfolding written keep_mapping prepare_repository_mapping
  written-IsOwned path (err e) s h = removed-IsHeld path e s h
  written-IsOwned path (ok u) s h = mapped-IsHeld path s h

  mapped-IsOwned :
      (r : Result Str) (s : Preparation)
      → IsUnmapped env s
      → IsOwned env (after keep_mapping (mapping_file env r s)).0
  unfolding mapping_file keep_mapping prepare_repository_mapping
  mapped-IsOwned (err e) s h = failed-IsHeld e s h.0 (λ path i. absurd (h.1 path i))
  mapped-IsOwned (ok path) s h =
      written-IsOwned path (env.encode_mapping s.contents >> env.close_mapping) s h

  source-IsOwned :
      (p : Preparation × Result (Unit {0}))
      → IsUnmapped env p.0
      → IsOwned env (after (λ u. bind (mapping_file env env.create_mapping) keep_mapping) p).0
  source-IsOwned (s, err e) h = h.0
  source-IsOwned (s, ok u) h = mapped-IsOwned env.create_mapping s h

  -- Wherever the preparation ends, what it has acquired is held by its fields, or removed.
  pub prepare_body-IsOwned :
      (options : ScanCatalogOptions)
      → HasAbsolute env
      → IsOwned env (prepare_body env options start).0
  unfolding prepare_body
  prepare_body-IsOwned options abs =
      source-IsOwned (prepare_source env options start) (prepare_source-IsUnmapped options abs)
