-- ===== src/Catalog/Target/RepoDirs/Contained.antt =====
-- The repository directories are below the target's root.
use mathlib.Core.Path.{subst}
use cvetool.Prelude.{
  Bool-cases, Option-cases, Result, err, ok, Result-cases, ok_injective, ◌≡◌, sym, ap, ◌∙◌, inl,
  inr, true, some,
}
use cvetool.Text.{Str, trim_space, trim_left, is_abs, clean, join_path, rel}
use cvetool.Text.Paths.Below.{LiesBelow, within-LiesBelow}
use cvetool.Catalog.Nevra.{is_empty}
use cvetool.Catalog.Target.RepoDirs.{
  is_within_root, normalize_relative, if_within, already_below, normalize_target_repo_dir,
}

-- A directory with its path from the root: its elements are those of the root, and then others.
abbrev pub IsBelow : Str → Str × Str → Type 0
IsBelow root (dir, relative) = (rel root dir ≡ ok relative) × LiesBelow root dir

within-IsBelow :
    (root dir relative : Str)
    → rel root dir ≡ ok relative
    → is_within_root relative ≡ true
    → IsBelow root (dir, relative)
unfolding is_within_root
within-IsBelow root dir relative e h = (e, within-LiesBelow root dir relative e h)

normalize_relative-IsBelow :
    (root configured : Str) (p : Str × Str)
    → normalize_relative root configured ≡ ok p
    → IsBelow root p
unfolding normalize_relative
normalize_relative-IsBelow root configured p h =
    let dir = clean (join_path root (clean configured)) in
    elim (Bool-cases (is_within_root (clean configured))) [
      | inr e ↦ cc (rw e at h)
      | inl e ↦ elim (Result-cases (rel root dir)) [
        | inr (x, f) ↦ cc (rw (e, f) at h)
        | inl (relative, f) ↦ elim (Bool-cases (is_within_root relative)) [
          | inr g ↦ cc (rw (e, f, g) at h)
          | inl g ↦
              subst (IsBelow root) (ok_injective (rw (e, f, g) at h))
                (within-IsBelow root dir relative f g)
        ]
      ]
    ]

some_injective : {A : Type 0} {a b : A} → some a ≡ some b → a ≡ b
some_injective h = cc h

if_within-ok :
    (q : Result Str) (relative : Str)
    → if_within q ≡ some relative
    → (q ≡ ok relative) × (is_within_root relative ≡ true)
unfolding if_within
if_within-ok (err e) relative h = cc h
if_within-ok (ok r) relative h = elim (Bool-cases (is_within_root r)) [
  | inr g ↦ cc (rw g at h)
  | inl g ↦ let p = some_injective (rw g at h) in (ap ok p, ap is_within_root (sym p) ∙ g)
]

already_below-IsBelow :
    (root path relative : Str)
    → already_below root path ≡ some relative
    → IsBelow root (path, relative)
unfolding already_below
already_below-IsBelow root path relative h =
    let (e, g) = if_within-ok (rel root path) relative h in within-IsBelow root path relative e g

-- A directory that is accepted lies below the root: it is absolute where the root is, its elements
-- begin with all elements of the root, and the path that comes with it is its path from the root.
pub normalize_target_repo_dir-IsBelow :
    (root text : Str) (p : Str × Str) → normalize_target_repo_dir root text ≡ ok p → IsBelow root p
unfolding normalize_target_repo_dir
normalize_target_repo_dir-IsBelow root text p h =
    let configured = trim_space text in
    elim (Bool-cases (is_empty configured)) [
      | inl e ↦ cc (rw e at h)
      | inr e ↦ elim (Bool-cases (is_abs configured)) [
        | inr f ↦ normalize_relative-IsBelow root configured p (rw (e, f) at h)
        | inl f ↦ elim (Option-cases (already_below root (clean configured))) [
          | inl g ↦
              normalize_relative-IsBelow root (trim_left configured b'/') p (rw (e, f, g) at h)
          | inr (r, g) ↦
              subst (IsBelow root) (ok_injective (rw (e, f, g) at h))
                (already_below-IsBelow root (clean configured) r g)
        ]
      ]
    ]
