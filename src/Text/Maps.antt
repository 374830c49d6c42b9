-- ===== src/Text/Maps.antt =====
-- Go maps with string keys, as association lists. The order of the entries is the order in which a
-- `range` over the map meets them, of which Go promises nothing.
use cvetool.Prelude.{if◌then◌else◌, ◌≡◌, refl, Option, none, some, List, [], ◌∷◌, arith}
use cvetool.Text.Order.{Str, str_eq, str_eq_iff, str_eq_refl}

abbrev pub Dict {ℓ} : Type ℓ → Type ℓ
Dict V = List (Str × V)

module _ {V : Type 0} where
  -- `v, ok := m[k]`
  unfoldable pub lookup : Dict V → Str → Option V
  lookup [] k = none
  lookup ((j, v) ∷ m) k = if str_eq j k then some v else lookup m k

  -- `m[k] = v`
  unfoldable pub insert : Dict V → Str → V → Dict V
  insert [] k v = (k, v) ∷ []
  insert ((j, w) ∷ m) k v = if str_eq j k then (j, v) ∷ m else (j, w) ∷ insert m k v

  -- `delete(m, k)`
  unfoldable pub remove : Dict V → Str → Dict V
  remove [] k = []
  remove ((j, w) ∷ m) k = let rest = remove m k in if str_eq j k then rest else (j, w) ∷ rest

  pub lookup-insert :
      (m : Dict V) (k j : Str) (v : V)
      → lookup (insert m k v) j ≡ (if str_eq k j then some v else lookup m j)
  unfolding lookup insert
  lookup-insert [] k j v = refl
  lookup-insert ((i, w) ∷ m) k j v =
      ground (arith, lookup-insert m k j v, str_eq_iff i k, str_eq_iff i j, str_eq_iff k j)

  pub lookup-insert_self : (m : Dict V) (k : Str) (v : V) → lookup (insert m k v) k ≡ some v
  lookup-insert_self m k v = rw (lookup-insert, str_eq_refl k)

  pub lookup-remove :
      (m : Dict V) (k j : Str) → lookup (remove m k) j ≡ (if str_eq k j then none else lookup m j)
  unfolding lookup remove
  lookup-remove [] k j = ground arith
  lookup-remove ((i, w) ∷ m) k j =
      ground (arith, lookup-remove m k j, str_eq_iff i k, str_eq_iff i j, str_eq_iff k j)
