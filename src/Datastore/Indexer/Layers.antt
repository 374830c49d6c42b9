-- ===== src/Datastore/Indexer/Layers.antt =====
-- The indexer store: what a layer has after the scanners' results were stored.
use cvetool.Prelude.{
  if◌then◌else◌, Bool-cases, length, All, ◌≡◌, refl, sym, ap, ◌∙◌, inl, inr, ◌&&◌, List, [], ◌∷◌,
  ◌++◌, map, append-nil, append_assoc, arith,
}
use cvetool.Text.{Str, str_eq, str_eq_iff, Dict, insert, lookup-insert}
use cvetool.Datastore.Indexer.{
  IndexedItem, LocalStore, new_local_indexer_store, or_empty, found_at, by_layer, append_items,
  prepare, index_packages, packages_by_layer,
}

module _ {A : Type 0} where
  found_at-insert :
      (m : Dict (List A)) (key k : Str) (xs : List A)
      → found_at (insert m key xs) k ≡ (if str_eq key k then xs else found_at m k)
  found_at-insert m key k xs =
      ap or_empty (lookup-insert m key k xs)
      ∙ elim (Bool-cases (str_eq key k)) [ inl e ↦ rw e | inr e ↦ rw e ]

  found_at-append_items :
      (m : Dict (List A)) (key k : Str) (xs : List A)
      → found_at (append_items m key xs) k ≡ found_at m k ++ (if str_eq key k then xs else [])
  unfolding append_items
  found_at-append_items m key k [] = elim (Bool-cases (str_eq key k)) [
    | inl e ↦ rw (e, append-nil)
    | inr e ↦ rw (e, append-nil)
  ]
  found_at-append_items m key k (x ∷ xs) =
      found_at-append_items (insert m key (found_at m key ++ (x ∷ []))) key k xs
      ∙ ap (λ z. z ++ (if str_eq key k then xs else []))
          (found_at-insert m key k (found_at m key ++ (x ∷ [])))
      ∙ joined_up
    where
      joined_up :
          (if str_eq key k then found_at m key ++ (x ∷ []) else found_at m k)
            ++ (if str_eq key k then xs else [])
          ≡ found_at m k ++ (if str_eq key k then x ∷ xs else [])
      joined_up = elim (Bool-cases (str_eq key k)) [
        | inl e ↦ rw (e, (str_eq_iff key k).0 e) (append_assoc (found_at m k) (x ∷ []) xs)
        | inr e ↦ rw e
      ]

-- Digests of the same length and names of scanners are told apart by the text of both.
str_eq-append :
    (a b v w : Str) → length a ≡ length b → str_eq (a ++ v) (b ++ w) ≡ (str_eq a b && str_eq v w)
unfolding str_eq
str_eq-append [] [] v w h = refl
str_eq-append [] (y ∷ b) v w h = absurd (omega (arith, h))
str_eq-append (x ∷ a) [] v w h = absurd (omega (arith, h))
str_eq-append (x ∷ a) (y ∷ b) v w h = ground (arith, str_eq-append a b v w (omega (arith, h)))

-- A call of IndexPackages: the layer, the scanner and its packages.
pub record Call : Type 0 where
  pub layer : Str
  pub scanner : Str
  pub pkgs : List IndexedItem

module _ (md5 base64 : Str → Str) where
  -- The store after the calls.
  abbrev pub run : List Call → LocalStore → LocalStore
  run [] s = s
  run (c ∷ cs) s = run cs (index_packages md5 base64 c.pkgs c.layer c.scanner s)

  -- The abstract store is the list of the calls: the packages of the calls for the layer and the
  -- scanner.
  abbrev pub packages_of : List Call → Str → Str → List IndexedItem
  packages_of [] d vs = []
  packages_of (c ∷ cs) d vs =
      (if str_eq c.layer d && str_eq c.scanner vs then map (prepare md5 base64) c.pkgs else [])
      ++ packages_of cs d vs

  abbrev pub packages_of_all : List Call → Str → List Str → List IndexedItem
  packages_of_all cs d [] = []
  packages_of_all cs d (vs ∷ vss) = packages_of cs d vs ++ packages_of_all cs d vss

  found_at-run :
      (cs : List Call) (s : LocalStore) (d vs : Str)
      → All (λ c. length c.layer ≡ length d) cs
      → found_at (run cs s).pkg_map (d ++ vs) ≡ found_at s.pkg_map (d ++ vs) ++ packages_of cs d vs
  unfolding index_packages
  found_at-run [] s d vs h = sym (append-nil (found_at s.pkg_map (d ++ vs)))
  found_at-run (c ∷ cs) s d vs (h, hs) =
      let items = map (prepare md5 base64) c.pkgs in
      found_at-run cs (index_packages md5 base64 c.pkgs c.layer c.scanner s) d vs hs
      ∙ ap (λ z. z ++ packages_of cs d vs)
          (found_at-append_items s.pkg_map (c.layer ++ c.scanner) (d ++ vs) items
            ∙ ap (λ b. found_at s.pkg_map (d ++ vs) ++ (if b then items else []))
                (str_eq-append c.layer d c.scanner vs h))
      ∙ append_assoc (found_at s.pkg_map (d ++ vs))
          (if str_eq c.layer d && str_eq c.scanner vs then items else []) (packages_of cs d vs)

  -- The store refines the list of its calls: after any calls of IndexPackages on a new store,
  -- PackagesByLayer returns, scanner by scanner and in the order of the calls, exactly the packages
  -- that were stored for that layer and scanner, if all digests are of one length. (The key of the
  -- map is the digest followed by the name.)
  pub packages_by_layer-run :
      (cs : List Call) (d : Str) (vss : List Str)
      → All (λ c. length c.layer ≡ length d) cs
      → packages_by_layer (run cs new_local_indexer_store) d vss ≡ packages_of_all cs d vss
  unfolding packages_by_layer by_layer
  packages_by_layer-run cs d [] h = refl
  packages_by_layer-run cs d (vs ∷ vss) h =
      rw (found_at-run cs new_local_indexer_store d vs h)
        (ap (λ z. packages_of cs d vs ++ z) (packages_by_layer-run cs d vss h))
