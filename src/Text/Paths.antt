-- ===== src/Text/Paths.antt =====
-- The functions of `path/filepath` that the program calls, on a Unix system: they are lexical, so a
-- path is cut into its elements and put together again.
pub mod Below
use cvetool.Prelude.{
  ◌==◌, if◌then◌else◌, errorf, Result, ok, err, Bool, true, false, not, ◌&&◌, ◌||◌, List, [], ◌∷◌,
  ◌++◌, map, reverse,
}
use cvetool.Text.Order.{Str, codes, str_eq}
use cvetool.Text.Split.{split, join}

-- `filepath.IsAbs`
unfoldable pub is_abs : Str → Bool
is_abs [] = false
is_abs (c ∷ s) = c == b'/'

-- One element of a path, after the elements of `done` (the last one first).
pub push_element : Bool → List Str → Str → List Str
push_element rooted done element =
    if str_eq element [] || str_eq element (codes ".")
    then done
    else if not (str_eq element (codes ".."))
    then element ∷ done
    else elim done [
      | [] ↦ if rooted then [] else element ∷ []
      | last ∷ rest ↦ if str_eq last (codes "..") then element ∷ last ∷ rest else rest
    ]

pub elements_from : Bool → List Str → List Str → List Str
elements_from rooted done [] = reverse done
elements_from rooted done (p ∷ ps) = elements_from rooted (push_element rooted done p) ps

-- The elements of `filepath.Clean(path)`, with none for the root and for ".".
unfoldable pub elements : Str → List Str
unfolding elements_from push_element split
elements path = elements_from (is_abs path) [] (split path b'/')

abbrev pub or_dot : Str → Str
or_dot [] = codes "."
or_dot (c ∷ s) = c ∷ s

abbrev put_together : Bool → Str → Str
put_together true s = b'/' ∷ s
put_together false s = or_dot s

-- `filepath.Clean`
unfoldable pub clean : Str → Str
unfolding elements is_abs
clean path = put_together (is_abs path) (join (elements path) (codes "/"))

-- `filepath.Join` of two
unfoldable pub join_path : Str → Str → Str
unfolding clean
join_path [] [] = []
join_path [] (c ∷ s) = clean (c ∷ s)
join_path (c ∷ s) [] = clean (c ∷ s)
join_path (c ∷ s) (d ∷ t) = clean ((c ∷ s) ++ (b'/' ∷ d ∷ t))

-- The elements that are left after the common ones.
unfoldable pub after_common : List Str → List Str → List Str × List Str
after_common [] ts = ([], ts)
after_common (b ∷ bs) [] = (b ∷ bs, [])
after_common (b ∷ bs) (t ∷ ts) =
    let rest = after_common bs ts in if str_eq b t then rest else (b ∷ bs, t ∷ ts)

abbrev pub starts_up : List Str → Bool
starts_up [] = false
starts_up (b ∷ bs) = str_eq b (codes "..")

-- `filepath.Rel`: the path of `target` from `base`.
unfoldable pub rel : Str → Str → Result Str
unfolding after_common elements is_abs join
rel base target =
    let (up, down) = after_common (elements base) (elements target) in
    if (is_abs base && not (is_abs target)) || (is_abs target && not (is_abs base)) || starts_up up
    then err (errorf "Rel: can't make %s relative to %s" (target ∷ base ∷ []))
    else ok (or_dot (join (map (λ b. codes "..") up ++ down) (codes "/")))
