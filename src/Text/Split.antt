-- ===== src/Text/Split.antt =====
-- The functions of `strings` that the program calls. A separator is one code point, as in every call.
pub mod Laws
pub mod Trim
use cvetool.Prelude.{
  leb, ◌==◌, if◌then◌else◌, ℕ, ◌+◌, Bool, true, false, ◌&&◌, ◌||◌, Option, none, some, List, [],
  ◌∷◌, ◌++◌, map, reverse,
}
use cvetool.Text.Order.{Str, str_eq}

-- `strings.Split(s, sep)`
abbrev push : ℕ → List Str → List Str
push c [] = (c ∷ []) ∷ []
push c (p ∷ ps) = (c ∷ p) ∷ ps

unfoldable pub split : Str → ℕ → List Str
split [] sep = [] ∷ []
split (c ∷ s) sep = let rest = split s sep in if c == sep then [] ∷ rest else push c rest

-- `strings.Split(s, sep)`, where `sep` is the code point twice
unfoldable pub split_double : Str → ℕ → List Str
split_double [] sep = [] ∷ []
split_double (c ∷ []) sep = (c ∷ []) ∷ []
split_double (c ∷ d ∷ s) sep =
    let after = split_double s sep in
    let rest = split_double (d ∷ s) sep in
    if (c == sep) && (d == sep) then [] ∷ after else push c rest

-- `strings.Join(parts, sep)`
unfoldable pub join : List Str → Str → Str
join [] sep = []
join (p ∷ []) sep = p
join (p ∷ q ∷ ps) sep = p ++ (sep ++ join (q ∷ ps) sep)

-- `strings.Cut(s, sep)`: before, after, found
unfoldable pub cut : Str → ℕ → Str × Str × Bool
cut [] sep = ([], [], false)
cut (c ∷ s) sep =
    let (before, after, found) = cut s sep in
    if c == sep then ([], s, true) else (c ∷ before, after, found)

-- The texts on both sides of `strings.LastIndexByte(s, sep)`, which is negative for `none`.
unfoldable pub cut_last : Str → ℕ → Option (Str × Str)
cut_last [] sep = none
cut_last (c ∷ s) sep = elim (cut_last s sep) [
  | some (before, after) ↦ some (c ∷ before, after)
  | none ↦ if c == sep then some ([], s) else none
]

-- `strings.HasPrefix(s, prefix)`
unfoldable pub has_prefix : Str → Str → Bool
has_prefix s [] = true
has_prefix [] (p ∷ ps) = false
has_prefix (c ∷ s) (p ∷ ps) = (c == p) && has_prefix s ps

-- `strings.HasSuffix(s, suffix)`
unfoldable pub has_suffix : Str → Str → Bool
unfolding has_prefix
has_suffix s suffix = has_prefix (reverse s) (reverse suffix)

-- `strings.Contains(s, sub)`
unfoldable pub contains_sub : Str → Str → Bool
unfolding has_prefix
contains_sub [] sub = has_prefix [] sub
contains_sub (c ∷ s) sub = has_prefix (c ∷ s) sub || contains_sub s sub

abbrev drop_matching : Str → Str → Str
drop_matching s [] = s
drop_matching [] (p ∷ ps) = []
drop_matching (c ∷ s) (p ∷ ps) = drop_matching s ps

-- `strings.TrimPrefix(s, prefix)`
unfoldable pub trim_prefix : Str → Str → Str
unfolding has_prefix
trim_prefix s prefix = if has_prefix s prefix then drop_matching s prefix else s

-- `strings.ReplaceAll(s, old, new)`, where `old` is one code point
unfoldable pub replace_all : Str → ℕ → Str → Str
replace_all [] old new = []
replace_all (c ∷ s) old new =
    let rest = replace_all s old new in if c == old then new ++ rest else c ∷ rest

-- `unicode.IsSpace`
unfoldable pub is_space : ℕ → Bool
is_space c =
    (leb 9 c && leb c 13)
    || c == 0x20
    || c == 0x85
    || c == 0xa0
    || c == 0x1680
    || (leb 0x2000 c && leb c 0x200a)
    || c == 0x2028
    || c == 0x2029
    || c == 0x202f
    || c == 0x205f
    || c == 0x3000

unfoldable pub trim_left_func : (ℕ → Bool) → Str → Str
trim_left_func f [] = []
trim_left_func f (c ∷ s) = let rest = trim_left_func f s in if f c then rest else c ∷ s

abbrev pub drop_if_last : Bool → ℕ → Str → Str
drop_if_last b c s = if b then (elim s [ [] ↦ [] | d ∷ t ↦ c ∷ d ∷ t ]) else c ∷ s

unfoldable pub trim_right_func : (ℕ → Bool) → Str → Str
trim_right_func f [] = []
trim_right_func f (c ∷ s) = drop_if_last (f c) c (trim_right_func f s)

-- `strings.TrimSpace(s)`
unfoldable pub trim_space : Str → Str
unfolding trim_left_func trim_right_func is_space
trim_space s = trim_right_func is_space (trim_left_func is_space s)

-- `strings.TrimLeft(s, cutset)` and `strings.Trim(s, cutset)`, where the cutset is one code point
unfoldable pub trim_left : Str → ℕ → Str
unfolding trim_left_func
trim_left s c = trim_left_func (λ x. x == c) s

unfoldable pub trim : Str → ℕ → Str
unfolding trim_left_func trim_right_func
trim s c = trim_right_func (λ x. x == c) (trim_left_func (λ x. x == c) s)

unfoldable pub one_of : Str → ℕ → Bool
one_of [] c = false
one_of (x ∷ xs) c = x == c || one_of xs c

-- `strings.Trim(s, cutset)`
unfoldable pub trim_any : Str → Str → Str
unfolding trim_left_func trim_right_func
trim_any s cutset = trim_right_func (one_of cutset) (trim_left_func (one_of cutset) s)

-- `strings.ContainsAny(s, chars)`
unfoldable pub contains_any : Str → Str → Bool
unfolding one_of
contains_any [] chars = false
contains_any (c ∷ s) chars = one_of chars c || contains_any s chars

-- `strings.Fields(s)`: the runs of code points that are no space
abbrev flush : Str → List Str → List Str
flush [] rest = rest
flush (c ∷ s) rest = (c ∷ s) ∷ rest

fields_from : Str → Str → List Str
fields_from current [] = flush current []
fields_from current (c ∷ s) =
    let word = fields_from (current ++ c ∷ []) s in
    let rest = fields_from [] s in if is_space c then flush current rest else word

unfoldable pub fields : Str → List Str
unfolding fields_from is_space
fields s = fields_from [] s

lower : ℕ → ℕ
lower c =
    if leb b'A' c && leb c b'Z'
    then c + 32
    else if c == 0x130
    then b'i'
    else if c == 0x212a
    then b'k'
    else c

-- `strings.ToLower` where only ASCII results matter: U+0130 and U+212A have ASCII lower cases.
unfoldable pub to_lower : Str → Str
unfolding lower
to_lower = map lower

fold : ℕ → ℕ
fold c =
    if leb b'A' c && leb c b'Z'
    then c + 32
    else if c == 0x17f
    then b's'
    else if c == 0x212a
    then b'k'
    else c

-- `strings.EqualFold(s, t)` for an ASCII `t`: U+017F folds to `s` and U+212A to `k`.
unfoldable pub equal_fold : Str → Str → Bool
unfolding fold
equal_fold s t = str_eq (map fold s) (map fold t)
