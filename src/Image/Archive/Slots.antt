-- ===== src/Image/Archive/Slots.antt =====
-- parseLocalArchive: the slots of `parsed.Layers`, and what a part of the function does to its
-- state.
use cvetool.Prelude.{
  ltb, ◌==◌, ==_iff, Bool-cases, Option-cases, length, In, In-append_left, In-append_right,
  In-append, Error, Result, err, ok, ℕ, zero, suc, ◌≤◌, ◌<◌, ◌≡◌, refl, ap, ◌∙◌, ◌↔◌, ◌⊎◌, inl, inr,
  Option, none, some, List, [], ◌∷◌, ◌++◌, map, append-nil, append_assoc, arith,
}
use cvetool.Image.Archive.{Digest, BlobInfo, Layer, State, layers_below}

abbrev pub get_elem? : List BlobInfo → ℕ → Option BlobInfo
get_elem? [] i = none
get_elem? (x ∷ xs) zero = some x
get_elem? (x ∷ xs) (suc i) = get_elem? xs i

pub get_elem?_lt :
    (xs : List BlobInfo) (i : ℕ) (x : BlobInfo) → get_elem? xs i ≡ some x → i < length xs
get_elem?_lt [] i x h = cc
get_elem?_lt (y ∷ ys) zero x h = omega arith
get_elem?_lt (y ∷ ys) (suc i) x h = omega (arith, get_elem?_lt ys i x h)

-- The layers of the slice are those of its slots.
pub In-layers_below :
    (n : ℕ) (f : ℕ → Option Layer) (l : Layer)
    → In l (layers_below n f) ↔ ((i : ℕ) × (i < n) × (f i ≡ some l))
unfolding layers_below
In-layers_below zero f l = (λ i. absurd i, λ h. absurd (omega (arith, h.1)))
In-layers_below (suc n) f l = elim (Option-cases (f n)) [
  | inl e ↦ rw e (
      rw append-nil (
        λ i. let (j, b, q) = (In-layers_below n f l).0 i in (j, omega (arith, b), q),
        λ h.
            (In-layers_below n f l).1
              (h.0, below h.0 n (omega (arith, h.1)) (λ p. cc (ap f p, h.2, e)), h.2),
      ))
  | inr (y, e) ↦ rw e (
    λ i. elim (In-append l (layers_below n f) (y ∷ []) i) [
      | inl k ↦ let (j, b, q) = (In-layers_below n f l).0 k in (j, omega (arith, b), q)
      | inr (inl q) ↦ (n, omega arith, cc)
      | inr (inr b) ↦ absurd b
    ],
    λ h. elim (Bool-cases (h.0 == n)) [
      | inl q ↦
          In-append_right l (layers_below n f) (y ∷ [])
            (inl (cc (ap f ((==_iff h.0 n).0 q), e, h.2)))
      | inr q ↦ In-append_left l (layers_below n f) (y ∷ []) (
          (In-layers_below n f l).1
            (h.0, below h.0 n (omega (arith, h.1)) (λ p. cc (q, (==_iff h.0 n).1 p)), h.2))
    ],
  )
]
  where
    below : (i n : ℕ) → i ≤ n → ¬ (i ≡ n) → i < n
    below i n h ne = elim (Bool-cases (ltb i n)) [
      | inl e ↦ ground arith
      | inr e ↦ absurd (ne (ground arith))
    ]

abbrev slot_list : Option Layer → List Layer
slot_list none = []
slot_list (some l) = l ∷ []

layers_below_front :
    (n : ℕ) (f : ℕ → Option Layer)
    → layers_below (suc n) f ≡ slot_list (f 0) ++ layers_below n (λ i. f (suc i))
unfolding layers_below
layers_below_front zero f = elim (Option-cases (f 0)) [ inl e ↦ rw e | inr (y, e) ↦ rw e ]
layers_below_front (suc n) f =
    let last = elim (f (suc n)) as (λ o. List Layer) [ none ↦ [] | some l ↦ l ∷ [] ] in
    ap (λ ls. ls ++ last) (layers_below_front n f)
    ∙ append_assoc (slot_list (f 0)) (layers_below n (λ i. f (suc i))) last

-- If every slot holds a layer of the digest at its place, the list has the digests in order.
pub map-layers_below :
    (digest : BlobInfo → Result Digest) (infos : List BlobInfo) (f : ℕ → Option Layer)
    → ((k : ℕ) (info : BlobInfo)
        → get_elem? infos k ≡ some info
        → (l : Layer) × (f k ≡ some l) × (digest info ≡ ok l.hash))
    → map digest infos ≡ map (λ l. ok l.hash) (layers_below (length infos) f)
unfolding layers_below
map-layers_below digest [] f h = refl
map-layers_below digest (x ∷ xs) f h =
    let (l, e, d) = h 0 x refl in
    let rest = map-layers_below digest xs (λ i. f (suc i)) (λ k info g. h (suc k) info g) in
    let front : layers_below (suc (length xs)) f ≡ l ∷ layers_below (length xs) (λ i. f (suc i)) =
      layers_below_front (length xs) f
      ∙ ap (λ o. slot_list o ++ layers_below (length xs) (λ i. f (suc i))) e in
    rw front (cc (d, rest))

-- What holds after a part: `G` of the state after an error, and `Q` of the value and the state.
abbrev pub After :
    {A : Type 0} → (State → Type 0) → (A → State → Type 0) → State × Result A → Type 0
After G Q (s, err e) = G s
After G Q (s, ok a) = Q a s

-- The two results of a part, with what holds then.
pub After-cases :
    {A : Type 0} (G : State → Type 0) (Q : A → State → Type 0) (x : State × Result A)
    → After G Q x
    → ((s : State) × (e : Error) × (x ≡ (s, err e)) × G s)
      ⊎ ((s : State) × (a : A) × (x ≡ (s, ok a)) × Q a s)
After-cases G Q (s, err e) h = inl (s, e, refl, h)
After-cases G Q (s, ok a) h = inr (s, a, refl, h)
