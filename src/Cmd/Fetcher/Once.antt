-- ===== src/Cmd/Fetcher/Once.antt =====
-- Each layer is closed once.
use cvetool.Prelude.{
  ◌==◌, if◌then◌else◌, length, In, Error, ℕ, zero, suc, ◌+◌, ◌≤◌, ◌<◌, ◌≡◌, refl, ap, ◌∙◌, inl, inr,
  Bool, Option, List, [], ◌∷◌, ◌++◌, arith,
}
use cvetool.Cmd.Fetcher.{
  Arena, remove_layer, unseen_layers, new_local_fetch_arena, realizer, append_at, realize,
  layers_at, clear_at, close_realizer, close_arena, Call, new_realizer, realizes, closes_realizer,
  closes_arena, step, run,
}

abbrev pub count : ℕ → List ℕ → ℕ
count x [] = 0
count x (y ∷ ys) = let rest = count x ys in if y == x then suc rest else rest

abbrev pub count_all : ℕ → List (List ℕ) → ℕ
count_all x [] = 0
count_all x (r ∷ rs) = count x r + count_all x rs

-- How often a layer is closed, or waits to be closed by the arena or by a realizer.
abbrev pub tally : ℕ → Arena → ℕ
tally x a = count x a.closed + count x a.pending + count_all x a.realized

count-append : (x : ℕ) (xs ys : List ℕ) → count x (xs ++ ys) ≡ count x xs + count x ys
count-append x [] ys = omega arith
count-append x (z ∷ xs) ys = ground (arith, count-append x xs ys)

count-remove_layer :
    (x l : ℕ) (xs : List ℕ) → count x (remove_layer xs l) ≡ (if l == x then 0 else count x xs)
unfolding remove_layer
count-remove_layer x l [] = ground arith
count-remove_layer x l (y ∷ xs) = ground (arith, count-remove_layer x l xs)

count-unseen_layers : (x : ℕ) (xs : List ℕ) → In x xs → count x (unseen_layers xs) ≡ 1
unfolding unseen_layers
count-unseen_layers x [] h = elim h [ ]
count-unseen_layers x (y ∷ xs) (inl e) =
    ground (arith, e, count-remove_layer x y (unseen_layers xs))
count-unseen_layers x (y ∷ xs) (inr i) =
    ground (arith, count-unseen_layers x xs i, count-remove_layer x y (unseen_layers xs))

count_all-append_at :
    (x l i : ℕ) (rs : List (List ℕ))
    → i < length rs
    → count_all x (append_at rs i l) ≡ count x (l ∷ []) + count_all x rs
unfolding append_at
count_all-append_at x l i [] h = omega arith
count_all-append_at x l zero (r ∷ rs) h = ground (arith, count-append x r (l ∷ []))
count_all-append_at x l (suc i) (r ∷ rs) h =
    omega (arith, count_all-append_at x l i rs (ground arith))

count_all-clear_at :
    (x i : ℕ) (rs : List (List ℕ))
    → count x (layers_at rs i) + count_all x (clear_at rs i) ≡ count_all x rs
unfolding layers_at clear_at
count_all-clear_at x i [] = omega arith
count_all-clear_at x zero (r ∷ rs) = omega arith
count_all-clear_at x (suc i) (r ∷ rs) = omega (arith, count_all-clear_at x i rs)

count_all-append :
    (x : ℕ) (rs ss : List (List ℕ)) → count_all x (rs ++ ss) ≡ count_all x rs + count_all x ss
count_all-append x [] ss = omega arith
count_all-append x (r ∷ rs) ss = omega (arith, count_all-append x rs ss)

length-append_at : (rs : List (List ℕ)) (i l : ℕ) → length (append_at rs i l) ≡ length rs
unfolding append_at
length-append_at [] i l = refl
length-append_at (r ∷ rs) zero l = refl
length-append_at (r ∷ rs) (suc i) l = ap suc (length-append_at rs i l)

-- Each of the layers is pending when its turn comes.
abbrev pub ArePending : List ℕ → List ℕ → Type 0
ArePending pending [] = Unit
ArePending pending (l ∷ ls) = (count l pending ≡ 1) × ArePending (remove_layer pending l) ls

-- The calls use realizers that there are, and realize layers that are pending.
abbrev pub IsProper : Arena → Call → Type 0
IsProper a new_realizer = Unit
IsProper a (realizes i ls) = (i < length a.realized) × ArePending a.pending ls
IsProper a (closes_realizer i) = Unit
IsProper a closes_arena = Unit

tally-realize :
    (x i : ℕ) (a : Arena) (ls : List ℕ)
    → i < length a.realized
    → ArePending a.pending ls
    → tally x (realize a i ls) ≡ tally x a
unfolding realize
tally-realize x i a [] h k = refl
tally-realize x i a (l ∷ ls) h (p, k) =
    tally-realize x i
      (record a { pending = remove_layer a.pending l; realized = append_at a.realized i l }) ls
      (rw length-append_at h) k
    ∙ ground (arith, count-remove_layer x l a.pending, count_all-append_at x l i a.realized h)

module _ (close : ℕ → Option Error) (close_readers : Option Error) where
  tally-step :
      (x : ℕ) (a : Arena) (c : Call)
      → IsProper a c
      → tally x (step close close_readers a c) ≡ tally x a
  unfolding step realizer close_realizer close_arena
  tally-step x a new_realizer h = omega (arith, count_all-append x a.realized ([] ∷ []))
  tally-step x a (realizes i ls) (h, k) = tally-realize x i a ls h k
  tally-step x a (closes_realizer i) h =
      omega
        (arith, count-append x a.closed (layers_at a.realized i), count_all-clear_at x i a.realized)
  tally-step x a closes_arena h = omega (arith, count-append x a.closed a.pending)

  -- The calls are proper when their turns come.
  abbrev pub AreProper : Arena → List Call → Type 0
  AreProper a [] = Unit
  AreProper a (c ∷ cs) = IsProper a c × AreProper (step close close_readers a c) cs

  tally-run :
      (x : ℕ) (a : Arena) (cs : List Call)
      → AreProper a cs
      → tally x (run close close_readers a cs) ≡ tally x a
  unfolding run
  tally-run x a [] h = refl
  tally-run x a (c ∷ cs) (h, hs) =
      tally-run x (step close close_readers a c) cs hs ∙ tally-step x a c h

  -- A layer of a new arena is never closed twice, whatever proper calls there are in whatever order;
  -- and once nothing is pending and the realizers are empty, it has been closed exactly once.
  pub close_once :
      (layers : List ℕ) (readers : Bool) (cs : List Call) (x : ℕ)
      → In x layers
      → AreProper (new_local_fetch_arena layers readers) cs
      → (count x (run close close_readers (new_local_fetch_arena layers readers) cs).closed ≤ 1)
        × ((run close close_readers (new_local_fetch_arena layers readers) cs).pending ≡ []
            → count_all x
                (run close close_readers (new_local_fetch_arena layers readers) cs).realized
              ≡ 0
            → count x (run close close_readers (new_local_fetch_arena layers readers) cs).closed
              ≡ 1)
  unfolding new_local_fetch_arena
  close_once layers readers cs x h k =
      let a = new_local_fetch_arena layers readers in
      let t = tally-run x a cs k in
      (
        omega (arith, t, count-unseen_layers x layers h),
        λ p q. omega (arith, t, count-unseen_layers x layers h, q, ap (count x) p),
      )
