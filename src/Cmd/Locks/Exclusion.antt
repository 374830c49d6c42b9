-- ===== src/Cmd/Locks/Exclusion.antt =====
-- Mutual exclusion of the locks, under the rule that a client calls the cancel function of a lock once;
-- and what happens without that rule.
use mathlib.Core.Path.{subst}
use cvetool.Prelude.{
  Bool-cases, In, Distinct, In-filter_by, In-middle, Distinct-middle, ℕ, ◌≡◌, refl, sym, ap, ◌∙◌,
  ◌≢◌, ◌↔◌, inl, inr, Bool, true, false, not, some, List, [], ◌∷◌, ◌++◌, arith,
}
use cvetool.Text.{Str, str_eq, str_eq_iff, contains, contains_In, not_In_of_contains}
use cvetool.Cmd.Locks.{
  LockSource, remove_key, new_local_lock_source, CancelFunc, releases, only_context, lock, try_lock,
  cancel,
}

-- The clients that hold a lock and have not cancelled it, each with its key, and the lock source.
pub record System : Type 0 where
  pub holders : List (ℕ × Str)
  pub source : LockSource

-- What clients do: a client takes a free key by `Lock` or `TryLock`, is refused by `TryLock`, or cancels a
-- lock that it holds, which it then holds no more.
pub data Step (a b : System) : Type 0 where
  locks :
      (client : ℕ) (key : Str) (s : LockSource)
      → lock key a.source ≡ some (releases key, s)
      → b ≡ record { holders = (client, key) ∷ a.holders; source = s }
      → Step a b
  tries :
      (client : ℕ) (key : Str) (s : LockSource)
      → try_lock key a.source ≡ (true, releases key, s)
      → b ≡ record { holders = (client, key) ∷ a.holders; source = s }
      → Step a b
  is_refused :
      (client : ℕ) (key : Str) (s : LockSource)
      → try_lock key a.source ≡ (false, only_context, s)
      → b ≡ record { holders = a.holders; source = s }
      → Step a b
  cancels :
      (before after : List (ℕ × Str)) (client : ℕ) (key : Str)
      → a.holders ≡ before ++ ((client, key) ∷ after)
      → b ≡ record { holders = before ++ after; source = cancel (releases key) a.source }
      → Step a b

pub data Reach (a : System) : System → Type 0 where
  here : Reach a a
  next : {b c : System} → Reach a b → Step b c → Reach a c

abbrev pub keys : List (ℕ × Str) → List Str
keys [] = []
keys ((c, k) ∷ hs) = k ∷ keys hs

-- The map holds exactly the keys of the holders, and no two holders have one key.
pub record IsExclusive (a : System) : Type 0 where
  pub distinct : Distinct (keys a.holders)
  pub held : (k : Str) → In k a.source.held ↔ In k (keys a.holders)

locked :
    (key : Str) (s t : LockSource)
    → lock key s ≡ some (releases key, t)
    → (¬ In key s.held) × (t ≡ record { held = key ∷ s.held })
unfolding lock
locked key s t h = elim (Bool-cases (contains s.held key)) [
  | inl e ↦ cc (rw e at h)
  | inr e ↦ (not_In_of_contains s.held key e, cc (rw e at h))
]

tried :
    (key : Str) (s t : LockSource)
    → try_lock key s ≡ (true, releases key, t)
    → (¬ In key s.held) × (t ≡ record { held = key ∷ s.held })
unfolding try_lock
tried key s t h = elim (Bool-cases (contains s.held key)) [
  | inl e ↦ cc (ap (λ q. q.0) (rw e at h))
  | inr e ↦ (not_In_of_contains s.held key e, sym (ap (λ q. q.2) (rw e at h)))
]

keys-append : (xs ys : List (ℕ × Str)) → keys (xs ++ ys) ≡ keys xs ++ keys ys
keys-append [] ys = refl
keys-append ((c, k) ∷ xs) ys = ap (λ r. k ∷ r) (keys-append xs ys)

acquire-IsExclusive :
    (a : System) (client : ℕ) (key : Str)
    → IsExclusive a
    → ¬ In key a.source.held
    → IsExclusive (record {
      holders = (client, key) ∷ a.holders;
      source = record { held = key ∷ a.source.held };
    })
acquire-IsExclusive a client key h n = record {
  distinct = (λ i. n ((h.held key).1 i), h.distinct);
  held = λ k. (
    λ i. elim i [ inl e ↦ inl e | inr j ↦ inr ((h.held k).0 j) ],
    λ i. elim i [ inl e ↦ inl e | inr j ↦ inr ((h.held k).1 j) ],
  );
}

In-remove_key :
    (k key : Str) (held : List Str) → In k (remove_key held key) ↔ (In k held × (key ≢ k))
unfolding remove_key
In-remove_key k key held =
    let q = In-filter_by (λ z. not (str_eq z key)) k held in
    (
      λ i. ((q.0 i).0, λ e. differ ((str_eq_iff k key).1 (sym e)) (q.0 i).1),
      λ h. q.1 (h.0, equal (λ e. h.1 (sym ((str_eq_iff k key).0 e)))),
    )
  where
    differ : {b : Bool} → b ≡ true → not b ≡ true → ⊥
    differ h k = ground arith

    equal : {b : Bool} → ¬ (b ≡ true) → not b ≡ true
    equal h = ground arith

release-IsExclusive :
    (a : System) (before after : List (ℕ × Str)) (client : ℕ) (key : Str)
    → a.holders ≡ before ++ ((client, key) ∷ after)
    → IsExclusive a
    → IsExclusive (record { holders = before ++ after; source = cancel (releases key) a.source })
unfolding cancel
release-IsExclusive a before after client key e h =
    let e' : keys a.holders ≡ keys before ++ (key ∷ keys after) =
      ap keys e ∙ keys-append before ((client, key) ∷ after) in
    let (d, n) = Distinct-middle key (keys before) (keys after) (subst Distinct e' h.distinct) in
    record {
      distinct = subst Distinct (sym (keys-append before after)) d;
      held = λ k.
          let r = In-remove_key k key a.source.held in
          let q = In-middle k key (keys before) (keys after) in
          (
            λ i.
                subst (In k) (sym (keys-append before after))
                  (elim (q.0 (subst (In k) e' ((h.held k).0 (r.0 i).0))) [
                    | inl p ↦ absurd ((r.0 i).1 p)
                    | inr j ↦ j
                  ]),
            λ i.
                let j = subst (In k) (keys-append before after) i in
                r.1 (
                  (h.held k).1 (subst (In k) (sym e') (q.1 (inr j))),
                  λ p. n (subst (λ z. In z (keys before ++ keys after)) (sym p) j),
                ),
          );
    }

not_tried : (key : Str) (s t : LockSource) → try_lock key s ≡ (false, only_context, t) → t ≡ s
unfolding try_lock
not_tried key s t h = elim (Bool-cases (contains s.held key)) [
  | inl e ↦ sym (ap (λ q. q.2) (rw e at h))
  | inr e ↦ cc (ap (λ q. q.0) (rw e at h))
]

pub Step-IsExclusive : {a b : System} → Step a b → IsExclusive a → IsExclusive b
Step-IsExclusive {a} (locks client key s l e) h =
    let (n, p) = locked key a.source s l in
    subst IsExclusive
      (sym (e ∙ ap (λ z. record { holders = (client, key) ∷ a.holders; source = z }) p))
      (acquire-IsExclusive a client key h n)
Step-IsExclusive {a} (tries client key s l e) h =
    let (n, p) = tried key a.source s l in
    subst IsExclusive
      (sym (e ∙ ap (λ z. record { holders = (client, key) ∷ a.holders; source = z }) p))
      (acquire-IsExclusive a client key h n)
Step-IsExclusive {a} (is_refused client key s l e) h =
    subst IsExclusive
      (sym (e ∙ ap (λ z. record { holders = a.holders; source = z }) (not_tried key a.source s l)))
      h
Step-IsExclusive {a} (cancels before after client key e e') h =
    subst IsExclusive (sym e') (release-IsExclusive a before after client key e h)

abbrev pub start : System
start = record { holders = []; source = new_local_lock_source }

-- In every state that clients reach from the start, if each cancels a lock that it holds only and once,
-- no two of them hold the same key, and the map has exactly the keys that are held.
pub Reach-IsExclusive : {b : System} → Reach start b → IsExclusive b
Reach-IsExclusive here = record { distinct = tt; held = λ k. (λ i. i, λ i. i) }
Reach-IsExclusive (next r st) = Step-IsExclusive st (Reach-IsExclusive r)

lock-free :
    (key : Str) (s : LockSource)
    → ¬ In key s.held
    → lock key s ≡ some (releases key, record { held = key ∷ s.held })
unfolding lock
lock-free key s n = elim (Bool-cases (contains s.held key)) [
  | inl e ↦ absurd (n (contains_In s.held key e))
  | inr e ↦ rw e
]

lock-releases :
    (key : Str) (s t : LockSource) (f : CancelFunc) → lock key s ≡ some (f, t) → f ≡ releases key
unfolding lock
lock-releases key s t f h = ground arith

cancelled : (key : Str) (s : LockSource) → ¬ In key (cancel (releases key) s).held
unfolding cancel
cancelled key s i = ((In-remove_key key key s.held).0 i).1 refl

-- A cancel function that is called twice frees the lock of the next client: a first client locks a key and
-- cancels, a second one locks it, the first one cancels again, and a third one gets the lock.
pub double_cancel :
    (key : Str) (s s₁ s₂ : LockSource) (f g : CancelFunc)
    → lock key s ≡ some (f, s₁)
    → lock key (cancel f s₁) ≡ some (g, s₂)
    → (t : LockSource) × (lock key (cancel f s₂) ≡ some (releases key, t))
double_cancel key s s₁ s₂ f g h k = (
  record { held = key ∷ (cancel f s₂).held },
  lock-free key (cancel f s₂) (
      subst (λ z. ¬ In key (cancel z s₂).held) (sym (lock-releases key s s₁ f h))
        (cancelled key s₂)),
)
