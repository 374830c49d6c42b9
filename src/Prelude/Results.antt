-- ===== src/Prelude/Results.antt =====
-- Go's `error` values and the pair `(value, error)`.
use Prim.Native.Nat.{ℕ}
use Prim.Native.String.{String}
use mathlib.Core.Path.{◌≡◌, refl}
use mathlib.Core.Logic.{◌⊎◌, inl, inr}
use mathlib.Core.Bool.{Bool, true, false, not}
use mathlib.Core.List.{List}

-- `errorf` is fmt.Errorf without an error in it, with its format and its arguments; `wrapf` is
-- fmt.Errorf with `%w`, or with `%v` of an error, which its format then shows; `joined` is errors.Join
-- of two; `external` is an error that other code returns.
pub data Error : Type 0 where
  errorf : String → List (List ℕ) → Error
  wrapf : String → List (List ℕ) → Error → Error
  joined : Error → Error → Error
  external : ℕ → Error

-- The pair with a nil error, and the pair with an error, whose value nothing reads.
pub data Result {ℓ} (V : Type ℓ) : Type ℓ where
  err : Error → Result V
  ok : V → Result V

-- `if err != nil { return fmt.Errorf(format + ": %w", args, err) }`
abbrev pub wrap {ℓ} : {V : Type ℓ} → String → List (List ℕ) → Result V → Result V
wrap format args (err e) = err (wrapf format args e)
wrap format args (ok v) = ok v

-- `if test { return err }`
abbrev pub fail_if : Bool → Error → Result (Unit {0})
fail_if true e = err e
fail_if false e = ok tt

-- `if err != nil { return err }`, and then the rest with the value.
infixl 5 ◌>>=◌
abbrev pub ◌>>=◌ {ℓ κ} : {V : Type ℓ} {W : Type κ} → Result V → (V → Result W) → Result W
err e >>= rest = err e
ok v >>= rest = rest v

infixl 5 ◌>>◌
abbrev pub ◌>>◌ {ℓ} : {W : Type ℓ} → Result (Unit {0}) → Result W → Result W
first >> rest = first >>= λ u. rest

pub >>=-eq-ok {ℓ κ} :
    {V : Type ℓ} {W : Type κ} (first : Result V) (rest : V → Result W) {w : W}
    → (first >>= rest) ≡ ok w
    → (v : V) × (first ≡ ok v) × (rest v ≡ ok w)
>>=-eq-ok (err e) rest h = cc
>>=-eq-ok (ok v) rest h = (v, refl, h)

pub Result-cases {ℓ} :
    {A : Type ℓ} (r : Result A) → ((a : A) × (r ≡ ok a)) ⊎ ((e : Error) × (r ≡ err e))
Result-cases (ok a) = inl (a, refl)
Result-cases (err e) = inr (e, refl)

pub fail_if-eq-ok {ℓ} :
    {A : Type ℓ} (b : Bool) (e : Error) (m : Result A) {a : A}
    → (fail_if b e >> m) ≡ ok a
    → (b ≡ false) × (m ≡ ok a)
fail_if-eq-ok true e m h = cc
fail_if-eq-ok false e m h = (refl, h)

pub wrap-eq-ok {ℓ} :
    {A : Type ℓ} (format : String) (args : List (List ℕ)) (m : Result A) {a : A}
    → wrap format args m ≡ ok a
    → m ≡ ok a
wrap-eq-ok format args (ok a) h = h
wrap-eq-ok format args (err e) h = cc

pub ok_injective {ℓ} : {A : Type ℓ} {a b : A} → ok a ≡ ok b → a ≡ b
ok_injective h = cc h

pub unnegated : (b : Bool) → not b ≡ false → b ≡ true
unnegated true h = refl
unnegated false h = cc h
