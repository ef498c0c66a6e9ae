-- ===== src/Common/Result.antt =====
-- What a Go function ends in: a value, an error that is returned, or a panic.
use mathlib.Core.Path.{◌≡◌, refl}
use mathlib.Core.Bool.{Bool, true, false}
use mathlib.Core.List.{List}
use chain_rice.Common.Lists.{GoString}
use mathlib.Core.Logic.{◌⊎◌, inl, inr}
use Prim.Native.Nat.{ℕ}
use Prim.Native.String.{String}

-- `message` is `errors.New` and `fmt.Errorf` with the format and its arguments, `wrap` the same around
-- an error, `sentinel` an error that is registered under a codespace and a number, `status` a gRPC
-- error with its code.
pub data Error : Type 0 where
  message : String → List GoString → Error
  wrap : String → List GoString → Error → Error
  sentinel : GoString → ℕ → Error
  status : String → String → Error
  not_found : Error

-- `errors.Is(err, collections.ErrNotFound)`, which looks through wrapped errors.
unfoldable pub is_not_found : Error → Bool
is_not_found not_found = true
is_not_found (wrap _ _ e) = is_not_found e
is_not_found (message _ _) = false
is_not_found (sentinel _ _) = false
is_not_found (status _ _) = false

pub data Result {ℓ} (A : Type ℓ) : Type ℓ where
  ok : A → Result A
  err : Error → Result A
  panic : Error → Result A

infixl 5 ◌>>=◌ ◌>>◌
-- Later statements run only after a value.
abbrev pub ◌>>=◌ {ℓa ℓb} : {A : Type ℓa} {B : Type ℓb} → Result A → (A → Result B) → Result B
panic e >>= next = panic e
err e >>= next = err e
ok a >>= next = next a

abbrev pub ◌>>◌ {ℓb} : {B : Type ℓb} → Result (Unit {0}) → Result B → Result B
first >> next = first >>= (λ _. next)

-- `if err != nil { panic(err) }`
abbrev pub must {ℓ} : {A : Type ℓ} → Result A → Result A
must (ok a) = ok a
must (err e) = panic e
must (panic e) = panic e

-- `if err != nil { panic(fmt.Errorf("...: %w", err)) }`
abbrev pub must_with {ℓ} : {A : Type ℓ} → String → List GoString → Result A → Result A
must_with w args (ok a) = ok a
must_with w args (err e) = panic (wrap w args e)
must_with w args (panic e) = panic e

-- `if err != nil { return ..., Wrap(err, "...") }`
abbrev pub wrap_err {ℓ} : {A : Type ℓ} → String → List GoString → Result A → Result A
wrap_err w args (ok a) = ok a
wrap_err w args (err e) = err (wrap w args e)
wrap_err w args (panic e) = panic e

-- `_ = f(ctx)`: a returned error is dropped, and the state stays as it was.
abbrev pub or_keep {ℓ} : {S : Type ℓ} → Result S → S → Result S
or_keep (ok s') s = ok s'
or_keep (err e) s = ok s
or_keep (panic e) s = panic e

module _ {ℓa ℓb} {A : Type ℓa} {B : Type ℓb} where
  -- Inversion of a bind that succeeds.
  pub >>=-eq-ok :
      {b : B} (first : Result A) (next : A → Result B)
      → first >>= next ≡ ok b
      → (a : A) × (first ≡ ok a) × (next a ≡ ok b)
  >>=-eq-ok (panic e) next h = cc
  >>=-eq-ok (err e) next h = cc
  >>=-eq-ok (ok a) next h = (a, refl, h)

module _ {ℓ} {A : Type ℓ} where
  pub Result-cases :
      (r : Result A)
      → ((a : A) × (r ≡ ok a)) ⊎ (((e : Error) × (r ≡ err e)) ⊎ ((e : Error) × (r ≡ panic e)))
  Result-cases (ok a) = inl (a, refl)
  Result-cases (err e) = inr (inl (e, refl))
  Result-cases (panic e) = inr (inr (e, refl))

  pub must-eq-ok : (r : Result A) {a : A} → must r ≡ ok a → r ≡ ok a
  must-eq-ok (ok a) h = h
  must-eq-ok (err e) h = cc
  must-eq-ok (panic e) h = cc

  pub must_with-eq-ok :
      (w : String) (args : List GoString) (r : Result A) {a : A}
      → must_with w args r ≡ ok a
      → r ≡ ok a
  must_with-eq-ok w args (ok a) h = h
  must_with-eq-ok w args (err e) h = cc
  must_with-eq-ok w args (panic e) h = cc
