-- ===== src/Common/Run.antt =====
-- A Go function that changes a state: its outcome, and the state that it leaves, on an error too.
pub mod Total
use mathlib.Core.Path.{◌≡◌, refl}
use native.Mathlib.Omega.{arith}
use chain_rice.Common.Result.{Result, ok, err, panic, Error}

abbrev pub Run : Type 0 → Type 0 → Type 0
Run S A = S → Result A × S

module _ {S A : Type 0} where
  abbrev pub pure : A → Run S A
  pure a s = (ok a, s)

  abbrev pub fail : Error → Run S A
  fail e s = (err e, s)

  -- A call that does not touch the state.
  abbrev pub lift : Result A → Run S A
  lift r s = (r, s)

module _ {S A B : Type 0} where
  abbrev pub continue_with : (A → Run S B) → Result A → Run S B
  continue_with next (ok a) s = next a s
  continue_with next (err e) s = (err e, s)
  continue_with next (panic e) s = (panic e, s)

  unfoldable pub bind : Run S A → (A → Run S B) → Run S B
  bind first next s = continue_with next (first s).0 (first s).1

infixl 5 ◌>>=◌ ◌>>◌
abbrev pub ◌>>=◌ : {S A B : Type 0} → Run S A → (A → Run S B) → Run S B
◌>>=◌ first next = bind first next

abbrev pub ◌>>◌ : {S B : Type 0} → Run S (Unit {0}) → Run S B → Run S B
◌>>◌ first next = bind first (λ _. next)

module _ {S A B : Type 0} where
  continue_with-eq-ok :
      (next : A → Run S B) (r : Result A) (s s' : S) {b : B}
      → continue_with next r s ≡ (ok b, s')
      → (a : A) × (r ≡ ok a) × (next a s ≡ (ok b, s'))
  continue_with-eq-ok next (ok a) s s' h = (a, refl, h)
  continue_with-eq-ok next (err e) s s' h = absurd (ground arith)
  continue_with-eq-ok next (panic e) s s' h = absurd (ground arith)

  -- Inversion of a sequence that ends with a value.
  pub bind-eq-ok :
      (first : Run S A) (next : A → Run S B) (s s' : S) {b : B}
      → bind first next s ≡ (ok b, s')
      → (a : A) × (t : S) × (first s ≡ (ok a, t)) × (next a t ≡ (ok b, s'))
  unfolding bind
  bind-eq-ok first next s s' h =
      let (a, e, rest) = continue_with-eq-ok next (first s).0 (first s).1 s' h in
      (a, (first s).1, cc, rest)

  -- A sequence goes on after a value, and stops at an error.
  pub bind-ok :
      (first : Run S A) (next : A → Run S B) (s t : S) (a : A)
      → first s ≡ (ok a, t)
      → bind first next s ≡ next a t
  unfolding bind
  bind-ok first next s t a h = rw h refl

  pub bind-err :
      (first : Run S A) (next : A → Run S B) (s t : S) (e : Error)
      → first s ≡ (err e, t)
      → bind first next s ≡ (err e, t)
  unfolding bind
  bind-err first next s t e h = rw h refl
