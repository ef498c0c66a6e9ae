-- ===== src/Common/Run/Total.antt =====
-- Runs that end with a value from every state, and the rules for a sequence of them.
use mathlib.Core.Path.{◌≡◌, refl, ap}
use mathlib.Core.Bool.{Bool, true, false}
use chain_rice.Common.Tests.{if◌then◌else◌}
use chain_rice.Common.Result.{Result, ok}
use chain_rice.Common.Run.{Run, pure, lift, bind}

module _ {S A : Type 0} where
  pub record Total (run : Run S A) : Type 0 where
    pub ends : (s : S) → (a : A) × (s' : S) × (run s ≡ (ok a, s'))

  pub pure-Total : (a : A) → Total (pure a)
  pure-Total a = record { ends = λ s. (a, s, refl) }

  pub lift-Total : (r : Result A) (a : A) → r ≡ ok a → Total (lift r)
  lift-Total r a e = record { ends = λ s. (a, s, ap (λ (t : Result A). (t, s)) e) }

  pub if-Total : (b : Bool) (x y : Run S A) → Total x → Total y → Total (if b then x else y)
  if-Total true x y p q = p
  if-Total false x y p q = q

module _ {S A B : Type 0} where
  pub bind-Total :
      (first : Run S A) (next : A → Run S B)
      → Total first
      → ((a : A) → Total (next a))
      → Total (bind first next)
  unfolding bind
  bind-Total first next p q = record {
    ends = λ s. let (a, t, e) = p.ends s in let (b, u, f) = (q a).ends t in (b, u, rw e f);
  }

  -- What is known of the first run's value may serve for the second.
  pub bind-Total_given :
      (first : Run S A) (next : A → Run S B)
      → Total first
      → ((a : A) (s t : S) → first s ≡ (ok a, t) → Total (next a))
      → Total (bind first next)
  unfolding bind
  bind-Total_given first next p q = record {
    ends = λ s. let (a, t, e) = p.ends s in let (b, u, f) = (q a s t e).ends t in (b, u, rw e f);
  }
