-- ===== src/App/RewardsTests.antt =====
-- The loop over two validators, where the outstanding rewards of a validator are the length of its
-- address.
use mathlib.Core.List.{Pairwise, Memᴰ}
use mathlib.Core.Logic.{∥∥₁_elim}
use mathlib.Core.HLevel.{⊥_prop}
use chain_rice.Common.{ℕ, ◌≡◌, refl, ap, ◌∙◌, sym, str, List, [], ◌∷◌, length, true, arith}
use chain_rice.Common.Result.{ok}
use chain_rice.App.Keepers.{Keepers, Validator}
use chain_rice.App.Sweep.{for_each}
use chain_rice.App.Export.{reinitialize_validator}
use chain_rice.App.Export.Rewards.{
  PoolLaws, RewardsOf, Apart, donated, reinitialize_validator-donated,
}
use chain_rice.App.Tests.{Store, sample_keepers, before, alice, decode_address}

abbrev keepers : Keepers
keepers = record sample_keepers { get_validator_outstanding_rewards_coins = λ s a. ok (length a) }

left : (s s' : Store) → ok s ≡ ok s' → s' ≡ s
left s s' h = cc

laws : PoolLaws keepers
laws = record {
  get-set_fee_pool = λ s s' p h. ap (λ (t : Store). ok t.pool) (left (record s { pool = p }) s' h);
  rewards-set_fee_pool = λ s s' p a h. refl;
  pool-after_validator_created = λ h s s' a e. ap (λ (t : Store). ok t.pool) (left s s' e);
  rewards-after_validator_created = λ h s s' a b e ne. refl;
}

abbrev bob : Validator
bob = record { operator_address = str "bob"; jailed = true; unbonding_height = 0; other = [] }

abbrev both : List Validator
both = alice ∷ bob ∷ []

far : (w : Validator) → Memᴰ w (bob ∷ []) → Apart keepers alice w
far w (Memᴰ.head e) a b p q x =
    let named : w.operator_address ≡ str "bob" = ap (λ (v : Validator). v.operator_address) e in
    let of_bob : ok (str "bob") ≡ ok b = ap decode_address (sym named) ∙ q in
    absurd (ground (arith, x, p, of_bob))
far w (Memᴰ.tail m) a b p q x = elim m [ ]

apart : Pairwise (Apart keepers) both
apart =
    Pairwise.cons (λ w m a b p q x. ∥∥₁_elim m ⊥_prop (λ d. far w d a b p q x))
      (Pairwise.cons (λ w m a b p q x. ∥∥₁_elim m ⊥_prop (λ d. elim d [ ])) Pairwise.nil)

abbrev richer : Store
richer = record before { pool = 108 }

started : for_each (reinitialize_validator keepers) both before ≡ ok richer
unfolding reinitialize_validator
started = refl

reinitialize_validator-donated_example :
    (cs : List ℕ) × RewardsOf keepers before both cs × (ok 108 ≡ ok (donated keepers 100 cs))
reinitialize_validator-donated_example =
    reinitialize_validator-donated keepers laws both before richer 100 apart refl started
