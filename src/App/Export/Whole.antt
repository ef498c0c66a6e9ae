-- ===== src/App/Export/Whole.antt =====
-- What the preparation as a whole does to a table of x/staking that most of its calls do not touch.

use chain_rice.Common.{ℕ, ◌≡◌, ap, ◌∙◌, GoString, Bytes, Option, List, [], ◌∷◌}
use chain_rice.Common.Result.{
  Error, Result, ok, err, panic, must, must_with, must-eq-ok, must_with-eq-ok, >>=-eq-ok,
}
use chain_rice.App.Keepers.{Keepers, Validator, Delegation, ValidatorSigningInfo}
use chain_rice.App.Sweep.{for_each}
use chain_rice.App.Export.{
  withdraw_commission, withdraw_rewards, reinitialize_validator, reinitialize_delegation,
  reset_distribution, reset_validators, reset_validator_at, reset_validator, must_be_found,
  reset_signing_info, reset_signing_infos, after_close,
}

-- The keepers of x/distribution and x/slashing have stores of their own, and the update of the validator
-- set neither ends a redelegation nor an unbonding: `view`, a part of the state, is left.
pub record Leaves (k : Keepers) {T : Type 0} (view : k.State → T) : Type 0 where
  pub withdraw_validator_commission :
      (h : ℕ) (s s' : k.State) (a : Bytes) (o : Option Error)
      → k.withdraw_validator_commission h s a ≡ ok (s', o)
      → view s' ≡ view s
  pub withdraw_delegation_rewards :
      (h : ℕ) (s s' : k.State) (d v : Bytes) (o : Option Error)
      → k.withdraw_delegation_rewards h s d v ≡ ok (s', o)
      → view s' ≡ view s
  pub delete_all_validator_slash_events :
      (s s' : k.State) → k.delete_all_validator_slash_events s ≡ ok s' → view s' ≡ view s
  pub delete_all_validator_historical_rewards :
      (s s' : k.State) → k.delete_all_validator_historical_rewards s ≡ ok s' → view s' ≡ view s
  pub set_fee_pool :
      (s s' : k.State) (p : k.FeePool) → k.set_fee_pool s p ≡ ok s' → view s' ≡ view s
  pub after_validator_created :
      (h : ℕ) (s s' : k.State) (a : Bytes)
      → k.after_validator_created h s a ≡ ok s'
      → view s' ≡ view s
  pub before_delegation_created :
      (h : ℕ) (s s' : k.State) (d v : Bytes)
      → k.before_delegation_created h s d v ≡ ok s'
      → view s' ≡ view s
  pub after_delegation_modified :
      (h : ℕ) (s s' : k.State) (d v : Bytes)
      → k.after_delegation_modified h s d v ≡ ok s'
      → view s' ≡ view s
  pub set_validator :
      (s s' : k.State) (v : Validator) → k.validators.set s v ≡ ok s' → view s' ≡ view s
  pub apply_and_return_validator_set_updates :
      (s s' : k.State) → k.apply_and_return_validator_set_updates s ≡ ok s' → view s' ≡ view s
  pub set_validator_signing_info :
      (s s' : k.State) (a : Bytes) (i : ValidatorSigningInfo) (o : Option Error)
      → k.set_validator_signing_info s a i ≡ ok (s', o)
      → view s' ≡ view s

module _ {S A T : Type 0} (view : S → T) (f : A → S → Result S)
    (keeps : (a : A) (s s' : S) → f a s ≡ ok s' → view s' ≡ view s) where
  pub for_each-keeps : (xs : List A) (s s' : S) → for_each f xs s ≡ ok s' → view s' ≡ view s
  for_each-keeps [] s s' h = ap view cc
  for_each-keeps (x ∷ xs) s s' h =
      let (s1, first, rest) = >>=-eq-ok (f x s) (for_each f xs) h in
      for_each-keeps xs s1 s' rest ∙ keeps x s s1 first

module _ (k : Keepers) {T : Type 0} (view : k.State → T) (l : Leaves k view) where
  open k use {State}

  withdraw_commission-keeps :
      (h : ℕ) (v : Validator) (s s' : State)
      → withdraw_commission k h v s ≡ ok s'
      → view s' ≡ view s
  unfolding withdraw_commission
  withdraw_commission-keeps h v s s' e =
      let (a, e1, h1) = >>=-eq-ok (must (k.staking_string_to_bytes v.operator_address)) _ e in
      let ((t, o), e2, h2) = >>=-eq-ok (k.withdraw_validator_commission h s a) _ h1 in
      let same : s' ≡ t = cc in ap view same ∙ l.withdraw_validator_commission h s t a o e2

  withdraw_rewards-keeps :
      (h : ℕ) (d : Delegation) (s s' : State) → withdraw_rewards k h d s ≡ ok s' → view s' ≡ view s
  unfolding withdraw_rewards
  withdraw_rewards-keeps h d s s' e =
      let (v, e1, h1) = >>=-eq-ok (must (k.validator_string_to_bytes d.validator_address)) _ e in
      let (a, e2, h2) = >>=-eq-ok (must (k.account_string_to_bytes d.delegator_address)) _ h1 in
      let ((t, o), e3, h3) = >>=-eq-ok (k.withdraw_delegation_rewards h s a v) _ h2 in
      let same : s' ≡ t = cc in ap view same ∙ l.withdraw_delegation_rewards h s t a v o e3

  reinitialize_validator-keeps :
      (v : Validator) (s s' : State) → reinitialize_validator k v s ≡ ok s' → view s' ≡ view s
  unfolding reinitialize_validator
  reinitialize_validator-keeps v s s' e =
      let (a, e1, h1) = >>=-eq-ok (must (k.staking_string_to_bytes v.operator_address)) _ e in
      let (c, e2, h2) = >>=-eq-ok (must (k.get_validator_outstanding_rewards_coins s a)) _ h1 in
      let (p, e3, h3) = >>=-eq-ok (must (k.get_fee_pool s)) _ h2 in
      let (t, e4, h4) = >>=-eq-ok (must (k.set_fee_pool s (k.add_to_community_pool p c))) _ h3 in
      l.after_validator_created 0 t s' a (must-eq-ok (k.after_validator_created 0 t a) h4)
      ∙ l.set_fee_pool s t (k.add_to_community_pool p c)
          (must-eq-ok (k.set_fee_pool s (k.add_to_community_pool p c)) e4)

  reinitialize_delegation-keeps :
      (d : Delegation) (s s' : State) → reinitialize_delegation k d s ≡ ok s' → view s' ≡ view s
  unfolding reinitialize_delegation
  reinitialize_delegation-keeps d s s' e =
      let (v, e1, h1) = >>=-eq-ok (must (k.validator_string_to_bytes d.validator_address)) _ e in
      let (a, e2, h2) = >>=-eq-ok (must (k.account_string_to_bytes d.delegator_address)) _ h1 in
      let (t, e3, h3) = >>=-eq-ok (must_with _ _ (k.before_delegation_created 0 s a v)) _ h2 in
      l.after_delegation_modified 0 t s' a v
        (must_with-eq-ok _ _ (k.after_delegation_modified 0 t a v) h3)
      ∙ l.before_delegation_created 0 s t a v
          (must_with-eq-ok _ _ (k.before_delegation_created 0 s a v) e3)

  pub reset_distribution-keeps :
      (h : ℕ) (s s' : State) → reset_distribution k h s ≡ ok s' → view s' ≡ view s
  unfolding reset_distribution
  reset_distribution-keeps h s s' e =
      let (vals, e0, h0) = >>=-eq-ok (must (k.validators.iterate s)) _ e in
      let (s1, e1, h1) = >>=-eq-ok (for_each (withdraw_commission k h) vals s) _ h0 in
      let (dels, e2, h2) = >>=-eq-ok (must (k.get_all_delegations s1)) _ h1 in
      let (s2, e3, h3) = >>=-eq-ok (for_each (withdraw_rewards k h) dels s1) _ h2 in
      let (s3, e4, h4) = >>=-eq-ok (k.delete_all_validator_slash_events s2) _ h3 in
      let (s4, e5, h5) = >>=-eq-ok (k.delete_all_validator_historical_rewards s3) _ h4 in
      let (vals', e6, h6) = >>=-eq-ok (must (k.validators.iterate s4)) _ h5 in
      let (s5, e7, h7) = >>=-eq-ok (for_each (reinitialize_validator k) vals' s4) _ h6 in
      for_each-keeps view (reinitialize_delegation k) reinitialize_delegation-keeps dels s5 s' h7
      ∙ for_each-keeps view (reinitialize_validator k) reinitialize_validator-keeps vals' s4 s5 e7
      ∙ l.delete_all_validator_historical_rewards s3 s4 e5
      ∙ l.delete_all_validator_slash_events s2 s3 e4
      ∙ for_each-keeps view (withdraw_rewards k h) (withdraw_rewards-keeps h) dels s1 s2 e3
      ∙ for_each-keeps view (withdraw_commission k h) (withdraw_commission-keeps h) vals s s1 e1

  reset_validator_at-keeps :
      (allowed : List GoString) (a : Bytes) (s s' : State)
      → reset_validator_at k allowed a s ≡ ok s'
      → view s' ≡ view s
  unfolding reset_validator_at
  reset_validator_at-keeps allowed a s s' e =
      let (v, e1, h1) = >>=-eq-ok (must_be_found (k.validators.get s a)) _ e in
      let (addr, e2, h2) = >>=-eq-ok (must (k.staking_bytes_to_string a)) _ h1 in
      l.set_validator s s' (reset_validator allowed addr v)
        (must-eq-ok (k.validators.set s (reset_validator allowed addr v)) h2)

  reset_validators-keeps :
      (allowed : List GoString) (s s' : State)
      → reset_validators k allowed s ≡ ok s'
      → view s' ≡ view s
  unfolding reset_validators
  reset_validators-keeps allowed s s' e =
      for_each-keeps view (reset_validator_at k allowed) (reset_validator_at-keeps allowed)
        (k.validator_addresses s) s s' e

  reset_signing_info-keeps :
      (x : Bytes × ValidatorSigningInfo) (s s' : State)
      → reset_signing_info k x s ≡ ok s'
      → view s' ≡ view s
  unfolding reset_signing_info
  reset_signing_info-keeps (a, i) s s' e =
      let ((t, o), e1, h1) =
        >>=-eq-ok (k.set_validator_signing_info s a (record i { start_height = 0 })) _ e in
      let same : s' ≡ t = cc in
      ap view same ∙ l.set_validator_signing_info s t a (record i { start_height = 0 }) o e1

  after_close-keeps :
      (r : Result (Unit {0})) (s s' : State) → after_close k r s ≡ ok s' → view s' ≡ view s
  unfolding after_close reset_signing_infos
  after_close-keeps (ok u) s s' e =
      let (t, e1, h1) = >>=-eq-ok (must (k.apply_and_return_validator_set_updates s)) _ e in
      let (infos, e2, h2) = >>=-eq-ok (must (k.iterate_validator_signing_infos t)) _ h1 in
      for_each-keeps view (reset_signing_info k) reset_signing_info-keeps infos t s' h2
      ∙ l.apply_and_return_validator_set_updates s t
          (must-eq-ok (k.apply_and_return_validator_set_updates s) e1)
  after_close-keeps (err x) s s' e = ap view cc
  after_close-keeps (panic x) s s' e = cc

  -- From the loop over the validators to the end.
  pub ends-keeps :
      (allowed : List GoString) (s s' : State)
      → (t : State) × (reset_validators k allowed s ≡ ok t)
        × (after_close k (k.close_iterator t) t ≡ ok s')
      → view s' ≡ view s
  ends-keeps allowed s s' (t, e, h) =
      after_close-keeps (k.close_iterator t) t s' h ∙ reset_validators-keeps allowed s t e
