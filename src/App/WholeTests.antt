-- ===== src/App/WholeTests.antt =====
-- The stores of the small keepers are separate, and the theorem at their run.
use mathlib.Core.List.{Memᴰ}
use chain_rice.Common.{ℕ, ◌≡◌, ◌∙◌, refl, ap, str, List, [], ◌∷◌, some, Option}
use chain_rice.Common.Result.{Error, Result, ok}
use chain_rice.App.Keepers.{Entry, Validator, Redelegation, UnbondingDelegation}
use chain_rice.App.Slot.{slot_table, slot_iterate, slot_set-put}
use chain_rice.App.Export.Staking.{IsReset}
use chain_rice.App.Export.Whole.{Leaves}
use chain_rice.App.Export.Entries.{
  redelegations_of, unbonding_of, Separate, prep-redelegations, prep-unbonding_delegations,
}
use chain_rice.App.Tests.{Store, sample_keepers, before, after, only_bob, moving, leaving, prepared}

module _ {T : Type 0} (view : Store → T) where
  unchanged : (s s' : Store) → ok s ≡ ok s' → view s' ≡ view s
  unchanged s s' h = let same : s' ≡ s = cc in ap view same

  unchanged_with :
      (s s' : Store) (o o' : Option Error)
      → ◌≡◌ {A = Result (Store × Option Error)} (ok (s, o)) (ok (s', o'))
      → view s' ≡ view s
  unchanged_with s s' o o' h = let same : s' ≡ s = cc in ap view same

  sample-Leaves :
      ((s s' : Store) (v : Validator)
        → sample_keepers.validators.set s v ≡ ok s'
        → view s' ≡ view s)
      → ((s : Store) (p : ℕ) → view (record s { pool = p }) ≡ view s)
      → Leaves sample_keepers view
  sample-Leaves of_validator of_pool = record {
    withdraw_validator_commission = λ h s s' a o e. unchanged_with s s' _ o e;
    withdraw_delegation_rewards = λ h s s' d v o e. unchanged_with s s' _ o e;
    delete_all_validator_slash_events = λ s s' e. unchanged s s' e;
    delete_all_validator_historical_rewards = λ s s' e. unchanged s s' e;
    set_fee_pool = λ s s' p e. unchanged (record s { pool = p }) s' e ∙ of_pool s p;
    after_validator_created = λ h s s' a e. unchanged s s' e;
    before_delegation_created = λ h s s' d v e. unchanged s s' e;
    after_delegation_modified = λ h s s' d v e. unchanged s s' e;
    set_validator = of_validator;
    apply_and_return_validator_set_updates = λ s s' e. unchanged s s' e;
    set_validator_signing_info = λ s s' a i o e. unchanged_with s s' _ o e;
  }

validator_put :
    (s s' : Store) (v : Validator)
    → sample_keepers.validators.set s v ≡ ok s'
    → s' ≡ record s { validator = some v }
unfolding slot_table
validator_put s s' v h =
    slot_set-put (λ (w : Validator). w.operator_address) (λ (t : Store). t.validator)
      (λ t w. record t { validator = some w }) (λ t w. refl) s s' v s.validator h

redelegation_put :
    (s s' : Store) (r : Redelegation)
    → sample_keepers.redelegations.set s r ≡ ok s'
    → s' ≡ record s { redelegation = some r }
unfolding slot_table
redelegation_put s s' r h =
    slot_set-put (λ (w : Redelegation). w.delegator_address) (λ (t : Store). t.redelegation)
      (λ t w. record t { redelegation = some w }) (λ t w. refl) s s' r s.redelegation h

unbonding_put :
    (s s' : Store) (u : UnbondingDelegation)
    → sample_keepers.unbonding_delegations.set s u ≡ ok s'
    → s' ≡ record s { unbonding = some u }
unfolding slot_table
unbonding_put s s' u h =
    slot_set-put (λ (w : UnbondingDelegation). w.delegator_address) (λ (t : Store). t.unbonding)
      (λ t w. record t { unbonding = some w }) (λ t w. refl) s s' u s.unbonding h

separate : Separate sample_keepers
unfolding slot_table
separate = record {
  redelegations =
      sample-Leaves (redelegations_of sample_keepers)
        (λ s s' v h. ap (redelegations_of sample_keepers) (validator_put s s' v h)) (λ s p. refl);
  unbonding =
      sample-Leaves (unbonding_of sample_keepers)
        (λ s s' v h. ap (unbonding_of sample_keepers) (validator_put s s' v h)) (λ s p. refl);
  set_redelegation = λ s s' r h. ap (unbonding_of sample_keepers) (redelegation_put s s' r h);
  set_unbonding = λ s s' u h. ap (redelegations_of sample_keepers) (unbonding_put s s' u h);
}

prep-redelegations_example :
    (es : List Entry) × IsReset moving.entries es
    × (sample_keepers.redelegations.get after (str "dan") ≡ ok (record moving { entries = es }))
unfolding slot_table slot_iterate
prep-redelegations_example =
    prep-redelegations sample_keepers separate 41 only_bob before after (moving ∷ []) moving
      prepared refl (Memᴰ.head refl)

prep-unbonding_delegations_example :
    (es : List Entry) × IsReset leaving.entries es
    × (sample_keepers.unbonding_delegations.get after (str "eve")
        ≡ ok (record leaving { entries = es }))
unfolding slot_table slot_iterate
prep-unbonding_delegations_example =
    prep-unbonding_delegations sample_keepers separate 41 only_bob before after (leaving ∷ [])
      leaving prepared refl (Memᴰ.head refl)
