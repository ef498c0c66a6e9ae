-- ===== src/App/Export/Entries.antt =====
-- The redelegations and the unbonding delegations at the end of the preparation.
use mathlib.Core.List.{Memᴰ}
use chain_rice.Common.{ℕ, ◌≡◌, ap, ◌∙◌, GoString, Bytes, List}
use chain_rice.Common.Result.{Result, ok, must, must-eq-ok, >>=-eq-ok}
use chain_rice.App.Keepers.{Keepers, Entry, Redelegation, UnbondingDelegation}
use chain_rice.App.Export.{
  check_jail_allowed_addrs, reset_distribution, reset_redelegations, reset_unbonding_delegations,
  reset_validators, set_reset_redelegation, set_reset_unbonding_delegation, reset_redelegation,
  reset_unbonding_delegation, after_close, prep_for_zero_height_genesis,
}
use chain_rice.App.Export.Staking.{
  IsReset, reset_redelegations-each, reset_unbonding_delegations-each,
}
use chain_rice.App.Export.Whole.{Leaves, for_each-keeps, reset_distribution-keeps, ends-keeps}

module _ (k : Keepers) where
  open k use {State}

  -- What can be read of the two tables.
  abbrev pub redelegations_of : State → Result (List Redelegation) × (Bytes → Result Redelegation)
  redelegations_of s = (k.redelegations.iterate s, k.redelegations.get s)

  abbrev pub unbonding_of :
      State → Result (List UnbondingDelegation) × (Bytes → Result UnbondingDelegation)
  unbonding_of s = (k.unbonding_delegations.iterate s, k.unbonding_delegations.get s)

  -- The two tables have stores apart from each other and from what the other calls write.
  pub record Separate : Type 0 where
    pub redelegations : Leaves k redelegations_of
    pub unbonding : Leaves k unbonding_of
    pub set_redelegation :
        (s s' : State) (r : Redelegation)
        → k.redelegations.set s r ≡ ok s'
        → unbonding_of s' ≡ unbonding_of s
    pub set_unbonding :
        (s s' : State) (u : UnbondingDelegation)
        → k.unbonding_delegations.set s u ≡ ok s'
        → redelegations_of s' ≡ redelegations_of s

  -- The stages that a preparation that ends has passed.
  stages :
      (height : ℕ) (allowed : List GoString) (s s' : State)
      → prep_for_zero_height_genesis k height allowed s ≡ ok s'
      → (s1 : State) × (s2 : State) × (s3 : State) × (reset_distribution k height s ≡ ok s1)
        × (reset_redelegations k s1 ≡ ok s2)
        × (reset_unbonding_delegations k s2 ≡ ok s3)
        × ((t : State) × (reset_validators k allowed s3 ≡ ok t)
            × (after_close k (k.close_iterator t) t ≡ ok s'))
  unfolding prep_for_zero_height_genesis
  stages height allowed s s' h =
      let (u, e0, h0) = >>=-eq-ok (check_jail_allowed_addrs k allowed) _ h in
      let (s1, e1, h1) = >>=-eq-ok (reset_distribution k height s) _ h0 in
      let (s2, e2, h2) = >>=-eq-ok (reset_redelegations k s1) _ h1 in
      let (s3, e3, h3) = >>=-eq-ok (reset_unbonding_delegations k s2) _ h2 in
      let (t, e4, h4) = >>=-eq-ok (reset_validators k allowed s3) _ h3 in
      (s1, s2, s3, e1, e2, e3, (t, e4, h4))

  module _ (apart : Separate) where
    reset_redelegations-keeps :
        (s s' : State) → reset_redelegations k s ≡ ok s' → unbonding_of s' ≡ unbonding_of s
    unfolding reset_redelegations set_reset_redelegation
    reset_redelegations-keeps s s' h =
        let (reds, e, h1) = >>=-eq-ok (must (k.redelegations.iterate s)) _ h in
        for_each-keeps unbonding_of (set_reset_redelegation k)
          (λ r t t' x.
            apart.set_redelegation t t' (reset_redelegation r)
              (must-eq-ok (k.redelegations.set t (reset_redelegation r)) x))
          reds s s' h1

    reset_unbonding_delegations-keeps :
        (s s' : State)
        → reset_unbonding_delegations k s ≡ ok s'
        → redelegations_of s' ≡ redelegations_of s
    unfolding reset_unbonding_delegations set_reset_unbonding_delegation
    reset_unbonding_delegations-keeps s s' h =
        let (ubds, e, h1) = >>=-eq-ok (must (k.unbonding_delegations.iterate s)) _ h in
        for_each-keeps redelegations_of (set_reset_unbonding_delegation k)
          (λ u t t' x.
            apart.set_unbonding t t' (reset_unbonding_delegation u)
              (must-eq-ok (k.unbonding_delegations.set t (reset_unbonding_delegation u)) x))
          ubds s s' h1

    -- If the preparation ends, every redelegation that was in the state before it is in the state after
    -- it, under its key, with the same entries in order, all with creation height 0, and with its other
    -- fields; where the stores of the keepers are separate.
    pub prep-redelegations :
        (height : ℕ) (allowed : List GoString) (s s' : State) (reds : List Redelegation)
        (r : Redelegation)
        → prep_for_zero_height_genesis k height allowed s ≡ ok s'
        → k.redelegations.iterate s ≡ ok reds
        → Memᴰ r reds
        → (es : List Entry) × IsReset r.entries es
          × (k.redelegations.get s' (
                k.keys.redelegation_key r.delegator_address r.validator_src_address
                  r.validator_dst_address)
              ≡ ok (record r { entries = es }))
    prep-redelegations height allowed s s' reds r h shown m =
        let (s1, s2, s3, e1, e2, e3, rest) = stages height allowed s s' h in
        let start =
          reset_distribution-keeps k redelegations_of apart.redelegations height s s1 e1 in
        let end =
          ends-keeps k redelegations_of apart.redelegations allowed s3 s' rest
          ∙ reset_unbonding_delegations-keeps s2 s3 e3 in
        let (es, reset, got) =
          reset_redelegations-each k s1 s2 reds r (ap (λ p. p.0) start ∙ shown) e2 m in
        let key =
          k.keys.redelegation_key r.delegator_address r.validator_src_address
            r.validator_dst_address in
        (es, reset, ap (λ p. p.1 key) end ∙ got)

    -- If the preparation ends, every unbonding delegation that was in the state before it is in the
    -- state after it, under its key, with the same entries in order, all with creation height 0, and
    -- with its other fields; where the stores of the keepers are separate.
    pub prep-unbonding_delegations :
        (height : ℕ) (allowed : List GoString) (s s' : State) (ubds : List UnbondingDelegation)
        (u : UnbondingDelegation)
        → prep_for_zero_height_genesis k height allowed s ≡ ok s'
        → k.unbonding_delegations.iterate s ≡ ok ubds
        → Memᴰ u ubds
        → (es : List Entry) × IsReset u.entries es
          × (k.unbonding_delegations.get s'
                (k.keys.unbonding_key u.delegator_address u.validator_address)
              ≡ ok (record u { entries = es }))
    prep-unbonding_delegations height allowed s s' ubds u h shown m =
        let (s1, s2, s3, e1, e2, e3, rest) = stages height allowed s s' h in
        let start =
          reset_redelegations-keeps s1 s2 e2
          ∙ reset_distribution-keeps k unbonding_of apart.unbonding height s s1 e1 in
        let end = ends-keeps k unbonding_of apart.unbonding allowed s3 s' rest in
        let (es, reset, got) =
          reset_unbonding_delegations-each k s2 s3 ubds u (ap (λ p. p.0) start ∙ shown) e3 m in
        let key = k.keys.unbonding_key u.delegator_address u.validator_address in
        (es, reset, ap (λ p. p.1 key) end ∙ got)
