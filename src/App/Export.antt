-- ===== src/App/Export.antt =====
-- app/export.go: the export of the state for a genesis file.
pub mod Jailing
pub mod Staking
pub mod Outcome
pub mod Rewards
pub mod Whole
pub mod Entries
use chain_rice.Common.{
  ℕ, ◌+◌, ◌%◌, ◌^◌, ◌≡◌, GoString, str, Bytes, bytes_equal, Bool, true, false, not, ◌&&◌, ◌||◌,
  Option, List, [], ◌∷◌, map, if◌then◌else◌,
}
use chain_rice.Common.Result.{Error, message, Result, ok, err, panic, must, must_with, ◌>>=◌, ◌>>◌}
use chain_rice.App.Keepers.{
  Keepers, Validator, Delegation, Entry, Redelegation, UnbondingDelegation, ValidatorSigningInfo,
}
use chain_rice.App.Sweep.{for_each}

-- `allowedAddrsMap[addr]`, where the map is written with the strings of the list.
abbrev pub is_allowed : List GoString → GoString → Bool
is_allowed [] a = false
is_allowed (b ∷ bs) a = bytes_equal a b || is_allowed bs a

-- `len(jailAllowedAddrs) > 0`
abbrev pub apply_allowed_addrs : List GoString → Bool
apply_allowed_addrs [] = false
apply_allowed_addrs (b ∷ bs) = true

unfoldable pub reset_entry : Entry → Entry
reset_entry e = record e { creation_height = 0 }

unfoldable pub reset_redelegation : Redelegation → Redelegation
reset_redelegation red = record red { entries = map reset_entry red.entries }

unfoldable pub reset_unbonding_delegation : UnbondingDelegation → UnbondingDelegation
reset_unbonding_delegation ubd = record ubd { entries = map reset_entry ubd.entries }

-- `addr` is the address of the validator as the codec prints it.
unfoldable pub reset_validator : List GoString → GoString → Validator → Validator
reset_validator jail_allowed_addrs addr v = record v {
  unbonding_height = 0;
  jailed =
      if apply_allowed_addrs jail_allowed_addrs && not (is_allowed jail_allowed_addrs addr)
      then true
      else v.jailed;
}

abbrev pub expected_validator : Error
expected_validator = message "expected validator, not found" []

-- `panic("expected validator, not found")` whatever the error
abbrev pub must_be_found : Result Validator → Result Validator
must_be_found (ok v) = ok v
must_be_found (err e) = panic expected_validator
must_be_found (panic e) = panic e

module _ (k : Keepers) where
  open k use {State}

  -- The map of allowed addresses: each string of the list has to be an address.
  unfoldable pub check_jail_allowed_addrs : List GoString → Result (Unit {0})
  check_jail_allowed_addrs [] = ok tt
  check_jail_allowed_addrs (addr ∷ addrs) = do
    _ ← must (k.validator_string_to_bytes addr)
    check_jail_allowed_addrs addrs

  unfoldable pub withdraw_commission : ℕ → Validator → State → Result State
  withdraw_commission height val s = do
    val_bz ← must (k.staking_string_to_bytes val.operator_address)
    (s', _) ← k.withdraw_validator_commission height s val_bz
    ok s'

  unfoldable pub withdraw_rewards : ℕ → Delegation → State → Result State
  withdraw_rewards height delegation s = do
    val_addr ← must (k.validator_string_to_bytes delegation.validator_address)
    del_addr ← must (k.account_string_to_bytes delegation.delegator_address)
    (s', _) ← k.withdraw_delegation_rewards height s del_addr val_addr
    ok s'

  -- Unwithdrawn rewards go to the community pool, and the validator gets new records.
  unfoldable pub reinitialize_validator : Validator → State → Result State
  reinitialize_validator val s = do
    val_bz ← must (k.staking_string_to_bytes val.operator_address)
    rewards ← must (k.get_validator_outstanding_rewards_coins s val_bz)
    fee_pool ← must (k.get_fee_pool s)
    s' ← must (k.set_fee_pool s (k.add_to_community_pool fee_pool rewards))
    must (k.after_validator_created 0 s' val_bz)

  unfoldable pub reinitialize_delegation : Delegation → State → Result State
  reinitialize_delegation del s = do
    val_addr ← must (k.validator_string_to_bytes del.validator_address)
    del_addr ← must (k.account_string_to_bytes del.delegator_address)
    s' ←
        must_with "error while incrementing period: %w" []
          (k.before_delegation_created 0 s del_addr val_addr)
    must_with "error while creating a new delegation period record: %w" []
        (k.after_delegation_modified 0 s' del_addr val_addr)

  unfoldable pub set_reset_redelegation : Redelegation → State → Result State
  set_reset_redelegation red s = must (k.redelegations.set s (reset_redelegation red))

  unfoldable pub set_reset_unbonding_delegation : UnbondingDelegation → State → Result State
  set_reset_unbonding_delegation ubd s =
      must (k.unbonding_delegations.set s (reset_unbonding_delegation ubd))

  -- The body of the loop over the store's keys.
  unfoldable pub reset_validator_at : List GoString → Bytes → State → Result State
  reset_validator_at jail_allowed_addrs addr s = do
    validator ← must_be_found (k.validators.get s addr)
    val_addr ← must (k.staking_bytes_to_string addr)
    must (k.validators.set s (reset_validator jail_allowed_addrs val_addr validator))

  unfoldable pub reset_signing_info : Bytes × ValidatorSigningInfo → State → Result State
  reset_signing_info (addr, info) s = do
    (s', _) ← k.set_validator_signing_info s addr (record info { start_height = 0 })
    ok s'

  -- Fee distribution state, with the height of the context.
  unfoldable pub reset_distribution : ℕ → State → Result State
  reset_distribution height s = do
    vals ← must (k.validators.iterate s)
    s1 ← for_each (withdraw_commission height) vals s
    dels ← must (k.get_all_delegations s1)
    s2 ← for_each (withdraw_rewards height) dels s1
    s3 ← k.delete_all_validator_slash_events s2
    s4 ← k.delete_all_validator_historical_rewards s3
    vals' ← must (k.validators.iterate s4)
    s5 ← for_each reinitialize_validator vals' s4
    for_each reinitialize_delegation dels s5

  unfoldable pub reset_redelegations : State → Result State
  reset_redelegations s = do
    reds ← must (k.redelegations.iterate s)
    for_each set_reset_redelegation reds s

  unfoldable pub reset_unbonding_delegations : State → Result State
  reset_unbonding_delegations s = do
    ubds ← must (k.unbonding_delegations.iterate s)
    for_each set_reset_unbonding_delegation ubds s

  unfoldable pub reset_validators : List GoString → State → Result State
  reset_validators jail_allowed_addrs s =
      for_each (reset_validator_at jail_allowed_addrs) (k.validator_addresses s) s

  unfoldable pub reset_signing_infos : State → Result State
  reset_signing_infos s = do
    infos ← must (k.iterate_validator_signing_infos s)
    for_each reset_signing_info infos s

  -- What follows `iter.Close()`: on its error the function logs and returns.
  unfoldable pub after_close : Result (Unit {0}) → State → Result State
  after_close (ok _) s = do
    s' ← must (k.apply_and_return_validator_set_updates s)
    reset_signing_infos s'
  after_close (err e) s = ok s
  after_close (panic e) s = panic e

  unfoldable pub prep_for_zero_height_genesis : ℕ → List GoString → State → Result State
  prep_for_zero_height_genesis height jail_allowed_addrs s = do
    check_jail_allowed_addrs jail_allowed_addrs
    s1 ← reset_distribution height s
    s2 ← reset_redelegations s1
    s3 ← reset_unbonding_delegations s2
    s4 ← reset_validators jail_allowed_addrs s3
    after_close (k.close_iterator s4) s4

  pub record ExportedApp : Type 0 where
    pub app_state : k.AppState
    pub validators : k.Validators
    pub height : ℕ
    pub consensus_params : k.ConsensusParams

  -- `height := app.LastBlockHeight() + 1`, an int64
  abbrev pub next_height : ℕ
  next_height = (k.last_block_height + 1) % 2 ^ 64

  unfoldable pub write_export : ℕ → List GoString → State → Result ExportedApp
  write_export height modules_to_export s = do
    gen_state ← k.export_genesis_for_modules k.last_block_height s modules_to_export
    app_state ← k.marshal_indent gen_state
    validators ← k.write_validators s
    params ← k.get_consensus_params s
    ok (record {
      app_state = app_state;
      validators = validators;
      height = height;
      consensus_params = params;
    })

  unfoldable pub export_app_state_and_validators :
      Bool → List GoString → List GoString → State → Result (State × ExportedApp)
  export_app_state_and_validators true jail_allowed_addrs modules_to_export s = do
    s' ← prep_for_zero_height_genesis k.last_block_height jail_allowed_addrs s
    app ← write_export 0 modules_to_export s'
    ok (s', app)
  export_app_state_and_validators false jail_allowed_addrs modules_to_export s = do
    app ← write_export next_height modules_to_export s
    ok (s, app)
