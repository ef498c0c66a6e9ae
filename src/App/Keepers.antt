-- ===== src/App/Keepers.antt =====
-- What app/export.go uses of the SDK's keepers, codecs and stores.
use mathlib.Core.List.{Memᴰ}
use chain_rice.Common.{ℕ, ◌≡◌, ◌≢◌, GoString, Bytes, Bool, List, Option}
use chain_rice.Common.Result.{Error, Result, ok}

-- The fields of the SDK's structs that export.go reads or writes, and what is left of them.
pub record Validator : Type 0 where
  pub operator_address : GoString
  pub jailed : Bool
  pub unbonding_height : ℕ
  pub other : Bytes

pub record Delegation : Type 0 where
  pub delegator_address : GoString
  pub validator_address : GoString

pub record Entry : Type 0 where
  pub creation_height : ℕ
  pub other : Bytes

pub record Redelegation : Type 0 where
  pub delegator_address : GoString
  pub validator_src_address : GoString
  pub validator_dst_address : GoString
  pub entries : List Entry

pub record UnbondingDelegation : Type 0 where
  pub delegator_address : GoString
  pub validator_address : GoString
  pub entries : List Entry

pub record ValidatorSigningInfo : Type 0 where
  pub start_height : ℕ
  pub other : Bytes

-- A table of a keeper's store, which keeps a record under its key. `iterate` gives the records as they
-- are when an iteration starts. The laws are those of a map.
pub record Table (State V : Type 0) (key : V → Bytes) : Type 0 where
  pub iterate : State → Result (List V)
  pub get : State → Bytes → Result V
  pub set : State → V → Result State
  pub get-set : (s s' : State) (v : V) → set s v ≡ ok s' → get s' (key v) ≡ ok v
  pub get-set_other :
      (s s' : State) (v : V) (a : Bytes) → set s v ≡ ok s' → a ≢ key v → get s' a ≡ get s a
  pub key-get : (s : State) (a : Bytes) (v : V) → get s a ≡ ok v → key v ≡ a
  pub get-iterate :
      (s : State) (vs : List V) (v : V) → iterate s ≡ ok vs → Memᴰ v vs → get s (key v) ≡ ok v

-- The keys that the SDK computes from the addresses in a record.
pub record Keys : Type 0 where
  pub validator_key : GoString → Bytes
  pub redelegation_key : GoString → GoString → GoString → Bytes
  pub unbonding_key : GoString → GoString → Bytes

-- The store is `State`; the block height of the context is an argument where a keeper reads it.
-- A call whose error export.go drops gives the state that it leaves and the error.
pub record Keepers : Type 1 where
  pub keys : Keys
  pub State : Type 0
  pub Coins : Type 0
  pub FeePool : Type 0
  pub GenState : Type 0
  pub AppState : Type 0
  pub Validators : Type 0
  pub ConsensusParams : Type 0
  pub last_block_height : ℕ
  -- SigningContext().ValidatorAddressCodec(), AddressCodec(), and the staking keeper's codec
  pub validator_string_to_bytes : GoString → Result Bytes
  pub account_string_to_bytes : GoString → Result Bytes
  pub staking_string_to_bytes : GoString → Result Bytes
  pub staking_bytes_to_string : Bytes → Result GoString
  -- x/distribution
  pub withdraw_validator_commission : ℕ → State → Bytes → Result (State × Option Error)
  pub withdraw_delegation_rewards : ℕ → State → Bytes → Bytes → Result (State × Option Error)
  pub delete_all_validator_slash_events : State → Result State
  pub delete_all_validator_historical_rewards : State → Result State
  pub get_validator_outstanding_rewards_coins : State → Bytes → Result Coins
  pub get_fee_pool : State → Result FeePool
  pub set_fee_pool : State → FeePool → Result State
  pub add_to_community_pool : FeePool → Coins → FeePool
  pub after_validator_created : ℕ → State → Bytes → Result State
  pub before_delegation_created : ℕ → State → Bytes → Bytes → Result State
  pub after_delegation_modified : ℕ → State → Bytes → Bytes → Result State
  -- x/staking
  pub get_all_delegations : State → Result (List Delegation)
  pub validators : Table State Validator (λ v. keys.validator_key v.operator_address)
  pub redelegations : Table State Redelegation (λ r.
      keys.redelegation_key r.delegator_address r.validator_src_address r.validator_dst_address)
  pub unbonding_delegations :
      Table State UnbondingDelegation
        (λ u. keys.unbonding_key u.delegator_address u.validator_address)
  -- the addresses in the keys under ValidatorsKey, from the last one on, and `iter.Close`
  pub validator_addresses : State → List Bytes
  pub close_iterator : State → Result (Unit {0})
  pub apply_and_return_validator_set_updates : State → Result State
  -- x/slashing; an error of `SetValidatorSigningInfo` is dropped
  pub iterate_validator_signing_infos : State → Result (List (Bytes × ValidatorSigningInfo))
  pub set_validator_signing_info :
      State → Bytes → ValidatorSigningInfo → Result (State × Option Error)
  -- the module manager, encoding/json and BaseApp
  pub export_genesis_for_modules : ℕ → State → List GoString → Result GenState
  pub marshal_indent : GenState → Result AppState
  pub write_validators : State → Result Validators
  pub get_consensus_params : State → Result ConsensusParams
