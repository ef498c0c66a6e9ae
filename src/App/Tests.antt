-- ===== src/App/Tests.antt =====
-- Runs of the export over small keepers, and the theorems at inputs.
use mathlib.Core.List.{Memᴰ}
use chain_rice.Common.{
  ℕ, ◌+◌, ◌%◌, ◌^◌, ◌≡◌, ◌≢◌, ◌↔◌, ◌⊎◌, refl, GoString, str, Bytes, List, [], ◌∷◌, true, false,
  Option, none, some, arith,
}
use chain_rice.Common.Result.{message, not_found, Result, ok, err, panic}
use chain_rice.App.Keepers.{Keepers, Keys, Validator, Redelegation, UnbondingDelegation}
use chain_rice.App.Slot.{slot_table, slot_iterate, slot_get, slot_set}
use chain_rice.App.Export.{
  withdraw_rewards, reinitialize_delegation, export_app_state_and_validators,
  prep_for_zero_height_genesis, reset_distribution, reset_redelegations,
  reset_unbonding_delegations, reset_validators, reset_validator_at, reset_validator,
  reset_redelegation, reset_unbonding_delegation, reset_entry, set_reset_redelegation,
  set_reset_unbonding_delegation, reset_signing_infos, after_close, withdraw_commission,
  reinitialize_validator, check_jail_allowed_addrs, write_export, ExportedApp,
}
use chain_rice.App.Export.Staking.{reset_validators-each, reset_validators-other}
use chain_rice.App.Export.Outcome.{export_invalid_address, export_height}

pub record Store : Type 0 where
  pub validator : Option Validator
  pub redelegation : Option Redelegation
  pub unbonding : Option UnbondingDelegation
  pub pool : ℕ

abbrev pub sample_keys : Keys
sample_keys = record {
  validator_key = λ a. a;
  redelegation_key = λ d s t. d;
  unbonding_key = λ d v. d;
}

-- An address is its bytes, and the empty string is none.
abbrev pub decode_address : GoString → Result Bytes
decode_address [] = err (message "empty address string is not allowed" [])
decode_address (c ∷ a) = ok (c ∷ a)

abbrev pub validator_of : Store → List Bytes
validator_of s = elim s.validator [ none ↦ [] | some v ↦ v.operator_address ∷ [] ]

abbrev pub sample_keepers : Keepers
sample_keepers = record {
  keys = sample_keys;
  State = Store;
  Coins = ℕ;
  FeePool = ℕ;
  GenState = ℕ;
  AppState = ℕ;
  Validators = List Bytes;
  ConsensusParams = ℕ;
  last_block_height = 41;
  validator_string_to_bytes = decode_address;
  account_string_to_bytes = decode_address;
  staking_string_to_bytes = decode_address;
  staking_bytes_to_string = λ a. ok a;
  withdraw_validator_commission = λ h s a. ok (s, some not_found);
  withdraw_delegation_rewards = λ h s d v. ok (s, none);
  delete_all_validator_slash_events = λ s. ok s;
  delete_all_validator_historical_rewards = λ s. ok s;
  get_validator_outstanding_rewards_coins = λ s a. ok 5;
  get_fee_pool = λ s. ok s.pool;
  set_fee_pool = λ s p. ok (record s { pool = p });
  add_to_community_pool = λ p c. p + c;
  after_validator_created = λ h s a. ok s;
  before_delegation_created = λ h s d v. ok s;
  after_delegation_modified = λ h s d v. ok s;
  get_all_delegations =
      λ s. ok (record { delegator_address = str "eve"; validator_address = str "alice" } ∷ []);
  validators =
      slot_table (λ v. v.operator_address) (λ s. s.validator)
        (λ s v. record s { validator = some v }) (λ s v. refl);
  redelegations =
      slot_table (λ r. r.delegator_address) (λ s. s.redelegation)
        (λ s r. record s { redelegation = some r }) (λ s r. refl);
  unbonding_delegations =
      slot_table (λ u. u.delegator_address) (λ s. s.unbonding)
        (λ s u. record s { unbonding = some u }) (λ s u. refl);
  validator_addresses = validator_of;
  close_iterator = λ s. ok tt;
  apply_and_return_validator_set_updates = λ s. ok s;
  iterate_validator_signing_infos = λ s. ok [];
  set_validator_signing_info = λ s a i. ok (s, none);
  export_genesis_for_modules = λ h s ms. ok s.pool;
  marshal_indent = λ g. ok g;
  write_validators = λ s. ok (validator_of s);
  get_consensus_params = λ s. ok 0;
}

abbrev pub alice : Validator
alice = record {
  operator_address = str "alice";
  jailed = false;
  unbonding_height = 30;
  other = 1 ∷ [];
}

abbrev pub moving : Redelegation
moving = record {
  delegator_address = str "dan";
  validator_src_address = str "alice";
  validator_dst_address = str "bob";
  entries = record { creation_height = 12; other = [] } ∷ [];
}

abbrev pub leaving : UnbondingDelegation
leaving = record {
  delegator_address = str "eve";
  validator_address = str "alice";
  entries = record { creation_height = 40; other = 2 ∷ [] } ∷ [];
}

abbrev pub before : Store
before = record {
  validator = some alice;
  redelegation = some moving;
  unbonding = some leaving;
  pool = 100;
}

abbrev alice_jailed : Validator
alice_jailed = record alice { jailed = true; unbonding_height = 0 }

-- Only bob is on the list of allowed addresses.
abbrev pub only_bob : List GoString
only_bob = str "bob" ∷ []

abbrev pub after : Store
after = record {
  validator = some alice_jailed;
  redelegation = some (record moving { entries = record { creation_height = 0; other = [] } ∷ [] });
  unbonding =
      some (record leaving { entries = record { creation_height = 0; other = 2 ∷ [] } ∷ [] });
  pool = 105;
}

pub prepared : prep_for_zero_height_genesis sample_keepers 41 only_bob before ≡ ok after
unfolding prep_for_zero_height_genesis reset_distribution reset_redelegations
    reset_unbonding_delegations reset_validators reset_validator_at reset_validator
    reset_redelegation reset_unbonding_delegation reset_entry set_reset_redelegation
    set_reset_unbonding_delegation reset_signing_infos after_close withdraw_commission
    withdraw_rewards reinitialize_delegation reinitialize_validator check_jail_allowed_addrs
    slot_table slot_iterate slot_get slot_set
prepared = refl

reset_validators-each_example :
    (w : Validator) × (sample_keepers.validators.get
        (record before { validator = some alice_jailed })
        (str "alice")
      ≡ ok w)
    × (w.unbonding_height ≡ 0)
    × (w.operator_address ≡ str "alice")
    × (w.other ≡ 1 ∷ [])
    × ((w.jailed ≡ true) ↔ ((false ≡ true) ⊎ ((only_bob ≢ []) × ¬ Memᴰ (str "alice") only_bob)))
unfolding reset_validators reset_validator_at reset_validator slot_table slot_iterate slot_get
    slot_set
reset_validators-each_example =
    reset_validators-each sample_keepers only_bob before
      (record before { validator = some alice_jailed }) (str "alice") (str "alice") alice refl
      (Memᴰ.head refl) refl refl

reset_validators-other_example :
    sample_keepers.validators.get (record before { validator = some alice_jailed }) (str "carol")
    ≡ sample_keepers.validators.get before (str "carol")
unfolding reset_validators reset_validator_at reset_validator slot_table slot_iterate slot_get
    slot_set
reset_validators-other_example =
    reset_validators-other sample_keepers only_bob before
      (record before { validator = some alice_jailed }) (str "carol") refl carol_absent
  where
    carol_absent : ¬ Memᴰ (str "carol") (str "alice" ∷ [])
    carol_absent (Memᴰ.head e) = absurd (ground (arith, e))
    carol_absent (Memᴰ.tail m) = elim m [ ]

export_invalid_address_example :
    export_app_state_and_validators sample_keepers true (str "bob" ∷ [] ∷ []) [] before
    ≡ panic (message "empty address string is not allowed" [])
export_invalid_address_example =
    export_invalid_address sample_keepers (str "bob" ∷ []) [] [] []
      (message "empty address string is not allowed" []) before ((str "bob", refl), tt) refl

abbrev exported : ExportedApp sample_keepers
exported = record {
  app_state = 100;
  validators = str "alice" ∷ [];
  height = 42;
  consensus_params = 0;
}

export_height_example :
    (export_app_state_and_validators sample_keepers false [] [] before ≡ ok (before, exported)
      → (exported.height ≡ 42 % 2 ^ 64) × (before ≡ before))
    × (export_app_state_and_validators sample_keepers true [] [] before ≡ ok (before, exported)
        → (exported.height ≡ 0)
          × (prep_for_zero_height_genesis sample_keepers 41 [] before ≡ ok before))
export_height_example = export_height sample_keepers [] [] before before exported

exported_now :
    export_app_state_and_validators sample_keepers false [] [] before ≡ ok (before, exported)
unfolding export_app_state_and_validators write_export
exported_now = refl
