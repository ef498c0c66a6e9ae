-- ===== src/Testnet/Replace.antt =====
-- cmd/chain-riced/cmd/testnet.go: initAppForTestnet, which puts one validator in the place of all others,
-- and newTestnetApp.
pub mod Stores
use mathlib.Core.List.{Memᴰ}
use chain_rice.Common.{
  ℕ, ◌+◌, ◌%◌, ◌^◌, ◌-◌, ◌≡◌, ◌≢◌, ◌↔◌, GoString, str, Bytes, Bool, true, false, ◌&&◌, ◌==◌, Option,
  none, List, [], ◌∷◌,
}
use chain_rice.Common.Result.{Error, message, Result, ok, err, panic, must, or_keep, ◌>>=◌}
use chain_rice.Testnet.InPlace.{
  AppOptions, ValArgs, get_command_args, handle_err, Bank, fund_accounts,
}

abbrev pub has_prefix : Bytes → Bytes → Bool
has_prefix [] q = true
has_prefix (c ∷ p) [] = false
has_prefix (c ∷ p) (d ∷ q) = c == d && has_prefix p q

-- A validator of x/staking, by the fields that are set. A decimal is the string that it is parsed from.
pub record Validator (Any : Type 0) : Type 0 where
  pub operator_address : GoString
  pub consensus_pubkey : Any
  pub jailed : Bool
  pub status_bonded : Bool
  pub tokens : ℕ
  pub delegator_shares : GoString
  pub moniker : GoString
  pub rate : GoString
  pub max_rate : GoString
  pub max_change_rate : GoString
  pub min_self_delegation : ℕ

-- The store of x/staking, and the keeper's functions over it. A key of the store has at most one value.
-- An iterator over a prefix gives the keys with this prefix, as they are when it is made, and
-- each setter writes under one key.
pub record Staking : Type 1 where
  pub Any : Type 0
  pub Store : Type 0
  pub content : Store → Bytes → Option Bytes
  pub delete : Bytes → Store → Store
  pub validators_by_power_index_key : Bytes
  pub last_validator_power_key : Bytes
  pub validators_key : Bytes
  pub validator_queue_key : Bytes
  pub prefix_end_bytes : Bytes → Bytes
  pub iterator : Bytes → Bytes → Store → List Bytes
  pub validators_power_store_iterator : Store → Result (List Bytes)
  pub last_validators_iterator : Store → Result (List Bytes)
  pub validator_string_to_bytes : GoString → Result Bytes
  pub set_validator : Validator Any → Store → Result Store
  pub set_validator_by_cons_addr : Validator Any → Store → Result Store
  pub set_validator_by_power_index : Validator Any → Store → Result Store
  pub set_last_validator_power : Bytes → ℕ → Store → Result Store
  pub validator_key : Validator Any → Bytes
  pub cons_addr_key : Validator Any → Bytes
  pub power_index_key : Validator Any → Bytes
  pub last_power_key : Bytes → Bytes
  pub bond_denom : Store → Result GoString

-- `keys` are the keys of the store with this prefix.
abbrev pub Enumerates : (k : Staking) → k.Store → Bytes → List Bytes → Type 0
Enumerates k s p keys =
    (q : Bytes) → Memᴰ q keys ↔ ((k.content s q ≢ none) × (has_prefix p q ≡ true))

-- What x/staking promises of its store.
pub record Lawful (k : Staking) : Type 0 where
  pub delete-own : (s : k.Store) (p : Bytes) → k.content (k.delete p s) p ≡ none
  pub delete-other :
      (s : k.Store) (p q : Bytes) → q ≢ p → k.content (k.delete p s) q ≡ k.content s q
  pub iterator-Enumerates :
      (s : k.Store) (p : Bytes) → Enumerates k s p (k.iterator p (k.prefix_end_bytes p) s)
  pub power-Enumerates :
      (s : k.Store) (keys : List Bytes)
      → k.validators_power_store_iterator s ≡ ok keys
      → Enumerates k s k.validators_by_power_index_key keys
  pub last-Enumerates :
      (s : k.Store) (keys : List Bytes)
      → k.last_validators_iterator s ≡ ok keys
      → Enumerates k s k.last_validator_power_key keys
  pub set_validator-other :
      (s s' : k.Store) (v : Validator k.Any) (q : Bytes)
      → k.set_validator v s ≡ ok s'
      → q ≢ k.validator_key v
      → k.content s' q ≡ k.content s q
  pub set_cons_addr-other :
      (s s' : k.Store) (v : Validator k.Any) (q : Bytes)
      → k.set_validator_by_cons_addr v s ≡ ok s'
      → q ≢ k.cons_addr_key v
      → k.content s' q ≡ k.content s q
  pub set_power_index-other :
      (s s' : k.Store) (v : Validator k.Any) (q : Bytes)
      → k.set_validator_by_power_index v s ≡ ok s'
      → q ≢ k.power_index_key v
      → k.content s' q ≡ k.content s q
  pub set_last_power-other :
      (s s' : k.Store) (a : Bytes) (n : ℕ) (q : Bytes)
      → k.set_last_validator_power a n s ≡ ok s'
      → q ≢ k.last_power_key a
      → k.content s' q ≡ k.content s q

-- The stores of the other modules, and what is called on them. The hooks of x/staking, which are those
-- of x/distribution and x/slashing, write to the stores of these.
pub record Others (k : Staking) : Type 1 where
  pub State : Type 0
  pub Coins : Type 0
  pub new_coins : GoString → ℕ → Result Coins
  pub bank : Coins → Bank State
  pub new_any_with_value : Bytes → Result k.Any
  pub after_validator_created : k.Store → Bytes → State → Result State
  pub set_validator_historical_rewards : Bytes → ℕ → ℕ → State → Result State
  pub set_validator_current_rewards : Bytes → ℕ → State → Result State
  pub set_initial_accumulated_commission : Bytes → State → Result State
  pub set_no_outstanding_rewards : Bytes → State → Result State
  pub set_signing_info : Bytes → ℕ → State → Result State
  pub last_block_height : ℕ

abbrev pub val_voting_power : ℕ
val_voting_power = 900000000000000

-- `newVal`
unfoldable pub new_validator : {Any : Type 0} → GoString → Any → Validator Any
new_validator new_operator_address pubkey_any = record {
  operator_address = new_operator_address;
  consensus_pubkey = pubkey_any;
  jailed = false;
  status_bonded = true;
  tokens = val_voting_power;
  delegator_shares = str "10000000";
  moniker = str "Testnet Validator";
  rate = str "0.05";
  max_rate = str "0.1";
  max_change_rate = str "0.05";
  min_self_delegation = 1;
}

module _ (k : Staking) where
  open k use {Store}

  -- `for ; iterator.Valid(); iterator.Next() { stakingStore.Delete(iterator.Key()) }`
  unfoldable pub delete_all : List Bytes → Store → Store
  delete_all [] s = s
  delete_all (key ∷ keys) s = delete_all keys (k.delete key s)

  unfoldable pub delete_prefix : Bytes → Store → Store
  delete_prefix p s = delete_all (k.iterator p (k.prefix_end_bytes p) s) s

  -- The four loops that remove all validators.
  unfoldable pub remove_validators : Store → Result Store
  remove_validators s = do
    by_power ← handle_err (k.validators_power_store_iterator s)
    let s1 = delete_all by_power s
    last ← handle_err (k.last_validators_iterator s1)
    let s2 = delete_all last s1
    ok (delete_prefix k.validator_queue_key (delete_prefix k.validators_key s2))

  unfoldable pub add_validator : Validator k.Any → Bytes → Store → Result Store
  add_validator new_val validator s = do
    s1 ← handle_err (k.set_validator new_val s)
    s2 ← handle_err (k.set_validator_by_cons_addr new_val s1)
    s3 ← handle_err (k.set_validator_by_power_index new_val s2)
    handle_err (k.set_last_validator_power validator 0 s3)

  module _ (o : Others k) where
    open o use {State}

    unfoldable pub init_distribution : Bytes → State → Result State
    init_distribution validator t = do
      t1 ← handle_err (o.set_validator_historical_rewards validator 0 1 t)
      t2 ← handle_err (o.set_validator_current_rewards validator 1 t1)
      t3 ← handle_err (o.set_initial_accumulated_commission validator t2)
      handle_err (o.set_no_outstanding_rewards validator t3)

    -- `app.App.LastBlockHeight() - 1`, as an int64
    abbrev start_height : ℕ
    start_height = (o.last_block_height + (2 ^ 64 - 1)) % 2 ^ 64

    -- What follows in the stores of the other modules.
    unfoldable pub init_others : ValArgs → Bytes → Store → State → Result State
    init_others args validator s t = do
      t1 ← handle_err (o.after_validator_created s validator t)
      t2 ← init_distribution validator t1
      t3 ← or_keep (o.set_signing_info args.new_val_addr start_height t2) t2
      bond_denom ← handle_err (k.bond_denom s)
      default_coins ← o.new_coins bond_denom 1000000000
      fund_accounts (o.bank default_coins) args.accounts_to_fund t3

    unfoldable pub init_app_for_testnet : ValArgs → Store → State → Result (Store × State)
    init_app_for_testnet args s t = do
      pubkey_any ← handle_err (o.new_any_with_value args.new_val_pub_key)
      let new_val = new_validator args.new_operator_address pubkey_any
      validator ← handle_err (k.validator_string_to_bytes new_val.operator_address)
      s1 ← remove_validators s
      s2 ← add_validator new_val validator s1
      t' ← init_others args validator s2 t
      ok (s2, t')

    -- The application that `newApp` returned, by its dynamic type.
    pub data Application : Type 0 where
      app : Store → State → Application
      other_application : Application

    unfoldable pub new_testnet_app : AppOptions → Application → Result (Store × State)
    new_testnet_app opts other_application =
        panic (message "app created from newApp is not of type App" [])
    new_testnet_app opts (app s t) = do
      args ← must (get_command_args opts)
      init_app_for_testnet args s t
