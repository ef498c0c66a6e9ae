-- ===== src/Testnet/Machine.antt =====
-- What initTestnetFiles calls besides the files: keys, transactions and configs of the nodes.
use chain_rice.Common.{ℕ, GoString, Bytes, List}
use chain_rice.Common.Result.{Result}
use chain_rice.Common.Run.{Run}
use chain_rice.Testnet.Args.{Coins, AppConfig}
use chain_rice.Testnet.GenFiles.{Genesis}

-- The fields of the node's config that the loop sets before it makes the validator's files.
pub record NodeSetup : Type 0 where
  pub root : GoString
  pub moniker : GoString
  pub rpc_listen_address : GoString

-- genutil, keyring, tx and the messages of x/staking. `intn n` is a random number below `n`.
-- `WriteConfigFile` panics on an error.
pub record Machine (c : Coins) (g : Genesis) (State : Type 0) : Type 1 where
  pub PubKey : Type 0
  pub Keyring : Type 0
  pub Algo : Type 0
  pub Address : Type 0
  pub Msg : Type 0
  pub Tx : Type 0
  pub default_config : AppConfig
  pub default_bond_denom : GoString
  pub intn : ℕ → Run State ℕ
  pub genesis_file : GoString → GoString
  pub initialize_node_validator_files : NodeSetup → Run State (GoString × PubKey)
  pub new_keyring : GoString → GoString → Run State Keyring
  pub new_signing_algo : GoString → Keyring → Result Algo
  pub generate_save_coin_key : Keyring → GoString → Algo → Run State (Address × GoString)
  pub marshal_secret : GoString → Result Bytes
  pub address_string : Address → GoString
  pub val_address_string : Address → GoString
  pub new_base_account : Address → g.Account
  pub sorted_coins : List (GoString × c.Int) → g.CoinSet
  pub new_msg_create_validator : GoString → PubKey → c.Coin → GoString → Result Msg
  pub set_msgs : Msg → Result Tx
  pub set_memo : GoString → Tx → Tx
  pub sign : GoString → GoString → Keyring → GoString → Tx → Run State Tx
  pub encode_tx : Tx → Result Bytes
  pub write_app_config : GoString → AppConfig → Run State (Unit {0})
