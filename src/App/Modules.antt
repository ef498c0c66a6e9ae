-- ===== src/App/Modules.antt =====
-- app/app_config.go: the modules of the application, their configuration, and the orders in which the
-- runtime calls them.
use chain_rice.Common.{ℕ, suc, GoString, str, Bool, true, ◌==◌, List, [], ◌∷◌, ◌++◌, if◌then◌else◌}
use chain_rice.App.Accounts.{Names, module_acc_perms, block_acc_addrs}

-- `Name`, `AccountAddressPrefix` and `ChainCoinType` of app/app.go.
abbrev pub name : GoString
name = str "chain-rice"

abbrev pub account_address_prefix : GoString
account_address_prefix = str "cosmos"

abbrev pub chain_coin_type : ℕ
chain_coin_type = 118

-- What the `init` of app/config.go sets in the SDK's config.
pub record SdkConfig : Type 0 where
  pub coin_type : ℕ
  pub account_address : GoString
  pub account_pub_key : GoString
  pub validator_address : GoString
  pub validator_pub_key : GoString
  pub cons_node_address : GoString
  pub cons_node_pub_key : GoString

unfoldable pub sealed_config : SdkConfig
sealed_config = record {
  coin_type = chain_coin_type;
  account_address = account_address_prefix;
  account_pub_key = account_address_prefix ++ str "pub";
  validator_address = account_address_prefix ++ str "valoper";
  validator_pub_key = account_address_prefix ++ str "valoperpub";
  cons_node_address = account_address_prefix ++ str "valcons";
  cons_node_pub_key = account_address_prefix ++ str "valconspub";
}

-- The modules by the constants of their names, which differ, and the two light clients of IBC.
pub data ModuleName : Type 0 where
  runtime auth vesting bank staking slashing tx genutil authz upgrade : ModuleName
  distr evidence mint group nft feegrant gov consensus circuit params : ModuleName
  epochs chainrice ibc transfer ica tendermint solomachine : ModuleName

unfoldable pub index : ModuleName → ℕ
index runtime = 0
index auth = 1
index vesting = 2
index bank = 3
index staking = 4
index slashing = 5
index tx = 6
index genutil = 7
index authz = 8
index upgrade = 9
index distr = 10
index evidence = 11
index mint = 12
index group = 13
index nft = 14
index feegrant = 15
index gov = 16
index consensus = 17
index circuit = 18
index params = 19
index epochs = 20
index chainrice = 21
index ibc = 22
index transfer = 23
index ica = 24
index tendermint = 25
index solomachine = 26

unfoldable pub pre_blockers : List ModuleName
pre_blockers = upgrade ∷ auth ∷ []

unfoldable pub begin_blockers : List ModuleName
begin_blockers =
    mint ∷ distr ∷ slashing ∷ evidence ∷ staking ∷ authz ∷ epochs ∷ ibc ∷ chainrice ∷ []

unfoldable pub end_blockers : List ModuleName
end_blockers = gov ∷ staking ∷ feegrant ∷ group ∷ chainrice ∷ []

unfoldable pub init_genesis_order : List ModuleName
init_genesis_order =
    consensus ∷ auth ∷ bank ∷ distr ∷ staking ∷ slashing ∷ gov ∷ mint ∷ genutil ∷ evidence ∷ authz
    ∷ feegrant ∷ vesting ∷ nft ∷ group ∷ upgrade ∷ circuit ∷ epochs ∷ ibc ∷ transfer ∷ ica
    ∷ chainrice ∷ []

-- The configuration of a module, by the fields that are set. A duration is in seconds.
pub data ModuleConfig : Type 0 where
  no_fields : ModuleConfig
  runtime_config :
      (app_name : GoString) (pre begin end : List ModuleName)
      (override_store_keys : List (ModuleName × GoString)) (genesis : List ModuleName)
      → ModuleConfig
  auth_config :
      (bech32_prefix : GoString) (permissions : List (GoString × List GoString))
      (enable_unordered_transactions : Bool)
      → ModuleConfig
  bank_config : (blocked_module_accounts_override : List GoString) → ModuleConfig
  group_config : (max_execution_period max_metadata_len : ℕ) → ModuleConfig

unfoldable pub modules_config : Names → List (ModuleName × ModuleConfig)
modules_config n =
    (
      runtime,
      runtime_config name pre_blockers begin_blockers end_blockers ((auth, str "acc") ∷ [])
          init_genesis_order,
    )
    ∷ (auth, auth_config account_address_prefix (module_acc_perms n) true)
    ∷ (vesting, no_fields)
    ∷ (bank, bank_config (block_acc_addrs n))
    ∷ (staking, no_fields)
    ∷ (slashing, no_fields)
    ∷ (tx, no_fields)
    ∷ (genutil, no_fields)
    ∷ (authz, no_fields)
    ∷ (upgrade, no_fields)
    ∷ (distr, no_fields)
    ∷ (evidence, no_fields)
    ∷ (mint, no_fields)
    ∷ (group, group_config 1209600 255)
    ∷ (nft, no_fields)
    ∷ (feegrant, no_fields)
    ∷ (gov, no_fields)
    ∷ (consensus, no_fields)
    ∷ (circuit, no_fields)
    ∷ (params, no_fields)
    ∷ (epochs, no_fields)
    ∷ (chainrice, no_fields)
    ∷ []

-- app/ibc.go: the modules that registerIBCModules registers, and RegisterIBC on the client side.
unfoldable pub ibc_modules : List ModuleName
ibc_modules = ibc ∷ transfer ∷ ica ∷ tendermint ∷ solomachine ∷ []

abbrev pub same : ModuleName → ModuleName → Bool
same m m' = index m == index m'

-- How often a module occurs.
unfoldable pub count : ModuleName → List ModuleName → ℕ
count m [] = 0
count m (m' ∷ ms) = let rest = count m ms in if same m m' then suc rest else rest

abbrev pub modules_of : List (ModuleName × ModuleConfig) → List ModuleName
modules_of [] = []
modules_of ((m, c) ∷ rest) = m ∷ modules_of rest
