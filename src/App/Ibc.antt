-- ===== src/App/Ibc.antt =====
-- app/ibc.go: registerIBCModules, and the App of app/app.go whose fields it sets.
pub mod Stores
use chain_rice.Common.{ℕ, ◌≡◌, GoString, str, Option, none, some, List, [], ◌∷◌, map}
use chain_rice.Common.Result.{Error, Result, ok, err, panic}
use chain_rice.Common.Run.{Run, pure, lift, ◌>>=◌, ◌>>◌}
use chain_rice.Chainrice.Keeper.{string_or_empty}

-- The names of modules, submodules and stores, which are constants of ibc-go.
pub record IbcNames : Type 0 where
  pub ibc : GoString
  pub transfer : GoString
  pub ica : GoString
  pub ica_host : GoString
  pub ica_controller : GoString
  pub tendermint : GoString
  pub solomachine : GoString
  pub ibc_store : GoString
  pub transfer_store : GoString
  pub ica_host_store : GoString
  pub ica_controller_store : GoString

-- What the function uses of the SDK and of ibc-go. `Runtime` is the embedded `runtime.App` with the
-- keepers that are injected; `Keeper` is the IBC keeper, which is shared by its pointer. Adding a route
-- panics if the name is taken, or after the router is set.
pub record IbcSdk : Type 1 where
  pub names : IbcNames
  pub Runtime : Type 0
  pub StoreKey : Type 0
  pub Subspace : Type 0
  pub KeyTable : Type 0
  pub Service : Type 0
  pub Keeper : Type 0
  pub ChannelKeeper : Type 0
  pub TransferKeeper : Type 0
  pub HostKeeper : Type 0
  pub ControllerKeeper : Type 0
  pub IbcModule : Type 0
  pub Router : Type 0
  pub LightClient : Type 0
  pub AppModule : Type 0
  pub register_stores : List GoString → Run Runtime (Unit {0})
  pub unsafe_find_store_key : Runtime → GoString → Option StoreKey
  pub params_get_subspace : Runtime → GoString → Subspace
  pub client_key_table : KeyTable
  pub register_connection_params : KeyTable → KeyTable
  pub transfer_key_table : KeyTable
  pub controller_key_table : KeyTable
  pub host_key_table : KeyTable
  pub with_key_table : GoString → KeyTable → Run Runtime (Unit {0})
  pub gov_address_to_string : Runtime → Result GoString
  pub new_kv_store_service : Option StoreKey → Service
  pub new_keeper : Runtime → Service → Subspace → GoString → Keeper
  pub channel_keeper : Keeper → ChannelKeeper
  pub new_transfer_keeper : Runtime → Service → Subspace → ChannelKeeper → GoString → TransferKeeper
  pub new_host_keeper : Runtime → Service → Subspace → ChannelKeeper → GoString → HostKeeper
  pub new_controller_keeper :
      Runtime → Service → Subspace → ChannelKeeper → GoString → ControllerKeeper
  pub transfer_ibc_module : TransferKeeper → IbcModule
  pub controller_middleware : ControllerKeeper → IbcModule
  pub host_ibc_module : HostKeeper → IbcModule
  pub new_router : Router
  pub add_route : GoString → IbcModule → Router → Result Router
  pub set_router : Router → Keeper → Result Keeper
  pub tendermint_client : Runtime → Keeper → LightClient
  pub solomachine_client : Runtime → Keeper → LightClient
  pub add_client_route : GoString → LightClient → Keeper → Result Keeper
  pub ibc_app_module : Keeper → AppModule
  pub transfer_app_module : TransferKeeper → AppModule
  pub ica_app_module : ControllerKeeper → HostKeeper → AppModule
  pub tendermint_app_module : LightClient → AppModule
  pub solomachine_app_module : LightClient → AppModule
  pub register_modules : List AppModule → Run Runtime (Unit {0})

-- The fields that are set here; the injected keepers are in `runtime`.
pub record App (sdk : IbcSdk) : Type 0 where
  pub runtime : sdk.Runtime
  pub ibc_keeper : Option sdk.Keeper
  pub transfer_keeper : Option sdk.TransferKeeper
  pub ica_host_keeper : Option sdk.HostKeeper
  pub ica_controller_keeper : Option sdk.ControllerKeeper

module _ (sdk : IbcSdk) where
  open sdk use {names, Runtime, Router, Keeper}

  -- A call on the embedded app.
  abbrev pub on_runtime : {A : Type 0} → Run Runtime A → Run (App sdk) A
  on_runtime run a = ((run a.runtime).0, record a { runtime = (run a.runtime).1 })

  abbrev get_runtime : Run (App sdk) Runtime
  get_runtime a = (ok a.runtime, a)

  abbrev set_ibc_keeper : Keeper → Run (App sdk) (Unit {0})
  set_ibc_keeper k a = (ok tt, record a { ibc_keeper = some k })

  abbrev set_transfer_keeper : sdk.TransferKeeper → Run (App sdk) (Unit {0})
  set_transfer_keeper k a = (ok tt, record a { transfer_keeper = some k })

  abbrev set_host_keeper : sdk.HostKeeper → Run (App sdk) (Unit {0})
  set_host_keeper k a = (ok tt, record a { ica_host_keeper = some k })

  abbrev set_controller_keeper : sdk.ControllerKeeper → Run (App sdk) (Unit {0})
  set_controller_keeper k a = (ok tt, record a { ica_controller_keeper = some k })

  -- `runtime.NewKVStoreService(app.GetKey(name))`
  abbrev pub service : Runtime → GoString → sdk.Service
  service r name = sdk.new_kv_store_service (sdk.unsafe_find_store_key r name)

  unfoldable pub register_key_tables : Run (App sdk) (Unit {0})
  register_key_tables = do
    on_runtime (sdk.with_key_table names.ibc (sdk.register_connection_params sdk.client_key_table))
    on_runtime (sdk.with_key_table names.transfer sdk.transfer_key_table)
    on_runtime (sdk.with_key_table names.ica_controller sdk.controller_key_table)
    on_runtime (sdk.with_key_table names.ica_host sdk.host_key_table)

  abbrev pub store_keys : List GoString
  store_keys =
      names.ibc_store ∷ names.transfer_store ∷ names.ica_host_store ∷ names.ica_controller_store
      ∷ []

  unfoldable pub create_ibc_keeper : GoString → Run (App sdk) Keeper
  create_ibc_keeper gov = do
    r ← get_runtime
    let k = sdk.new_keeper r (service r names.ibc_store) (sdk.params_get_subspace r names.ibc) gov
    set_ibc_keeper k
    pure k

  unfoldable pub create_keepers :
      GoString → Keeper → Run (App sdk) (sdk.TransferKeeper × sdk.HostKeeper × sdk.ControllerKeeper)
  create_keepers gov k = do
    r ← get_runtime
    let channel = sdk.channel_keeper k
    let transfer =
        sdk.new_transfer_keeper r (service r names.transfer_store)
          (sdk.params_get_subspace r names.transfer) channel gov
    set_transfer_keeper transfer
    let host =
        sdk.new_host_keeper r (service r names.ica_host_store)
          (sdk.params_get_subspace r names.ica_host) channel gov
    set_host_keeper host
    let controller =
        sdk.new_controller_keeper r (service r names.ica_controller_store)
          (sdk.params_get_subspace r names.ica_controller) channel gov
    set_controller_keeper controller
    pure (transfer, host, controller)

  -- The static router, from the bottom of the stack to its top.
  unfoldable pub ibc_router :
      sdk.TransferKeeper → sdk.HostKeeper → sdk.ControllerKeeper → Run (App sdk) Router
  ibc_router transfer host controller = do
    r1 ← lift (sdk.add_route names.transfer (sdk.transfer_ibc_module transfer) sdk.new_router)
    r2 ← lift (sdk.add_route names.ica_controller (sdk.controller_middleware controller) r1)
    lift (sdk.add_route names.ica_host (sdk.host_ibc_module host) r2)

  -- The light clients, with the keeper that has their routes.
  unfoldable pub add_light_clients :
      Keeper → Run (App sdk) (Keeper × sdk.LightClient × sdk.LightClient)
  add_light_clients k = do
    r ← get_runtime
    let tm = sdk.tendermint_client r k
    k1 ← lift (sdk.add_client_route names.tendermint tm k)
    set_ibc_keeper k1
    let solo = sdk.solomachine_client r k1
    k2 ← lift (sdk.add_client_route names.solomachine solo k1)
    set_ibc_keeper k2
    pure (k2, tm, solo)

  -- The stores, the key tables and the keepers.
  unfoldable pub set_up_keepers :
      Run (App sdk) (Keeper × sdk.TransferKeeper × sdk.HostKeeper × sdk.ControllerKeeper)
  set_up_keepers = do
    on_runtime (sdk.register_stores store_keys)
    register_key_tables
    r ← get_runtime
    gov ← lift (string_or_empty (sdk.gov_address_to_string r))
    k ← create_ibc_keeper gov
    (transfer, host, controller) ← create_keepers gov k
    pure (k, transfer, host, controller)

  -- The routes of the keepers and of the light clients, and the modules.
  unfoldable pub set_up_routes :
      Keeper → sdk.TransferKeeper → sdk.HostKeeper → sdk.ControllerKeeper → Run (App sdk) (Unit {0})
  set_up_routes k transfer host controller = do
    router ← ibc_router transfer host controller
    routed ← lift (sdk.set_router router k)
    set_ibc_keeper routed
    (clients, tm, solo) ← add_light_clients routed
    on_runtime (
        sdk.register_modules (
          sdk.ibc_app_module clients
          ∷ sdk.transfer_app_module transfer
          ∷ sdk.ica_app_module controller host
          ∷ sdk.tendermint_app_module tm
          ∷ sdk.solomachine_app_module solo
          ∷ []))

  unfoldable pub register_ibc_modules : Run (App sdk) (Unit {0})
  register_ibc_modules = do
    (k, transfer, host, controller) ← set_up_keepers
    set_up_routes k transfer host controller
