-- ===== src/Chainrice/AppModule.antt =====
-- x/chainrice/module: module.go, depinject.go and simulation.go.

use chain_rice.Common.{ℕ, String, GoString, is_empty, ◌≡◌, List, [], ◌∷◌, if◌then◌else◌, Bytes}
use chain_rice.Common.Result.{Result, ok, must, must_with, wrap_err, ◌>>=◌}
use chain_rice.Chainrice.Types.{
  GenesisState, default_params, default_genesis, validate_genesis_state, Module, module_name,
  gov_module_name,
}
use chain_rice.Chainrice.Keeper.{Sdk, Keeper, new_keeper, init_genesis, export_genesis}

-- The JSON codec on the module's genesis. `UnmarshalJSON` reads back what `MarshalJSON` wrote.
pub record JsonCodec : Type 1 where
  pub Json : Type 0
  pub marshal : GenesisState → Result Json
  pub unmarshal : Json → Result GenesisState
  pub unmarshal-marshal : (g : GenesisState) (j : Json) → marshal g ≡ ok j → unmarshal j ≡ ok g

-- `authtypes.NewModuleAddress` and `NewModuleAddressOrBech32Address`.
pub record ModuleAddresses : Type 0 where
  pub new_module_address : GoString → Bytes
  pub new_module_address_or_bech32 : GoString → Bytes

pub record AppModule : Type 0 where
  pub keeper : Keeper

pub record ModuleOutputs : Type 0 where
  pub chainrice_keeper : Keeper
  pub app_module : AppModule

abbrev pub unmarshal_failed : String
unmarshal_failed = "failed to unmarshal %s genesis state: %w"

-- A Go map from module names, as the list of its writes, the latest first.
abbrev pub set_genesis {ℓ} : {J : Type ℓ} → GoString → J → List (GoString × J) → List (GoString × J)
set_genesis name j gen_state = (name, j) ∷ gen_state

-- The authority that the config names, or else the gov module.
unfoldable pub module_authority : ModuleAddresses → Module → Bytes
module_authority addresses config =
    if is_empty config.authority
    then addresses.new_module_address gov_module_name
    else addresses.new_module_address_or_bech32 config.authority

module _ (sdk : Sdk) where
  open sdk use {State}

  unfoldable pub provide_module : ModuleAddresses → Module → Result ModuleOutputs
  unfolding module_authority
  provide_module addresses config = do
    k ← new_keeper sdk (module_authority addresses config)
    ok (record { chainrice_keeper = k; app_module = record { keeper = k } })

  module _ (json : JsonCodec) where
    open json use {Json, marshal, unmarshal}

    -- `MustMarshalJSON` panics on an error.
    unfoldable pub default_genesis_json : AppModule → Result Json
    unfolding default_genesis
    default_genesis_json am = must (marshal default_genesis)

    unfoldable pub validate_genesis : AppModule → Json → Result (Unit {0})
    unfolding validate_genesis_state
    validate_genesis am bz = do
      gen_state ← wrap_err unmarshal_failed (module_name ∷ []) (unmarshal bz)
      validate_genesis_state gen_state

    unfoldable pub init_genesis_json : AppModule → State → Json → Result State
    unfolding init_genesis
    init_genesis_json am s gs = do
      gen_state ← must_with unmarshal_failed (module_name ∷ []) (unmarshal gs)
      must_with "failed to initialize %s genesis state: %w" (module_name ∷ [])
          (init_genesis sdk am.keeper s gen_state)

    unfoldable pub export_genesis_json : AppModule → State → Result Json
    unfolding export_genesis
    export_genesis_json am s = do
      gen_state ←
          must_with "failed to export %s genesis state: %w" (module_name ∷ [])
            (export_genesis sdk am.keeper s)
      must_with "failed to marshal %s genesis state: %w" (module_name ∷ []) (marshal gen_state)

    abbrev pub SimulationState : Type 0
    SimulationState = List (GoString × Json)

    -- The addresses that the code collects first are not used.
    unfoldable pub generate_genesis_state : AppModule → SimulationState → Result SimulationState
    unfolding default_params
    generate_genesis_state am sim = do
      j ← must (marshal (record { params = default_params }))
      ok (set_genesis module_name j sim)

  -- The block hooks change nothing.
  unfoldable pub begin_block : AppModule → State → Result State
  begin_block am s = ok s

  unfoldable pub end_block : AppModule → State → Result State
  end_block am s = ok s

abbrev pub consensus_version : ℕ
consensus_version = 1
