-- ===== src/Chainrice/Tests.antt =====
-- The module over a store that holds at most one value, runs of it, and the theorems at inputs.

use chain_rice.Common.{
  bytes_equal, GoString, str, ℕ, ◌≡◌, ◌↔◌, refl, Option, none, some, List, [], ◌∷◌, if◌then◌else◌,
  Bytes, arith,
}
use chain_rice.Common.Result.{message, wrap, not_found, Result, ok, err}
use chain_rice.Chainrice.Types.{Params, GenesisState, MsgUpdateParams, err_invalid_signer}
use chain_rice.Chainrice.Keeper.{
  Sdk, Keeper, new_keeper, update_params, query_params, export_genesis,
}
use chain_rice.Chainrice.AppModule.{
  JsonCodec, ModuleAddresses, AppModule, provide_module, init_genesis_json, export_genesis_json,
  validate_genesis, generate_genesis_state, begin_block, end_block,
}
use chain_rice.Chainrice.Authority.{
  update_params_authorised, update_params_rejects_signer, provide_module-update_params,
}
use chain_rice.Chainrice.Genesis.{
  query-update_params, Event, begins, ends, delivers, begin, end, refused, Run, here, next,
  Run-Unsigned, export-init_genesis_json, export_genesis-after-Run,
}

abbrev pub cell_get : Option Params → Result Params
cell_get none = err not_found
cell_get (some p) = ok p

pub cell_get_set :
    (s s' : Option Params) (p : Params)
    → ◌≡◌ {A = Result (Option Params)} (ok (some p)) (ok s')
    → cell_get s' ≡ ok p
cell_get_set s s' p h = ground arith

abbrev pub decode_address : GoString → Result Bytes
decode_address a =
    if bytes_equal a (str "cosmos1gov")
    then ok (1 ∷ [])
    else if bytes_equal a (str "cosmos1eve")
    then ok (2 ∷ [])
    else err (message "decoding bech32 failed" [])

abbrev pub sdk : Sdk
sdk = record {
  State = Option Params;
  params_get = cell_get;
  params_set = λ s p. ok (some p);
  build_schema = ok tt;
  string_to_bytes = decode_address;
  bytes_to_string = λ b. ok (str "cosmos1gov");
  get-set = cell_get_set;
}

json_back :
    (g : GenesisState) (j : ℕ)
    → ◌≡◌ {A = Result ℕ} (ok 0) (ok j)
    → ◌≡◌ {A = Result GenesisState} (ok (record { params = record {} })) (ok g)
json_back g j h = refl

abbrev json : JsonCodec
json = record {
  Json = ℕ;
  marshal = λ g. ok 0;
  unmarshal = λ j. ok (record { params = record {} });
  unmarshal-marshal = json_back;
}

abbrev addresses : ModuleAddresses
addresses = record { new_module_address = λ n. 1 ∷ []; new_module_address_or_bech32 = λ a. 2 ∷ [] }

abbrev pub keeper : Keeper
keeper = record { authority = 1 ∷ [] }

abbrev am : AppModule
am = record { keeper = keeper }

abbrev pub from_gov : MsgUpdateParams
from_gov = record { authority = str "cosmos1gov"; params = record {} }

abbrev from_eve : MsgUpdateParams
from_eve = record { authority = str "cosmos1eve"; params = record {} }

abbrev pub stored : Option Params
stored = some (record {})

pub update_by_gov : update_params sdk keeper none from_gov ≡ ok (stored, record {})
unfolding update_params
update_by_gov = refl

update_by_eve :
    update_params sdk keeper stored from_eve
    ≡ err (
        wrap "invalid authority; expected %s, got %s"
          (str "cosmos1gov" ∷ str "cosmos1eve" ∷ [])
          err_invalid_signer)
unfolding update_params
update_by_eve = refl

query_empty : query_params sdk keeper none (some (record {})) ≡ ok (record { params = record {} })
unfolding query_params
query_empty = refl

export_empty : export_genesis sdk keeper none ≡ err not_found
unfolding export_genesis
export_empty = refl

simulated : generate_genesis_state sdk json am [] ≡ ok ((str "chainrice", 0) ∷ [])
unfolding generate_genesis_state
simulated = refl

validated : validate_genesis sdk json am 0 ≡ ok tt
unfolding validate_genesis
validated = refl

provided :
    provide_module sdk addresses (record { authority = [] })
    ≡ ok (record { chainrice_keeper = keeper; app_module = am })
unfolding provide_module new_keeper
provided = refl

loaded : init_genesis_json sdk json am none 0 ≡ ok stored
unfolding init_genesis_json
loaded = refl

update_params_authorised_example :
    (update_params sdk keeper none from_gov ≡ ok (stored, record {})) ↔ (
      (decode_address (str "cosmos1gov") ≡ ok (1 ∷ []))
      × ((sdk.params_set none (record {})) ≡ ok stored))
update_params_authorised_example = update_params_authorised sdk keeper none from_gov stored

update_params_rejects_signer_example :
    update_params sdk keeper stored from_eve
    ≡ err (
        wrap "invalid authority; expected %s, got %s"
          (str "cosmos1gov" ∷ str "cosmos1eve" ∷ [])
          err_invalid_signer)
update_params_rejects_signer_example =
    update_params_rejects_signer sdk keeper stored from_eve (2 ∷ []) (str "cosmos1gov") refl
      (ground arith) refl

provide_module-update_params_example :
    (update_params sdk keeper none from_gov ≡ ok (stored, record {})) ↔ (
      (decode_address (str "cosmos1gov") ≡ ok (1 ∷ []))
      × ((sdk.params_set none (record {})) ≡ ok stored))
provide_module-update_params_example =
    provide_module-update_params sdk addresses (record { authority = [] })
      (record { chainrice_keeper = keeper; app_module = am }) none stored from_gov provided

query-update_params_example :
    (query_params sdk keeper stored (some (record {})) ≡ ok (record { params = record {} }))
    × (export_genesis sdk keeper stored ≡ ok (record { params = record {} }))
query-update_params_example =
    query-update_params sdk keeper none stored from_gov (record {}) (record {}) update_by_gov

abbrev eve_block : List Event
eve_block = ends ∷ delivers from_eve ∷ begins ∷ []

block_of_eve : Run sdk am stored eve_block stored
unfolding begin_block end_block
block_of_eve = next (next (next here (begin refl)) (refused from_eve _ update_by_eve)) (end refl)

Run-Unsigned_example : stored ≡ stored
Run-Unsigned_example = Run-Unsigned sdk am {es = eve_block} block_of_eve (ground arith, tt)

export-init_genesis_json_example : export_genesis_json sdk json am stored ≡ ok 0
export-init_genesis_json_example =
    export-init_genesis_json sdk am json none stored (record { params = record {} }) 0 refl loaded

export_genesis-after-Run_example : (g : GenesisState) × (export_genesis sdk keeper stored ≡ ok g)
export_genesis-after-Run_example =
    export_genesis-after-Run sdk am json none stored stored 0 eve_block loaded block_of_eve
