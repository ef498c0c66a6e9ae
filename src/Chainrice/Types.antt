-- ===== src/Chainrice/Types.antt =====
-- x/chainrice/types: keys.go, errors.go, params.go, genesis.go, and the structs of the .pb.go files.
use chain_rice.Common.{GoString, str}
use chain_rice.Common.Result.{Error, sentinel, Result, ok}

abbrev pub module_name : GoString
module_name = str "chainrice"

abbrev pub gov_module_name : GoString
gov_module_name = str "gov"

-- `ErrInvalidSigner`
abbrev pub err_invalid_signer : Error
err_invalid_signer = sentinel module_name 1100

-- The message has no field.
pub record Params : Type 0 where

abbrev pub new_params : Params
new_params = record {}

unfoldable pub default_params : Params
default_params = new_params

unfoldable pub validate_params : Params → Result (Unit {0})
validate_params p = ok tt

pub record GenesisState : Type 0 where
  pub params : Params

unfoldable pub default_genesis : GenesisState
default_genesis = record { params = default_params }

unfoldable pub validate_genesis_state : GenesisState → Result (Unit {0})
unfolding validate_params
validate_genesis_state gs = validate_params gs.params

pub record MsgUpdateParams : Type 0 where
  pub authority : GoString
  pub params : Params

pub record MsgUpdateParamsResponse : Type 0 where

pub record QueryParamsRequest : Type 0 where

pub record QueryParamsResponse : Type 0 where
  pub params : Params

-- The module's configuration in the app config.
pub record Module : Type 0 where
  pub authority : GoString
