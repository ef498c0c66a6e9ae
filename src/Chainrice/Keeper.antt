-- ===== src/Chainrice/Keeper.antt =====
-- x/chainrice/keeper: the keeper, genesis, the message server and the query server.
use chain_rice.Common.{
  GoString, ◌≡◌, Option, none, some, [], ◌∷◌, if◌then◌else◌, Bytes, bytes_equal,
}
use chain_rice.Common.Result.{
  wrap, status, is_not_found, Result, ok, err, panic, must, wrap_err, ◌>>=◌, ◌>>◌,
}
use chain_rice.Chainrice.Types.{
  Params, validate_params, GenesisState, default_genesis, MsgUpdateParams, MsgUpdateParamsResponse,
  QueryParamsRequest, QueryParamsResponse, err_invalid_signer,
}

-- What the SDK gives the keeper. `State` is the context's store, `params_get` and `params_set` are
-- `Params.Get` and `Params.Set` of the `collections.Item`, `build_schema` is `SchemaBuilder.Build`,
-- and the last two are the address codec. The one law is that of an item: a successful `Set` is what
-- the next `Get` returns.
pub record Sdk : Type 1 where
  pub State : Type 0
  pub params_get : State → Result Params
  pub params_set : State → Params → Result State
  pub build_schema : Result (Unit {0})
  pub string_to_bytes : GoString → Result Bytes
  pub bytes_to_string : Bytes → Result GoString
  pub get-set : (s s' : State) (p : Params) → params_set s p ≡ ok s' → params_get s' ≡ ok p

pub record Keeper : Type 0 where
  pub authority : Bytes

-- The value of a call whose error is dropped: Go returns "" beside an error.
abbrev pub string_or_empty : Result GoString → Result GoString
string_or_empty (ok s) = ok s
string_or_empty (err e) = ok []
string_or_empty (panic e) = panic e

-- A panic that formats the authority and the error into its text.
abbrev pub check_authority : Bytes → Result GoString → Result GoString
check_authority authority (ok s) = ok s
check_authority authority (err e) = panic (wrap "invalid authority address %s: %s" [] e)
check_authority authority (panic e) = panic e

-- `errors.Is(err, ErrNotFound)` lets the zero value of `Params` through.
abbrev pub params_or_internal : Result Params → Result QueryParamsResponse
params_or_internal (ok p) = ok (record { params = p })
params_or_internal (err e) =
    if is_not_found e
    then ok (record { params = record {} })
    else err (status "Internal" "internal error")
params_or_internal (panic e) = panic e

module _ (sdk : Sdk) where
  open sdk use {State, params_get, params_set, build_schema, string_to_bytes, bytes_to_string}

  unfoldable pub new_keeper : Bytes → Result Keeper
  new_keeper authority = do
    _ ← check_authority authority (bytes_to_string authority)
    must build_schema
    ok (record { authority = authority })

  abbrev pub get_authority : Keeper → Bytes
  get_authority k = k.authority

  unfoldable pub init_genesis : Keeper → State → GenesisState → Result State
  init_genesis k s gen_state = params_set s gen_state.params

  unfoldable pub export_genesis : Keeper → State → Result GenesisState
  unfolding default_genesis
  export_genesis k s = do
    let genesis = default_genesis
    params ← params_get s
    ok (record genesis { params = params })

  -- The error of an address that is not the authority; the error of `BytesToString` is dropped.
  unfoldable pub wrong_signer : Keeper → MsgUpdateParams → Result (State × MsgUpdateParamsResponse)
  wrong_signer k req = do
    expected ← string_or_empty (bytes_to_string (get_authority k))
    err (
        wrap "invalid authority; expected %s, got %s" (expected ∷ req.authority ∷ [])
          err_invalid_signer)

  unfoldable pub update_params :
      Keeper → State → MsgUpdateParams → Result (State × MsgUpdateParamsResponse)
  unfolding validate_params wrong_signer
  update_params k s req = do
    authority ← wrap_err "invalid authority address" [] (string_to_bytes req.authority)
    if bytes_equal (get_authority k) authority
        then (do validate_params req.params; s' ← params_set s req.params; ok (s', record {}))
        else wrong_signer k req

  -- The query server; `none` is a nil request.
  unfoldable pub query_params :
      Keeper → State → Option QueryParamsRequest → Result QueryParamsResponse
  unfolding is_not_found
  query_params k s none = err (status "InvalidArgument" "invalid request")
  query_params k s (some req) = params_or_internal (params_get s)
