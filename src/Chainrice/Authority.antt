-- ===== src/Chainrice/Authority.antt =====
-- Who may change the parameters: msg_update_params.go and the authority of depinject.go.

use chain_rice.Chainrice.AppModule.{
  ModuleAddresses, ModuleOutputs, provide_module, module_authority,
}
use chain_rice.Chainrice.Types.{Module}
use chain_rice.Chainrice.Keeper.{new_keeper}
use chain_rice.Common.{
  GoString, str, is_empty, if◌then◌else◌, ◌≡◌, ◌≢◌, ◌↔◌, [], ◌∷◌, arith, inl, inr, Bytes,
  bytes_equal_iff,
}
use chain_rice.Common.Result.{wrap, ok, err, Result-cases}
use chain_rice.Chainrice.Types.{MsgUpdateParams, err_invalid_signer}
use chain_rice.Chainrice.Keeper.{Sdk, Keeper, update_params}

module _ (sdk : Sdk) (k : Keeper) (s : sdk.State) (req : MsgUpdateParams) where
  -- The two halves, for an authority that decodes to `b`.
  with_authority :
      (b : Bytes) (s' : sdk.State)
      → sdk.string_to_bytes req.authority ≡ ok b
      → (update_params sdk k s req ≡ ok (s', record {}))
        ↔ ((k.authority ≡ b) × (sdk.params_set s req.params ≡ ok s'))
  unfolding update_params
  with_authority b s' h = (
    λ e. ground (arith, bytes_equal_iff k.authority b),
    λ p. ground (arith, bytes_equal_iff k.authority b),
  )

  -- `update_params` succeeds with state `s'` exactly when the message's authority decodes to the
  -- keeper's authority and storing the message's params in `s` succeeds with `s'`.
  pub update_params_authorised :
      (s' : sdk.State)
      → (update_params sdk k s req ≡ ok (s', record {})) ↔ (
          (sdk.string_to_bytes req.authority ≡ ok k.authority)
          × (sdk.params_set s req.params ≡ ok s'))
  unfolding update_params
  update_params_authorised s' = elim (Result-cases (sdk.string_to_bytes req.authority)) [
    | inl (b, h) ↦ (
      λ e. ground (arith, (with_authority b s' h).0 e),
      λ p. (with_authority b s' h).1 (ground arith),
    )
    | inr (inl (e, h)) ↦ (λ r. ground arith, λ p. ground arith)
    | inr (inr (e, h)) ↦ (λ r. ground arith, λ p. ground arith)
  ]

  -- If the message's authority decodes to other bytes than the keeper's, `update_params` returns
  -- `ErrInvalidSigner`, wrapped in a text with the expected and the given address, whatever the
  -- params. The keeper's authority is one that the address codec prints.
  pub update_params_rejects_signer :
      (b : Bytes) (e : GoString)
      → sdk.string_to_bytes req.authority ≡ ok b
      → k.authority ≢ b
      → sdk.bytes_to_string k.authority ≡ ok e
      → update_params sdk k s req
        ≡ err (
            wrap "invalid authority; expected %s, got %s"
              (e ∷ req.authority ∷ [])
              err_invalid_signer)
  unfolding update_params
  update_params_rejects_signer b e h ne x = ground (arith, bytes_equal_iff k.authority b)

module _ (sdk : Sdk) (addresses : ModuleAddresses) (config : Module) where
  provided_authority :
      (out : ModuleOutputs)
      → provide_module sdk addresses config ≡ ok out
      → out.app_module.keeper.authority ≡ module_authority addresses config
  unfolding provide_module new_keeper
  provided_authority out h = ground arith

  -- The keeper that `provide_module` builds, where it ends, takes an update from the address of the
  -- gov module if the config names no authority, and else from the address that the config names:
  -- such a message succeeds if storing its params does. From any other signer no update succeeds.
  pub provide_module-update_params :
      (out : ModuleOutputs) (s s' : sdk.State) (req : MsgUpdateParams)
      → provide_module sdk addresses config ≡ ok out
      → (update_params sdk out.app_module.keeper s req ≡ ok (s', record {})) ↔ (
          (sdk.string_to_bytes req.authority
            ≡ ok (
                if is_empty config.authority
                then addresses.new_module_address (str "gov")
                else addresses.new_module_address_or_bech32 config.authority))
          × (sdk.params_set s req.params ≡ ok s'))
  unfolding module_authority
  provide_module-update_params out s s' req h =
      rw (← provided_authority out h) (update_params_authorised sdk out.app_module.keeper s req s')
