-- ===== src/Chainrice/Genesis.antt =====
-- Genesis, queries and updates together: genesis.go, query_params.go and module.go.
use chain_rice.Common.{◌≡◌, ◌≢◌, refl, none, some, List, [], ◌∷◌, if◌then◌else◌}
use chain_rice.Common.Result.{
  Error, status, is_not_found, ok, err, must_with, >>=-eq-ok, must_with-eq-ok,
}
use chain_rice.Chainrice.Types.{
  Params, GenesisState, MsgUpdateParams, MsgUpdateParamsResponse, QueryParamsRequest, module_name,
}
use chain_rice.Chainrice.Keeper.{
  Sdk, Keeper, update_params, query_params, init_genesis, export_genesis,
}
use chain_rice.Chainrice.AppModule.{
  JsonCodec, AppModule, init_genesis_json, export_genesis_json, begin_block, end_block,
  unmarshal_failed,
}
use chain_rice.Chainrice.Authority.{update_params_authorised}

module _ (sdk : Sdk) (k : Keeper) where
  -- After a message that `update_params` accepts, the params query and `export_genesis` return the
  -- params of the message.
  pub query-update_params :
      (s s' : sdk.State) (req : MsgUpdateParams) (r : MsgUpdateParamsResponse)
      (q : QueryParamsRequest)
      → update_params sdk k s req ≡ ok (s', r)
      → (query_params sdk k s' (some q) ≡ ok (record { params = req.params }))
        × (export_genesis sdk k s' ≡ ok (record { params = req.params }))
  unfolding query_params export_genesis
  query-update_params s s' req r q h =
      let stored = sdk.get-set s s' req.params ((update_params_authorised sdk k s req s').0 h).1 in
      (rw stored, rw stored)

  -- `query_params` on a request: the stored params; the zero value of `Params` where `Get` says that
  -- there are none; and for any other error `Internal`, which does not show the error.
  pub query_params_cases :
      (s : sdk.State) (q : QueryParamsRequest)
      → ((p : Params)
          → sdk.params_get s ≡ ok p
          → query_params sdk k s (some q) ≡ ok (record { params = p }))
        × ((e : Error)
            → sdk.params_get s ≡ err e
            → query_params sdk k s (some q) ≡ (
                if is_not_found e
                then ok (record { params = record {} })
                else err (status "Internal" "internal error")))
        × (query_params sdk k s none ≡ err (status "InvalidArgument" "invalid request"))
  unfolding query_params
  query_params_cases s q = (λ p h. rw h, λ e h. rw h, refl)

-- What a block does to the module: its hooks, and the messages that it delivers.
pub data Event : Type 0 where
  begins ends : Event
  delivers : MsgUpdateParams → Event

module _ (sdk : Sdk) (am : AppModule) where
  -- A message that is refused leaves the state, since the SDK drops what a failed message wrote.
  pub data Step : Event → sdk.State → sdk.State → Type 0 where
    begin : {s s' : sdk.State} → begin_block sdk am s ≡ ok s' → Step begins s s'
    end : {s s' : sdk.State} → end_block sdk am s ≡ ok s' → Step ends s s'
    accepted :
        {s s' : sdk.State} (req : MsgUpdateParams) (r : MsgUpdateParamsResponse)
        → update_params sdk am.keeper s req ≡ ok (s', r)
        → Step (delivers req) s s'
    refused :
        {s : sdk.State} (req : MsgUpdateParams) (e : Error)
        → update_params sdk am.keeper s req ≡ err e
        → Step (delivers req) s s

  pub data Run (s : sdk.State) : List Event → sdk.State → Type 0 where
    here : Run s [] s
    next :
        {es : List Event} {e : Event} {t u : sdk.State} → Run s es t → Step e t u → Run s (e ∷ es) u

  -- No message of the run is signed by the keeper's authority.
  abbrev pub Unsigned : List Event → Type 0
  Unsigned [] = Unit
  Unsigned (begins ∷ es) = Unsigned es
  Unsigned (ends ∷ es) = Unsigned es
  Unsigned (delivers req ∷ es) =
      (sdk.string_to_bytes req.authority ≢ ok am.keeper.authority) × Unsigned es

  -- A run of blocks in which no message carries the keeper's authority leaves the state as it was.
  pub Run-Unsigned : {s t : sdk.State} {es : List Event} → Run s es t → Unsigned es → t ≡ s
  unfolding begin_block end_block
  Run-Unsigned here h = refl
  Run-Unsigned (next r (begin e)) h = cc (Run-Unsigned r h)
  Run-Unsigned (next r (end e)) h = cc (Run-Unsigned r h)
  Run-Unsigned (next r (accepted {s = u} {s'} req x e)) h =
      absurd (h.0 ((update_params_authorised sdk am.keeper u req s').0 e).0)
  Run-Unsigned (next r (refused req x e)) h = Run-Unsigned r h.1

  HasParams : sdk.State → Type 0
  HasParams s = (p : Params) × (sdk.params_get s ≡ ok p)

  Step-HasParams : {e : Event} {s t : sdk.State} → Step e s t → HasParams s → HasParams t
  unfolding begin_block end_block HasParams
  Step-HasParams (begin e) (p, h) = (p, cc)
  Step-HasParams (end e) (p, h) = (p, cc)
  Step-HasParams (accepted {s} {s'} req r e) h = (
    req.params,
    sdk.get-set s s' req.params ((update_params_authorised sdk am.keeper s req s').0 e).1,
  )
  Step-HasParams (refused req x e) h = h

  Run-HasParams : {s t : sdk.State} {es : List Event} → Run s es t → HasParams s → HasParams t
  Run-HasParams here h = h
  Run-HasParams (next r st) h = Step-HasParams st (Run-HasParams r h)

  module _ (json : JsonCodec) where
    -- Genesis round trip through JSON: if `InitGenesis` ends on `gs`, which some genesis state `g`
    -- is marshalled to, `ExportGenesis` of the state that it leaves is `gs` again.
    pub export-init_genesis_json :
        (s s' : sdk.State) (g : GenesisState) (gs : json.Json)
        → json.marshal g ≡ ok gs
        → init_genesis_json sdk json am s gs ≡ ok s'
        → export_genesis_json sdk json am s' ≡ ok gs
    unfolding init_genesis_json export_genesis_json
    export-init_genesis_json s s' g gs m h =
        let stored =
          must_with-eq-ok _ _ (init_genesis sdk am.keeper s g)
            (rw (json.unmarshal-marshal g gs m) at h) in
        rw (sdk.get-set s s' g.params stored, m)

    -- Once `InitGenesis` has ended, no run of blocks makes `ExportGenesis` of the keeper fail.
    pub export_genesis-after-Run :
        (s s' t : sdk.State) (gs : json.Json) (es : List Event)
        → init_genesis_json sdk json am s gs ≡ ok s'
        → Run s' es t
        → (g : GenesisState) × (export_genesis sdk am.keeper t ≡ ok g)
    unfolding export_genesis init_genesis_json HasParams
    export_genesis-after-Run s s' t gs es h r =
        let (g, parsed, h') =
          >>=-eq-ok (must_with unmarshal_failed (module_name ∷ []) (json.unmarshal gs)) _ h in
        let (p, got) =
          Run-HasParams r (g.params, sdk.get-set s s' g.params (must_with-eq-ok _ _ _ h')) in
        (record { params = p }, rw got)
