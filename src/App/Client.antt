-- ===== src/App/Client.antt =====
-- app/ibc.go: RegisterIBC, which makes the IBC modules for the client side, with keepers that are zero.
use chain_rice.Common.{GoString, Option, none, some, List, [], ◌∷◌}
use chain_rice.Common.Run.{Run, pure, ◌>>◌}
use chain_rice.App.Ibc.{IbcSdk}

-- What the function uses of ibc-go besides. `Registry` is the interface registry of the codec, which is
-- shared; `register_interfaces` is there for a module that is a `module.AppModuleBasic`.
pub record ClientIbc (ibc : IbcSdk) : Type 1 where
  pub Codec : Type 0
  pub Registry : Type 0
  pub zero_keeper : ibc.Keeper
  pub zero_transfer_keeper : ibc.TransferKeeper
  pub zero_controller_keeper : ibc.ControllerKeeper
  pub zero_host_keeper : ibc.HostKeeper
  pub tendermint_client : Codec → ibc.LightClient
  pub solomachine_client : Codec → ibc.LightClient
  pub register_interfaces : ibc.AppModule → Option (Run Registry (Unit {0}))

module _ {ibc : IbcSdk} (c : ClientIbc ibc) where
  open ibc use {AppModule, names}

  unfoldable pub client_modules : c.Codec → List (GoString × AppModule)
  client_modules cdc =
      (names.ibc, ibc.ibc_app_module c.zero_keeper)
      ∷ (names.transfer, ibc.transfer_app_module c.zero_transfer_keeper)
      ∷ (names.ica, ibc.ica_app_module c.zero_controller_keeper c.zero_host_keeper)
      ∷ (names.tendermint, ibc.tendermint_app_module (c.tendermint_client cdc))
      ∷ (names.solomachine, ibc.solomachine_app_module (c.solomachine_client cdc))
      ∷ []

  abbrev pub register_one : Option (Run c.Registry (Unit {0})) → Run c.Registry (Unit {0})
  register_one none = pure tt
  register_one (some run) = run

  unfoldable pub register_all : List (GoString × AppModule) → Run c.Registry (Unit {0})
  register_all [] = pure tt
  register_all ((name, m) ∷ rest) = do register_one (c.register_interfaces m); register_all rest

  -- The loop goes through the map in the order `order`, which Go leaves open.
  unfoldable pub register_ibc :
      (List (GoString × AppModule) → List (GoString × AppModule))
      → c.Codec
      → Run c.Registry (List (GoString × AppModule))
  register_ibc order cdc = do register_all (order (client_modules cdc)); pure (client_modules cdc)
