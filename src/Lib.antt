-- ===== src/Lib.antt =====
-- Verification of chain-rice, a Cosmos SDK chain with one module of its own, x/chainrice.
--
-- The program's parts and the files that model them:
--
-- x/chainrice/types, keeper, module: Chainrice. `Chainrice.Types` has the structs, the validation and
-- the default genesis; `Chainrice.Keeper` has `NewKeeper`, `InitGenesis`, `ExportGenesis`, the handler
-- `UpdateParams` and the query `Params`; `Chainrice.AppModule` has the JSON methods of module.go,
-- `ProvideModule` of depinject.go and the simulation genesis. `Chainrice.Authority` and
-- `Chainrice.Genesis` prove; `Chainrice.Tests` runs the model.
--
-- x/chainrice/types/*.pb.go: Wire. `Wire.Varint` has encodeVarint, sov and the loops that read a
-- varint; `Wire.Skip` has skipTx; `Wire.Unmarshal` the loop that all `Unmarshal` methods repeat, with
-- the `switch` as a parameter; `Wire.Marshal` and `Wire.Buffer` the steps of `MarshalToSizedBuffer`;
-- `Wire.Params`, `Wire.Tx`, `Wire.Genesis`, `Wire.Query` and `Wire.Module` the messages, with what
-- those of one `Params` field share in `Wire.Single`. `Wire.Tokens` and `Wire.Tx.Fields` describe the
-- format without the code, as sequences of fields with groups, which `Wire.Fields` and `Wire.Tx.Fields`
-- prove the loop to read; `Wire.Tests` and `Wire.FieldsTests` run. The helpers sov, encodeVarint and skip are the
-- same text in each file under other names, and are modelled once, from tx.pb.go.
--
-- app/export.go: App. `App.Keepers` is the record of what the export calls, `App.Export` has
-- ExportAppStateAndValidators and the stages of prepForZeroHeightGenesis, `App.Sweep` the loops that
-- store each record of a table again; `App.Export.Jailing`, `App.Export.Staking` and
-- `App.Export.Outcome` prove about its stages, `App.Export.Rewards` about the
-- loop that donates rewards, `App.Export.Whole` and `App.Export.Entries` about what is left at the end;
-- `App.Tests`, `App.RewardsTests` and `App.WholeTests` run the export over the keepers of `App.Slot`.
--
-- app/genesis_account.go: `App.GenesisAccount`, with runs in `App.AccountTests`.
--
-- app/app.go, app/ibc.go, app/app_config.go, app/config.go: `App.Accounts` has the permissions of module
-- accounts and the blocked addresses, with runs in `App.BlockedTests`; `App.Modules` the configured
-- modules, the orders in which the runtime calls them and the address prefixes, with runs in
-- `App.ModulesTests`; `App.Ibc` registerIBCModules and `App.Build` New with its init chainer, with
-- proofs in `App.Ibc.Stores` and runs in `App.IbcTests`.
--
-- x/chainrice/types/query.pb.gw.go: `Chainrice.Gateway` has the two handlers of the params query and
-- their registration, with runs in `Chainrice.GatewayTests`.
--
-- cmd/chain-riced/cmd/commands.go: `Cmd.Export` has newApp and appExport, which builds the app of
-- `App.Build` and exports by `App.Export`; `Cmd.Tests` runs it.
--
-- cmd/chain-riced/cmd/root.go, config.go: `Cmd.Root` has the pre-run of the root command with the default
-- configs, and the loop of NewRootCmd that enters the IBC modules, with runs in `Cmd.RootTests`;
-- `App.Client` has RegisterIBC of app/ibc.go, which makes these modules.
--
-- cmd/chain-riced/cmd/testnet_multi_node.go: Testnet. `Testnet.Flags` and `Testnet.Command` have the run
-- of NewTestnetMultiNodeCmd, `Testnet.Args` its flags of stakes and ports and the app config, `Testnet.Nodes` the addresses and the list of peers,
-- `Testnet.Strings` strings.Split and strconv.Itoa; `Testnet.Ports`, `Testnet.Stakes` and
-- `Testnet.Peers` prove, and `Testnet.Tests` runs. `Testnet.Disk` has writeFile, copyFile, isSubDir and
-- the loops that copy the gentx files, `Testnet.GenFiles` initGenFiles, `Testnet.Collect`
-- collectGenFiles; `Testnet.Init` has initTestnetFiles, over `Testnet.Machine`, and its child modules
-- prove what the loop builds, that the whole ends, what a failure removes, and what a flag changes. `Testnet.Samples` is a
-- disk with keys in memory, over which `Testnet.InitTests`, `Testnet.DiskTests` and
-- `Testnet.CollectTests` run.
--
-- cmd/chain-riced/cmd/testnet.go: `Testnet.InPlace` has getCommandArgs, handleErr and the loop that funds
-- the accounts, with runs in `Testnet.InPlaceTests`; `Testnet.Replace` has initAppForTestnet and
-- newTestnetApp, with proofs in `Testnet.Replace.Stores` and runs in `Testnet.ReplaceTests`.
--
-- Common holds what these share: outcomes of Go functions (a value, an error or a panic), byte
-- strings, lists over native numbers, bit operations, and, in `Common.Run`, Go functions that change a
-- state and leave it changed also on an error.
--
-- What other repositories implement is a parameter. `Chainrice.Keeper.Sdk` is the store item of
-- the params (collections.Item), the schema builder and the address codec; `Chainrice.AppModule` has
-- the JSON codec and the module addresses; `App.Keepers.Keepers` the keepers of x/staking,
-- x/distribution and x/slashing, the module manager and encoding/json; `App.GenesisAccount.AuthTypes`
-- the validation of x/auth; `App.Accounts.Names` the names of modules; `Testnet.Args.Coins` coins; `Testnet.Flags.Flags` the flags;
-- `Testnet.Collect.Genutil` the files of the nodes; `Testnet.InPlace` the options, the bank keeper and
-- an address codec; `Testnet.Disk.Disk` files and paths; `Testnet.GenFiles` the codec and x/auth and
-- x/bank; `Testnet.Machine.Machine` keys, transactions and configs; `Testnet.Replace.Staking` and
-- `Others` the stores of the modules; `App.Ibc.IbcSdk` and `App.Build.AppSdk` the SDK and ibc-go;
-- `Chainrice.Gateway.Http` grpc-gateway; `Cmd.Export.Process` the options and LoadHeight;
-- `Cmd.Root.Client` and `App.Client.ClientIbc` the client side of the SDK and of ibc-go. The laws they
-- have: a successful `Set` is what `Get` returns, `UnmarshalJSON` reads back what `MarshalJSON` wrote, a
-- table of the staking keeper is a map whose iteration shows the records as they were at its start,
-- genutil writes the genesis file of the node it is called for, a file keeps its content until it is
-- written, and no file is left inside a directory that is removed, a store that is registered has a key,
-- the keepers' stores are separate, a hook of x/distribution writes for its own validator, the last block
-- of an app is at the loaded height, and `WithCmdContext` and `WithViper` each set one field.
--
-- Numbers: in Wire and App an `int`, `int64` or `uint64` is its 64-bit pattern, a number below 2 ^ 64,
-- and a pattern of 2 ^ 63 or more is a negative number; in Testnet an `int` is an integer without a
-- bound, since the ports are small. `IsSlice` says that a byte slice's length is an `int`. Loops over
-- bytes have the input's length as fuel, the loop of encodeVarint ten rounds; the fuel is never used up.
-- A Go string is its bytes.
--
-- Not modelled: the command trees and flag definitions of cobra, ProvideClientContext, the
-- accessors of App that return a field, RegisterAPIRoutes, the
-- environment's home directory, the modes of files, a slice whose length exceeds memory,
-- registration with the SDK, gRPC stubs and descriptors, numbers inside error texts, a message that a
-- failed `Unmarshal` has changed in part, the value that ExportAppStateAndValidators returns beside an
-- error, fields of the SDK's structs that the code neither reads nor writes, and capacity of a slice
-- beyond its length. The SDK and the generated code's runtime are not part of the repository.
pub mod Common
pub mod Chainrice
pub mod Wire
pub mod App
pub mod Cmd
pub mod Testnet
