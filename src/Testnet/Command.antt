-- ===== src/Testnet/Command.antt =====
-- NewTestnetMultiNodeCmd: the run of `multi-node`.
use chain_rice.Common.{◌≡◌, refl, GoString, List, []}
use chain_rice.Common.Result.{Result, ok, err, panic}
use chain_rice.Common.Run.{Run, lift, ◌>>=◌, ◌>>◌, bind}
use chain_rice.Testnet.Args.{Coins}
use chain_rice.Testnet.Flags.{Flags, or_zero, stakes_of, args_of, args_with, init_args}
use chain_rice.Testnet.Disk.{Disk}
use chain_rice.Testnet.GenFiles.{Genesis, GenesisCodec}
use chain_rice.Testnet.Collect.{Genutil}
use chain_rice.Testnet.Machine.{Machine}
use chain_rice.Testnet.Init.{init_testnet_files}
use chain_rice.Testnet.Init.GasPrices.{init_testnet_files-with_prices}

module _ {c : Coins} (disk : Disk) {g : Genesis} (m : Machine c g disk.State) where
  open disk use {State}

  -- `RunE`
  unfoldable pub run_multi_node :
      GenesisCodec g State → Genutil State → Flags → Run State (Unit {0})
  run_multi_node codec gu flags = do
    lift flags.get_client_query_context
    args ← lift (init_args c flags)
    init_testnet_files disk m args codec gu

module _ {c : Coins} (disk : Disk) {g : Genesis} (m : Machine c g disk.State) where
  open disk use {State}

  after_stakes :
      (codec : GenesisCodec g State) (gu : Genutil State) (flags : Flags) (prices : Result GoString)
      (r : Result (List c.Coin))
      → (do
        args ← lift (args_with c (record flags { min_gas_prices = prices }) r)
        init_testnet_files disk m args codec gu)
        ≡ (do args ← lift (args_with c flags r); init_testnet_files disk m args codec gu)
  unfolding bind
  after_stakes codec gu flags prices (ok stakes) = λ k.
      init_testnet_files-with_prices disk m (args_of c flags stakes) (or_zero [] prices) codec gu k
  after_stakes codec gu flags prices (err e) = refl
  after_stakes codec gu flags prices (panic e) = refl

  -- The flag for minimum gas prices has no effect on `run_multi_node`: whatever it is, also where it
  -- cannot be read, the run ends in the same way and leaves the same files.
  pub run_multi_node-min_gas_prices :
      (codec : GenesisCodec g State) (gu : Genutil State) (flags : Flags) (prices : Result GoString)
      (s : State)
      → run_multi_node disk m codec gu (record flags { min_gas_prices = prices }) s
        ≡ run_multi_node disk m codec gu flags s
  unfolding run_multi_node init_args
  run_multi_node-min_gas_prices codec gu flags prices s = λ k.
      (do
        lift flags.get_client_query_context
        after_stakes codec gu flags prices (stakes_of c flags.validators_stake_amount) k)
        s
