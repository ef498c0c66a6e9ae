-- ===== src/Testnet/Init/GasPrices.antt =====
-- The flag for minimum gas prices in initTestnetFiles.
use chain_rice.Common.{ℕ, zero, suc, ◌≡◌, refl, ap, GoString, List, ◌∷◌, [], str}
use chain_rice.Common.Run.{bind, lift, ◌>>=◌, ◌>>◌}
use chain_rice.Testnet.Args.{Coins, app_config}
use chain_rice.Testnet.Disk.{Disk, copy_to_dirs}
use chain_rice.Testnet.GenFiles.{Genesis, GenesisCodec, init_gen_files}
use chain_rice.Testnet.Collect.{Genutil, collect_gen_files}
use chain_rice.Testnet.Machine.{Machine}
use chain_rice.Testnet.Init.{
  InitArgs, NodeLists, or_remove, node_setup, prepare_node, make_key, genesis_coins, make_gentx,
  init_node, init_nodes, make_slice, no_lists, node_dir, copy_dirs, chain_id_or_random,
  init_testnet_files,
}

module _ {c : Coins} (disk : Disk) {g : Genesis} (m : Machine c g disk.State) (args : InitArgs c)
    (prices : GoString) where
  open disk use {State, join}

  abbrev pub with_prices : InitArgs c
  with_prices = record args { min_gas_prices = prices }

  init_node-with_prices :
      (id : GoString) (i : ℕ) (lists : NodeLists disk m args)
      → init_node disk m with_prices id i lists ≡ init_node disk m args id i lists
  unfolding init_node prepare_node or_remove node_setup make_key make_gentx genesis_coins app_config
  init_node-with_prices id i lists = refl

  init_nodes-with_prices :
      (id : GoString) (n i : ℕ) (lists : NodeLists disk m args)
      → init_nodes disk m with_prices id i n lists ≡ init_nodes disk m args id i n lists
  unfolding init_nodes
  init_nodes-with_prices id zero i lists = refl
  init_nodes-with_prices id (suc n) i lists = λ k.
      bind (init_node-with_prices id i lists k)
        (λ lists'. init_nodes-with_prices id n (suc i) lists' k)

  copy_dirs-with_prices : (i n : ℕ) → copy_dirs disk m with_prices i n ≡ copy_dirs disk m args i n
  unfolding copy_dirs
  copy_dirs-with_prices i zero = refl
  copy_dirs-with_prices i (suc n) =
      ap
        (λ (dirs : List GoString).
          join (node_dir disk m args i ∷ str "config" ∷ str "gentx" ∷ []) ∷ dirs)
        (copy_dirs-with_prices (suc i) n)

  pub init_testnet_files-with_prices :
      (codec : GenesisCodec g State) (gu : Genutil State)
      → init_testnet_files disk m with_prices codec gu ≡ init_testnet_files disk m args codec gu
  unfolding init_testnet_files chain_id_or_random
  init_testnet_files-with_prices codec gu = λ k. do
    chain_id ← chain_id_or_random disk m args
    n ← lift (make_slice args.num_validators)
    lists ← init_nodes-with_prices chain_id n 0 (no_lists disk m args) k
    init_gen_files g codec chain_id lists.gen_accounts lists.gen_balances lists.gen_files n
    copy_to_dirs disk (copy_dirs-with_prices 0 n k) lists.gentxs_files
    collect_gen_files gu args.node_dir_prefix lists.persistent_peers args.ports n
