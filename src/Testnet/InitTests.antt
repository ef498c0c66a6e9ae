-- ===== src/Testnet/InitTests.antt =====
-- Runs of initTestnetFiles for two nodes, and its theorems at this input.

use chain_rice.Common.{
  ◌+◌, ◌≡◌, refl, GoString, str, bytes_equal, Bool, false, none, some, [], ◌∷◌, length, arith,
}
use chain_rice.Common.Result.{message, Result, ok, err}
use chain_rice.Common.Run.{bind}
use chain_rice.Testnet.Strings.{itoa, decimal, pos}
use chain_rice.Testnet.Args.{stake_of_node, stake_or_default, app_config}
use chain_rice.Testnet.Nodes.{memo_of_node, p2p_port, add_peer, persistent_peers_of, with_addresses}
use chain_rice.Testnet.Disk.{write_file}
use chain_rice.Testnet.GenFiles.{with_balances, with_balances-total}
use chain_rice.Testnet.Init.{
  NodeLists, or_remove, node_setup, prepare_node, make_key, genesis_coins, make_gentx, init_node,
  init_nodes, no_lists, chain_id_or_random, init_testnet_files,
}
use chain_rice.Testnet.Init.Built.{gentx_files, memos, genesis_files, init_nodes-lists}
use chain_rice.Testnet.Flags.{Flags}
use chain_rice.Testnet.Command.{run_multi_node, run_multi_node-min_gas_prices}
use chain_rice.Testnet.Init.Cleanup.{Fails, no_directory, init_testnet_files-cleanup}
use chain_rice.Testnet.Samples.{
  coins, amounts, Store, nothing, disk, genutil, genesis, codec, machine, args, empty_bank, without,
}

abbrev never : GoString → Bool
never p = false

with_balances-total_example :
    (with_balances genesis codec empty_bank
        (record { address = str "a"; coins = λ d. 7 } ∷ [])).supply
      (str "stake")
    ≡ 0 + (7 + 0)
unfolding with_balances
with_balances-total_example =
    with_balances-total genesis codec empty_bank (record { address = str "a"; coins = λ d. 7 } ∷ [])
      (str "stake")

abbrev run : Result (NodeLists (disk never) machine args) × Store
run =
    init_nodes (disk never) machine args (str "c1") 0 2 (no_lists (disk never) machine args) nothing

abbrev two_lists : NodeLists (disk never) machine args
two_lists = record {
  node_ids = str "id-n0" ∷ str "id-n1" ∷ [];
  val_pub_keys = str "out/n0" ∷ str "out/n1" ∷ [];
  gen_accounts = str "n0" ∷ str "n1" ∷ [];
  gen_balances =
      record {
        address = str "n0";
        coins = amounts ((str "testtoken", 1000) ∷ (str "stake", 500) ∷ []);
      }
      ∷ record {
        address = str "n1";
        coins = amounts ((str "testtoken", 1000) ∷ (str "stake", 500) ∷ []);
      }
      ∷ [];
  gen_files = str "out/n0/config/genesis.json" ∷ str "out/n1/config/genesis.json" ∷ [];
  persistent_peers = str "id-n0@h:26656,id-n1@h:26653";
  gentxs_files =
      str "out/n0/config/gentx/gentx-id-n0.json" ∷ str "out/n1/config/gentx/gentx-id-n1.json" ∷ [];
}

two_nodes : run ≡ (ok two_lists, run.1)
unfolding bind init_nodes init_node prepare_node or_remove node_setup make_key make_gentx
    genesis_coins write_file stake_of_node stake_or_default memo_of_node add_peer itoa decimal
    p2p_port app_config with_addresses
two_nodes = refl

init_nodes-lists_example :
    (length two_lists.node_ids ≡ 2)
    × (two_lists.gen_files ≡ genesis_files (disk never) machine args (str "c1") 0 2)
    × (two_lists.gentxs_files
        ≡ gentx_files (disk never) machine args (str "c1") 0 two_lists.node_ids)
    × (two_lists.persistent_peers
        ≡ persistent_peers_of (memos (disk never) machine args (str "c1") 0 two_lists.node_ids))
    × (length two_lists.val_pub_keys ≡ 2)
    × (length two_lists.gen_accounts ≡ 2)
    × (length two_lists.gen_balances ≡ 2)
init_nodes-lists_example =
    init_nodes-lists (disk never) machine args (str "c1") 2 two_lists nothing run.1 two_nodes

-- A disk with no space for the directory of the second node.
abbrev second : GoString → Bool
second p = bytes_equal p (str "out/n1/config")

abbrev one_node : Result (NodeLists (disk second) machine args) × Store
one_node =
    init_nodes (disk second) machine args (str "c1") 0 1 (no_lists (disk second) machine args)
      nothing

abbrev first_lists : NodeLists (disk second) machine args
first_lists = record {
  node_ids = str "id-n0" ∷ [];
  val_pub_keys = str "out/n0" ∷ [];
  gen_accounts = str "n0" ∷ [];
  gen_balances =
      record {
        address = str "n0";
        coins = amounts ((str "testtoken", 1000) ∷ (str "stake", 500) ∷ []);
      }
      ∷ [];
  gen_files = str "out/n0/config/genesis.json" ∷ [];
  persistent_peers = str "id-n0@h:26656";
  gentxs_files = str "out/n0/config/gentx/gentx-id-n0.json" ∷ [];
}

first_node : one_node ≡ (ok first_lists, one_node.1)
unfolding bind init_nodes init_node prepare_node or_remove node_setup make_key make_gentx
    genesis_coins write_file stake_of_node stake_or_default memo_of_node add_peer itoa decimal
    p2p_port app_config with_addresses
first_node = refl

given_chain_id : chain_id_or_random (disk second) machine args nothing ≡ (ok (str "c1"), nothing)
unfolding chain_id_or_random
given_chain_id = refl

second-Fails : Fails (disk second) machine args 1 one_node.1 (message "no space" []) one_node.1
unfolding itoa decimal
second-Fails = no_directory refl

-- The key of the first node is written, and gone at the end.
written : one_node.1.files (str "out/n0/key_seed.json") ≡ some (str "seed words")
unfolding bind init_nodes init_node prepare_node or_remove node_setup make_key make_gentx
    genesis_coins write_file stake_of_node stake_or_default memo_of_node add_peer itoa decimal
    p2p_port app_config with_addresses
written = refl

init_testnet_files-cleanup_example :
    (init_testnet_files (disk second) machine args codec genutil nothing
      ≡ (err (message "no space" []), without (str "out") one_node.1))
    × ((without (str "out") one_node.1).files (str "out/n0/key_seed.json") ≡ none)
init_testnet_files-cleanup_example =
    init_testnet_files-cleanup (disk second) machine args codec genutil 2 1 first_lists nothing
      nothing one_node.1 one_node.1 (without (str "out") one_node.1) (message "no space" [])
      (str "c1") (str "out/n0/key_seed.json") refl (omega arith) given_chain_id first_node
      second-Fails refl refl

-- The default flags, with other stakes.
abbrev flags : Flags
flags = record {
  get_client_query_context = ok tt;
  output_dir = ok (str "./.testnets");
  keyring_backend = ok (str "test");
  chain_id = ok [];
  min_gas_prices = ok (str "0.0001stake");
  node_dir_prefix = ok (str "validator");
  starting_ip_address = ok (str "localhost");
  num_validators = ok (pos 4);
  key_type = ok (str "secp256k1");
  validators_stake_amount = ok (str "7,8,xy");
  ports = ok [];
}

run_multi_node-min_gas_prices_example :
    run_multi_node
      (disk never)
      machine
      codec
      genutil
      (record flags { min_gas_prices = ok (str "5stake") })
      nothing
    ≡ run_multi_node (disk never) machine codec genutil flags nothing
run_multi_node-min_gas_prices_example =
    run_multi_node-min_gas_prices (disk never) machine codec genutil flags (ok (str "5stake"))
      nothing
