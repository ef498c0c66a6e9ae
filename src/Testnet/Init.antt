-- ===== src/Testnet/Init.antt =====
-- initTestnetFiles: the loop over the nodes, and what follows it.
pub mod Built
pub mod Works
pub mod Ends
pub mod Cleanup
pub mod GasPrices
use chain_rice.Common.{
  ℕ, zero, suc, ◌+◌, ◌≡◌, GoString, str, is_empty, Bytes, Bool, Option, none, some, List, [], ◌∷◌,
  ◌++◌, if◌then◌else◌,
}
use chain_rice.Common.Result.{Error, message, Result, ok, err, panic}
use chain_rice.Common.Run.{Run, pure, lift, ◌>>=◌, ◌>>◌}
use chain_rice.Testnet.Strings.{ℤ, pos, negsuc, itoa}
use chain_rice.Testnet.Args.{Coins, AppConfig, app_config, get_elem?, port_or_empty, stake_of_node}
use chain_rice.Testnet.Nodes.{memo_of_node, add_peer, with_addresses}
use chain_rice.Testnet.Disk.{Disk, write_file, copy_to_dirs}
use chain_rice.Testnet.GenFiles.{Genesis, Balance, GenesisCodec, init_gen_files, index_out_of_range}
use chain_rice.Testnet.Collect.{Genutil, collect_gen_files}
use chain_rice.Testnet.Machine.{NodeSetup, Machine}

pub record InitArgs (c : Coins) : Type 0 where
  pub algo : GoString
  pub chain_id : GoString
  pub keyring_backend : GoString
  pub min_gas_prices : GoString
  pub node_dir_prefix : GoString
  pub num_validators : ℤ
  pub output_dir : GoString
  pub starting_ip_address : GoString
  pub validators_stakes_amount : List c.Coin
  pub ports : List GoString

-- The lists that the loop grows by an element for each node, and the string of peers.
pub record Lists (PubKey Account Bal : Type 0) : Type 0 where
  pub node_ids : List GoString
  pub val_pub_keys : List PubKey
  pub gen_accounts : List Account
  pub gen_balances : List Bal
  pub gen_files : List GoString
  pub persistent_peers : GoString
  pub gentxs_files : List GoString

-- `make([]string, n)`
unfoldable pub make_slice : ℤ → Result ℕ
make_slice (pos n) = ok n
make_slice (negsuc n) = panic (message "runtime error: makeslice: len out of range" [])

abbrev pub charset : GoString
charset = str "abcdefghijklmnopqrstuvwxyz0123456789"

-- `charset[i]`
abbrev pub char_or_panic : Option ℕ → Result ℕ
char_or_panic none = panic index_out_of_range
char_or_panic (some c) = ok c

-- `if err != nil { _ = os.RemoveAll(outputDir); return err }`
abbrev pub remove_on_error : {S A : Type 0} → Run S (Unit {0}) → Result A → Run S A
remove_on_error remove (ok a) s = (ok a, s)
remove_on_error remove (err e) s = (err e, (remove s).1)
remove_on_error remove (panic e) s = (panic e, s)

module _ {c : Coins} (disk : Disk) {g : Genesis} (m : Machine c g disk.State) where
  open disk use {State, join, mkdir_all, remove_all}
  open m use {PubKey, Keyring, Algo, Address, Tx}

  -- `length` more characters.
  unfoldable pub generate_random_string : ℕ → Run State GoString
  generate_random_string zero = pure []
  generate_random_string (suc length) = do
    i ← m.intn 36
    b ← lift (char_or_panic (get_elem? charset i))
    rest ← generate_random_string length
    pure (b ∷ rest)

  module _ (args : InitArgs c) where
    abbrev pub NodeLists : Type 0
    NodeLists = Lists PubKey g.Account (Balance g)

    unfoldable pub or_remove : {A : Type 0} → Run State A → Run State A
    or_remove run s = remove_on_error (remove_all args.output_dir) (run s).0 (run s).1

    abbrev pub node_dir_name : ℕ → GoString
    node_dir_name i = args.node_dir_prefix ++ itoa (pos i)

    abbrev pub node_dir : ℕ → GoString
    node_dir i = join (args.output_dir ∷ node_dir_name i ∷ [])

    abbrev pub gentxs_dir : ℕ → GoString
    gentxs_dir i = join (args.output_dir ∷ node_dir_name i ∷ str "config" ∷ str "gentx" ∷ [])

    unfoldable pub node_setup : ℕ → NodeSetup
    node_setup i = record {
      root = node_dir i;
      moniker = node_dir_name i;
      rpc_listen_address = str "tcp://0.0.0.0:" ++ port_or_empty (get_elem? args.ports i);
    }

    -- The node's directory and validator files.
    unfoldable pub prepare_node : ℕ → Run State (GoString × PubKey)
    unfolding or_remove
    prepare_node i = do
      or_remove (mkdir_all (join (node_dir i ∷ str "config" ∷ [])))
      or_remove (m.initialize_node_validator_files (node_setup i))

    -- The node's key, with its seed words in a file.
    unfoldable pub make_key : ℕ → Run State (Keyring × Address)
    unfolding or_remove
    make_key i = do
      kb ← m.new_keyring args.keyring_backend (node_dir i)
      algo ← lift (m.new_signing_algo args.algo kb)
      (addr, secret) ← or_remove (m.generate_save_coin_key kb (node_dir_name i) algo)
      cli_print ← lift (m.marshal_secret secret)
      write_file disk (join (node_dir i ∷ str "key_seed.json" ∷ [])) (node_dir i) cli_print
      pure (kb, addr)

    -- The coins that each account begins with.
    unfoldable pub genesis_coins : g.CoinSet
    genesis_coins = m.sorted_coins (
        (str "testtoken", c.tokens_from_consensus_power 1000)
        ∷ (m.default_bond_denom, c.tokens_from_consensus_power 500)
        ∷ [])

    abbrev pub gentx_file : ℕ → GoString → GoString
    gentx_file i node_id = join (gentxs_dir i ∷ (str "gentx-" ++ (node_id ++ str ".json")) ∷ [])

    -- The transaction that creates the validator, signed and written to the node's directory.
    unfoldable pub make_gentx :
        GoString → ℕ → GoString → PubKey → GoString → Keyring → Address → Run State GoString
    make_gentx chain_id i node_id pub_key memo kb addr = do
      val_tokens ← lift (stake_of_node c args.validators_stakes_amount i)
      create_val_msg ← lift (
          m.new_msg_create_validator (m.val_address_string addr) pub_key val_tokens
            (node_dir_name i))
      tx_builder ← lift (m.set_msgs create_val_msg)
      signed ← m.sign chain_id memo kb (node_dir_name i) (m.set_memo memo tx_builder)
      tx_bz ← lift (m.encode_tx signed)
      write_file disk (gentx_file i node_id) (gentxs_dir i) tx_bz
      pure (gentx_file i node_id)

    abbrev pub shared_config : AppConfig
    shared_config = app_config m.default_config args.min_gas_prices m.default_bond_denom

    -- The body of the loop.
    unfoldable pub init_node : GoString → ℕ → NodeLists → Run State NodeLists
    init_node chain_id i lists = do
      (node_id, pub_key) ← prepare_node i
      let memo = memo_of_node node_id args.starting_ip_address i
      (kb, addr) ← make_key i
      gentx ← make_gentx chain_id i node_id pub_key memo kb addr
      m.write_app_config (join (node_dir i ∷ str "config" ∷ str "app.toml" ∷ []))
          (with_addresses args.starting_ip_address i shared_config)
      pure (record {
        node_ids = lists.node_ids ++ (node_id ∷ []);
        val_pub_keys = lists.val_pub_keys ++ (pub_key ∷ []);
        gen_accounts = lists.gen_accounts ++ (m.new_base_account addr ∷ []);
        gen_balances =
            lists.gen_balances
            ++ (record { address = m.address_string addr; coins = genesis_coins } ∷ []);
        gen_files = lists.gen_files ++ (m.genesis_file (node_dir i) ∷ []);
        persistent_peers = add_peer lists.persistent_peers memo;
        gentxs_files = lists.gentxs_files ++ (gentx ∷ []);
      })

    -- From node `i` on, with `n` nodes left.
    unfoldable pub init_nodes : GoString → ℕ → ℕ → NodeLists → Run State NodeLists
    init_nodes chain_id i zero lists = pure lists
    init_nodes chain_id i (suc n) lists = do
      lists' ← init_node chain_id i lists
      init_nodes chain_id (suc i) n lists'

    abbrev pub no_lists : NodeLists
    no_lists = record {
      node_ids = [];
      val_pub_keys = [];
      gen_accounts = [];
      gen_balances = [];
      gen_files = [];
      persistent_peers = [];
      gentxs_files = [];
    }

    -- The directories of the loop that copies, which joins the node's directory again.
    unfoldable pub copy_dirs : ℕ → ℕ → List GoString
    copy_dirs i zero = []
    copy_dirs i (suc n) = join (node_dir i ∷ str "config" ∷ str "gentx" ∷ []) ∷ copy_dirs (suc i) n

    -- `if args.chainID == "" { ... }`
    unfoldable pub chain_id_or_random : Run State GoString
    chain_id_or_random =
        if is_empty args.chain_id
        then (do r ← generate_random_string 6; pure (str "chain-" ++ r))
        else pure args.chain_id

    unfoldable pub init_testnet_files : GenesisCodec g State → Genutil State → Run State (Unit {0})
    init_testnet_files codec genutil = do
      chain_id ← chain_id_or_random
      n ← lift (make_slice args.num_validators)
      lists ← init_nodes chain_id 0 n no_lists
      init_gen_files g codec chain_id lists.gen_accounts lists.gen_balances lists.gen_files n
      copy_to_dirs disk (copy_dirs 0 n) lists.gentxs_files
      collect_gen_files genutil args.node_dir_prefix lists.persistent_peers args.ports n
