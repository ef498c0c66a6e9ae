-- ===== src/Testnet/Init/Works.antt =====
-- That none of the calls of initTestnetFiles has an error, and what ends without an error then: the
-- genesis files, at first and at the end.
use chain_rice.Common.{
  ℕ, zero, suc, ◌+◌, ◌<◌, ◌≡◌, refl, GoString, Bytes, Option, none, some, List, [], ◌∷◌, length,
  arith, false,
}
use chain_rice.Common.Result.{Result, ok}
use chain_rice.Common.Run.{lift}
use chain_rice.Common.Run.Total.{Total, pure-Total, lift-Total, bind-Total}
use chain_rice.Testnet.Args.{Coins, AppConfig, get_elem?}
use chain_rice.Testnet.Nodes.{NodeConfig}
use chain_rice.Testnet.Disk.Ends.{Gives}
use chain_rice.Testnet.GenFiles.{
  Genesis, Balance, BankGenesis, GenesisCodec, gen_state_of, save_all, init_gen_files,
}
use chain_rice.Testnet.Collect.{Genutil, collect_node, collect_nodes, collect_gen_files}
use chain_rice.Testnet.Machine.{NodeSetup, Machine}

-- The genesis can be made from any accounts and balances, and saved.
pub record CodecWorks {State : Type 0} (g : Genesis) (codec : GenesisCodec g State) : Type 0 where
  pub get_auth : (x : g.GenState) → Gives (codec.get_auth x)
  pub put_auth : (x : g.GenState) (a : g.AuthGenesis) → Gives (codec.put_auth x a)
  pub get_bank : (x : g.GenState) → Gives (codec.get_bank x)
  pub put_bank : (x : g.GenState) (b : BankGenesis g) → Gives (codec.put_bank x b)
  pub pack_accounts : (as' : List g.Account) → Gives (g.pack_accounts as')
  pub marshal_indent : (x : g.GenState) → Gives (codec.marshal_indent x)
  pub save_as : (id : GoString) (b : Bytes) (f : GoString) → Total (codec.save_as id b f)

-- A coin can be made of an amount that is not negative, which the default stake is.
pub record CoinsWork (c : Coins) : Type 0 where
  pub new_coin : (n : c.Int) → c.is_negative n ≡ false → Gives (c.new_coin n)
  pub default_stake : c.is_negative (c.tokens_from_consensus_power 100) ≡ false

-- Keys of the kind `algo`, in keyrings of the kind `backend`, transactions and configs can be made;
-- `intn n` gives a number below `n`, unless `n` is 0.
pub record MachineWorks {c : Coins} {g : Genesis} {State : Type 0} (m : Machine c g State)
    (algo backend : GoString) : Type 0 where
  pub intn :
      (n : ℕ) (s : State) → 0 < n → (i : ℕ) × (t : State) × (m.intn n s ≡ (ok i, t)) × (i < n)
  pub initialize_node_validator_files :
      (n : NodeSetup) → Total (m.initialize_node_validator_files n)
  pub new_keyring : (d : GoString) → Total (m.new_keyring backend d)
  pub new_signing_algo : (kb : m.Keyring) → Gives (m.new_signing_algo algo kb)
  pub generate_save_coin_key :
      (kb : m.Keyring) (n : GoString) (a : m.Algo) → Total (m.generate_save_coin_key kb n a)
  pub marshal_secret : (s : GoString) → Gives (m.marshal_secret s)
  pub new_msg_create_validator :
      (a : GoString) (k : m.PubKey) (t : c.Coin) (n : GoString)
      → Gives (m.new_msg_create_validator a k t n)
  pub set_msgs : (x : m.Msg) → Gives (m.set_msgs x)
  pub sign :
      (id memo : GoString) (kb : m.Keyring) (n : GoString) (x : m.Tx)
      → Total (m.sign id memo kb n x)
  pub encode_tx : (x : m.Tx) → Gives (m.encode_tx x)
  pub write_app_config : (p : GoString) (a : AppConfig) → Total (m.write_app_config p a)

-- The nodes' files can be read and written.
pub record GenutilWorks {Files : Type 0} (gu : Genutil Files) : Type 0 where
  pub app_genesis_from_file : (i : ℕ) → Total (gu.app_genesis_from_file i)
  pub gen_app_state_from_config :
      (i : ℕ) (a : gu.AppGenesis) → Total (gu.gen_app_state_from_config i a)
  pub write_config_file : (i : ℕ) (n : NodeConfig) → Total (gu.write_config_file i n)
  pub export_genesis_file_with_time :
      (i : ℕ) (a : gu.AppState) → Total (gu.export_genesis_file_with_time i a)

pub lift_Gives : {S A : Type 0} (r : Result A) → Gives r → Total {S = S} (lift r)
lift_Gives r (a, e) = lift-Total r a e

pub get_elem?-some :
    {A : Type 0} (xs : List A) (i : ℕ) → i < length xs → (x : A) × (get_elem? xs i ≡ some x)
get_elem?-some [] i h = absurd (omega arith)
get_elem?-some (x ∷ xs) zero h = (x, refl)
get_elem?-some (x ∷ xs) (suc i) h = get_elem?-some xs i (omega arith)

module _ {State : Type 0} (g : Genesis) (codec : GenesisCodec g State)
    (works : CodecWorks g codec) where
  gen_state_of-Total :
      (accounts : List g.Account) (balances : List (Balance g))
      → Total (gen_state_of g codec accounts balances)
  unfolding gen_state_of
  gen_state_of-Total accounts balances =
      bind-Total _ _ (lift_Gives _ (works.get_auth codec.default_genesis)) (λ auth.
        bind-Total _ _ (lift_Gives _ (works.pack_accounts accounts)) (λ packed.
          bind-Total _ _ (lift_Gives _ (works.put_auth codec.default_genesis _)) (λ x.
            bind-Total _ _ (lift_Gives _ (works.get_bank x))
              (λ bank. lift_Gives _ (works.put_bank x _)))))

  save_all-Total :
      (id : GoString) (b : Bytes) (files : List GoString) (n i : ℕ)
      → i + n ≡ length files
      → Total (save_all g codec id b files i n)
  unfolding save_all
  save_all-Total id b files zero i h = pure-Total tt
  save_all-Total id b files (suc n) i h =
      let (f, e) = get_elem?-some files i (omega arith) in
      bind-Total _ _ (rw e (works.save_as id b f))
        (λ _. save_all-Total id b files n (suc i) (omega arith))

  pub init_gen_files-Total :
      (id : GoString) (accounts : List g.Account) (balances : List (Balance g))
      (files : List GoString) (n : ℕ)
      → length files ≡ n
      → Total (init_gen_files g codec id accounts balances files n)
  unfolding init_gen_files
  init_gen_files-Total id accounts balances files n h =
      bind-Total _ _ (gen_state_of-Total accounts balances) (λ x.
        bind-Total _ _ (lift_Gives _ (works.marshal_indent x))
          (λ b. save_all-Total id b files n 0 (omega arith)))

module _ {Files : Type 0} (gu : Genutil Files) (works : GenutilWorks gu) (prefix peers : GoString)
    (ports : List GoString) where
  collect_node-Total :
      (i : ℕ) (o : Option gu.AppState) → Total (collect_node gu prefix peers ports i o)
  unfolding collect_node
  collect_node-Total i o = bind-Total _ _ (works.app_genesis_from_file i) (λ a.
      bind-Total _ _ (works.gen_app_state_from_config i a) (λ x.
        bind-Total _ _ (works.write_config_file i _)
          (λ _. bind-Total _ _ (works.export_genesis_file_with_time i _) (λ _. pure-Total _))))

  collect_nodes-Total :
      (n i : ℕ) (o : Option gu.AppState) → Total (collect_nodes gu prefix peers ports i n o)
  unfolding collect_nodes
  collect_nodes-Total zero i o = pure-Total tt
  collect_nodes-Total (suc n) i o =
      bind-Total _ _ (collect_node-Total i o) (λ a. collect_nodes-Total n (suc i) (some a))

  pub collect_gen_files-Total : (n : ℕ) → Total (collect_gen_files gu prefix peers ports n)
  unfolding collect_gen_files
  collect_gen_files-Total n = collect_nodes-Total n 0 none
