-- ===== src/Testnet/Init/Ends.antt =====
-- The whole of initTestnetFiles ends without an error where none of the calls has one.
use chain_rice.Common.{
  ℕ, zero, suc, ◌<◌, ◌≡◌, refl, ap, ◌∙◌, GoString, is_empty, Option, none, some, [], length, arith,
}
use chain_rice.Common.Result.{ok}
use chain_rice.Common.Run.{Run}
use chain_rice.Common.Run.Total.{
  bind-Total_given, Total, pure-Total, lift-Total, bind-Total, if-Total,
}
use chain_rice.Testnet.Strings.{pos}
use chain_rice.Testnet.Args.{Coins, get_elem?, stake_of_node, stake_or_default}
use chain_rice.Testnet.Disk.{Disk}
use chain_rice.Testnet.Disk.Ends.{Gives, DiskWorks, write_file-Total, copy_to_dirs-Total}
use chain_rice.Testnet.GenFiles.{Genesis, GenesisCodec}
use chain_rice.Testnet.Collect.{Genutil}
use chain_rice.Testnet.Machine.{Machine}
use chain_rice.Testnet.Init.{
  InitArgs, NodeLists, make_slice, charset, char_or_panic, generate_random_string, or_remove,
  prepare_node, make_key, make_gentx, init_node, init_nodes, chain_id_or_random, init_testnet_files,
}
use chain_rice.Testnet.Init.Works.{
  CodecWorks, CoinsWork, MachineWorks, GenutilWorks, lift_Gives, get_elem?-some,
  init_gen_files-Total, collect_gen_files-Total,
}
use chain_rice.Testnet.Init.Built.{init_nodes-lists, genesis_files}

module _ {c : Coins} (disk : Disk) (disk_works : DiskWorks disk) {g : Genesis}
    (m : Machine c g disk.State) (args : InitArgs c)
    (works : MachineWorks m args.algo args.keyring_backend) (coins_work : CoinsWork c) where
  open disk use {State}

  char_at : (i : ℕ) → i < 36 → (b : ℕ) × (char_or_panic (get_elem? charset i) ≡ ok b)
  char_at i lt = let (b, e) = get_elem?-some charset i lt in (b, rw e refl)

  generate_random_string-Total : (n : ℕ) → Total (generate_random_string disk m n)
  unfolding generate_random_string
  generate_random_string-Total zero = pure-Total []
  generate_random_string-Total (suc n) =
      bind-Total_given _ _
        (record { ends = λ s. let (i, t, e, lt) = works.intn 36 s (omega arith) in (i, t, e) })
        (λ i s t e.
          bind-Total _ _ (lift_Gives _ (char_at i (below i s t e)))
            (λ b. bind-Total _ _ (generate_random_string-Total n) (λ rest. pure-Total _)))
    where
      below : (i : ℕ) (s t : State) → m.intn 36 s ≡ (ok i, t) → i < 36
      below i s t e = let (j, u, f, lt) = works.intn 36 s (omega arith) in ground arith

  or_remove-Total : {A : Type 0} (run : Run State A) → Total run → Total (or_remove disk m args run)
  unfolding or_remove
  or_remove-Total run p = record { ends = λ s. let (a, t, e) = p.ends s in (a, t, rw e refl) }

  chain_id_or_random-Total : Total (chain_id_or_random disk m args)
  unfolding chain_id_or_random
  chain_id_or_random-Total =
      if-Total (is_empty args.chain_id) _ _
        (bind-Total _ _ (generate_random_string-Total 6) (λ r. pure-Total _)) (pure-Total _)

  prepare_node-Total : (i : ℕ) → Total (prepare_node disk m args i)
  unfolding prepare_node
  prepare_node-Total i =
      bind-Total _ _ (or_remove-Total _ (disk_works.mkdir_all _))
        (λ _. or_remove-Total _ (works.initialize_node_validator_files _))

  make_key-Total : (i : ℕ) → Total (make_key disk m args i)
  unfolding make_key
  make_key-Total i = bind-Total _ _ (works.new_keyring _) (λ kb.
      bind-Total _ _ (lift_Gives _ (works.new_signing_algo kb)) (λ algo.
        bind-Total _ _ (or_remove-Total _ (works.generate_save_coin_key kb _ algo))
          (λ (addr, secret).
            bind-Total _ _ (lift_Gives _ (works.marshal_secret secret))
              (λ b. bind-Total _ _ (write_file-Total disk disk_works _ _ b) (λ _. pure-Total _)))))

  stake-Gives : (o : Option c.Coin) → Gives (stake_or_default c o)
  unfolding stake_or_default
  stake-Gives none = coins_work.new_coin _ coins_work.default_stake
  stake-Gives (some coin) = (coin, refl)

  make_gentx-Total :
      (id : GoString) (i : ℕ) (node_id : GoString) (key : m.PubKey) (memo : GoString)
      (kb : m.Keyring) (addr : m.Address)
      → Total (make_gentx disk m args id i node_id key memo kb addr)
  unfolding make_gentx stake_of_node
  make_gentx-Total id i node_id key memo kb addr =
      bind-Total _ _ (lift_Gives _ (stake-Gives _)) (λ coin.
        bind-Total _ _ (lift_Gives _ (works.new_msg_create_validator _ key coin _)) (λ msg.
          bind-Total _ _ (lift_Gives _ (works.set_msgs msg)) (λ x.
            bind-Total _ _ (works.sign id memo kb _ _) (λ signed.
              bind-Total _ _ (lift_Gives _ (works.encode_tx signed)) (λ b.
                bind-Total _ _ (write_file-Total disk disk_works _ _ b) (λ _. pure-Total _))))))

  init_node-Total :
      (id : GoString) (i : ℕ) (lists : NodeLists disk m args)
      → Total (init_node disk m args id i lists)
  unfolding init_node
  init_node-Total id i lists = bind-Total _ _ (prepare_node-Total i) (λ (node_id, key).
      bind-Total _ _ (make_key-Total i) (λ (kb, addr).
        bind-Total _ _ (make_gentx-Total id i node_id key _ kb addr)
          (λ gentx. bind-Total _ _ (works.write_app_config _ _) (λ _. pure-Total _))))

  init_nodes-Total :
      (id : GoString) (n i : ℕ) (lists : NodeLists disk m args)
      → Total (init_nodes disk m args id i n lists)
  unfolding init_nodes
  init_nodes-Total id zero i lists = pure-Total lists
  init_nodes-Total id (suc n) i lists =
      bind-Total _ _ (init_node-Total id i lists) (λ lists'. init_nodes-Total id n (suc i) lists')

  length-genesis_files : (id : GoString) (n i : ℕ) → length (genesis_files disk m args id i n) ≡ n
  length-genesis_files id zero i = refl
  length-genesis_files id (suc n) i = ap suc (length-genesis_files id n (suc i))

  -- If no call on files, keys of the kind of `args`, transactions and configs has an error, coins can be
  -- made of amounts that are not negative, and the number of validators is not negative, `init_testnet_files` ends without an error, whatever the files were.
  pub init_testnet_files-ends :
      (codec : GenesisCodec g State) (codec_works : CodecWorks g codec) (gu : Genutil State)
      (gu_works : GenutilWorks gu) (n : ℕ)
      → args.num_validators ≡ pos n
      → (s : State) → (s' : State) × (init_testnet_files disk m args codec gu s ≡ (ok tt, s'))
  unfolding init_testnet_files make_slice
  init_testnet_files-ends codec codec_works gu gu_works n count s =
      let (u, t, e) = run.ends s in (t, e)
    where
      run : Total (init_testnet_files disk m args codec gu)
      run = bind-Total _ _ chain_id_or_random-Total (λ id.
          bind-Total_given _ _ (lift-Total _ n (rw count refl)) (λ k s1 s2 same.
            bind-Total_given _ _ (init_nodes-Total id k 0 _) (λ lists s3 s4 e.
              let files = (init_nodes-lists disk m args id k lists s3 s4 e).1 in
              bind-Total _ _
                (init_gen_files-Total g codec codec_works id _ _ _ k
                  (ap length files ∙ length-genesis_files id k 0))
                (λ _.
                  bind-Total _ _ (copy_to_dirs-Total disk disk_works _ _)
                    (λ _. collect_gen_files-Total gu gu_works _ _ _ k)))))
