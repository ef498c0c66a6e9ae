-- ===== src/Testnet/Init/Cleanup.antt =====
-- The errors in the loop over the nodes that remove the output directory.
use chain_rice.Common.{
  ℕ, zero, suc, ◌+◌, ◌<◌, ◌≡◌, refl, ap, ◌∙◌, GoString, str, none, true, [], ◌∷◌, arith,
}
use chain_rice.Common.Result.{Error, ok, err}
use chain_rice.Common.Run.{bind-ok, bind-err, bind-eq-ok}
use chain_rice.Testnet.Strings.{pos}
use chain_rice.Testnet.Args.{Coins}
use chain_rice.Testnet.Disk.{Disk}
use chain_rice.Testnet.GenFiles.{Genesis, GenesisCodec}
use chain_rice.Testnet.Collect.{Genutil}
use chain_rice.Testnet.Machine.{Machine}
use chain_rice.Testnet.Init.{
  InitArgs, NodeLists, make_slice, or_remove, node_dir, node_dir_name, node_setup, prepare_node,
  make_key, init_node, init_nodes, no_lists, chain_id_or_random, init_testnet_files,
}

module _ {c : Coins} (disk : Disk) {g : Genesis} (m : Machine c g disk.State)
    (args : InitArgs c) where
  open disk use {State, join, mkdir_all, remove_all}

  abbrev config_dir : ℕ → GoString
  config_dir i = join (node_dir disk m args i ∷ str "config" ∷ [])

  -- In the round for node `i`, begun in the state `s`, a call fails with `e` and leaves the state `s'`.
  pub data Fails (i : ℕ) (s : State) (e : Error) (s' : State) : Type 0 where
    no_directory : mkdir_all (config_dir i) s ≡ (err e, s') → Fails i s e s'
    no_validator_files :
        (t : State)
        → mkdir_all (config_dir i) s ≡ (ok tt, t)
        → m.initialize_node_validator_files (node_setup disk m args i) t ≡ (err e, s')
        → Fails i s e s'
    key_not_saved :
        (id : GoString) (key : m.PubKey) (kb : m.Keyring) (algo : m.Algo) (t u : State)
        → prepare_node disk m args i s ≡ (ok (id, key), t)
        → m.new_keyring args.keyring_backend (node_dir disk m args i) t ≡ (ok kb, u)
        → m.new_signing_algo args.algo kb ≡ ok algo
        → m.generate_save_coin_key kb (node_dir_name disk m args i) algo u ≡ (err e, s')
        → Fails i s e s'

  abbrev removed : State → State
  removed s = (remove_all args.output_dir s).1

  prepare_node-removes :
      (i : ℕ) (s s' : State) (e : Error)
      → mkdir_all (config_dir i) s ≡ (err e, s')
      → prepare_node disk m args i s ≡ (err e, removed s')
  unfolding prepare_node or_remove
  prepare_node-removes i s s' e h = bind-err _ _ s (removed s') e (rw h refl)

  prepare_node-removes_files :
      (i : ℕ) (s t s' : State) (e : Error)
      → mkdir_all (config_dir i) s ≡ (ok tt, t)
      → m.initialize_node_validator_files (node_setup disk m args i) t ≡ (err e, s')
      → prepare_node disk m args i s ≡ (err e, removed s')
  unfolding prepare_node or_remove
  prepare_node-removes_files i s t s' e h k = bind-ok _ _ s t tt (rw h refl) ∙ rw k refl

  make_key-removes :
      (i : ℕ) (s t s' : State) (kb : m.Keyring) (algo : m.Algo) (e : Error)
      → m.new_keyring args.keyring_backend (node_dir disk m args i) s ≡ (ok kb, t)
      → m.new_signing_algo args.algo kb ≡ ok algo
      → m.generate_save_coin_key kb (node_dir_name disk m args i) algo t ≡ (err e, s')
      → make_key disk m args i s ≡ (err e, removed s')
  unfolding make_key or_remove
  make_key-removes i s t s' kb algo e h k f =
      bind-ok _ _ s t kb h
      ∙ bind-ok _ _ t t algo (rw k refl)
      ∙ bind-err _ _ t (removed s') e (rw f refl)

  module _ (chain_id : GoString) where
    init_node-removes :
        (i : ℕ) (lists : NodeLists disk m args) (s s' : State) (e : Error)
        → Fails i s e s'
        → init_node disk m args chain_id i lists s ≡ (err e, removed s')
    unfolding init_node
    init_node-removes i lists s s' e (no_directory h) =
        bind-err _ _ s (removed s') e (prepare_node-removes i s s' e h)
    init_node-removes i lists s s' e (no_validator_files t h k) =
        bind-err _ _ s (removed s') e (prepare_node-removes_files i s t s' e h k)
    init_node-removes i lists s s' e (key_not_saved id key kb algo t u h k a f) =
        bind-ok _ _ s t (id, key) h
        ∙ bind-err _ _ t (removed s') e (make_key-removes i t u s' kb algo e k a f)

    -- The rounds for the nodes before `i + k` are done, and that for node `i + k` fails.
    init_nodes-removes :
        (k n i : ℕ) (lists lists' : NodeLists disk m args) (s t s' : State) (e : Error)
        → init_nodes disk m args chain_id i k lists s ≡ (ok lists', t)
        → Fails (i + k) t e s'
        → k < n
        → init_nodes disk m args chain_id i n lists s ≡ (err e, removed s')
    unfolding init_nodes
    init_nodes-removes k zero i lists lists' s t s' e h fails lt = absurd (omega arith)
    init_nodes-removes zero (suc n) i lists lists' s t s' e h fails lt =
        let here : i + 0 ≡ i = omega arith in
        let same : s ≡ t = ground arith in
        bind-err _ _ s (removed s') e
          (init_node-removes i lists s s' e (rw same (rw here at fails)))
    init_nodes-removes (suc k) (suc n) i lists lists' s t s' e h fails lt =
        let there : i + suc k ≡ suc i + k = omega arith in
        let (mid, u, first, rest) = bind-eq-ok _ _ s t h in
        bind-ok _ _ s u mid first
        ∙ init_nodes-removes k n (suc i) mid lists' u t s' e rest (rw there at fails) (omega arith)

  -- If the round for a node fails to make its directory, its validator files or its key, after the rounds
  -- for the nodes before it, then `init_testnet_files` returns that error, whatever `remove_all` does.
  init_testnet_files-removes :
      (codec : GenesisCodec g State) (gu : Genutil State) (n i : ℕ) (lists : NodeLists disk m args)
      (s t u s' : State) (e : Error) (chain_id : GoString)
      → args.num_validators ≡ pos n
      → i < n
      → chain_id_or_random disk m args s ≡ (ok chain_id, t)
      → init_nodes disk m args chain_id 0 i (no_lists disk m args) t ≡ (ok lists, u)
      → Fails i u e s'
      → init_testnet_files disk m args codec gu s ≡ (err e, removed s')
  unfolding init_testnet_files make_slice
  init_testnet_files-removes codec gu n i lists s t u s' e chain_id count lt id h fails =
      bind-ok _ _ s t chain_id id
      ∙ bind-ok _ _ t t n (rw count refl)
      ∙ bind-err _ _ t (removed s') e
          (init_nodes-removes chain_id i n 0 _ lists t u s' e h (rw from_zero fails) lt)
    where
      from_zero : 0 + i ≡ i
      from_zero = omega arith

  -- If the round for a node fails to make its directory, its validator files or its key, after the rounds
  -- for the nodes before it, and the output directory can be removed then, `init_testnet_files` returns
  -- the error of the round and leaves no file at a path inside the output directory.
  pub init_testnet_files-cleanup :
      (codec : GenesisCodec g State) (gu : Genutil State) (n i : ℕ) (lists : NodeLists disk m args)
      (s t u s' left : State) (e : Error) (chain_id p : GoString)
      → args.num_validators ≡ pos n
      → i < n
      → chain_id_or_random disk m args s ≡ (ok chain_id, t)
      → init_nodes disk m args chain_id 0 i (no_lists disk m args) t ≡ (ok lists, u)
      → Fails i u e s'
      → remove_all args.output_dir s' ≡ (ok tt, left)
      → disk.is_inside args.output_dir p ≡ true
      → (init_testnet_files disk m args codec gu s ≡ (err e, left)) × (disk.content left p ≡ none)
  init_testnet_files-cleanup codec gu n i lists s t u s' left e chain_id p count lt id h fails gone
        inside =
      let stops =
        init_testnet_files-removes codec gu n i lists s t u s' e chain_id count lt id h fails in
      let same : removed s' ≡ left = ap (λ q. q.1) gone in
      (rw same at stops, disk.remove-inside s' left args.output_dir p gone inside)
