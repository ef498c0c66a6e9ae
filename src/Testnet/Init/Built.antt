-- ===== src/Testnet/Init/Built.antt =====
-- The lists and the string of peers that the loop over the nodes builds.
use mathlib.Core.List.{append_assoc, append-nil}
use chain_rice.Common.{
  ℕ, zero, suc, ◌+◌, ◌≡◌, refl, ap, ◌∙◌, GoString, List, [], ◌∷◌, ◌++◌, length, length-append,
  arith,
}
use chain_rice.Common.Result.{ok}
use chain_rice.Common.Run.{bind-eq-ok}
use chain_rice.Testnet.Args.{Coins}
use chain_rice.Testnet.Nodes.{memo_of_node, persistent_peers_from, persistent_peers_of, add_peer}
use chain_rice.Testnet.Disk.{Disk}
use chain_rice.Testnet.GenFiles.{Genesis}
use chain_rice.Testnet.Machine.{Machine}
use chain_rice.Testnet.Init.{
  InitArgs, NodeLists, node_dir, gentx_file, no_lists, make_gentx, genesis_coins, init_node,
  init_nodes,
}

module _ {c : Coins} (disk : Disk) {g : Genesis} (m : Machine c g disk.State) (args : InitArgs c)
    (chain_id : GoString) where
  open disk use {State}

  -- The files and the memos of the nodes with these IDs, from node `i` on.
  abbrev pub gentx_files : ℕ → List GoString → List GoString
  gentx_files i [] = []
  gentx_files i (id ∷ ids) = gentx_file disk m args i id ∷ gentx_files (suc i) ids

  abbrev pub memos : ℕ → List GoString → List GoString
  memos i [] = []
  memos i (id ∷ ids) = memo_of_node id args.starting_ip_address i ∷ memos (suc i) ids

  abbrev pub genesis_files : ℕ → ℕ → List GoString
  genesis_files i zero = []
  genesis_files i (suc n) = m.genesis_file (node_dir disk m args i) ∷ genesis_files (suc i) n

  make_gentx_lem :
      (i : ℕ) (id : GoString) (key : m.PubKey) (memo : GoString) (kb : m.Keyring) (addr : m.Address)
      (s s' : State) (f : GoString)
      → make_gentx disk m args chain_id i id key memo kb addr s ≡ (ok f, s')
      → f ≡ gentx_file disk m args i id
  unfolding make_gentx
  make_gentx_lem i id key memo kb addr s s' f h =
      let (a, s1, e1, h1) = bind-eq-ok _ _ s s' h in
      let (b, s2, e2, h2) = bind-eq-ok _ _ s1 s' h1 in
      let (d, s3, e3, h3) = bind-eq-ok _ _ s2 s' h2 in
      let (t, s4, e4, h4) = bind-eq-ok _ _ s3 s' h3 in
      let (z, s5, e5, h5) = bind-eq-ok _ _ s4 s' h4 in
      let (u, s6, e6, h6) = bind-eq-ok _ _ s5 s' h5 in ground arith

  -- The lists after one round.
  record Grown (i : ℕ) (lists lists' : NodeLists disk m args) : Type 0 where
    node_id : GoString
    ids : lists'.node_ids ≡ lists.node_ids ++ (node_id ∷ [])
    keys : length lists'.val_pub_keys ≡ length lists.val_pub_keys + 1
    accounts : length lists'.gen_accounts ≡ length lists.gen_accounts + 1
    balances : length lists'.gen_balances ≡ length lists.gen_balances + 1
    files : lists'.gen_files ≡ lists.gen_files ++ (m.genesis_file (node_dir disk m args i) ∷ [])
    peers :
        lists'.persistent_peers
        ≡ add_peer lists.persistent_peers (memo_of_node node_id args.starting_ip_address i)
    gentxs : lists'.gentxs_files ≡ lists.gentxs_files ++ (gentx_file disk m args i node_id ∷ [])

  init_node-Grown :
      (i : ℕ) (lists lists' : NodeLists disk m args) (s s' : State)
      → init_node disk m args chain_id i lists s ≡ (ok lists', s')
      → Grown i lists lists'
  unfolding init_node
  init_node-Grown i lists lists' s s' h =
      let ((id, key), s1, e1, h1) = bind-eq-ok _ _ s s' h in
      let ((kb, addr), s2, e2, h2) = bind-eq-ok _ _ s1 s' h1 in
      let (f, s3, e3, h3) = bind-eq-ok _ _ s2 s' h2 in
      let (u, s4, e4, h4) = bind-eq-ok _ _ s3 s' h3 in
      let file = make_gentx_lem i id key _ kb addr s2 s3 f e3 in
      record {
        node_id = id;
        ids = ground arith;
        keys = ground (arith, length-append lists.val_pub_keys (key ∷ []));
        accounts = ground (arith, length-append lists.gen_accounts (m.new_base_account addr ∷ []));
        balances = ground (
          arith,
          length-append lists.gen_balances
              (record { address = m.address_string addr; coins = genesis_coins disk m args } ∷ []),
        );
        files = ground arith;
        peers = ground arith;
        gentxs = ground arith;
      }

  -- The lists after the rounds for the nodes with these IDs, from node `i` on.
  abbrev Grew : ℕ → ℕ → List GoString → NodeLists disk m args → NodeLists disk m args → Type 0
  Grew i n ids lists lists' =
      (length ids ≡ n)
      × (lists'.node_ids ≡ lists.node_ids ++ ids)
      × (lists'.gen_files ≡ lists.gen_files ++ genesis_files i n)
      × (lists'.gentxs_files ≡ lists.gentxs_files ++ gentx_files i ids)
      × (lists'.persistent_peers ≡ persistent_peers_from lists.persistent_peers (memos i ids))
      × (length lists'.val_pub_keys ≡ length lists.val_pub_keys + n)
      × (length lists'.gen_accounts ≡ length lists.gen_accounts + n)
      × (length lists'.gen_balances ≡ length lists.gen_balances + n)

  Grown-Grew :
      (i n : ℕ) (ids : List GoString) (a b d : NodeLists disk m args) (first : Grown i a b)
      → Grew (suc i) n ids b d
      → Grew i (suc n) (first.node_id ∷ ids) a d
  unfolding persistent_peers_from
  Grown-Grew i n ids a b d first (count, names, files, gentxs, peers, keys, accounts, balances) = (
    omega (arith, count),
    names
        ∙ ap (λ (t : List GoString). t ++ ids) first.ids
        ∙ append_assoc a.node_ids (first.node_id ∷ []) ids,
    files
        ∙ ap (λ (t : List GoString). t ++ genesis_files (suc i) n) first.files
        ∙ append_assoc a.gen_files (m.genesis_file (node_dir disk m args i) ∷ [])
            (genesis_files (suc i) n),
    gentxs
        ∙ ap (λ (t : List GoString). t ++ gentx_files (suc i) ids) first.gentxs
        ∙ append_assoc a.gentxs_files (gentx_file disk m args i first.node_id ∷ [])
            (gentx_files (suc i) ids),
    peers ∙ ap (λ (t : GoString). persistent_peers_from t (memos (suc i) ids)) first.peers,
    omega (arith, keys, first.keys),
    omega (arith, accounts, first.accounts),
    omega (arith, balances, first.balances),
  )

  init_nodes-Grew :
      (n i : ℕ) (lists lists' : NodeLists disk m args) (s s' : State)
      → init_nodes disk m args chain_id i n lists s ≡ (ok lists', s')
      → (ids : List GoString) × Grew i n ids lists lists'
  unfolding init_nodes persistent_peers_from
  init_nodes-Grew zero i lists lists' s s' h =
      let same : lists ≡ lists' = ground arith in
      (
        [],
        (
          refl,
          cc (append-nil lists.node_ids),
          cc (append-nil lists.gen_files),
          cc (append-nil lists.gentxs_files),
          cc,
          ground arith,
          ground arith,
          ground arith,
        ),
      )
  init_nodes-Grew (suc n) i lists lists' s s' h =
      let (mid, t, e, rest) = bind-eq-ok _ _ s s' h in
      let first = init_node-Grown i lists mid s t e in
      let (ids, grew) = init_nodes-Grew n (suc i) mid lists' t s' rest in
      (first.node_id ∷ ids, Grown-Grew i n ids lists mid lists' first grew)

  -- If the loop over `n` nodes ends without an error, there is an ID for each node, in the order of the
  -- nodes; the gentx files are those under these IDs, the genesis files those of the nodes, and the
  -- string of peers the memos with commas between them; and there are `n` public keys, accounts and
  -- balances.
  pub init_nodes-lists :
      (n : ℕ) (lists : NodeLists disk m args) (s s' : State)
      → init_nodes disk m args chain_id 0 n (no_lists disk m args) s ≡ (ok lists, s')
      → (length lists.node_ids ≡ n)
        × (lists.gen_files ≡ genesis_files 0 n)
        × (lists.gentxs_files ≡ gentx_files 0 lists.node_ids)
        × (lists.persistent_peers ≡ persistent_peers_of (memos 0 lists.node_ids))
        × (length lists.val_pub_keys ≡ n)
        × (length lists.gen_accounts ≡ n)
        × (length lists.gen_balances ≡ n)
  unfolding persistent_peers_of
  init_nodes-lists n lists s s' h =
      let (ids, (count, names, files, gentxs, peers, keys, accounts, balances)) =
        init_nodes-Grew n 0 (no_lists disk m args) lists s s' h in
      (cc, files, cc, cc, omega (arith, keys), omega (arith, accounts), omega (arith, balances))
