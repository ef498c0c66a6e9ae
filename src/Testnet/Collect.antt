-- ===== src/Testnet/Collect.antt =====
-- collectGenFiles: the genesis file and config of each node, once all gentx files are there.
use chain_rice.Common.{
  ℕ, zero, suc, ◌+◌, ◌<◌, ◌≡◌, ◌≢◌, refl, ◌∙◌, GoString, Option, none, some, List, arith, inl, inr,
  ◌⊎◌,
}
use chain_rice.Common.Result.{ok}
use chain_rice.Common.Run.{Run, pure, ◌>>=◌, ◌>>◌, bind-eq-ok}
use chain_rice.Testnet.Nodes.{NodeConfig, node_config}

-- What the function uses of genutil and of the files, where a node is named by its number.
-- `genesis_of` is the app state in a node's genesis file. `GenAppStateFromConfig` and
-- `ExportGenesisFileWithTime` write the genesis file of their node only, the latter with the app state
-- that it is given, and `WriteConfigFile` writes none.
pub record Genutil (Files : Type 0) : Type 1 where
  pub AppGenesis : Type 0
  pub AppState : Type 0
  pub genesis_of : Files → ℕ → Option AppState
  pub app_genesis_from_file : ℕ → Run Files AppGenesis
  pub gen_app_state_from_config : ℕ → AppGenesis → Run Files AppState
  pub write_config_file : ℕ → NodeConfig → Run Files (Unit {0})
  pub export_genesis_file_with_time : ℕ → AppState → Run Files (Unit {0})
  pub from_file-genesis :
      (s s' : Files) (i j : ℕ) (g : AppGenesis)
      → app_genesis_from_file i s ≡ (ok g, s')
      → genesis_of s' j ≡ genesis_of s j
  pub gen_app_state-other :
      (s s' : Files) (i j : ℕ) (g : AppGenesis) (a : AppState)
      → gen_app_state_from_config i g s ≡ (ok a, s')
      → j ≢ i
      → genesis_of s' j ≡ genesis_of s j
  pub write_config-genesis :
      (s s' : Files) (i j : ℕ) (c : NodeConfig)
      → write_config_file i c s ≡ (ok tt, s')
      → genesis_of s' j ≡ genesis_of s j
  pub export-own :
      (s s' : Files) (i : ℕ) (a : AppState)
      → export_genesis_file_with_time i a s ≡ (ok tt, s')
      → genesis_of s' i ≡ some a
  pub export-other :
      (s s' : Files) (i j : ℕ) (a : AppState)
      → export_genesis_file_with_time i a s ≡ (ok tt, s')
      → j ≢ i
      → genesis_of s' j ≡ genesis_of s j

-- `if appState == nil { appState = nodeAppState }`
abbrev pub first_state {ℓ} : {A : Type ℓ} → Option A → A → A
first_state none a = a
first_state (some b) a = b

first_state-some : {A : Type 0} (o : Option A) (b a : A) → o ≡ some b → first_state o a ≡ b
first_state-some none b a e = absurd (ground arith)
first_state-some (some c) b a e = ground arith

module _ {Files : Type 0} (g : Genutil Files) (node_dir_prefix persistent_peers : GoString)
    (ports : List GoString) where
  open g use {AppState, genesis_of}

  -- The body of the loop, with the app state for the nodes that follow.
  unfoldable pub collect_node : ℕ → Option AppState → Run Files AppState
  collect_node i app_state = do
    app_genesis ← g.app_genesis_from_file i
    node_app_state ← g.gen_app_state_from_config i app_genesis
    g.write_config_file i (node_config node_dir_prefix persistent_peers ports i)
    let app_state' = first_state app_state node_app_state
    g.export_genesis_file_with_time i app_state'
    pure app_state'

  -- From node `i` on, with `n` nodes left.
  unfoldable pub collect_nodes : ℕ → ℕ → Option AppState → Run Files (Unit {0})
  collect_nodes i zero app_state = pure tt
  collect_nodes i (suc n) app_state = do
    a ← collect_node i app_state
    collect_nodes (suc i) n (some a)

  unfoldable pub collect_gen_files : ℕ → Run Files (Unit {0})
  collect_gen_files num_validators = collect_nodes 0 num_validators none

  collect_node_lem :
      (i : ℕ) (o : Option AppState) (s s' : Files) (a : AppState)
      → collect_node i o s ≡ (ok a, s')
      → (genesis_of s' i ≡ some a)
        × ((j : ℕ) → j ≢ i → genesis_of s' j ≡ genesis_of s j)
        × ((b : AppState) → o ≡ some b → a ≡ b)
  unfolding collect_node
  collect_node_lem i o s s' a h =
      let (gen, s0, e0, h0) = bind-eq-ok (g.app_genesis_from_file i) _ s s' h in
      let (n, s1, e1, h1) = bind-eq-ok (g.gen_app_state_from_config i gen) _ s0 s' h0 in
      let (u, s2, e2, h2) = bind-eq-ok (g.write_config_file i _) _ s1 s' h1 in
      let (v, s3, e3, h3) =
        bind-eq-ok (g.export_genesis_file_with_time i (first_state o n)) _ s2 s' h2 in
      let own = g.export-own s2 s3 i (first_state o n) e3 in
      let last : s3 ≡ s' = ground arith in
      let state : first_state o n ≡ a = ground arith in
      (
        cc,
        λ j ne.
            let x0 = g.from_file-genesis s s0 i j gen e0 in
            let x1 = g.gen_app_state-other s0 s1 i j gen n e1 ne in
            let x2 = g.write_config-genesis s1 s2 i j _ e2 in
            let x3 = g.export-other s2 s3 i j (first_state o n) e3 ne in cc,
        λ b e. let same = first_state-some o b n e in cc,
      )

  collect_nodes_lem :
      (n i : ℕ) (s s' : Files) (a : AppState)
      → collect_nodes i n (some a) s ≡ (ok tt, s')
      → ((j : ℕ) → j < i → genesis_of s j ≡ some a)
      → (j : ℕ) → j < i + n
      → genesis_of s' j ≡ some a
  unfolding collect_nodes
  collect_nodes_lem zero i s s' a h done j lt =
      let last : s ≡ s' = ground arith in cc (done j (omega arith))
  collect_nodes_lem (suc n) i s s' a h done j lt =
      let (b, s1, e, rest) = bind-eq-ok (collect_node i (some a)) _ s s' h in
      let (own, others, keeps) = collect_node_lem i (some a) s s1 b e in
      let same : b ≡ a = keeps a refl in
      collect_nodes_lem n (suc i) s1 s' a (rw same at rest)
        (λ k below. elim (split_at k i below) [
          | inl eq ↦ cc (own, same, eq)
          | inr less ↦ others k (omega arith) ∙ done k less
        ])
        j (omega arith)
    where
      split_at : (k i : ℕ) → k < suc i → (k ≡ i) ⊎ (k < i)
      split_at k i h = ground arith

  -- If `collect_gen_files` ends without an error for one node at least, the genesis files of all nodes
  -- have one and the same app state.
  pub collect_gen_files-canonical :
      (n : ℕ) (s s' : Files)
      → collect_gen_files (suc n) s ≡ (ok tt, s')
      → (a : AppState) × ((i : ℕ) → i < suc n → genesis_of s' i ≡ some a)
  unfolding collect_gen_files collect_nodes
  collect_gen_files-canonical n s s' h =
      let (a, s1, e, rest) = bind-eq-ok (collect_node 0 none) _ s s' h in
      let (own, others, keeps) = collect_node_lem 0 none s s1 a e in
      (
        a,
        λ i lt.
            collect_nodes_lem n 1 s1 s' a rest
              (λ j below. let zeroth : j ≡ 0 = omega arith in cc (own, zeroth)) i (omega arith),
      )
