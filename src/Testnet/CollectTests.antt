-- ===== src/Testnet/CollectTests.antt =====
-- A run of collectGenFiles over files that hold one number each, and its theorem at this input.
use chain_rice.Common.{ℕ, ◌<◌, ◌≡◌, refl, str, some, []}
use chain_rice.Common.Result.{ok}
use chain_rice.Common.Run.{bind}
use chain_rice.Testnet.Collect.{
  collect_node, collect_nodes, collect_gen_files, collect_gen_files-canonical,
}
use chain_rice.Testnet.Samples.{Store, nothing, put_state, genutil}

-- What two nodes' files hold in the end.
abbrev two_files : Store
two_files = put_state (put_state (put_state (put_state nothing 0 7) 0 7) 1 8) 1 7

collected : collect_gen_files genutil (str "node") [] [] 2 nothing ≡ (ok tt, two_files)
unfolding bind collect_gen_files collect_nodes collect_node
collected = refl

collect_gen_files-canonical_example : (a : ℕ) × ((i : ℕ) → i < 2 → two_files.states i ≡ some a)
collect_gen_files-canonical_example =
    collect_gen_files-canonical genutil (str "node") [] [] 1 nothing two_files collected
