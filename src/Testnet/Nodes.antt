-- ===== src/Testnet/Nodes.antt =====
-- What the loops over the nodes write: addresses, and the list of peers.
use chain_rice.Common.{
  ℕ, ◌+◌, ◌*◌, GoString, str, is_empty, List, [], ◌∷◌, ◌++◌, if◌then◌else◌, Bool, true,
}
use chain_rice.Testnet.Strings.{ℤ, pos, sub_int, itoa, comma}
use chain_rice.Testnet.Args.{AppConfig, get_elem?, port_or_empty}

unfoldable pub p2p_port : ℕ → ℤ
p2p_port i = sub_int 26656 (3 * i)

unfoldable pub proxy_app_port : ℕ → ℤ
proxy_app_port i = sub_int 26658 (3 * i)

unfoldable pub prometheus_port : ℕ → ℤ
prometheus_port i = pos (26660 + i)

unfoldable pub grpc_port : ℕ → ℤ
grpc_port i = sub_int 9090 (2 * i)

unfoldable pub api_port : ℕ → ℤ
api_port i = sub_int 1317 i

-- `fmt.Sprintf("%s@%s:"+port, nodeID, ip)`
unfoldable pub memo_of_node : GoString → GoString → ℕ → GoString
memo_of_node node_id starting_ip i =
    node_id ++ (str "@" ++ (starting_ip ++ (str ":" ++ itoa (p2p_port i))))

-- One more peer at the end of the list.
unfoldable pub add_peer : GoString → GoString → GoString
add_peer persistent_peers memo =
    if is_empty persistent_peers then memo else persistent_peers ++ (comma ∷ memo)

unfoldable pub persistent_peers_from : GoString → List GoString → GoString
persistent_peers_from peers [] = peers
persistent_peers_from peers (memo ∷ memos) = persistent_peers_from (add_peer peers memo) memos

unfoldable pub persistent_peers_of : List GoString → GoString
persistent_peers_of memos = persistent_peers_from [] memos

-- The addresses in app.toml of a node.
unfoldable pub with_addresses : GoString → ℕ → AppConfig → AppConfig
with_addresses starting_ip i config = record config {
  grpc_address = starting_ip ++ (str ":" ++ itoa (grpc_port i));
  api_address = str "tcp://localhost:" ++ itoa (api_port i);
}

-- The fields of the node's config.toml that `collectGenFiles` sets.
pub record NodeConfig : Type 0 where
  pub moniker : GoString
  pub persistent_peers : GoString
  pub allow_duplicate_ip : Bool
  pub p2p_listen_address : GoString
  pub rpc_listen_address : GoString
  pub proxy_app : GoString
  pub prometheus_listen_addr : GoString
  pub prometheus : Bool

unfoldable pub node_config : GoString → GoString → List GoString → ℕ → NodeConfig
node_config node_dir_prefix persistent_peers ports i = record {
  moniker = node_dir_prefix ++ itoa (pos i);
  persistent_peers = persistent_peers;
  allow_duplicate_ip = true;
  p2p_listen_address = str "tcp://0.0.0.0:" ++ itoa (p2p_port i);
  rpc_listen_address = str "tcp://127.0.0.1:" ++ port_or_empty (get_elem? ports i);
  proxy_app = str "tcp://127.0.0.1:" ++ itoa (proxy_app_port i);
  prometheus_listen_addr = str ":" ++ itoa (prometheus_port i);
  prometheus = true;
}
