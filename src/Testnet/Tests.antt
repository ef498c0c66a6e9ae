-- ===== src/Testnet/Tests.antt =====
-- Runs of the multi-node testnet's functions, and the theorems at inputs.
use chain_rice.Common.{false, ℕ, ◌≡◌, refl, GoString, str, Option, none, some, [], ◌∷◌, true, arith}
use chain_rice.Common.Result.{ok}
use chain_rice.Testnet.Strings.{itoa, decimal, split}
use chain_rice.Testnet.Args.{
  Coins, AppConfig, stakes_of_amounts, stakes_of_flag, stake_of_node, stake_or_default, rpc_port,
}
use chain_rice.Testnet.Nodes.{
  node_config, memo_of_node, persistent_peers_of, p2p_port, proxy_app_port, prometheus_port,
}
use chain_rice.Testnet.Ports.{Service.rpc, port-injective}
use chain_rice.Testnet.Stakes.{stakes_of_amounts-invalid}
use chain_rice.Testnet.Peers.{NoComma, split-persistent_peers_of}

-- An integer of one digit.
abbrev one_digit : GoString → Option ℕ
one_digit (c ∷ []) = some c
one_digit [] = none
one_digit (c ∷ d ∷ s) = none

abbrev coins : Coins
coins = record {
  Int = ℕ;
  Coin = ℕ;
  is_negative = λ n. false;
  new_int_from_string = one_digit;
  new_coin = λ n. ok n;
  tokens_from_consensus_power = λ n. n;
}

split_ports : split (str "1,,22") ≡ str "1" ∷ [] ∷ str "22" ∷ []
unfolding split
split_ports = refl

itoa_port : itoa (rpc_port 3) ≡ str "26648"
unfolding itoa decimal rpc_port
itoa_port = refl

itoa_negative : itoa (rpc_port 8886) ≡ str "-1"
unfolding itoa decimal rpc_port
itoa_negative = refl

-- The second amount is no number, and the third becomes the stake of node 1.
stakes_shift : stakes_of_flag coins (str "7,x1,8") ≡ ok (55 ∷ 56 ∷ [])
unfolding stakes_of_flag stakes_of_amounts split
stakes_shift = refl

stake_default : stake_of_node coins (55 ∷ []) 1 ≡ ok 100
unfolding stake_of_node stake_or_default
stake_default = refl

memo_second : memo_of_node (str "id") (str "localhost") 1 ≡ str "id@localhost:26653"
unfolding memo_of_node itoa decimal p2p_port
memo_second = refl

config_second : node_config (str "validator") (str "p") (str "1" ∷ []) 1 ≡ record {
  moniker = str "validator1";
  persistent_peers = str "p";
  allow_duplicate_ip = true;
  p2p_listen_address = str "tcp://0.0.0.0:26653";
  rpc_listen_address = str "tcp://127.0.0.1:";
  proxy_app = str "tcp://127.0.0.1:26655";
  prometheus_listen_addr = str ":26661";
  prometheus = true;
}
unfolding node_config itoa decimal p2p_port proxy_app_port prometheus_port
config_second = refl

abbrev fourth : ℕ
fourth = 4

port-injective_example : (rpc ≡ rpc) × (fourth ≡ fourth)
port-injective_example = port-injective rpc rpc fourth fourth (omega arith) (omega arith) refl

stakes_of_amounts-invalid_example :
    stakes_of_amounts coins (str "7" ∷ str "x1" ∷ str "8" ∷ [])
    ≡ stakes_of_amounts coins (str "7" ∷ str "8" ∷ [])
stakes_of_amounts-invalid_example =
    stakes_of_amounts-invalid coins (str "7" ∷ []) (str "x1") (str "8" ∷ []) refl

abbrev default_config : AppConfig
default_config = record {
  min_gas_prices = [];
  api_enable = true;
  enable_hostname_label = true;
  telemetry_enabled = true;
  prometheus_retention_time = 60;
  grpc_address = [];
  api_address = [];
}

split-persistent_peers_of_example :
    split (persistent_peers_of (str "a@h:1" ∷ str "b@h:2" ∷ [])) ≡ str "a@h:1" ∷ str "b@h:2" ∷ []
split-persistent_peers_of_example =
    split-persistent_peers_of (str "a@h:1") (str "b@h:2" ∷ [])
      (ground arith, no_comma_a, (ground arith, no_comma_b, tt))
  where
    no_comma_a : NoComma (str "a@h:1")
    no_comma_a = (ground arith, (ground arith, (ground arith, (ground arith, (ground arith, tt)))))

    no_comma_b : NoComma (str "b@h:2")
    no_comma_b = (ground arith, (ground arith, (ground arith, (ground arith, (ground arith, tt)))))
