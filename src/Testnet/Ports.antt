-- ===== src/Testnet/Ports.antt =====
-- The ports of the nodes, which run on one machine.
use chain_rice.Common.{ℕ, ◌+◌, ◌-◌, ◌*◌, ◌≤◌, ◌<◌, ◌≡◌, refl, ap, arith}
use chain_rice.Testnet.Strings.{ℤ, pos, negsuc}
use chain_rice.Testnet.Args.{rpc_port}
use chain_rice.Testnet.Nodes.{p2p_port, proxy_app_port, prometheus_port, grpc_port, api_port}

-- What a node listens on.
pub data Service : Type 0 where
  p2p rpc proxy_app prometheus grpc api : Service

abbrev pub port : Service → ℕ → ℤ
port p2p i = p2p_port i
port rpc i = rpc_port i
port proxy_app i = proxy_app_port i
port prometheus i = prometheus_port i
port grpc i = grpc_port i
port api i = api_port i

-- The same as a number, for the nodes whose ports are positive.
abbrev number : Service → ℕ → ℕ
number p2p i = 26656 - 3 * i
number rpc i = 26657 - 3 * i
number proxy_app i = 26658 - 3 * i
number prometheus i = 26660 + i
number grpc i = 9090 - 2 * i
number api i = 1317 - i

port-number : (a : Service) (i : ℕ) → i ≤ 1316 → port a i ≡ pos (number a i)
unfolding p2p_port rpc_port proxy_app_port prometheus_port grpc_port api_port
port-number p2p i h = ground arith
port-number rpc i h = ground arith
port-number proxy_app i h = ground arith
port-number prometheus i h = refl
port-number grpc i h = ground arith
port-number api i h = ground arith

value : ℤ → ℕ
value (pos n) = n
value (negsuc n) = 0

number-injective :
    (a b : Service) (i j : ℕ) → i ≤ 1316 → j ≤ 1316 → number a i ≡ number b j → (a ≡ b) × (i ≡ j)
number-injective p2p p2p i j h k e = (refl, omega arith)
number-injective p2p rpc i j h k e = absurd (omega arith)
number-injective p2p proxy_app i j h k e = absurd (omega arith)
number-injective p2p prometheus i j h k e = absurd (omega arith)
number-injective p2p grpc i j h k e = absurd (omega arith)
number-injective p2p api i j h k e = absurd (omega arith)
number-injective rpc p2p i j h k e = absurd (omega arith)
number-injective rpc rpc i j h k e = (refl, omega arith)
number-injective rpc proxy_app i j h k e = absurd (omega arith)
number-injective rpc prometheus i j h k e = absurd (omega arith)
number-injective rpc grpc i j h k e = absurd (omega arith)
number-injective rpc api i j h k e = absurd (omega arith)
number-injective proxy_app p2p i j h k e = absurd (omega arith)
number-injective proxy_app rpc i j h k e = absurd (omega arith)
number-injective proxy_app proxy_app i j h k e = (refl, omega arith)
number-injective proxy_app prometheus i j h k e = absurd (omega arith)
number-injective proxy_app grpc i j h k e = absurd (omega arith)
number-injective proxy_app api i j h k e = absurd (omega arith)
number-injective prometheus p2p i j h k e = absurd (omega arith)
number-injective prometheus rpc i j h k e = absurd (omega arith)
number-injective prometheus proxy_app i j h k e = absurd (omega arith)
number-injective prometheus prometheus i j h k e = (refl, omega arith)
number-injective prometheus grpc i j h k e = absurd (omega arith)
number-injective prometheus api i j h k e = absurd (omega arith)
number-injective grpc p2p i j h k e = absurd (omega arith)
number-injective grpc rpc i j h k e = absurd (omega arith)
number-injective grpc proxy_app i j h k e = absurd (omega arith)
number-injective grpc prometheus i j h k e = absurd (omega arith)
number-injective grpc grpc i j h k e = (refl, omega arith)
number-injective grpc api i j h k e = absurd (omega arith)
number-injective api p2p i j h k e = absurd (omega arith)
number-injective api rpc i j h k e = absurd (omega arith)
number-injective api proxy_app i j h k e = absurd (omega arith)
number-injective api prometheus i j h k e = absurd (omega arith)
number-injective api grpc i j h k e = absurd (omega arith)
number-injective api api i j h k e = (refl, omega arith)

number-range : (a : Service) (i : ℕ) → i ≤ 1316 → (1 ≤ number a i) × (number a i < 65536)
number-range p2p i h = (omega arith, omega arith)
number-range rpc i h = (omega arith, omega arith)
number-range proxy_app i h = (omega arith, omega arith)
number-range prometheus i h = (omega arith, omega arith)
number-range grpc i h = (omega arith, omega arith)
number-range api i h = (omega arith, omega arith)

-- For the nodes 0 to 1316, every port is a number from 1 to 65535.
pub port-range :
    (a : Service) (i : ℕ) → i ≤ 1316 → (n : ℕ) × (port a i ≡ pos n) × (1 ≤ n) × (n < 65536)
port-range a i h = (number a i, port-number a i h, (number-range a i h).0, (number-range a i h).1)

-- Among the nodes 0 to 1316, with the default RPC ports, no two listeners have the same port: a port
-- that two of them share belongs to the same service of the same node.
pub port-injective :
    (a b : Service) (i j : ℕ) → i ≤ 1316 → j ≤ 1316 → port a i ≡ port b j → (a ≡ b) × (i ≡ j)
unfolding value
port-injective a b i j h k e =
    let numbers : pos (number a i) ≡ pos (number b j) =
      cc (port-number a i h, port-number b j k, e) in
    number-injective a b i j h k (ap value numbers)
