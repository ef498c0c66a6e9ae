-- ===== src/Testnet/Args.antt =====
-- The flags of `multi-node`, and the config that all nodes share.
use chain_rice.Common.{
  ℕ, zero, suc, ◌*◌, GoString, str, is_empty, Option, none, some, List, [], ◌∷◌, ◌++◌, Bool, false,
  if◌then◌else◌,
}
use chain_rice.Common.Result.{Result, ok, ◌>>=◌}
use chain_rice.Testnet.Strings.{ℤ, sub_int, itoa, split}

-- `math.NewIntFromString`, and `sdk.NewCoin` with the default denomination, which panics on a negative
-- amount.
pub record Coins : Type 1 where
  pub Int : Type 0
  pub Coin : Type 0
  pub new_int_from_string : GoString → Option Int
  pub is_negative : Int → Bool
  pub new_coin : Int → Result Coin
  pub tokens_from_consensus_power : ℕ → Int

-- The value of a Go map at a key, where the keys are 0, 1, 2, ... in the order of the list.
abbrev pub get_elem? {ℓ} : {A : Type ℓ} → List A → ℕ → Option A
get_elem? [] i = none
get_elem? (x ∷ xs) zero = some x
get_elem? (x ∷ xs) (suc i) = get_elem? xs i

-- A missing key gives the empty string.
abbrev pub port_or_empty : Option GoString → GoString
port_or_empty none = []
port_or_empty (some p) = p

unfoldable pub rpc_port : ℕ → ℤ
rpc_port i = sub_int 26657 (3 * i)

-- `for i := 0; i < n; i++`, from `i` on with `n` rounds left.
unfoldable pub default_ports : ℕ → ℕ → List GoString
default_ports i zero = []
default_ports i (suc n) = itoa (rpc_port i) ∷ default_ports (suc i) n

-- `--list-ports`
unfoldable pub ports_of_flag : ℕ → GoString → List GoString
ports_of_flag num_validators s = if is_empty s then default_ports 0 num_validators else split s

module _ (c : Coins) where
  open c use {Coin, new_int_from_string, new_coin, tokens_from_consensus_power}

  -- `continue` on an amount that is no number, so that the next one takes its place.
  unfoldable pub stakes_of_amounts : List GoString → Result (List Coin)
  stakes_of_amounts [] = ok []
  stakes_of_amounts (amount ∷ amounts) =
      stake_of (new_int_from_string amount) (stakes_of_amounts amounts)
    where
      stake_of : Option c.Int → Result (List Coin) → Result (List Coin)
      stake_of none rest = rest
      stake_of (some a) rest = do coin ← new_coin a; coins ← rest; ok (coin ∷ coins)

  -- `--validators-stake-amount`
  unfoldable pub stakes_of_flag : GoString → Result (List Coin)
  stakes_of_flag s = stakes_of_amounts (split s)

  -- The stake of a node, with the default of 100 units of power.
  unfoldable pub stake_or_default : Option Coin → Result Coin
  stake_or_default none = new_coin (tokens_from_consensus_power 100)
  stake_or_default (some coin) = ok coin

  unfoldable pub stake_of_node : List Coin → ℕ → Result Coin
  stake_of_node stakes i = stake_or_default (get_elem? stakes i)

-- The fields of server/config.Config that the code sets. `BaseConfig` is embedded in `Config`, so that
-- `appConfig.MinGasPrices` is `appConfig.BaseConfig.MinGasPrices`.
pub record AppConfig : Type 0 where
  pub min_gas_prices : GoString
  pub api_enable : Bool
  pub enable_hostname_label : Bool
  pub telemetry_enabled : Bool
  pub prometheus_retention_time : ℕ
  pub grpc_address : GoString
  pub api_address : GoString

-- The assignments in the code's order, over the default config.
unfoldable pub app_config : AppConfig → GoString → GoString → AppConfig
app_config default_config min_gas_prices default_bond_denom =
    let c1 : AppConfig = record default_config { min_gas_prices = min_gas_prices } in
    let c2 : AppConfig = record c1 { api_enable = false } in
    let c3 : AppConfig = record c2 { min_gas_prices = str "0.0001" ++ default_bond_denom } in
    record c3 {
      enable_hostname_label = false;
      telemetry_enabled = false;
      prometheus_retention_time = 0;
    }
