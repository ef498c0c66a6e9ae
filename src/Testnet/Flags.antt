-- ===== src/Testnet/Flags.antt =====
-- NewTestnetMultiNodeCmd: the flags of `multi-node`, as its run reads them.
use chain_rice.Common.{ℕ, ◌≡◌, refl, GoString, Option, none, some, List, [], ◌∷◌, false}
use chain_rice.Common.Result.{Result, ok, err, panic, ◌>>=◌}
use chain_rice.Testnet.Strings.{ℤ, pos, negsuc, split}
use chain_rice.Testnet.Args.{Coins, stakes_of_amounts, stakes_of_flag, ports_of_flag}
use chain_rice.Testnet.Disk.Ends.{Gives}
use chain_rice.Testnet.Init.{InitArgs}

-- `cmd.Flags()`, and `client.GetClientQueryContext`. The names are those of the constants.
pub record Flags : Type 0 where
  pub get_client_query_context : Result (Unit {0})
  pub output_dir : Result GoString
  pub keyring_backend : Result GoString
  pub chain_id : Result GoString
  pub min_gas_prices : Result GoString
  pub node_dir_prefix : Result GoString
  pub starting_ip_address : Result GoString
  pub num_validators : Result ℤ
  pub key_type : Result GoString
  pub validators_stake_amount : Result GoString
  pub ports : Result GoString

-- `x, _ = GetString(name)`, and the same for an int: an error is dropped, and leaves the zero value.
abbrev pub or_zero : {A : Type 0} → A → Result A → A
or_zero zero_value (ok a) = a
or_zero zero_value (err e) = zero_value
or_zero zero_value (panic e) = zero_value

-- How often `for i := 0; i < n; i++` goes round.
abbrev pub rounds : ℤ → ℕ
rounds (pos n) = n
rounds (negsuc n) = 0

-- `if s, err := GetString(name); err == nil { ... }`
unfoldable pub ports_of : ℕ → Result GoString → List GoString
ports_of n (ok s) = ports_of_flag n s
ports_of n (err e) = []
ports_of n (panic e) = []

module _ (c : Coins) where
  unfoldable pub stakes_of : Result GoString → Result (List c.Coin)
  stakes_of (ok s) = stakes_of_flag c s
  stakes_of (err e) = ok []
  stakes_of (panic e) = panic e

  abbrev pub args_of : Flags → List c.Coin → InitArgs c
  args_of flags stakes =
      let num_validators = or_zero (pos 0) flags.num_validators in
      record {
        algo = or_zero [] flags.key_type;
        chain_id = or_zero [] flags.chain_id;
        keyring_backend = or_zero [] flags.keyring_backend;
        min_gas_prices = or_zero [] flags.min_gas_prices;
        node_dir_prefix = or_zero [] flags.node_dir_prefix;
        num_validators = num_validators;
        output_dir = or_zero [] flags.output_dir;
        starting_ip_address = or_zero [] flags.starting_ip_address;
        validators_stakes_amount = stakes;
        ports = ports_of (rounds num_validators) flags.ports;
      }

  abbrev pub args_with : Flags → Result (List c.Coin) → Result (InitArgs c)
  args_with flags r = do stakes ← r; ok (args_of flags stakes)

  unfoldable pub init_args : Flags → Result (InitArgs c)
  init_args flags = args_with flags (stakes_of flags.validators_stake_amount)

-- What is no number is skipped.
abbrev pub IsNotNegative : (c : Coins) → Option c.Int → Type 0
IsNotNegative c none = Unit
IsNotNegative c (some n) = c.is_negative n ≡ false

abbrev pub NoneNegative : Coins → List GoString → Type 0
NoneNegative c [] = Unit
NoneNegative c (a ∷ amounts) = IsNotNegative c (c.new_int_from_string a) × NoneNegative c amounts

module _ (c : Coins) (new_coin : (n : c.Int) → c.is_negative n ≡ false → Gives (c.new_coin n)) where
  stake-Gives :
      (a : GoString) (amounts : List GoString) (o : Option c.Int)
      → c.new_int_from_string a ≡ o
      → IsNotNegative c o
      → Gives (stakes_of_amounts c amounts)
      → Gives (stakes_of_amounts c (a ∷ amounts))
  unfolding stakes_of_amounts
  stake-Gives a amounts none e h rest = rw e rest
  stake-Gives a amounts (some n) e h (coins, r) =
      let (coin, q) = new_coin n h in (coin ∷ coins, rw (e, q, r) refl)

  stakes_of_amounts-Gives :
      (amounts : List GoString) → NoneNegative c amounts → Gives (stakes_of_amounts c amounts)
  stakes_of_amounts-Gives [] h = unfold stakes_of_amounts in ([], refl)
  stakes_of_amounts-Gives (a ∷ amounts) (h, rest) =
      stake-Gives a amounts (c.new_int_from_string a) refl h (stakes_of_amounts-Gives amounts rest)

  -- The flag of stakes can be read, and none of its amounts is negative.
  pub init_args-Gives :
      (flags : Flags) (s : GoString)
      → flags.validators_stake_amount ≡ ok s
      → NoneNegative c (split s)
      → (stakes : List c.Coin) × (init_args c flags ≡ ok (args_of c flags stakes))
  unfolding init_args stakes_of stakes_of_flag
  init_args-Gives flags s stake amounts =
      let (stakes, e) = stakes_of_amounts-Gives (split s) amounts in (stakes, rw (stake, e) refl)
