-- ===== src/Testnet/InPlaceTests.antt =====
-- Runs of the in-place testnet's options, and their theorems at inputs.
use chain_rice.Common.{ℕ, suc, ◌≡◌, ◌≢◌, ◌↔◌, refl, GoString, str, Bytes, [], ◌∷◌}
use chain_rice.Common.Result.{Error, message, wrap, Result, ok, err, panic}
use chain_rice.Testnet.Strings.{split}
use chain_rice.Testnet.InPlace.{
  Value, hex_bytes, pub_key, string, other, AppOptions, ValArgs, Bank, as_hex_bytes, as_pub_key,
  as_string, get_command_args, get_command_args_iff, fund_accounts, fund_accounts-default,
}

abbrev to_string : Value → GoString
to_string (string s) = s
to_string (hex_bytes b) = []
to_string (pub_key b) = []
to_string other = []

abbrev options : AppOptions
options = record {
  new_val_addr = hex_bytes (1 ∷ []);
  user_pub_key = pub_key (2 ∷ []);
  new_op_addr = string (str "op");
  trigger_testnet_upgrade = string [];
  accounts_to_fund = string [];
  home = string (str "/h");
  to_string = to_string;
}

abbrev arguments : ValArgs
arguments = record {
  new_val_addr = 1 ∷ [];
  new_operator_address = str "op";
  new_val_pub_key = 2 ∷ [];
  accounts_to_fund = [] ∷ [];
  upgrade_to_trigger = [];
  home_dir = str "/h";
}

abbrev no_address : Error
no_address = message "empty address string is not allowed" []

abbrev decode : GoString → Result Bytes
decode [] = err no_address
decode (c ∷ a) = ok (c ∷ a)

-- The state counts the coins that were minted and sent.
abbrev bank : Bank ℕ
bank = record {
  mint_coins = λ s. ok (suc s);
  address_string_to_bytes = decode;
  send_coins_from_module_to_account = λ s a. ok (suc s);
}

parsed : get_command_args options ≡ ok arguments
unfolding get_command_args as_hex_bytes as_pub_key as_string split
parsed = refl

wrong_key :
    get_command_args (record options { user_pub_key = other })
    ≡ err (message "newValPubKey is not of type crypto.PubKey" [])
unfolding get_command_args as_hex_bytes as_pub_key
wrong_key = refl

two_funded : fund_accounts bank (str "a" ∷ str "b" ∷ []) 0 ≡ ok 4
unfolding fund_accounts
two_funded = refl

get_command_args_iff_example : (get_command_args options ≡ ok arguments) ↔ (
    (hex_bytes (1 ∷ []) ≡ hex_bytes (1 ∷ []))
    × (pub_key (2 ∷ []) ≡ pub_key (2 ∷ []))
    × (string (str "op") ≡ string (str "op"))
    × (string [] ≡ string [])
    × (arguments.accounts_to_fund ≡ split [])
    × (arguments.home_dir ≡ str "/h")
    × (str "/h" ≢ []))
get_command_args_iff_example = get_command_args_iff options arguments

fund_accounts-default_example :
    (arguments.accounts_to_fund ≡ [] ∷ [])
    × (fund_accounts bank arguments.accounts_to_fund 0 ≡ panic (wrap "exit status 1" [] no_address))
fund_accounts-default_example =
    fund_accounts-default bank options arguments 0 1 no_address refl parsed refl refl
