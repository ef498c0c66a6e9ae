-- ===== src/App/AccountTests.antt =====
-- Runs of the validation of genesis accounts, and its theorems at inputs.
use chain_rice.Common.{
  ℕ, ◌-◌, ◌^◌, ◌<◌, ◌≡◌, ◌↔◌, ◌⊎◌, refl, str, [], true, false, ◌==◌, if◌then◌else◌,
}
use chain_rice.Common.Result.{message, ok, err}
use chain_rice.App.GenesisAccount.{
  AuthTypes, GenesisAccount, bias, validate_account, validate_vesting, validate_module,
  validate_account_iff,
}

-- Coins are an amount, and a base account is a number that is valid if it is not 0.
abbrev auth : AuthTypes
auth = record {
  Coins = ℕ;
  BaseAccount = ℕ;
  is_zero = λ c. c == 0;
  base_account_validate = λ a. if a == 0 then err (message "no address" []) else ok tt;
  module_account_validate = λ a name permissions. ok tt;
}

abbrev account : GenesisAccount auth
account = record {
  base_account = 1;
  original_vesting = 7;
  delegated_free = 0;
  delegated_vesting = 0;
  start_time = 10;
  end_time = 20;
  module_name = str "gov";
  module_permissions = [];
}

abbrev reversed : GenesisAccount auth
reversed = record account { start_time = 20; end_time = 10 }

account_valid : validate_account auth account ≡ ok tt
unfolding validate_account validate_vesting validate_module
account_valid = refl

-- A start time of -1 is before 10.
negative_start : validate_account auth (record account { start_time = 2 ^ 64 - 1 }) ≡ ok tt
unfolding validate_account validate_vesting validate_module
negative_start = refl

validate_account_iff_example : (validate_account auth account ≡ ok tt) ↔ (
    ((false ≡ true) ⊎ (bias 10 < bias 20))
    × ((str "gov" ≡ []) ⊎ (auth.module_account_validate 1 (str "gov") [] ≡ ok tt))
    × (auth.base_account_validate 1 ≡ ok tt))
validate_account_iff_example = validate_account_iff auth account
