-- ===== src/App/BlockedTests.antt =====
-- Runs of the module accounts' permissions and the blocked addresses, and their theorem at an input.
use mathlib.Core.List.{Memᴰ}
use chain_rice.Common.{◌≡◌, ◌≢◌, ◌↔◌, refl, str, true, false, some, [], ◌∷◌, GoString, arith}
use chain_rice.App.Accounts.{
  Names, contains, contains_iff, perms_of, is_some, module_acc_perms, block_acc_addrs,
  get_macc_perms, blocked_addresses, blocked_addresses_iff,
}

abbrev pub names : Names
names = record {
  fee_collector = str "fee_collector";
  distr = str "distribution";
  mint = str "mint";
  bonded_pool = str "bonded_tokens_pool";
  not_bonded_pool = str "not_bonded_tokens_pool";
  gov = str "gov";
  nft = str "nft";
  ibc_transfer = str "transfer";
  ica = str "interchainaccounts";
  staking = str "staking";
  minter = str "minter";
  burner = str "burner";
}

mint_perms : get_macc_perms names (str "mint") ≡ some (str "minter" ∷ [])
unfolding get_macc_perms perms_of module_acc_perms
mint_perms = refl

gov_not_blocked : blocked_addresses names (str "gov") ≡ false
unfolding blocked_addresses block_acc_addrs contains
gov_not_blocked = refl

absent :
    (a : GoString) → contains (block_acc_addrs names) a ≡ false → ¬ Memᴰ a (block_acc_addrs names)
absent a h m = absurd (ground (arith, h, (contains_iff (block_acc_addrs names) a).1 m))

blocked_addresses_iff_example : (blocked_addresses names (str "nft") ≡ true) ↔ (
    (is_some (get_macc_perms names (str "nft")) ≡ true)
    × (str "nft" ≢ str "gov")
    × (str "nft" ≢ str "transfer")
    × (str "nft" ≢ str "interchainaccounts"))
unfolding block_acc_addrs contains
blocked_addresses_iff_example =
    blocked_addresses_iff names (str "nft") (absent (str "gov") refl) (absent (str "transfer") refl)
      (absent (str "interchainaccounts") refl)
