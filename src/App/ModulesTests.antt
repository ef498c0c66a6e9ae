-- ===== src/App/ModulesTests.antt =====
-- The orders that comments of app/app_config.go ask for.
use chain_rice.Common.{◌+◌, ◌≡◌, refl, str, Bool, true, false, ◌||◌, List, [], ◌∷◌, if◌then◌else◌}
use chain_rice.App.Modules.{
  ModuleName, upgrade, auth, staking, genutil, distr, slashing, index, same, count, pre_blockers,
  begin_blockers, init_genesis_order, modules_of, modules_config, ibc_modules, sealed_config,
}
use chain_rice.App.BlockedTests.{names}

abbrev occurs : ModuleName → List ModuleName → Bool
occurs m [] = false
occurs m (m' ∷ ms) = same m m' || occurs m ms

-- The first time that `a` occurs, `b` is still to come.
abbrev precedes : ModuleName → ModuleName → List ModuleName → Bool
precedes a b [] = false
precedes a b (m ∷ ms) = let later = precedes a b ms in if same a m then occurs b ms else later

genutil_after_staking : precedes staking genutil init_genesis_order ≡ true
unfolding index init_genesis_order
genutil_after_staking = refl

genutil_after_auth : precedes auth genutil init_genesis_order ≡ true
unfolding index init_genesis_order
genutil_after_auth = refl

slashing_after_distr : precedes distr slashing begin_blockers ≡ true
unfolding index begin_blockers
slashing_after_distr = refl

upgrade_first : precedes upgrade auth pre_blockers ≡ true
unfolding index pre_blockers
upgrade_first = refl

validator_prefix : sealed_config.validator_address ≡ str "cosmosvaloper"
unfolding sealed_config
validator_prefix = refl

staking_once :
    (count staking init_genesis_order ≡ 1)
    × (count staking (modules_of (modules_config names)) + count staking ibc_modules ≡ 1)
unfolding count index init_genesis_order modules_config ibc_modules
staking_once = (refl, refl)
