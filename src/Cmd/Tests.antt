-- ===== src/Cmd/Tests.antt =====
-- Runs of appExport over the small keepers, where the runtime is a list as long as the height.
use chain_rice.Common.{
  ◌+◌, ◌%◌, ◌^◌, ◌≡◌, refl, sym, ap, ◌∙◌, str, false, some, none, [], ◌∷◌, length, length-replicate,
  replicate, arith, ◌==◌, if◌then◌else◌,
}
use chain_rice.Common.Result.{ok, err}
use chain_rice.Common.Run.{bind}
use chain_rice.Testnet.InPlace.{string, other}
use chain_rice.App.Ibc.{
  App, register_key_tables, create_ibc_keeper, create_keepers, ibc_router, add_light_clients,
  set_up_keepers, set_up_routes, register_ibc_modules,
}
use chain_rice.App.Build.{new, set_up}
use chain_rice.App.Export.{ExportedApp, export_app_state_and_validators, write_export}
use chain_rice.App.Tests.{sample_keepers, before}
use chain_rice.App.IbcTests.{sdk, app_sdk, after}
use chain_rice.Cmd.Export.{
  Process, no_home, no_viper, home_path, app_at, app_export, app_export_height,
}

last_of : (a a' : App sdk) → ok a ≡ ok a' → length a'.runtime ≡ length a.runtime
last_of a a' h =
    let same : a ≡ a' = ground (arith, h) in sym (ap (λ (b : App sdk). length b.runtime) same)

abbrev process : Process app_sdk
process = record {
  home = λ opts. if opts == 0 then other else string (str "/home");
  as_viper = λ opts. if opts == 1 then none else some opts;
  default_baseapp_options = λ opts. [];
  keepers = λ a. record sample_keepers { last_block_height = length a.runtime };
  state = λ a. before;
  load_height = λ h a. ok (record a { runtime = replicate h [] });
  load_height-last =
      λ h a a' e. last_of (record a { runtime = replicate h [] }) a' e ∙ length-replicate h [];
}

-- The app at the height 3.
abbrev third : App sdk
third = record after { runtime = replicate 3 [] }

abbrev exported : ExportedApp (process.keepers third)
exported = record {
  app_state = 100;
  validators = str "alice" ∷ [];
  height = 4;
  consensus_params = 0;
}

exported_at : app_export app_sdk process 3 false [] 2 [] ≡ ok (third, before, exported)
unfolding app_export home_path app_at export_app_state_and_validators write_export bind
    register_ibc_modules set_up_keepers register_key_tables create_ibc_keeper create_keepers
    set_up_routes ibc_router add_light_clients new set_up
exported_at = refl

without_home : app_export app_sdk process 3 false [] 0 [] ≡ err no_home
unfolding app_export home_path
without_home = refl

without_viper : app_export app_sdk process 3 false [] 1 [] ≡ err no_viper
unfolding app_export home_path
without_viper = refl

app_export_height_example : (exported.height ≡ (3 + 1) % 2 ^ 64) × (before ≡ before)
app_export_height_example =
    app_export_height app_sdk process 3 [] [] 2 third before exported (λ e. omega (arith, e))
      exported_at
