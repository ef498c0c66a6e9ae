-- ===== src/App/Build.antt =====
-- app/app.go: New, with the init chainer that it sets, and the accessors GetSubspace and GetKey.
use chain_rice.Common.{◌≡◌, refl, ap, GoString, Bool, Option, none, List, [], ◌∷◌, ◌++◌, arith}
use chain_rice.Common.Result.{Result, ok, err, panic, must, must-eq-ok}
use chain_rice.Common.Run.{Run, ◌>>=◌, ◌>>◌, bind-eq-ok}
use chain_rice.App.Ibc.Stores.{StoresLaw, AllMade, AllMade-runtime, register_ibc_modules-AllMade}
use chain_rice.App.Ibc.{IbcSdk, App, on_runtime, register_ibc_modules}

-- What New uses of the SDK besides. `inject` is depinject over the app's config with the given options,
-- and gives the app builder; the simulation manager is part of the runtime here.
pub record AppSdk (ibc : IbcSdk) : Type 1 where
  pub Opts : Type 0
  pub BaseOption : Type 0
  pub Builder : Type 0
  pub Request : Type 0
  pub Response : Type 0
  pub VersionMap : Type 0
  pub inject : Opts → Result Builder
  pub set_optimistic_execution : BaseOption
  pub build : Builder → List BaseOption → ibc.Runtime
  pub new_simulation_manager : Run ibc.Runtime (Unit {0})
  pub register_store_decoders : Run ibc.Runtime (Unit {0})
  pub get_version_map : ibc.Runtime → VersionMap
  pub set_module_version_map : VersionMap → Run ibc.Runtime (Unit {0})
  pub runtime_init_chainer : Request → Run ibc.Runtime Response
  pub set_init_chainer : (Request → Run (App ibc) Response) → Run ibc.Runtime (Unit {0})
  pub load : Bool → Run ibc.Runtime (Unit {0})

module _ {ibc : IbcSdk} (sdk : AppSdk ibc) where
  open sdk use {Opts, BaseOption, Request, Response}

  -- The version map is set before the modules' genesis.
  unfoldable pub init_chainer : Request → Run (App ibc) Response
  init_chainer req = do
    r ← (λ (a : App ibc). (ok a.runtime, a))
    on_runtime ibc (sdk.set_module_version_map (sdk.get_version_map r))
    on_runtime ibc (sdk.runtime_init_chainer req)

  -- `if err := f(); err != nil { panic(err) }`
  abbrev pub must_run : {A : Type 0} → Run (App ibc) A → Run (App ibc) A
  must_run run a = (must (run a).0, (run a).1)

  -- What New does with the app once it is built.
  unfoldable pub set_up : Bool → Run (App ibc) (Unit {0})
  set_up load_latest = do
    must_run (register_ibc_modules ibc)
    on_runtime ibc sdk.new_simulation_manager
    on_runtime ibc sdk.register_store_decoders
    on_runtime ibc (sdk.set_init_chainer init_chainer)
    must_run (on_runtime ibc (sdk.load load_latest))

  abbrev pub built : sdk.Builder → List BaseOption → App ibc
  built builder base_app_options = record {
    runtime = sdk.build builder (base_app_options ++ (sdk.set_optimistic_execution ∷ []));
    ibc_keeper = none;
    transfer_keeper = none;
    ica_host_keeper = none;
    ica_controller_keeper = none;
  }

  abbrev app_of : Result (Unit {0}) × App ibc → Result (App ibc)
  app_of (ok u, a) = ok a
  app_of (err e, a) = err e
  app_of (panic e, a) = panic e

  abbrev new_from : Bool → List BaseOption → Result sdk.Builder → Result (App ibc)
  new_from load_latest base_app_options (ok builder) =
      app_of (set_up load_latest (built builder base_app_options))
  new_from load_latest base_app_options (err e) = panic e
  new_from load_latest base_app_options (panic e) = panic e

  unfoldable pub new : Bool → Opts → List BaseOption → Result (App ibc)
  new load_latest app_opts base_app_options =
      new_from load_latest base_app_options (sdk.inject app_opts)

  -- A missing subspace gives its zero value.
  unfoldable pub get_subspace : App ibc → GoString → ibc.Subspace
  get_subspace a module_name = ibc.params_get_subspace a.runtime module_name

  unfoldable pub get_key : App ibc → GoString → Option ibc.StoreKey
  get_key a store_key = ibc.unsafe_find_store_key a.runtime store_key

module _ {ibc : IbcSdk} (sdk : AppSdk ibc) (laws : StoresLaw ibc) where
  must_run-eq-ok :
      {A : Type 0} (run : Run (App ibc) A) (a a' : App ibc) (x : A)
      → must_run sdk run a ≡ (ok x, a')
      → run a ≡ (ok x, a')
  must_run-eq-ok {A = A} run a a' x h =
      let first : (run a).0 ≡ ok x =
        must-eq-ok (run a).0 (ap (λ (p : Result A × App ibc). p.0) h) in
      let second : (run a).1 ≡ a' = ap (λ (p : Result A × App ibc). p.1) h in
      λ i. (first i, second i)

  set_up-AllMade :
      (load_latest : Bool) (a a' : App ibc)
      → set_up sdk load_latest a ≡ (ok tt, a')
      → AllMade ibc laws a'
  unfolding set_up
  set_up-AllMade load_latest a a' h =
      let (u1, s1, e1, h1) = bind-eq-ok _ _ a a' h in
      let (u2, s2, e2, h2) = bind-eq-ok _ _ s1 a' h1 in
      let (u3, s3, e3, h3) = bind-eq-ok _ _ s2 a' h2 in
      let (u4, s4, e4, h4) = bind-eq-ok _ _ s3 a' h3 in
      let made =
        register_ibc_modules-AllMade ibc laws a s1
          (must_run-eq-ok (register_ibc_modules ibc) a s1 tt e1) in
      AllMade-runtime ibc laws (sdk.load load_latest) s4 a' tt
        (must_run-eq-ok (on_runtime ibc (sdk.load load_latest)) s4 a' tt h4)
        (AllMade-runtime ibc laws (sdk.set_init_chainer (init_chainer sdk)) s3 s4 tt e4 (
          AllMade-runtime ibc laws sdk.register_store_decoders s2 s3 tt e3
            (AllMade-runtime ibc laws sdk.new_simulation_manager s1 s2 tt e2 made)))

  set_up_result-AllMade :
      (r : Result (Unit {0}) × App ibc) (load_latest : Bool) (a b : App ibc)
      → set_up sdk load_latest a ≡ r
      → app_of sdk r ≡ ok b
      → AllMade ibc laws b
  set_up_result-AllMade (ok u, c) load_latest a b h e =
      let same : c ≡ b = ground (arith, e) in rw same at (set_up-AllMade load_latest a c h)
  set_up_result-AllMade (err x, c) load_latest a b h e = absurd (ground (arith, e))
  set_up_result-AllMade (panic x, c) load_latest a b h e = absurd (ground (arith, e))

  new_from-AllMade :
      (load_latest : Bool) (base_app_options : List sdk.BaseOption) (r : Result sdk.Builder)
      (a : App ibc)
      → new_from sdk load_latest base_app_options r ≡ ok a
      → AllMade ibc laws a
  new_from-AllMade load_latest base_app_options (ok b) a h =
      set_up_result-AllMade _ load_latest (built sdk b base_app_options) a refl h
  new_from-AllMade load_latest base_app_options (err e) a h = absurd (ground (arith, h))
  new_from-AllMade load_latest base_app_options (panic e) a h = absurd (ground (arith, h))

  -- If `new` returns an app, its keepers of transfers, of the interchain accounts' host and of their
  -- controller are made over stores that have keys: none of them got the nil key of a store that was not
  -- registered.
  pub new-AllMade :
      (load_latest : Bool) (app_opts : sdk.Opts) (base_app_options : List sdk.BaseOption)
      (a : App ibc)
      → new sdk load_latest app_opts base_app_options ≡ ok a
      → AllMade ibc laws a
  unfolding new
  new-AllMade load_latest app_opts base_app_options a h =
      new_from-AllMade load_latest base_app_options (sdk.inject app_opts) a h
