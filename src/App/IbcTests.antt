-- ===== src/App/IbcTests.antt =====
-- A run of registerIBCModules and of New where the runtime is the list of its stores, and its theorem at this input.
use mathlib.Core.List.{Memᴰ}
use chain_rice.Common.{
  ℕ, ◌≡◌, refl, sym, ap, GoString, str, bytes_equal_iff, Bool, true, false, Option, none, some,
  List, [], ◌∷◌, Bool-cases, inl, inr, bytes_equal,
}
use chain_rice.Common.Result.{ok, err, message}
use chain_rice.Common.Run.{pure, bind}
use chain_rice.App.Export.{is_allowed}
use chain_rice.App.Ibc.{
  IbcNames, IbcSdk, App, register_key_tables, create_ibc_keeper, create_keepers, ibc_router,
  add_light_clients, set_up_keepers, set_up_routes, register_ibc_modules, store_keys,
}
use chain_rice.App.Ibc.Stores.{StoresLaw, AllMade}
use chain_rice.App.Build.{AppSdk, new, set_up, new-AllMade}

abbrev pub names : IbcNames
names = record {
  ibc = str "ibc";
  transfer = str "transfer";
  ica = str "interchainaccounts";
  ica_host = str "icahost";
  ica_controller = str "icacontroller";
  tendermint = str "07-tendermint";
  solomachine = str "06-solomachine";
  ibc_store = str "ibc";
  transfer_store = str "transfer";
  ica_host_store = str "icahost";
  ica_controller_store = str "icacontroller";
}

abbrev pub if_found : Bool → GoString → Option GoString
if_found true name = some name
if_found false name = none

abbrev pub sdk : IbcSdk
sdk = record {
  names = names;
  Runtime = List GoString;
  StoreKey = GoString;
  Subspace = GoString;
  KeyTable = ℕ;
  Service = Option GoString;
  Keeper = List GoString;
  ChannelKeeper = ℕ;
  TransferKeeper = Option GoString;
  HostKeeper = Option GoString;
  ControllerKeeper = Option GoString;
  IbcModule = Option GoString;
  Router = List GoString;
  LightClient = ℕ;
  AppModule = ℕ;
  register_stores = λ stores r. (ok tt, stores);
  unsafe_find_store_key = λ r name. if_found (is_allowed r name) name;
  params_get_subspace = λ r name. name;
  client_key_table = 0;
  register_connection_params = λ t. t;
  transfer_key_table = 1;
  controller_key_table = 2;
  host_key_table = 3;
  with_key_table = λ name t. pure tt;
  gov_address_to_string = λ r. err (message "no address" []);
  new_kv_store_service = λ o. o;
  new_keeper = λ r service subspace gov. [];
  channel_keeper = λ k. 0;
  new_transfer_keeper = λ r service subspace channel gov. service;
  new_host_keeper = λ r service subspace channel gov. service;
  new_controller_keeper = λ r service subspace channel gov. service;
  transfer_ibc_module = λ k. k;
  controller_middleware = λ k. k;
  host_ibc_module = λ k. k;
  new_router = [];
  add_route = λ name m r. ok (name ∷ r);
  set_router = λ r k. ok r;
  tendermint_client = λ r k. 7;
  solomachine_client = λ r k. 6;
  add_client_route = λ name c k. ok (name ∷ k);
  ibc_app_module = λ k. 0;
  transfer_app_module = λ k. 1;
  ica_app_module = λ c h. 2;
  tendermint_app_module = λ c. c;
  solomachine_app_module = λ c. c;
  register_modules = λ ms. pure tt;
}

is_allowed-Memᴰ : (xs : List GoString) (x : GoString) → Memᴰ x xs → is_allowed xs x ≡ true
is_allowed-Memᴰ [] x m = elim m [ ]
is_allowed-Memᴰ (y ∷ xs) x (Memᴰ.head e) = rw ((bytes_equal_iff x y).1 e) refl
is_allowed-Memᴰ (y ∷ xs) x (Memᴰ.tail m) =
    rw (is_allowed-Memᴰ xs x m)
      (elim (Bool-cases (bytes_equal x y)) [ inl e ↦ rw e refl | inr e ↦ rw e refl ])

sdk-StoresLaw : StoresLaw sdk
sdk-StoresLaw = record {
  registered = λ stores r r' name h m.
      let same : stores ≡ r' = ap (λ p. p.1) h in
      (name, rw (sym same) (rw (is_allowed-Memᴰ stores name m) refl));
  table-keeps = λ subspace table r r' name h.
      ap (λ (x : List GoString). sdk.unsafe_find_store_key x name) (sym (ap (λ p. p.1) h));
}

abbrev before : App sdk
before = record {
  runtime = [];
  ibc_keeper = none;
  transfer_keeper = none;
  ica_host_keeper = none;
  ica_controller_keeper = none;
}

abbrev pub after : App sdk
after = record {
  runtime = store_keys sdk;
  ibc_keeper = some (
      str "06-solomachine"
      ∷ str "07-tendermint"
      ∷ str "icahost"
      ∷ str "icacontroller"
      ∷ str "transfer"
      ∷ []);
  transfer_keeper = some (some (str "transfer"));
  ica_host_keeper = some (some (str "icahost"));
  ica_controller_keeper = some (some (str "icacontroller"));
}

registered : register_ibc_modules sdk before ≡ (ok tt, after)
unfolding bind register_ibc_modules set_up_keepers register_key_tables create_ibc_keeper
    create_keepers set_up_routes ibc_router add_light_clients
registered = refl

abbrev pub app_sdk : AppSdk sdk
app_sdk = record {
  Opts = ℕ;
  BaseOption = ℕ;
  Builder = ℕ;
  Request = ℕ;
  Response = ℕ;
  VersionMap = ℕ;
  inject = λ opts. ok opts;
  set_optimistic_execution = 9;
  build = λ builder options. [];
  new_simulation_manager = pure tt;
  register_store_decoders = pure tt;
  get_version_map = λ r. 0;
  set_module_version_map = λ versions. pure tt;
  runtime_init_chainer = λ req. pure req;
  set_init_chainer = λ chainer. pure tt;
  load = λ latest. pure tt;
}

made : new app_sdk true 0 [] ≡ ok after
unfolding bind register_ibc_modules set_up_keepers register_key_tables create_ibc_keeper
    create_keepers set_up_routes ibc_router add_light_clients new set_up
made = refl

new-AllMade_example : AllMade sdk sdk-StoresLaw after
new-AllMade_example = new-AllMade app_sdk sdk-StoresLaw true 0 [] after made
