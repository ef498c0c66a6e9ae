-- ===== src/App/Ibc/Stores.antt =====
-- The store keys of the keepers that registerIBCModules creates.
use mathlib.Core.List.{Memᴰ}
use chain_rice.Common.{◌≡◌, refl, sym, ap, ◌∙◌, GoString, Option, some, List, arith}
use chain_rice.Common.Result.{Result, ok}
use chain_rice.Common.Run.{Run, bind, bind-eq-ok}
use chain_rice.App.Ibc.{
  IbcSdk, App, on_runtime, store_keys, register_key_tables, create_ibc_keeper, create_keepers,
  ibc_router, add_light_clients, set_up_keepers, set_up_routes, register_ibc_modules,
}

-- A store that is registered has a key, and key tables of params do not touch the keys.
pub record StoresLaw (sdk : IbcSdk) : Type 0 where
  pub registered :
      (names : List GoString) (r r' : sdk.Runtime) (name : GoString)
      → sdk.register_stores names r ≡ (ok tt, r')
      → Memᴰ name names
      → (key : sdk.StoreKey) × (sdk.unsafe_find_store_key r' name ≡ some key)
  pub table-keeps :
      (subspace : GoString) (table : sdk.KeyTable) (r r' : sdk.Runtime) (name : GoString)
      → sdk.with_key_table subspace table r ≡ (ok tt, r')
      → sdk.unsafe_find_store_key r' name ≡ sdk.unsafe_find_store_key r name

module _ (sdk : IbcSdk) (laws : StoresLaw sdk) where
  open sdk use {names, Runtime, Keeper}

  on_runtime-eq-ok :
      {A : Type 0} (run : Run Runtime A) (a a' : App sdk) (x : A)
      → on_runtime sdk run a ≡ (ok x, a')
      → (run a.runtime ≡ (ok x, a'.runtime))
        × (a'.transfer_keeper ≡ a.transfer_keeper)
        × (a'.ica_host_keeper ≡ a.ica_host_keeper)
        × (a'.ica_controller_keeper ≡ a.ica_controller_keeper)
  on_runtime-eq-ok {A = A} run a a' x h = (
    ap (λ (p : Result A × App sdk). (p.0, p.1.runtime)) h,
    sym (ap (λ (p : Result A × App sdk). p.1.transfer_keeper) h),
    sym (ap (λ (p : Result A × App sdk). p.1.ica_host_keeper) h),
    sym (ap (λ (p : Result A × App sdk). p.1.ica_controller_keeper) h),
  )

  abbrev find : App sdk → GoString → Option sdk.StoreKey
  find a name = sdk.unsafe_find_store_key a.runtime name

  table_lem :
      (subspace : GoString) (table : sdk.KeyTable) (a a' : App sdk) (name : GoString)
      → on_runtime sdk (sdk.with_key_table subspace table) a ≡ (ok tt, a')
      → find a' name ≡ find a name
  table_lem subspace table a a' name h =
      laws.table-keeps subspace table a.runtime a'.runtime name
        (on_runtime-eq-ok (sdk.with_key_table subspace table) a a' tt h).0

  register_key_tables_lem :
      (a a' : App sdk) (name : GoString)
      → register_key_tables sdk a ≡ (ok tt, a')
      → find a' name ≡ find a name
  unfolding register_key_tables
  register_key_tables_lem a a' name h =
      let (u, b, e1, h1) = bind-eq-ok _ _ a a' h in
      let (v, c, e2, h2) = bind-eq-ok _ _ b a' h1 in
      let (w, d, e3, h3) = bind-eq-ok _ _ c a' h2 in
      table_lem _ _ d a' name h3
      ∙ table_lem _ _ c d name e3
      ∙ table_lem _ _ b c name e2
      ∙ table_lem _ _ a b name e1

  -- A keeper that has been made over a store with a key.
  abbrev pub Made :
      {K : Type 0}
      → (Runtime → sdk.Service → sdk.Subspace → sdk.ChannelKeeper → GoString → K)
      → GoString
      → Option K
      → Type 0
  Made {K} make subspace o =
      (r : Runtime) × (key : sdk.StoreKey) × (channel : sdk.ChannelKeeper) × (gov : GoString) × (o
        ≡ some (
            make r (sdk.new_kv_store_service (some key)) (sdk.params_get_subspace r subspace)
              channel gov))

  abbrev pub AllMade : App sdk → Type 0
  AllMade a =
      Made sdk.new_transfer_keeper names.transfer a.transfer_keeper
      × Made sdk.new_host_keeper names.ica_host a.ica_host_keeper
      × Made sdk.new_controller_keeper names.ica_controller a.ica_controller_keeper

  -- Each of the stores has a key.
  abbrev HasKeys : App sdk → Type 0
  HasKeys a =
      (name : GoString)
      → Memᴰ name (store_keys sdk)
      → (key : sdk.StoreKey) × (find a name ≡ some key)

  create_keepers_lem :
      (gov : GoString) (k : Keeper) (a a' : App sdk)
      (x : sdk.TransferKeeper × sdk.HostKeeper × sdk.ControllerKeeper)
      → HasKeys a
      → create_keepers sdk gov k a ≡ (ok x, a')
      → AllMade a'
  unfolding create_keepers bind
  create_keepers_lem gov k a a' x keys h =
      let r = a.runtime in
      let channel = sdk.channel_keeper k in
      let (k1, e1) = keys names.transfer_store (Memᴰ.tail (Memᴰ.head refl)) in
      let (k2, e2) = keys names.ica_host_store (Memᴰ.tail (Memᴰ.tail (Memᴰ.head refl))) in
      let (k3, e3) =
        keys names.ica_controller_store (Memᴰ.tail (Memᴰ.tail (Memᴰ.tail (Memᴰ.head refl)))) in
      (
        (
          r,
          k1,
          channel,
          gov,
          sym (ap (λ p. p.1.transfer_keeper) h)
              ∙ ap
                  (λ (o : Option sdk.StoreKey). some (
                    sdk.new_transfer_keeper r (sdk.new_kv_store_service o)
                      (sdk.params_get_subspace r names.transfer) channel gov))
                  e1,
        ),
        (
          r,
          k2,
          channel,
          gov,
          sym (ap (λ p. p.1.ica_host_keeper) h)
              ∙ ap
                  (λ (o : Option sdk.StoreKey). some (
                    sdk.new_host_keeper r (sdk.new_kv_store_service o)
                      (sdk.params_get_subspace r names.ica_host) channel gov))
                  e2,
        ),
        (
          r,
          k3,
          channel,
          gov,
          sym (ap (λ p. p.1.ica_controller_keeper) h)
              ∙ ap
                  (λ (o : Option sdk.StoreKey). some (
                    sdk.new_controller_keeper r (sdk.new_kv_store_service o)
                      (sdk.params_get_subspace r names.ica_controller) channel gov))
                  e3,
        ),
      )

  -- The three keepers are as before.
  abbrev SameKeepers : App sdk → App sdk → Type 0
  SameKeepers a a' =
      (a'.transfer_keeper ≡ a.transfer_keeper)
      × (a'.ica_host_keeper ≡ a.ica_host_keeper)
      × (a'.ica_controller_keeper ≡ a.ica_controller_keeper)

  AllMade-Same : (a a' : App sdk) → SameKeepers a a' → AllMade a → AllMade a'
  AllMade-Same a a' (same1, same2, same3)
        ((r, k, c, g, e), (r', k', c', g', e'), (r'', k'', c'', g'', e'')) =
      ((r, k, c, g, same1 ∙ e), (r', k', c', g', same2 ∙ e'), (r'', k'', c'', g'', same3 ∙ e''))

  pub AllMade-runtime :
      {A : Type 0} (run : Run Runtime A) (a a' : App sdk) (x : A)
      → on_runtime sdk run a ≡ (ok x, a')
      → AllMade a
      → AllMade a'
  AllMade-runtime run a a' x h made =
      let (r, one, two, three) = on_runtime-eq-ok run a a' x h in
      AllMade-Same a a' (one, two, three) made

  add_light_clients_lem :
      (k : Keeper) (a a' : App sdk) (x : Keeper × sdk.LightClient × sdk.LightClient)
      → add_light_clients sdk k a ≡ (ok x, a')
      → SameKeepers a a'
  unfolding add_light_clients
  add_light_clients_lem k a a' x h =
      let (r, b, e1, h1) = bind-eq-ok _ _ a a' h in
      let (k1, c, e2, h2) = bind-eq-ok _ _ b a' h1 in
      let (u, d, e3, h3) = bind-eq-ok _ _ c a' h2 in
      let (k2, e, e4, h4) = bind-eq-ok _ _ d a' h3 in
      let (v, f, e5, h5) = bind-eq-ok _ _ e a' h4 in (ground arith, ground arith, ground arith)

  -- `get_runtime`, the address and the IBC keeper leave the stores.
  create_ibc_keeper_lem :
      (gov : GoString) (a a' : App sdk) (k : Keeper)
      → create_ibc_keeper sdk gov a ≡ (ok k, a')
      → a'.runtime ≡ a.runtime
  unfolding create_ibc_keeper bind
  create_ibc_keeper_lem gov a a' k h = sym (ap (λ p. p.1.runtime) h)

  set_up_keepers-AllMade :
      (a a' : App sdk) (x : Keeper × sdk.TransferKeeper × sdk.HostKeeper × sdk.ControllerKeeper)
      → set_up_keepers sdk a ≡ (ok x, a')
      → AllMade a'
  unfolding set_up_keepers
  set_up_keepers-AllMade a a' x h =
      let (u1, s1, e1, h1) = bind-eq-ok _ _ a a' h in
      let (u2, s2, e2, h2) = bind-eq-ok _ _ s1 a' h1 in
      let (r, s3, e3, h3) = bind-eq-ok _ _ s2 a' h2 in
      let (gov, s4, e4, h4) = bind-eq-ok _ _ s3 a' h3 in
      let (k, s5, e5, h5) = bind-eq-ok _ _ s4 a' h4 in
      let ((transfer, host, controller), s6, e6, h6) = bind-eq-ok _ _ s5 a' h5 in
      let last : s6 ≡ a' = ap (λ p. p.1) h6 in
      rw last at (
        create_keepers_lem gov k s5 s6 (transfer, host, controller)
          (λ name m.
            let (key, found) =
              laws.registered (store_keys sdk) a.runtime s1.runtime name
                (on_runtime-eq-ok (sdk.register_stores (store_keys sdk)) a s1 tt e1).0 m in
            (
              key,
              ap (λ (t : Runtime). sdk.unsafe_find_store_key t name)
                    (create_ibc_keeper_lem gov s4 s5 k e5)
                  ∙ ap (λ (t : App sdk). find t name) (sym (ap (λ p. p.1) e3 ∙ ap (λ p. p.1) e4))
                  ∙ register_key_tables_lem s1 s2 name e2
                  ∙ found,
            ))
          e6)

  ibc_router_lem :
      (transfer : sdk.TransferKeeper) (host : sdk.HostKeeper) (controller : sdk.ControllerKeeper)
      (a a' : App sdk) (router : sdk.Router)
      → ibc_router sdk transfer host controller a ≡ (ok router, a')
      → a' ≡ a
  unfolding ibc_router
  ibc_router_lem transfer host controller a a' router h =
      let (r1, s1, e1, h1) = bind-eq-ok _ _ a a' h in
      let (r2, s2, e2, h2) = bind-eq-ok _ _ s1 a' h1 in
      sym (ap (λ p. p.1) e1 ∙ ap (λ p. p.1) e2 ∙ ap (λ p. p.1) h2)

  set_up_routes_lem :
      (k : Keeper) (transfer : sdk.TransferKeeper) (host : sdk.HostKeeper)
      (controller : sdk.ControllerKeeper) (a a' : App sdk)
      → set_up_routes sdk k transfer host controller a ≡ (ok tt, a')
      → SameKeepers a a'
  unfolding set_up_routes
  set_up_routes_lem k transfer host controller a a' h =
      let (router, s1, e1, h1) = bind-eq-ok _ _ a a' h in
      let (routed, s2, e2, h2) = bind-eq-ok _ _ s1 a' h1 in
      let (u, s3, e3, h3) = bind-eq-ok _ _ s2 a' h2 in
      let ((clients, tm, solo), s4, e4, h4) = bind-eq-ok _ _ s3 a' h3 in
      let start = ibc_router_lem transfer host controller a s1 router e1 in
      let kept = add_light_clients_lem routed s3 s4 (clients, tm, solo) e4 in
      let (r, end1, end2, end3) = on_runtime-eq-ok (sdk.register_modules _) s4 a' tt h4 in
      let same : s2 ≡ a = sym (ap (λ p. p.1) e2) ∙ start in
      (
        end1
            ∙ kept.0
            ∙ sym (ap (λ p. p.1.transfer_keeper) e3)
            ∙ ap (λ (t : App sdk). t.transfer_keeper) same,
        end2
            ∙ kept.1
            ∙ sym (ap (λ p. p.1.ica_host_keeper) e3)
            ∙ ap (λ (t : App sdk). t.ica_host_keeper) same,
        end3
            ∙ kept.2
            ∙ sym (ap (λ p. p.1.ica_controller_keeper) e3)
            ∙ ap (λ (t : App sdk). t.ica_controller_keeper) same,
      )

  -- If `register_ibc_modules` ends without an error, the keepers of transfers, of the interchain
  -- accounts' host and of their controller are made over stores that have keys: none of them got the nil
  -- key of a store that was not registered.
  pub register_ibc_modules-AllMade :
      (a a' : App sdk) → register_ibc_modules sdk a ≡ (ok tt, a') → AllMade a'
  unfolding register_ibc_modules
  register_ibc_modules-AllMade a a' h =
      let ((k, transfer, host, controller), s, e, rest) = bind-eq-ok _ _ a a' h in
      AllMade-Same s a' (set_up_routes_lem k transfer host controller s a' rest)
        (set_up_keepers-AllMade a s (k, transfer, host, controller) e)
