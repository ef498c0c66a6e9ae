-- ===== src/Cmd/Export.antt =====
-- cmd/chain-riced/cmd/commands.go: newApp and appExport.
use mathlib.Core.Path.{subst}
use chain_rice.Common.{
  ℕ, ◌+◌, ◌-◌, ◌%◌, ◌^◌, ◌≡◌, ◌≢◌, ap, ◌∙◌, GoString, is_empty, Bool, true, false, ◌==◌, ==_iff,
  Bool-cases, inl, inr, Option, none, some, List, [], if◌then◌else◌,
}
use chain_rice.Common.Result.{Error, message, Result, ok, err, panic, ◌>>=◌, >>=-eq-ok}
use chain_rice.Testnet.InPlace.{Value, hex_bytes, pub_key, string, other}
use chain_rice.App.Keepers.{Keepers}
use chain_rice.App.Ibc.{IbcSdk, App}
use chain_rice.App.Build.{AppSdk, new}
use chain_rice.App.Export.{ExportedApp, export_app_state_and_validators}
use chain_rice.App.Export.Outcome.{export_height}

-- The options, and what an app gives to its export. `LoadHeight` makes the given height that of the
-- last block.
pub record Process {ibc : IbcSdk} (sdk : AppSdk ibc) : Type 1 where
  pub home : sdk.Opts → Value
  pub as_viper : sdk.Opts → Option sdk.Opts
  pub default_baseapp_options : sdk.Opts → List sdk.BaseOption
  pub keepers : App ibc → Keepers
  pub state : (a : App ibc) → (keepers a).State
  pub load_height : ℕ → App ibc → Result (App ibc)
  pub load_height-last :
      (h : ℕ) (a a' : App ibc) → load_height h a ≡ ok a' → (keepers a').last_block_height ≡ h

abbrev pub no_home : Error
no_home = message "application home not set" []

abbrev pub no_viper : Error
no_viper = message "appOpts is not viper.Viper" []

-- `homePath, ok := appOpts.Get(flags.FlagHome).(string)`
unfoldable pub home_path : Value → Result GoString
home_path (hex_bytes b) = err no_home
home_path (pub_key b) = err no_home
home_path (string s) = if is_empty s then err no_home else ok s
home_path other = err no_home

-- `appOpts.(*viper.Viper)`
abbrev pub viper_or_err : {Opts : Type 0} → Option Opts → Result Opts
viper_or_err none = err no_viper
viper_or_err (some opts) = ok opts

-- The height -1, an int64, stands for the latest.
abbrev pub latest : ℕ
latest = 2 ^ 64 - 1

ok-injective : {A : Type 0} (a b : A) → ok a ≡ ok b → a ≡ b
ok-injective {A = A} a b h = ap value_of h
  where
    value_of : Result A → A
    value_of (ok x) = x
    value_of (err e) = a
    value_of (panic e) = a

module _ {ibc : IbcSdk} (sdk : AppSdk ibc) (p : Process sdk) where
  open p use {keepers, state}

  unfoldable pub new_app : sdk.Opts → Result (App ibc)
  new_app app_opts = new sdk true app_opts (p.default_baseapp_options app_opts)

  unfoldable pub app_at : ℕ → sdk.Opts → Result (App ibc)
  app_at height opts =
      if height == latest
      then new sdk true opts []
      else new sdk false opts [] >>= p.load_height height

  -- The app, with the state that the export leaves and what it returns.
  abbrev pub Exported : Type 0
  Exported = (a : App ibc) × (keepers a).State × ExportedApp (keepers a)

  abbrev export_from : App ibc → Bool → List GoString → List GoString → Result Exported
  export_from a for_zero_height jail_allowed_addrs modules_to_export =
      export_app_state_and_validators (keepers a) for_zero_height jail_allowed_addrs
        modules_to_export (state a)
      >>= (λ (s, x). ok (a, s, x))

  unfoldable pub app_export : ℕ → Bool → List GoString → sdk.Opts → List GoString → Result Exported
  app_export height for_zero_height jail_allowed_addrs app_opts modules_to_export = do
    home ← home_path (p.home app_opts)
    viper ← viper_or_err (p.as_viper app_opts)
    a ← app_at height viper
    export_from a for_zero_height jail_allowed_addrs modules_to_export

  app_at-last :
      (height : ℕ) (opts : sdk.Opts) (a : App ibc)
      → height ≢ latest
      → app_at height opts ≡ ok a
      → (keepers a).last_block_height ≡ height
  unfolding app_at
  app_at-last height opts a ne h = elim (Bool-cases (height == latest)) [
    | inl e ↦ absurd (ne ((==_iff height latest).0 e))
    | inr e ↦
        let (b, made, loaded) =
          >>=-eq-ok (new sdk false opts []) (p.load_height height) (rw e at h) in
        p.load_height-last height b a loaded
  ]

  -- An export at a given height, other than -1, that is not for height zero and that succeeds, has
  -- the height after the given one, an int64, and leaves the state that was loaded.
  pub app_export_height :
      (height : ℕ) (allowed modules : List GoString) (opts : sdk.Opts) (a : App ibc)
      (s : (keepers a).State) (x : ExportedApp (keepers a))
      → height ≢ latest
      → app_export height false allowed opts modules ≡ ok (a, s, x)
      → (x.height ≡ (height + 1) % 2 ^ 64) × (s ≡ state a)
  unfolding app_export
  app_export_height height allowed modules opts a s x ne h =
      let (home, e1, h1) = >>=-eq-ok (home_path (p.home opts)) _ h in
      let (viper, e2, h2) = >>=-eq-ok (viper_or_err (p.as_viper opts)) _ h1 in
      let (b, e3, h3) = >>=-eq-ok (app_at height viper) _ h2 in
      let ((t, y), e4, h4) =
        >>=-eq-ok (export_app_state_and_validators (keepers b) false allowed modules (state b)) _
          h3 in
      let (at_height, same) = (export_height (keepers b) allowed modules (state b) t y).0 e4 in
      let last = app_at-last height viper b ne e3 in
      subst (λ (q : Exported). (q.2.height ≡ (height + 1) % 2 ^ 64) × (q.1 ≡ state q.0))
        (ok-injective (b, t, y) (a, s, x) h4)
        (at_height ∙ ap (λ (n : ℕ). (n + 1) % 2 ^ 64) last, same)
