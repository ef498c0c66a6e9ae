-- ===== src/Cmd/Root.antt =====
-- cmd/chain-riced/cmd/root.go: what runs before each command, and the loop of NewRootCmd over the IBC
-- modules; cmd/chain-riced/cmd/config.go.
use mathlib.Core.List.{Permᴰ, Pairwise, mem-cons_self}
use mathlib.Core.List.Permᴰ
use mathlib.Core.HLevel.{¬_prop}
use chain_rice.Common.{
  ◌≡◌, refl, sym, ap, ◌∙◌, ◌≢◌, GoString, str, Bool-cases, bytes_equal, bytes_equal_iff, inl, inr,
  Option, some, List, [], ◌∷◌, if◌then◌else◌,
}
use chain_rice.Common.Run.{Run, ◌>>=◌, ◌>>◌}

-- What the pre-run uses of the SDK and of cobra. `Command` is a command with its context and outputs,
-- and the files and the environment that it works on. `WithCmdContext` and `WithViper` give a copy of
-- the client context in which one field is another: the context of the command, and a new viper.
pub record Client : Type 1 where
  pub Context : Type 0
  pub Command : Type 0
  pub CmdContext : Type 0
  pub Writer : Type 0
  pub ServerConfig : Type 0
  pub CometConfig : Type 0
  pub out_or_stdout : Command → Writer
  pub err_or_stderr : Command → Writer
  pub set_out : Writer → Command → Command
  pub set_err : Writer → Command → Command
  pub context : Command → CmdContext
  pub with_cmd_context : CmdContext → Context → Context
  pub with_viper : GoString → Context → Context
  pub read_persistent_command_flags : Context → Run Command Context
  pub read_from_client_config : Context → Run Command Context
  pub set_cmd_client_context_handler : Context → Run Command (Unit {0})
  pub default_server_config : ServerConfig
  pub default_config_template : GoString
  pub default_comet_config : CometConfig
  pub intercept_configs_pre_run_handler :
      GoString → ServerConfig → CometConfig → Run Command (Unit {0})
  pub with_cmd_context-again :
      (k k' : CmdContext) (c : Context)
      → with_cmd_context k (with_cmd_context k' c) ≡ with_cmd_context k c
  pub with_viper-again :
      (v v' : GoString) (c : Context) → with_viper v (with_viper v' c) ≡ with_viper v c
  pub with_viper-with_cmd_context :
      (v : GoString) (k : CmdContext) (c : Context)
      → with_cmd_context k (with_viper v c) ≡ with_viper v (with_cmd_context k c)

abbrev pub app_name : GoString
app_name = str "chain-rice"

module _ (sdk : Client) where
  open sdk use {Context, Command}

  -- The variable of NewRootCmd that the closure captures, and the command.
  pub record Captured : Type 0 where
    pub client_ctx : Context
    pub cmd : Command

  -- `CustomAppConfig` only embeds the SDK's config.
  abbrev pub init_app_config : GoString × sdk.ServerConfig
  init_app_config = (sdk.default_config_template, sdk.default_server_config)

  abbrev pub init_comet_bft_config : sdk.CometConfig
  init_comet_bft_config = sdk.default_comet_config

  unfoldable pub set_outputs : Command → Command
  set_outputs cmd =
      let cmd1 = sdk.set_out (sdk.out_or_stdout cmd) cmd in
      sdk.set_err (sdk.err_or_stderr cmd1) cmd1

  -- From the first `:=` on, `clientCtx` is a variable of the closure's own.
  unfoldable pub read_configs : Context → Run Command (Unit {0})
  read_configs client_ctx = do
    with_flags ← sdk.read_persistent_command_flags client_ctx
    with_config ← sdk.read_from_client_config with_flags
    sdk.set_cmd_client_context_handler with_config
    sdk.intercept_configs_pre_run_handler init_app_config.0 init_app_config.1 init_comet_bft_config

  unfoldable pub for_command : sdk.CmdContext → Context → Context
  for_command k c = sdk.with_viper app_name (sdk.with_cmd_context k c)

  unfoldable pub persistent_pre_run : Run Captured (Unit {0})
  persistent_pre_run s =
      let cmd = set_outputs s.cmd in
      let client_ctx = for_command (sdk.context cmd) s.client_ctx in
      let done = read_configs client_ctx cmd in
      (done.0, record { client_ctx = client_ctx; cmd = done.1 })

  for_command-again :
      (k k' : sdk.CmdContext) (c : Context) → for_command k (for_command k' c) ≡ for_command k c
  unfolding for_command
  for_command-again k k' c =
      ap (sdk.with_viper app_name)
        (sdk.with_viper-with_cmd_context app_name k (sdk.with_cmd_context k' c))
      ∙ sdk.with_viper-again app_name app_name (sdk.with_cmd_context k (sdk.with_cmd_context k' c))
      ∙ ap (sdk.with_viper app_name) (sdk.with_cmd_context-again k k' c)

  -- A run of the pre-run, whether it fails or not, leaves nothing in the captured context that the next
  -- run, on any command, would see: the next run ends as it would with the context of before.
  pub persistent_pre_run-again :
      (s : Captured) (cmd : Command)
      → persistent_pre_run (record { client_ctx = (persistent_pre_run s).1.client_ctx; cmd = cmd })
        ≡ persistent_pre_run (record s { cmd = cmd })
  unfolding persistent_pre_run
  persistent_pre_run-again s cmd = rw for_command-again refl

module _ {A : Type 0} where
  -- `m[k] = v`, for a map that is not nil.
  abbrev pub insert : GoString → A → (GoString → Option A) → GoString → Option A
  insert k v m k' = if bytes_equal k k' then some v else m k'

  insert_comm :
      (a b : GoString) (x y : A) (m : GoString → Option A)
      → a ≢ b
      → insert a x (insert b y m) ≡ insert b y (insert a x m)
  insert_comm a b x y m ne = λ i k. at k i
    where
      at : (k : GoString) → insert a x (insert b y m) k ≡ insert b y (insert a x m) k
      at k = elim (Bool-cases (bytes_equal a k)) [
        | inl e ↦ elim (Bool-cases (bytes_equal b k)) [
          | inl e' ↦ absurd (ne ((bytes_equal_iff a k).0 e ∙ sym ((bytes_equal_iff b k).0 e')))
          | inr e' ↦ rw (e, e') refl
        ]
        | inr e ↦ rw e refl
      ]

-- The module basic manager, and the modules of the CLI options.
pub record Modules (AppModule Basic : Type 0) : Type 0 where
  pub basic_manager : GoString → Option Basic
  pub autocli_modules : GoString → Option AppModule

module _ {AppModule Basic : Type 0} (adaptor : GoString → AppModule → Basic) where
  unfoldable pub with_module :
      GoString × AppModule → Modules AppModule Basic → Modules AppModule Basic
  with_module (name, m) s = record {
    basic_manager = insert name (adaptor name m) s.basic_manager;
    autocli_modules = insert name m s.autocli_modules;
  }

  unfoldable pub with_ibc_modules :
      List (GoString × AppModule) → Modules AppModule Basic → Modules AppModule Basic
  with_ibc_modules [] s = s
  with_ibc_modules (m ∷ rest) s = with_ibc_modules rest (with_module m s)

  abbrev pub Apart : GoString × AppModule → GoString × AppModule → Type 0
  Apart m m' = m.0 ≢ m'.0

  with_module_comm :
      (m m' : GoString × AppModule) (s : Modules AppModule Basic)
      → Apart m m'
      → with_module m (with_module m' s) ≡ with_module m' (with_module m s)
  unfolding with_module
  with_module_comm (a, x) (b, y) s ne = λ i. record {
    basic_manager = insert_comm a b (adaptor a x) (adaptor b y) s.basic_manager ne i;
    autocli_modules = insert_comm a b x y s.autocli_modules ne i;
  }

  -- Go goes through a map in any order. With different names, the loop of NewRootCmd gives the same
  -- basic manager and the same CLI options for each order of the modules.
  pub with_ibc_modules-order :
      {ms ms' : List (GoString × AppModule)} (s : Modules AppModule Basic)
      → Pairwise Apart ms
      → Permᴰ ms ms'
      → with_ibc_modules ms s ≡ with_ibc_modules ms' s
  unfolding with_ibc_modules
  with_ibc_modules-order s h Permᴰ.nil = refl
  with_ibc_modules-order s (Pairwise.cons far h) (Permᴰ.cons {a = m} {l₂ = rest} e d) =
      with_ibc_modules-order (with_module m s) h d
      ∙ ap (λ (x : GoString × AppModule). with_ibc_modules rest (with_module x s)) e
  with_ibc_modules-order s (Pairwise.cons far h)
        (Permᴰ.swap {a = m} {b = n} {a' = m'} {b' = n'} {l = rest} e e') =
      ap (with_ibc_modules rest) (
        with_module_comm n m s (λ x. far n mem-cons_self (sym x))
        ∙ (λ i. with_module (e i) (with_module (e' i) s)))
  with_ibc_modules-order s h (Permᴰ.trans d d') =
      with_ibc_modules-order s h d
      ∙ with_ibc_modules-order s
          (Permᴰ.pairwise {R = Apart} (λ a b. ¬_prop) (λ m m' far x. far (sym x)) d h) d'
