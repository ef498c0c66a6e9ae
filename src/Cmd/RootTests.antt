-- ===== src/Cmd/RootTests.antt =====
-- Runs of the pre-run over a client context that is a number for the command's context and the prefix
-- of the environment, and of the loop over the IBC modules.
use mathlib.Core.List.{Permᴰ, Pairwise, Mem, Memᴰ}
use mathlib.Core.Logic.{∥∥₁_elim}
use mathlib.Core.HLevel.{⊥_prop}
use chain_rice.Common.{
  ℕ, ◌+◌, ◌≡◌, ◌≢◌, refl, ap, ◌∙◌, GoString, str, none, some, List, [], ◌∷◌, ◌==◌, if◌then◌else◌,
  arith,
}
use chain_rice.Common.Result.{ok, err, message}
use chain_rice.Common.Run.{bind}
use chain_rice.App.Client.{ClientIbc, client_modules, register_ibc, register_all}
use chain_rice.App.IbcTests.{sdk}
use chain_rice.Cmd.Root.{
  Client, Captured, app_name, set_outputs, read_configs, for_command, persistent_pre_run,
  persistent_pre_run-again, Modules, with_module, with_ibc_modules, with_ibc_modules-order, Apart,
}

-- A command is its context, and how many settings it has read; the flags of the command 0 are refused.
abbrev client : Client
client = record {
  Context = ℕ × GoString;
  Command = ℕ × ℕ;
  CmdContext = ℕ;
  Writer = ℕ;
  ServerConfig = ℕ;
  CometConfig = ℕ;
  out_or_stdout = λ c. 1;
  err_or_stderr = λ c. 2;
  set_out = λ w c. c;
  set_err = λ w c. c;
  context = λ c. c.0;
  with_cmd_context = λ k c. (k, c.1);
  with_viper = λ v c. (c.0, v);
  read_persistent_command_flags =
      λ x c. if c.0 == 0 then (err (message "flags" []), c) else (ok x, c);
  read_from_client_config = λ x c. (ok x, (c.0, c.1 + 1));
  set_cmd_client_context_handler = λ x c. (ok tt, (c.0, c.1 + x.0));
  default_server_config = 0;
  default_config_template = str "template";
  default_comet_config = 0;
  intercept_configs_pre_run_handler = λ t s m c. (ok tt, (c.0, c.1 + 1));
  with_cmd_context-again = λ k k' c. refl;
  with_viper-again = λ v v' c. refl;
  with_viper-with_cmd_context = λ v k c. refl;
}

abbrev before : Captured client
before = record { client_ctx = (7, []); cmd = (0, 0) }

-- The first command fails in its flags; the second has the context 5.
refused :
    persistent_pre_run client before
    ≡ (err (message "flags" []), record { client_ctx = (0, app_name); cmd = (0, 0) })
unfolding persistent_pre_run set_outputs read_configs for_command bind
refused = refl

runs :
    persistent_pre_run client (record before { cmd = (5, 0) })
    ≡ (ok tt, record { client_ctx = (5, app_name); cmd = (5, 7) })
unfolding persistent_pre_run set_outputs read_configs for_command bind
runs = refl

persistent_pre_run-again_example :
    persistent_pre_run client
      (record { client_ctx = (persistent_pre_run client before).1.client_ctx; cmd = (5, 0) })
    ≡ persistent_pre_run client (record before { cmd = (5, 0) })
persistent_pre_run-again_example = persistent_pre_run-again client before (5, 0)

abbrev client_ibc : ClientIbc sdk
client_ibc = record {
  Codec = ℕ;
  Registry = List ℕ;
  zero_keeper = [];
  zero_transfer_keeper = none;
  zero_controller_keeper = none;
  zero_host_keeper = none;
  tendermint_client = λ cdc. cdc;
  solomachine_client = λ cdc. cdc;
  register_interfaces = λ m. some (λ r. (ok tt, m ∷ r));
}

registers : (register_ibc client_ibc (λ ms. ms) 9 []).0 ≡ ok (client_modules client_ibc 9)
unfolding register_ibc register_all client_modules bind
registers = refl

abbrev ibc_then_transfer : List (GoString × ℕ)
ibc_then_transfer = (str "ibc", 1) ∷ (str "transfer", 2) ∷ []

abbrev transfer_then_ibc : List (GoString × ℕ)
transfer_then_ibc = (str "transfer", 2) ∷ (str "ibc", 1) ∷ []

abbrev empty : Modules ℕ ℕ
empty = record { basic_manager = λ name. none; autocli_modules = λ name. none }

both :
    (with_ibc_modules (λ name m. m + 10) ibc_then_transfer empty).basic_manager (str "ibc")
    ≡ some 11
unfolding with_ibc_modules with_module
both = refl

far : (p : GoString × ℕ) → str "ibc" ≡ p.0 → Memᴰ p ((str "transfer", 2) ∷ []) → ⊥
far p e (Memᴰ.head e') =
    let same : str "ibc" ≡ str "transfer" = e ∙ ap (λ (q : GoString × ℕ). q.0) e' in
    absurd (ground arith)
far p e (Memᴰ.tail m) = elim m [ ]

apart : Pairwise (Apart {AppModule = ℕ} {Basic = ℕ} (λ name m. m + 10)) ibc_then_transfer
apart = Pairwise.cons (λ p m. other p m) (Pairwise.cons (λ p m. nobody p m) Pairwise.nil)
  where
    nobody : (p : GoString × ℕ) → Mem p [] → str "transfer" ≢ p.0
    nobody p m e = ∥∥₁_elim m ⊥_prop (λ d. elim d [ ])

    other : (p : GoString × ℕ) → Mem p ((str "transfer", 2) ∷ []) → str "ibc" ≢ p.0
    other p m e = ∥∥₁_elim m ⊥_prop (λ d. far p e d)

with_ibc_modules-order_example :
    with_ibc_modules (λ name m. m + 10) ibc_then_transfer empty
    ≡ with_ibc_modules (λ name m. m + 10) transfer_then_ibc empty
with_ibc_modules-order_example =
    with_ibc_modules-order (λ name m. m + 10) empty apart (Permᴰ.swap refl refl)
