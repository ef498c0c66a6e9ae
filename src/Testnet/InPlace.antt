-- ===== src/Testnet/InPlace.antt =====
-- cmd/chain-riced/cmd/testnet.go: the options of the in-place testnet, and the funding of accounts.
use mathlib.Core.List.{cons-ne-nil}
use chain_rice.Common.{
  false, arith, ◌≡◌, ◌≢◌, ◌↔◌, refl, GoString, Bytes, is_empty, List, [], ◌∷◌, if◌then◌else◌,
}
use chain_rice.Common.Result.{Error, message, wrap, Result, ok, err, panic, ◌>>=◌, >>=-eq-ok}
use chain_rice.Testnet.Strings.{split}

-- A value of `AppOptions.Get`, by its dynamic type.
pub data Value : Type 0 where
  hex_bytes pub_key : Bytes → Value
  string : GoString → Value
  other : Value

-- The options by the constants of their keys, and `cast.ToString`.
pub record AppOptions : Type 0 where
  pub new_val_addr : Value
  pub user_pub_key : Value
  pub new_op_addr : Value
  pub trigger_testnet_upgrade : Value
  pub accounts_to_fund : Value
  pub home : Value
  pub to_string : Value → GoString

pub record ValArgs : Type 0 where
  pub new_val_addr : Bytes
  pub new_operator_address : GoString
  pub new_val_pub_key : Bytes
  pub accounts_to_fund : List GoString
  pub upgrade_to_trigger : GoString
  pub home_dir : GoString

-- The type assertions, each with the error of the case that it fails.
unfoldable pub as_hex_bytes : Error → Value → Result Bytes
as_hex_bytes e (hex_bytes b) = ok b
as_hex_bytes e (pub_key b) = err e
as_hex_bytes e (string s) = err e
as_hex_bytes e other = err e

unfoldable pub as_pub_key : Error → Value → Result Bytes
as_pub_key e (hex_bytes b) = err e
as_pub_key e (pub_key b) = ok b
as_pub_key e (string s) = err e
as_pub_key e other = err e

unfoldable pub as_string : Error → Value → Result GoString
as_string e (hex_bytes b) = err e
as_string e (pub_key b) = err e
as_string e (string s) = ok s
as_string e other = err e

abbrev pub no_addr : Error
no_addr = message "newValAddr is not of type bytes.HexBytes" []

abbrev pub no_key : Error
no_key = message "newValPubKey is not of type crypto.PubKey" []

abbrev pub no_op : Error
no_op = message "newOperatorAddress is not of type string" []

abbrev pub no_up : Error
no_up = message "upgradeToTrigger is not of type string" []

abbrev pub no_home : Error
no_home = message "invalid home dir" []

unfoldable pub get_command_args : AppOptions → Result ValArgs
get_command_args opts = do
  addr ← as_hex_bytes no_addr opts.new_val_addr
  key ← as_pub_key no_key opts.user_pub_key
  op ← as_string no_op opts.new_op_addr
  up ← as_string no_up opts.trigger_testnet_upgrade
  let accounts_string = opts.to_string opts.accounts_to_fund
  let home_dir = opts.to_string opts.home
  if is_empty home_dir
      then err no_home
      else ok (record {
        new_val_addr = addr;
        new_operator_address = op;
        new_val_pub_key = key;
        accounts_to_fund = split accounts_string;
        upgrade_to_trigger = up;
        home_dir = home_dir;
      })

as_hex_bytes-eq-ok : (e : Error) (v : Value) (b : Bytes) → as_hex_bytes e v ≡ ok b → v ≡ hex_bytes b
unfolding as_hex_bytes
as_hex_bytes-eq-ok e (hex_bytes b) c h = cc
as_hex_bytes-eq-ok e (pub_key b) c h = cc
as_hex_bytes-eq-ok e (string s) c h = cc
as_hex_bytes-eq-ok e other c h = cc

as_pub_key-eq-ok : (e : Error) (v : Value) (b : Bytes) → as_pub_key e v ≡ ok b → v ≡ pub_key b
unfolding as_pub_key
as_pub_key-eq-ok e (hex_bytes b) c h = cc
as_pub_key-eq-ok e (pub_key b) c h = cc
as_pub_key-eq-ok e (string s) c h = cc
as_pub_key-eq-ok e other c h = cc

as_string-eq-ok : (e : Error) (v : Value) (s : GoString) → as_string e v ≡ ok s → v ≡ string s
unfolding as_string
as_string-eq-ok e (hex_bytes b) c h = cc
as_string-eq-ok e (pub_key b) c h = cc
as_string-eq-ok e (string s) c h = cc
as_string-eq-ok e other c h = cc

home_args :
    (home : GoString) (a b : ValArgs)
    → (if is_empty home then err no_home else ok a) ≡ ok b
    → (home ≢ []) × (a ≡ b)
home_args [] a b h = absurd (ground arith)
home_args (c ∷ home) a b h = (cons-ne-nil c home, ground arith)

home_full : (home : GoString) → home ≢ [] → is_empty home ≡ false
home_full [] h = absurd (h refl)
home_full (c ∷ home) h = refl

-- `get_command_args` ends without an error exactly if the four options have their types and the home
-- directory is not empty, and then the arguments are those of the options, with the accounts from the
-- parts of the option between its commas.
pub get_command_args_iff :
    (opts : AppOptions) (args : ValArgs)
    → (get_command_args opts ≡ ok args) ↔ (
        (opts.new_val_addr ≡ hex_bytes args.new_val_addr)
        × (opts.user_pub_key ≡ pub_key args.new_val_pub_key)
        × (opts.new_op_addr ≡ string args.new_operator_address)
        × (opts.trigger_testnet_upgrade ≡ string args.upgrade_to_trigger)
        × (args.accounts_to_fund ≡ split (opts.to_string opts.accounts_to_fund))
        × (args.home_dir ≡ opts.to_string opts.home)
        × (opts.to_string opts.home ≢ []))
unfolding get_command_args
get_command_args_iff opts args = (
  λ h.
      let (addr, e1, h1) = >>=-eq-ok (as_hex_bytes no_addr opts.new_val_addr) _ h in
      let (key, e2, h2) = >>=-eq-ok (as_pub_key no_key opts.user_pub_key) _ h1 in
      let (op, e3, h3) = >>=-eq-ok (as_string no_op opts.new_op_addr) _ h2 in
      let (up, e4, h4) = >>=-eq-ok (as_string no_up opts.trigger_testnet_upgrade) _ h3 in
      let (full, same) = home_args (opts.to_string opts.home) _ args h4 in
      (
        cc (as_hex_bytes-eq-ok no_addr opts.new_val_addr addr e1, same),
        cc (as_pub_key-eq-ok no_key opts.user_pub_key key e2, same),
        cc (as_string-eq-ok no_op opts.new_op_addr op e3, same),
        cc (as_string-eq-ok no_up opts.trigger_testnet_upgrade up e4, same),
        cc same,
        cc same,
        full,
      ),
  λ h.
      unfold as_hex_bytes as_pub_key as_string in
      rw (h.0, h.1, h.2, h.3, home_full (opts.to_string opts.home) h.6) (cc (h.4, h.5)),
)

accounts_default :
    (opts : AppOptions) (args : ValArgs)
    → opts.to_string opts.accounts_to_fund ≡ []
    → get_command_args opts ≡ ok args
    → args.accounts_to_fund ≡ [] ∷ []
unfolding split
accounts_default opts args e h = rw e at ((get_command_args_iff opts args).0 h).4

-- `handleErr` prints the error and ends the process, here a panic.
abbrev pub handle_err {ℓ} : {A : Type ℓ} → Result A → Result A
handle_err (ok a) = ok a
handle_err (err e) = panic (wrap "exit status 1" [] e)
handle_err (panic e) = panic e

-- The bank keeper with the default coins, and the address codec of the auth keeper.
pub record Bank (State : Type 0) : Type 0 where
  pub mint_coins : State → Result State
  pub address_string_to_bytes : GoString → Result Bytes
  pub send_coins_from_module_to_account : State → Bytes → Result State

module _ {State : Type 0} (bank : Bank State) where
  open bank use {mint_coins, address_string_to_bytes, send_coins_from_module_to_account}

  -- `Fund local accounts`
  unfoldable pub fund_accounts : List GoString → State → Result State
  fund_accounts [] s = ok s
  fund_accounts (account_str ∷ accounts) s = do
    s1 ← handle_err (mint_coins s)
    account ← handle_err (address_string_to_bytes account_str)
    s2 ← handle_err (send_coins_from_module_to_account s1 account)
    fund_accounts accounts s2

  -- If the option of accounts is empty, as it is by default, the arguments that `get_command_args`
  -- gives name one account, the empty string. Where that is no address and coins can be minted, the
  -- funding of these accounts ends the process with the error of the address codec.
  pub fund_accounts-default :
      (opts : AppOptions) (args : ValArgs) (s s1 : State) (e : Error)
      → opts.to_string opts.accounts_to_fund ≡ []
      → get_command_args opts ≡ ok args
      → address_string_to_bytes [] ≡ err e
      → mint_coins s ≡ ok s1
      → (args.accounts_to_fund ≡ [] ∷ [])
        × (fund_accounts args.accounts_to_fund s ≡ panic (wrap "exit status 1" [] e))
  unfolding fund_accounts
  fund_accounts-default opts args s s1 e none h bad minted =
      let one : args.accounts_to_fund ≡ [] ∷ [] = accounts_default opts args none h in
      (one, rw (one, minted, bad) refl)
