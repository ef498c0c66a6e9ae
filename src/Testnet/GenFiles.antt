-- ===== src/Testnet/GenFiles.antt =====
-- initGenFiles: the genesis that all nodes begin with, and its accounts, balances and supply.
use chain_rice.Common.{
  ℕ, zero, suc, ◌+◌, ◌≡◌, GoString, Bytes, Option, none, some, List, [], ◌∷◌, arith,
}
use chain_rice.Common.Result.{Error, message, Result, panic}
use chain_rice.Common.Run.{Run, pure, lift, ◌>>=◌, ◌>>◌}
use chain_rice.Testnet.Args.{get_elem?}

-- The genesis of the basic modules, and what x/auth and x/bank do with their parts of it. Coins are
-- seen by the amount of a denomination.
pub record Genesis : Type 1 where
  pub GenState : Type 0
  pub AuthGenesis : Type 0
  pub Account : Type 0
  pub Packed : Type 0
  pub CoinSet : Type 0
  pub BankOther : Type 0
  pub amount_of : CoinSet → GoString → ℕ
  pub add : CoinSet → CoinSet → CoinSet
  pub amount_of-add :
      (a b : CoinSet) (d : GoString) → amount_of (add a b) d ≡ amount_of a d + amount_of b d
  pub pack_accounts : List Account → Result Packed
  pub set_accounts : AuthGenesis → Packed → AuthGenesis

pub record Balance (g : Genesis) : Type 0 where
  pub address : GoString
  pub coins : g.CoinSet

pub record BankGenesis (g : Genesis) : Type 0 where
  pub balances : List (Balance g)
  pub supply : g.CoinSet
  pub other : g.BankOther

-- The codec, `SanitizeGenesisBalances`, `json.MarshalIndent` and `GenesisDoc.SaveAs`. The panics of
-- `MustUnmarshalJSON` and `MustMarshalJSON` are outcomes.
pub record GenesisCodec (g : Genesis) (State : Type 0) : Type 0 where
  pub default_genesis : g.GenState
  pub get_auth : g.GenState → Result g.AuthGenesis
  pub put_auth : g.GenState → g.AuthGenesis → Result g.GenState
  pub get_bank : g.GenState → Result (BankGenesis g)
  pub put_bank : g.GenState → BankGenesis g → Result g.GenState
  pub sanitize : List (Balance g) → List (Balance g)
  pub marshal_indent : g.GenState → Result Bytes
  pub save_as : GoString → Bytes → GoString → Run State (Unit {0})

abbrev pub index_out_of_range : Error
index_out_of_range = message "runtime error: index out of range" []

module _ (g : Genesis) {State : Type 0} (codec : GenesisCodec g State) where
  open codec use {
    default_genesis, get_auth, put_auth, get_bank, put_bank, sanitize, marshal_indent, save_as,
  }

  -- `bankGenState.Supply = bankGenState.Supply.Add(bal.Coins...)`
  unfoldable pub add_supply : g.CoinSet → List (Balance g) → g.CoinSet
  add_supply supply [] = supply
  add_supply supply (bal ∷ balances) = add_supply (g.add supply bal.coins) balances

  unfoldable pub with_balances : BankGenesis g → List (Balance g) → BankGenesis g
  with_balances bank balances = record bank {
    balances = sanitize balances;
    supply = add_supply bank.supply (sanitize balances);
  }

  -- The app state, up to its text.
  unfoldable pub gen_state_of : List g.Account → List (Balance g) → Run State g.GenState
  gen_state_of accounts balances = do
    auth ← lift (get_auth default_genesis)
    packed ← lift (g.pack_accounts accounts)
    with_auth ← lift (put_auth default_genesis (g.set_accounts auth packed))
    bank ← lift (get_bank with_auth)
    lift (put_bank with_auth (with_balances bank balances))

  abbrev save_at : GoString → Bytes → Option GoString → Run State (Unit {0})
  save_at chain_id app_state none = lift (panic index_out_of_range)
  save_at chain_id app_state (some file) = save_as chain_id app_state file

  -- `genDoc.SaveAs(genFiles[i])`, from `i` on with `n` nodes left.
  unfoldable pub save_all : GoString → Bytes → List GoString → ℕ → ℕ → Run State (Unit {0})
  save_all chain_id app_state gen_files i zero = pure tt
  save_all chain_id app_state gen_files i (suc n) = do
    save_at chain_id app_state (get_elem? gen_files i)
    save_all chain_id app_state gen_files (suc i) n

  unfoldable pub init_gen_files :
      GoString → List g.Account → List (Balance g) → List GoString → ℕ → Run State (Unit {0})
  init_gen_files chain_id accounts balances gen_files num_validators = do
    gen_state ← gen_state_of accounts balances
    app_state ← lift (marshal_indent gen_state)
    save_all chain_id app_state gen_files 0 num_validators

  -- The amount of a denomination in all balances.
  abbrev pub total : GoString → List (Balance g) → ℕ
  total d [] = 0
  total d (bal ∷ balances) = g.amount_of bal.coins d + total d balances

  add_supply-total :
      (balances : List (Balance g)) (supply : g.CoinSet) (d : GoString)
      → g.amount_of (add_supply supply balances) d ≡ g.amount_of supply d + total d balances
  unfolding add_supply
  add_supply-total [] supply d = omega arith
  add_supply-total (bal ∷ balances) supply d = omega (
    arith,
    add_supply-total balances (g.add supply bal.coins) d,
    g.amount_of-add supply bal.coins d,
  )

  -- In the bank genesis that `init_gen_files` makes, of each denomination the supply is that of the
  -- default genesis and the sum of the balances.
  pub with_balances-total :
      (bank : BankGenesis g) (balances : List (Balance g)) (d : GoString)
      → let bank' : BankGenesis g = with_balances bank balances in
        g.amount_of bank'.supply d ≡ g.amount_of bank.supply d + total d bank'.balances
  unfolding with_balances
  with_balances-total bank balances d = add_supply-total (sanitize balances) bank.supply d
