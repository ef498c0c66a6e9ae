-- ===== src/Testnet/Samples.antt =====
-- A disk, keys and a genesis that are small enough to run: the content of a file is a list of bytes, and
-- the app state in the genesis file of a node is a number.
use chain_rice.Common.{
  ℕ, ◌+◌, ◌-◌, leb, ◌≡◌, ◌≢◌, refl, ◌∙◌, GoString, str, Bytes, bytes_equal, bytes_equal_iff, Bool,
  true, false, Option, none, some, List, [], ◌∷◌, ◌++◌, ◌==◌, ==_iff, Bool-cases, if◌then◌else◌,
  inl, inr, drop, length, take, arith,
}
use chain_rice.Common.Result.{Error, message, Result, ok, err, panic}
use chain_rice.Common.Run.{Run, pure, fail}
use chain_rice.Testnet.Strings.{pos}
use chain_rice.Testnet.Args.{Coins}
use chain_rice.Testnet.Disk.{Disk}
use chain_rice.Testnet.GenFiles.{Genesis, BankGenesis, GenesisCodec}
use chain_rice.Testnet.Collect.{Genutil}
use chain_rice.Testnet.Machine.{Machine}
use chain_rice.Testnet.Init.{InitArgs}

pub record Store : Type 0 where
  pub files : GoString → Option Bytes
  pub states : ℕ → Option ℕ

abbrev pub nothing : Store
nothing = record { files = λ p. none; states = λ i. none }

abbrev pub put : Store → GoString → Option Bytes → Store
put s p b = record s { files = λ q. if bytes_equal q p then b else s.files q }

abbrev pub put_state : Store → ℕ → ℕ → Store
put_state s i a = record s { states = λ j. if j == i then some a else s.states j }

pub put-own : (s : Store) (p : GoString) (b : Option Bytes) → (put s p b).files p ≡ b
put-own s p b = rw ((bytes_equal_iff p p).1 refl) refl

pub put-other :
    (s : Store) (p q : GoString) (b : Option Bytes) → q ≢ p → (put s p b).files q ≡ s.files q
put-other s p q b ne = elim (Bool-cases (bytes_equal q p)) [
  | inl e ↦ absurd (ne ((bytes_equal_iff q p).0 e))
  | inr e ↦ rw e refl
]

pub put_state-own : (s : Store) (i a : ℕ) → (put_state s i a).states i ≡ some a
put_state-own s i a = rw ((==_iff i i).1 refl) refl

pub put_state-other : (s : Store) (i j a : ℕ) → j ≢ i → (put_state s i a).states j ≡ s.states j
put_state-other s i j a ne = elim (Bool-cases (j == i)) [
  | inl e ↦ absurd (ne ((==_iff j i).0 e))
  | inr e ↦ rw e refl
]

-- What a call leaves, of a file and of a state.
pub file-of :
    {A : Type 0} (s s' : Store) (a b : A) (p : GoString)
    → ◌≡◌ {A = Result A × Store} (ok a, s) (ok b, s')
    → s'.files p ≡ s.files p
file-of s s' a b p h = cc

pub state-of :
    {A : Type 0} (s s' : Store) (a b : A) (j : ℕ)
    → ◌≡◌ {A = Result A × Store} (ok a, s) (ok b, s')
    → s'.states j ≡ s.states j
state-of s s' a b j h = cc

abbrev slashes : List GoString → GoString
slashes [] = []
slashes (p ∷ []) = p
slashes (p ∷ q ∷ ps) = p ++ (47 ∷ slashes (q ∷ ps))

-- What comes after the last slash, where the first list is what has been read since the one before.
abbrev after_slash : GoString → GoString → GoString
after_slash read [] = read
after_slash read (c ∷ s) = if c == 47 then after_slash [] s else after_slash (read ++ (c ∷ [])) s

abbrev rel_to : GoString → GoString → GoString
rel_to d f = if bytes_equal (take (length d) f) d then drop (length d + 1) f else str "../" ++ f

abbrev pub unless : Bool → Run Store (Unit {0})
unless true = fail (message "no space" [])
unless false = pure tt

pub unless-files :
    (b : Bool) (s s' : Store) (p : GoString) → unless b s ≡ (ok tt, s') → s'.files p ≡ s.files p
unless-files true s s' p h = absurd (ground arith)
unless-files false s s' p h = file-of s s' tt tt p h

-- A path inside a directory begins with it.
abbrev pub within : GoString → GoString → Bool
within d p = bytes_equal (take (length d) p) d

abbrev pub without : GoString → Store → Store
without d s = record s { files = λ p. if within d p then none else s.files p }

-- A disk on which these directories cannot be made.
abbrev pub disk : (GoString → Bool) → Disk
disk full = record {
  State = Store;
  content = λ s p. s.files p;
  join = slashes;
  base = after_slash [];
  abs = λ p. ok p;
  rel = λ d f. ok (rel_to d f);
  is_abs = λ p. false;
  mkdir_all = λ d. unless (full d);
  is_inside = within;
  remove_all = λ d s. (ok tt, without d s);
  remove-inside = λ s s' d p h e. file-of (without d s) s' tt tt p h ∙ rw e refl;
  os_write_file = λ p b s. (ok tt, put s p (some b));
  open_file = λ p. pure tt;
  create = λ p s. (ok tt, put s p (some []));
  io_copy = λ dst src s. (ok 0, put s dst (s.files src));
  sync = λ p. pure tt;
  mkdir-content = λ s s' d p h. unless-files (full d) s s' p h;
  write-own = λ s s' p b h. file-of (put s p (some b)) s' tt tt p h ∙ put-own s p (some b);
  open-content = λ s s' f p h. file-of s s' tt tt p h;
  create-own = λ s s' p h. file-of (put s p (some [])) s' tt tt p h ∙ put-own s p (some []);
  create-other =
      λ s s' f p h ne. file-of (put s f (some [])) s' tt tt p h ∙ put-other s f p (some []) ne;
  copy-own = λ s s' dst src n h.
      file-of (put s dst (s.files src)) s' 0 n dst h ∙ put-own s dst (s.files src);
  copy-other = λ s s' dst src p n h ne.
      file-of (put s dst (s.files src)) s' 0 n p h ∙ put-other s dst p (s.files src) ne;
  sync-content = λ s s' f p h. file-of s s' tt tt p h;
}

abbrev pub genutil : Genutil Store
genutil = record {
  AppGenesis = ℕ;
  AppState = ℕ;
  genesis_of = λ s i. s.states i;
  app_genesis_from_file = λ i. pure i;
  gen_app_state_from_config = λ i g s. (ok (g + 7), put_state s i (g + 7));
  write_config_file = λ i c. pure tt;
  export_genesis_file_with_time = λ i a s. (ok tt, put_state s i a);
  from_file-genesis = λ s s' i j g h. state-of s s' i g j h;
  gen_app_state-other = λ s s' i j g a h ne.
      state-of (put_state s i (g + 7)) s' (g + 7) a j h ∙ put_state-other s i j (g + 7) ne;
  write_config-genesis = λ s s' i j c h. state-of s s' tt tt j h;
  export-own = λ s s' i a h. state-of (put_state s i a) s' tt tt i h ∙ put_state-own s i a;
  export-other =
      λ s s' i j a h ne. state-of (put_state s i a) s' tt tt j h ∙ put_state-other s i j a ne;
}

abbrev negative_amount : Error
negative_amount = message "negative coin amount" []

-- One digit is a number, and two with a minus sign in front a negative one, as 1000 and more.
abbrev int_of : GoString → Option ℕ
int_of [] = none
int_of (d ∷ []) = some (d - 48)
int_of (a ∷ d ∷ s) = if a == 45 then some (1000 + d) else none

abbrev pub coins : Coins
coins = record {
  Int = ℕ;
  Coin = ℕ;
  is_negative = λ n. leb 1000 n;
  new_int_from_string = int_of;
  new_coin = λ n. if leb 1000 n then panic negative_amount else ok n;
  tokens_from_consensus_power = λ n. n;
}

abbrev pub genesis : Genesis
genesis = record {
  GenState = ℕ;
  AuthGenesis = ℕ;
  Account = GoString;
  Packed = ℕ;
  CoinSet = GoString → ℕ;
  BankOther = Unit {0};
  amount_of = λ c d. c d;
  add = λ a b d. a d + b d;
  amount_of-add = λ a b d. refl;
  pack_accounts = λ accounts. ok (length accounts);
  set_accounts = λ auth packed. packed;
}

abbrev pub empty_bank : BankGenesis genesis
empty_bank = record { balances = []; supply = λ d. 0; other = tt }

abbrev pub codec : GenesisCodec genesis Store
codec = record {
  default_genesis = 0;
  get_auth = λ x. ok x;
  put_auth = λ x a. ok a;
  get_bank = λ x. ok empty_bank;
  put_bank = λ x b. ok x;
  sanitize = λ b. b;
  marshal_indent = λ x. ok (x ∷ []);
  save_as = λ id b f s. (ok tt, put s f (some b));
}

abbrev pub amounts : List (GoString × ℕ) → GoString → ℕ
amounts [] d = 0
amounts ((e, n) ∷ cs) d = if bytes_equal e d then n else amounts cs d

abbrev pub machine : Machine coins genesis Store
machine = record {
  PubKey = GoString;
  Keyring = GoString;
  Algo = GoString;
  Address = GoString;
  Msg = GoString;
  Tx = GoString;
  default_config = record {
    min_gas_prices = [];
    api_enable = true;
    enable_hostname_label = true;
    telemetry_enabled = true;
    prometheus_retention_time = 60;
    grpc_address = [];
    api_address = [];
  };
  default_bond_denom = str "stake";
  intn = λ n. pure 0;
  genesis_file = λ d. d ++ str "/config/genesis.json";
  initialize_node_validator_files = λ n. pure (str "id-" ++ n.moniker, n.root);
  new_keyring = λ backend d.
      if bytes_equal backend (str "test") then pure d else fail (message "unknown backend" []);
  new_signing_algo = λ algo kb.
      if bytes_equal algo (str "secp256k1") then ok algo else err (message "unknown algo" []);
  generate_save_coin_key = λ kb n algo. pure (n, str "seed words");
  marshal_secret = λ secret. ok secret;
  address_string = λ a. a;
  val_address_string = λ a. a;
  new_base_account = λ a. a;
  sorted_coins = amounts;
  new_msg_create_validator = λ a key coin n. ok (a ++ (coin ∷ []));
  set_msgs = λ msg. ok msg;
  set_memo = λ memo x. x ++ memo;
  sign = λ id memo kb n x. pure (x ++ id);
  encode_tx = λ x. ok x;
  write_app_config = λ p a. pure tt;
}

abbrev pub args : InitArgs coins
args = record {
  algo = str "secp256k1";
  chain_id = str "c1";
  keyring_backend = str "test";
  min_gas_prices = str "0stake";
  node_dir_prefix = str "n";
  num_validators = pos 2;
  output_dir = str "out";
  starting_ip_address = str "h";
  validators_stakes_amount = 9 ∷ [];
  ports = str "1" ∷ str "2" ∷ [];
}
