-- ===== src/Testnet/ReplaceTests.antt =====
-- A store of x/staking as the list of its keys, and a run of initAppForTestnet over it.
use mathlib.Core.List.{Memᴰ}
use chain_rice.Common.{
  ℕ, suc, ◌≡◌, ◌≢◌, ◌↔◌, refl, sym, ap, ◌∙◌, str, Bytes, bytes_equal, bytes_equal_iff, Bool, true,
  false, not, ◌||◌, ◌&&◌, Bool-cases, Option, none, some, List, [], ◌∷◌, inl, inr, arith,
  if◌then◌else◌,
}
use chain_rice.Common.Result.{ok, err, message}
use chain_rice.Testnet.InPlace.{ValArgs, Bank, fund_accounts}
use chain_rice.Testnet.Replace.{
  Validator, Staking, Lawful, Others, has_prefix, new_validator, delete_all, delete_prefix,
  remove_validators, add_validator, init_distribution, init_others, init_app_for_testnet,
}
use chain_rice.Testnet.Replace.Stores.{
  NewKey, init_app_for_testnet-replaces, record_of, by_cons_addr, in_power_index, last_power_of,
}

abbrev mem : Bytes → List Bytes → Bool
mem q [] = false
mem q (p ∷ s) = bytes_equal q p || mem q s

abbrev value : Bool → Option Bytes
value true = some []
value false = none

-- The keys that pass a test.
abbrev only : (Bytes → Bool) → List Bytes → List Bytes
only f [] = []
only f (p ∷ s) = if f p then p ∷ only f s else only f s

and_true : (a b : Bool) → (a && b) ≡ true → (a ≡ true) × (b ≡ true)
and_true true b h = (refl, h)
and_true false b h = absurd (ground (arith, h))

mem-only : (f : Bytes → Bool) (s : List Bytes) (q : Bytes) → mem q (only f s) ≡ (mem q s && f q)
mem-only f [] q = refl
mem-only f (p ∷ s) q = elim (Bool-cases (bytes_equal q p)) [
  | inl e ↦
      let same : f q ≡ f p = ap f ((bytes_equal_iff q p).0 e) in
      elim (Bool-cases (f p)) [
        | inl t ↦ rw (t, e, same, t) refl
        | inr n ↦ rw (n, mem-only f s q, e, same, n) (last (mem q s))
      ]
  | inr e ↦ elim (Bool-cases (f p)) [
    | inl t ↦ rw (t, e, mem-only f s q) refl
    | inr n ↦ rw (n, e, mem-only f s q) refl
  ]
]
  where
    last : (b : Bool) → (b && false) ≡ false
    last true = refl
    last false = refl

Memᴰ-mem : (s : List Bytes) (q : Bytes) → Memᴰ q s ↔ (mem q s ≡ true)
Memᴰ-mem s q = (to s, from s)
  where
    to : (s : List Bytes) → Memᴰ q s → mem q s ≡ true
    to [] m = elim m [ ]
    to (p ∷ s) (Memᴰ.head e) = rw ((bytes_equal_iff q p).1 e) refl
    to (p ∷ s) (Memᴰ.tail m) =
        rw (to s m) (elim (Bool-cases (bytes_equal q p)) [ inl e ↦ rw e refl | inr e ↦ rw e refl ])

    from : (s : List Bytes) → mem q s ≡ true → Memᴰ q s
    from [] h = absurd (ground (arith, h))
    from (p ∷ s) h = elim (Bool-cases (bytes_equal q p)) [
      | inl e ↦ Memᴰ.head ((bytes_equal_iff q p).0 e)
      | inr e ↦ Memᴰ.tail (from s (rw e at h))
    ]

value-some : (b : Bool) → (value b ≢ none) ↔ (b ≡ true)
value-some true = (λ h. refl, λ h e. absurd (ground (arith, e)))
value-some false = (λ h. absurd (h refl), λ h. absurd (ground (arith, h)))

abbrev starting : Bytes → List Bytes → List Bytes
starting p s = only (has_prefix p) s

content : List Bytes → Bytes → Option Bytes
content s q = value (mem q s)

starting-lists :
    (s : List Bytes) (p q : Bytes)
    → Memᴰ q (starting p s) ↔ ((content s q ≢ none) × (has_prefix p q ≡ true))
unfolding content
starting-lists s p q = (
  λ m.
      let both =
        and_true (mem q s) (has_prefix p q)
          (sym (mem-only (has_prefix p) s q) ∙ (Memᴰ-mem (starting p s) q).0 m) in
      ((value-some (mem q s)).1 both.0, both.1),
  λ (full, has).
      (Memᴰ-mem (starting p s) q).1
        (mem-only (has_prefix p) s q ∙ rw ((value-some (mem q s)).0 full, has) refl),
)

starting-lists_of :
    (s keys : List Bytes) (p : Bytes)
    → ok (starting p s) ≡ ok keys
    → (q : Bytes) → Memᴰ q keys ↔ ((content s q ≢ none) × (has_prefix p q ≡ true))
starting-lists_of s keys p h q =
    let same : starting p s ≡ keys = ground (arith, h) in rw same at (starting-lists s p q)

deleted-own : (s : List Bytes) (p : Bytes) → content (only (λ q. not (bytes_equal q p)) s) p ≡ none
unfolding content
deleted-own s p =
    rw (mem-only (λ q. not (bytes_equal q p)) s p, (bytes_equal_iff p p).1 refl) (last (mem p s))
  where
    last : (b : Bool) → value (b && false) ≡ none
    last true = refl
    last false = refl

deleted-other :
    (s : List Bytes) (p q : Bytes)
    → q ≢ p
    → content (only (λ r. not (bytes_equal r p)) s) q ≡ content s q
unfolding content
deleted-other s p q ne = elim (Bool-cases (bytes_equal q p)) [
  | inl e ↦ absurd (ne ((bytes_equal_iff q p).0 e))
  | inr e ↦ rw (mem-only (λ r. not (bytes_equal r p)) s q, e) (last (mem q s))
]
  where
    last : (b : Bool) → value (b && true) ≡ value b
    last true = refl
    last false = refl

other-key :
    (s s' : List Bytes) (p q : Bytes) → ok (p ∷ s) ≡ ok s' → q ≢ p → content s' q ≡ content s q
unfolding content
other-key s s' p q h ne = elim (Bool-cases (bytes_equal q p)) [
  | inl e ↦ absurd (ne ((bytes_equal_iff q p).0 e))
  | inr e ↦ let same : p ∷ s ≡ s' = ground (arith, h) in rw (sym same, e) refl
]

abbrev key_of : ℕ → Validator Bytes → Bytes
key_of n v = n ∷ v.operator_address

abbrev staking : Staking
staking = record {
  Any = Bytes;
  Store = List Bytes;
  content = content;
  delete = λ p s. only (λ q. not (bytes_equal q p)) s;
  validators_by_power_index_key = 0x23 ∷ [];
  last_validator_power_key = 0x11 ∷ [];
  validators_key = 0x21 ∷ [];
  validator_queue_key = 0x43 ∷ [];
  prefix_end_bytes = λ p. p;
  iterator = λ p q s. starting p s;
  validators_power_store_iterator = λ s. ok (starting (0x23 ∷ []) s);
  last_validators_iterator = λ s. ok (starting (0x11 ∷ []) s);
  validator_string_to_bytes = λ a. ok a;
  set_validator = λ v s. ok (key_of 0x21 v ∷ s);
  set_validator_by_cons_addr = λ v s. ok (key_of 0x22 v ∷ s);
  set_validator_by_power_index = λ v s. ok (key_of 0x23 v ∷ s);
  set_last_validator_power = λ a n s. ok ((0x11 ∷ a) ∷ s);
  validator_key = key_of 0x21;
  cons_addr_key = key_of 0x22;
  power_index_key = key_of 0x23;
  last_power_key = λ a. 0x11 ∷ a;
  bond_denom = λ s. ok (str "stake");
}

lawful : Lawful staking
unfolding content
lawful = record {
  delete-own = λ s p. deleted-own s p;
  delete-other = λ s p q ne. deleted-other s p q ne;
  iterator-Enumerates = λ s p q. starting-lists s p q;
  power-Enumerates = λ s keys h. starting-lists_of s keys (0x23 ∷ []) h;
  last-Enumerates = λ s keys h. starting-lists_of s keys (0x11 ∷ []) h;
  set_validator-other = λ s s' v q h ne. other-key s s' _ q h ne;
  set_cons_addr-other = λ s s' v q h ne. other-key s s' _ q h ne;
  set_power_index-other = λ s s' v q h ne. other-key s s' _ q h ne;
  set_last_power-other = λ s s' a n q h ne. other-key s s' _ q h ne;
}

abbrev bank : Bank ℕ
bank = record {
  mint_coins = λ t. ok (suc t);
  address_string_to_bytes = λ a. ok a;
  send_coins_from_module_to_account = λ t a. ok (suc t);
}

abbrev others : Others staking
others = record {
  State = ℕ;
  Coins = ℕ;
  new_coins = λ denom n. ok n;
  bank = λ coins. bank;
  new_any_with_value = λ key. ok key;
  after_validator_created = λ s a t. ok (suc t);
  set_validator_historical_rewards = λ a period n t. ok (suc t);
  set_validator_current_rewards = λ a period t. ok (suc t);
  set_initial_accumulated_commission = λ a t. ok (suc t);
  set_no_outstanding_rewards = λ a t. ok (suc t);
  set_signing_info = λ a height t. err (message "jailed" []);
  last_block_height = 5;
}

abbrev arguments : ValArgs
arguments = record {
  new_val_addr = 1 ∷ [];
  new_operator_address = 7 ∷ [];
  new_val_pub_key = 2 ∷ [];
  accounts_to_fund = (9 ∷ []) ∷ [];
  upgrade_to_trigger = [];
  home_dir = str "/h";
}

-- A validator with the address 5 in all tables, and a key of another table.
abbrev before : List Bytes
before =
    (0x21 ∷ 5 ∷ []) ∷ (0x23 ∷ 5 ∷ []) ∷ (0x31 ∷ 5 ∷ []) ∷ (0x11 ∷ 5 ∷ []) ∷ (0x43 ∷ 5 ∷ []) ∷ []

abbrev after : List Bytes
after = (0x11 ∷ 7 ∷ []) ∷ (0x23 ∷ 7 ∷ []) ∷ (0x22 ∷ 7 ∷ []) ∷ (0x21 ∷ 7 ∷ []) ∷ (0x31 ∷ 5 ∷ []) ∷ []

replaced : init_app_for_testnet staking others arguments before 0 ≡ ok (after, 7)
unfolding init_app_for_testnet remove_validators delete_prefix delete_all add_validator
    new_validator init_others init_distribution fund_accounts
replaced = refl

-- The record of the validator that is gone.
abbrev old_record : Bytes
old_record = 0x21 ∷ 5 ∷ []

not_new : ¬ NewKey staking lawful (new_validator (7 ∷ []) (2 ∷ [])) (7 ∷ []) old_record
unfolding new_validator
not_new (record_of e) = absurd (ground (arith, e))
not_new (by_cons_addr e) = absurd (ground (arith, e))
not_new (in_power_index e) = absurd (ground (arith, e))
not_new (last_power_of e) = absurd (ground (arith, e))

init_app_for_testnet-replaces_example : content after old_record ≡ none
init_app_for_testnet-replaces_example =
    init_app_for_testnet-replaces staking lawful others arguments (2 ∷ []) (7 ∷ []) before after 0 7
      refl refl replaced old_record not_new
