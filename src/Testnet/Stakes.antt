-- ===== src/Testnet/Stakes.antt =====
-- The flags of stakes and ports, and the config of the nodes.
use chain_rice.Common.{
  ℕ, zero, suc, ◌+◌, ◌<◌, ◌≡◌, refl, ap, ◌∙◌, GoString, none, some, List, [], ◌∷◌, ◌++◌, arith,
}
use chain_rice.Common.Result.{ok}
use chain_rice.Testnet.Strings.{itoa}
use chain_rice.Testnet.Args.{
  Coins, get_elem?, rpc_port, default_ports, ports_of_flag, stakes_of_amounts,
}

module _ (c : Coins) where
  -- An amount that is no number is dropped, and those behind it each take the place before theirs.
  pub stakes_of_amounts-invalid :
      (before : List GoString) (bad : GoString) (after : List GoString)
      → c.new_int_from_string bad ≡ none
      → stakes_of_amounts c (before ++ (bad ∷ after)) ≡ stakes_of_amounts c (before ++ after)
  unfolding stakes_of_amounts
  stakes_of_amounts-invalid [] bad after h = rw h
  stakes_of_amounts-invalid (x ∷ before) bad after h =
      rw (stakes_of_amounts-invalid before bad after h)

  -- Each amount is a number and gives its coin.
  abbrev pub AreCoins : List GoString → List c.Coin → Type 0
  AreCoins [] [] = Unit
  AreCoins [] (x ∷ xs) = ⊥
  AreCoins (a ∷ as') [] = ⊥
  AreCoins (a ∷ as') (x ∷ xs) =
      ((n : c.Int) × (c.new_int_from_string a ≡ some n) × (c.new_coin n ≡ ok x)) × AreCoins as' xs

  -- Where each amount of the flag is a number that gives a coin, these are the stakes, in order.
  pub stakes_of_amounts-AreCoins :
      (amounts : List GoString) (coins : List c.Coin)
      → AreCoins amounts coins
      → stakes_of_amounts c amounts ≡ ok coins
  unfolding stakes_of_amounts
  stakes_of_amounts-AreCoins [] [] h = refl
  stakes_of_amounts-AreCoins [] (x ∷ xs) h = elim h [ ]
  stakes_of_amounts-AreCoins (a ∷ amounts) [] h = elim h [ ]
  stakes_of_amounts-AreCoins (a ∷ amounts) (x ∷ xs) ((n, p, q), h) =
      rw (p, q, stakes_of_amounts-AreCoins amounts xs h)

default_ports-get :
    (n i j : ℕ) → j < n → get_elem? (default_ports i n) j ≡ some (itoa (rpc_port (i + j)))
unfolding default_ports
default_ports-get zero i j h = absurd (omega arith)
default_ports-get (suc n) i zero h = ap (λ (t : ℕ). some (itoa (rpc_port t))) (omega arith)
default_ports-get (suc n) i (suc j) h =
    default_ports-get n (suc i) j (omega arith)
    ∙ ap (λ (t : ℕ). some (itoa (rpc_port t))) (omega arith)

-- With no list of ports, each node `i` has the RPC port 26657 - 3 i, in decimal digits.
pub ports_of_flag-default :
    (n i : ℕ) → i < n → get_elem? (ports_of_flag n []) i ≡ some (itoa (rpc_port i))
unfolding ports_of_flag
ports_of_flag-default n i h =
    default_ports-get n 0 i h ∙ ap (λ (t : ℕ). some (itoa (rpc_port t))) (omega arith)
