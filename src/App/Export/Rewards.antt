-- ===== src/App/Export/Rewards.antt =====
-- What the loop over the validators does to the outstanding rewards and the community pool.
use mathlib.Core.List.{Pairwise, Mem, mem-cons_self, mem-cons_of_mem}
use chain_rice.Common.{◌≡◌, ◌≢◌, ℕ, sym, ap, ◌∙◌, Bytes, List, [], ◌∷◌}
use chain_rice.Common.Result.{ok, must, must-eq-ok, >>=-eq-ok}
use chain_rice.App.Keepers.{Keepers, Validator}
use chain_rice.App.Sweep.{for_each}
use chain_rice.App.Export.{reinitialize_validator}

-- The pool is what was set. The hook of x/distribution starts new records for its validator only.
pub record PoolLaws (k : Keepers) : Type 0 where
  pub get-set_fee_pool :
      (s s' : k.State) (p : k.FeePool) → k.set_fee_pool s p ≡ ok s' → k.get_fee_pool s' ≡ ok p
  pub rewards-set_fee_pool :
      (s s' : k.State) (p : k.FeePool) (a : Bytes)
      → k.set_fee_pool s p ≡ ok s'
      → k.get_validator_outstanding_rewards_coins s' a
        ≡ k.get_validator_outstanding_rewards_coins s a
  pub pool-after_validator_created :
      (h : ℕ) (s s' : k.State) (a : Bytes)
      → k.after_validator_created h s a ≡ ok s'
      → k.get_fee_pool s' ≡ k.get_fee_pool s
  pub rewards-after_validator_created :
      (h : ℕ) (s s' : k.State) (a b : Bytes)
      → k.after_validator_created h s a ≡ ok s'
      → b ≢ a
      → k.get_validator_outstanding_rewards_coins s' b
        ≡ k.get_validator_outstanding_rewards_coins s b

module _ (k : Keepers) where
  open k use {State, Coins, FeePool}

  abbrev pub donated : FeePool → List Coins → FeePool
  donated p [] = p
  donated p (c ∷ cs) = donated (k.add_to_community_pool p c) cs

  -- The outstanding rewards of the validators, one by one, as they are in the state.
  abbrev pub RewardsOf : State → List Validator → List Coins → Type 0
  RewardsOf s [] [] = Unit
  RewardsOf s [] (c ∷ cs) = ⊥
  RewardsOf s (v ∷ vs) [] = ⊥
  RewardsOf s (v ∷ vs) (c ∷ cs) =
      ((a : Bytes) × (k.staking_string_to_bytes v.operator_address ≡ ok a)
        × (k.get_validator_outstanding_rewards_coins s a ≡ ok c))
      × RewardsOf s vs cs

  abbrev pub Apart : Validator → Validator → Type 0
  Apart v w =
      (a b : Bytes)
      → k.staking_string_to_bytes v.operator_address ≡ ok a
      → k.staking_string_to_bytes w.operator_address ≡ ok b
      → b ≢ a

  module _ (laws : PoolLaws k) where
    RewardsOf-before :
        (s s' : State) (a : Bytes) (vs : List Validator) (cs : List Coins)
        → ((b : Bytes)
            → b ≢ a
            → k.get_validator_outstanding_rewards_coins s' b
              ≡ k.get_validator_outstanding_rewards_coins s b)
        → ((w : Validator) (b : Bytes)
            → Mem w vs
            → k.staking_string_to_bytes w.operator_address ≡ ok b
            → b ≢ a)
        → RewardsOf s' vs cs
        → RewardsOf s vs cs
    RewardsOf-before s s' a [] [] same far r = tt
    RewardsOf-before s s' a [] (c ∷ cs) same far r = r
    RewardsOf-before s s' a (v ∷ vs) [] same far r = r
    RewardsOf-before s s' a (v ∷ vs) (c ∷ cs) same far ((b, e, g), r) = (
      (b, e, sym (same b (far v b mem-cons_self e)) ∙ g),
      RewardsOf-before s s' a vs cs same (λ w b m. far w b (mem-cons_of_mem v m)) r,
    )

    -- One round adds the rewards of the validator to the pool, and leaves those of the others.
    reinitialize_validator_lem :
        (v : Validator) (s s' : State) (p : FeePool)
        → k.get_fee_pool s ≡ ok p
        → reinitialize_validator k v s ≡ ok s'
        → (a : Bytes) × (c : Coins) × (k.staking_string_to_bytes v.operator_address ≡ ok a)
          × (k.get_validator_outstanding_rewards_coins s a ≡ ok c)
          × (k.get_fee_pool s' ≡ ok (k.add_to_community_pool p c))
          × ((b : Bytes)
              → b ≢ a
              → k.get_validator_outstanding_rewards_coins s' b
                ≡ k.get_validator_outstanding_rewards_coins s b)
    unfolding reinitialize_validator
    reinitialize_validator_lem v s s' p g e =
        let (a, e1, h1) = >>=-eq-ok (must (k.staking_string_to_bytes v.operator_address)) _ e in
        let (c, e2, h2) = >>=-eq-ok (must (k.get_validator_outstanding_rewards_coins s a)) _ h1 in
        let (q, e3, h3) = >>=-eq-ok (must (k.get_fee_pool s)) _ h2 in
        let (t, e4, h4) = >>=-eq-ok (must (k.set_fee_pool s (k.add_to_community_pool q c))) _ h3 in
        let set = must-eq-ok (k.set_fee_pool s (k.add_to_community_pool q c)) e4 in
        let created = must-eq-ok (k.after_validator_created 0 t a) h4 in
        let read = must-eq-ok (k.get_fee_pool s) e3 in
        let same : q ≡ p = cc in
        (
          a,
          c,
          must-eq-ok (k.staking_string_to_bytes v.operator_address) e1,
          must-eq-ok (k.get_validator_outstanding_rewards_coins s a) e2,
          laws.pool-after_validator_created 0 t s' a created
              ∙ laws.get-set_fee_pool s t (k.add_to_community_pool q c) set
              ∙ ap (λ (x : FeePool). ok (k.add_to_community_pool x c)) same,
          λ b ne.
              laws.rewards-after_validator_created 0 t s' a b created ne
              ∙ laws.rewards-set_fee_pool s t (k.add_to_community_pool q c) b set,
        )

    -- If the loop that starts new records for the validators ends, where their addresses are
    -- different, the community pool has what was in it and the outstanding rewards that each of them
    -- had before the loop.
    pub reinitialize_validator-donated :
        (vs : List Validator) (s s' : State) (p : FeePool)
        → Pairwise Apart vs
        → k.get_fee_pool s ≡ ok p
        → for_each (reinitialize_validator k) vs s ≡ ok s'
        → (cs : List Coins) × RewardsOf s vs cs × (k.get_fee_pool s' ≡ ok (donated p cs))
    reinitialize_validator-donated [] s s' p apart g h =
        let same : s' ≡ s = cc in ([], tt, ap k.get_fee_pool same ∙ g)
    reinitialize_validator-donated (v ∷ vs) s s' p (Pairwise.cons far apart) g h =
        let (s1, first, rest) =
          >>=-eq-ok (reinitialize_validator k v s) (for_each (reinitialize_validator k) vs) h in
        let (a, c, printed, had, pool, others) = reinitialize_validator_lem v s s1 p g first in
        let (cs, rewards, end) =
          reinitialize_validator-donated vs s1 s' (k.add_to_community_pool p c) apart pool rest in
        (
          c ∷ cs,
          (
            (a, printed, had),
            RewardsOf-before s s1 a vs cs others (λ w b m e. far w m a b printed e) rewards,
          ),
          end,
        )
