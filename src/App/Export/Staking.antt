-- ===== src/App/Export/Staking.antt =====
-- What the export at height zero leaves in the tables of the staking keeper.
use mathlib.Core.List.{Memᴰ}
use chain_rice.Common.{
  map, ◌≡◌, ◌≢◌, ◌↔◌, ◌⊎◌, refl, ◌∙◌, GoString, Bytes, bytes_dec, List, [], ◌∷◌, inl, inr, true,
}
use chain_rice.Common.Result.{Result, ok, err, panic, must, >>=-eq-ok, must-eq-ok}
use chain_rice.App.Keepers.{Entry, Keepers, Validator, Redelegation, UnbondingDelegation}
use chain_rice.App.Sweep.{for_each, iterate-each}
use chain_rice.App.Export.Jailing.{Memᴰ-tail, reset_validator-idempotent, reset_validator-fields}
use chain_rice.App.Export.{
  reset_entry, reset_redelegation, reset_unbonding_delegation, reset_validator, must_be_found,
  set_reset_redelegation, set_reset_unbonding_delegation, reset_validator_at, reset_redelegations,
  reset_unbonding_delegations, reset_validators,
}

must_be_found-eq-ok : (r : Result Validator) {v : Validator} → must_be_found r ≡ ok v → r ≡ ok v
must_be_found-eq-ok (ok v) h = h
must_be_found-eq-ok (err e) h = cc
must_be_found-eq-ok (panic e) h = cc

-- The entries in the same order, each with creation height 0 and its other data.
abbrev pub IsReset : List Entry → List Entry → Type 0
IsReset [] [] = Unit
IsReset [] (f ∷ fs) = ⊥
IsReset (e ∷ es) [] = ⊥
IsReset (e ∷ es) (f ∷ fs) = (f.creation_height ≡ 0) × (f.other ≡ e.other) × IsReset es fs

map-reset_entry-IsReset : (es : List Entry) → IsReset es (map reset_entry es)
unfolding reset_entry
map-reset_entry-IsReset [] = tt
map-reset_entry-IsReset (e ∷ es) = (refl, refl, map-reset_entry-IsReset es)

module _ (k : Keepers) where
  open k use {State}

  -- If the redelegation stage ends, every redelegation that its iteration showed is stored under its
  -- key with the same entries in order, all with creation height 0, and nothing else changed.
  pub reset_redelegations-each :
      (s s' : State) (reds : List Redelegation) (r : Redelegation)
      → k.redelegations.iterate s ≡ ok reds
      → reset_redelegations k s ≡ ok s'
      → Memᴰ r reds
      → (es : List Entry) × IsReset r.entries es
        × (k.redelegations.get s' (
              k.keys.redelegation_key r.delegator_address r.validator_src_address
                r.validator_dst_address)
            ≡ ok (record r { entries = es }))
  unfolding reset_redelegations set_reset_redelegation reset_redelegation
  reset_redelegations-each s s' reds r i h m = (
    map reset_entry r.entries,
    map-reset_entry-IsReset r.entries,
    iterate-each k.redelegations reset_redelegation (λ v. refl) reds s s' r i (rw i at h) m,
  )

  -- If the stage of unbonding delegations ends, every one that its iteration showed is stored under
  -- its key with the same entries in order, all with creation height 0, and nothing else changed.
  pub reset_unbonding_delegations-each :
      (s s' : State) (ubds : List UnbondingDelegation) (u : UnbondingDelegation)
      → k.unbonding_delegations.iterate s ≡ ok ubds
      → reset_unbonding_delegations k s ≡ ok s'
      → Memᴰ u ubds
      → (es : List Entry) × IsReset u.entries es
        × (k.unbonding_delegations.get s'
              (k.keys.unbonding_key u.delegator_address u.validator_address)
            ≡ ok (record u { entries = es }))
  unfolding reset_unbonding_delegations set_reset_unbonding_delegation reset_unbonding_delegation
  reset_unbonding_delegations-each s s' ubds u i h m = (
    map reset_entry u.entries,
    map-reset_entry-IsReset u.entries,
    iterate-each k.unbonding_delegations reset_unbonding_delegation (λ v. refl) ubds s s' u i
        (rw i at h) m,
  )

  module _ (allowed : List GoString) where
    -- One round stores the reset validator at its address, and leaves the other addresses.
    reset_validator_at_lem :
        (s s' : State) (addr : Bytes)
        → reset_validator_at k allowed addr s ≡ ok s'
        → (v : Validator) × (a : GoString) × (k.validators.get s addr ≡ ok v)
          × (k.staking_bytes_to_string addr ≡ ok a)
          × (k.validators.get s' addr ≡ ok (reset_validator allowed a v))
          × ((b : Bytes) → b ≢ addr → k.validators.get s' b ≡ k.validators.get s b)
    unfolding reset_validator_at reset_validator
    reset_validator_at_lem s s' addr h =
        let (v, found, h1) = >>=-eq-ok (must_be_found (k.validators.get s addr)) _ h in
        let (a, printed, h2) = >>=-eq-ok (must (k.staking_bytes_to_string addr)) _ h1 in
        let got = must_be_found-eq-ok (k.validators.get s addr) found in
        let at_key = k.validators.key-get s addr v got in
        let w : Validator = reset_validator allowed a v in
        let set = must-eq-ok (k.validators.set s w) h2 in
        (
          v,
          a,
          got,
          must-eq-ok (k.staking_bytes_to_string addr) printed,
          rw at_key at (k.validators.get-set s s' w set),
          λ b ne. k.validators.get-set_other s s' w b set (rw at_key ne),
        )

    -- An address whose validator is reset stays so.
    reset-keeps :
        (addrs : List Bytes) (s s' : State) (addr : Bytes) (a : GoString) (v : Validator)
        → for_each (reset_validator_at k allowed) addrs s ≡ ok s'
        → k.staking_bytes_to_string addr ≡ ok a
        → k.validators.get s addr ≡ ok (reset_validator allowed a v)
        → k.validators.get s' addr ≡ ok (reset_validator allowed a v)
    reset-keeps [] s s' addr a v h p g = cc
    reset-keeps (b ∷ addrs) s s' addr a v h p g =
        let (s1, first, rest) =
          >>=-eq-ok (reset_validator_at k allowed b s)
            (for_each (reset_validator_at k allowed) addrs) h in
        let (w, c, got, printed, stored, others) = reset_validator_at_lem s s1 b first in
        reset-keeps addrs s1 s' addr a v rest p (elim (bytes_dec addr b) [
          | inl e ↦ cc (e, reset_validator-idempotent allowed a v)
          | inr ne ↦ others addr ne ∙ g
        ])

    reset_loop :
        (addrs : List Bytes) (s s' : State) (addr : Bytes) (a : GoString) (v : Validator)
        → for_each (reset_validator_at k allowed) addrs s ≡ ok s'
        → Memᴰ addr addrs
        → k.validators.get s addr ≡ ok v
        → k.staking_bytes_to_string addr ≡ ok a
        → k.validators.get s' addr ≡ ok (reset_validator allowed a v)
    reset_loop [] s s' addr a v h m g p = elim m [ ]
    reset_loop (b ∷ addrs) s s' addr a v h m g p =
        let (s1, first, rest) =
          >>=-eq-ok (reset_validator_at k allowed b s)
            (for_each (reset_validator_at k allowed) addrs) h in
        let (w, c, got, printed, stored, others) = reset_validator_at_lem s s1 b first in
        elim (bytes_dec addr b) [
          | inl e ↦ reset-keeps addrs s1 s' addr a v rest p (same e got printed stored)
          | inr ne ↦ reset_loop addrs s1 s' addr a v rest (Memᴰ-tail ne m) (others addr ne ∙ g) p
        ]
      where
        same :
            {s1 : State} {w : Validator} {c : GoString}
            → addr ≡ b
            → k.validators.get s b ≡ ok w
            → k.staking_bytes_to_string b ≡ ok c
            → k.validators.get s1 b ≡ ok (reset_validator allowed c w)
            → k.validators.get s1 addr ≡ ok (reset_validator allowed a v)
        same e got printed stored = cc

    reset_loop-other :
        (addrs : List Bytes) (s s' : State) (b : Bytes)
        → for_each (reset_validator_at k allowed) addrs s ≡ ok s'
        → ¬ Memᴰ b addrs
        → k.validators.get s' b ≡ k.validators.get s b
    reset_loop-other [] s s' b h out = cc
    reset_loop-other (addr ∷ addrs) s s' b h out =
        let (s1, first, rest) =
          >>=-eq-ok (reset_validator_at k allowed addr s)
            (for_each (reset_validator_at k allowed) addrs) h in
        let (w, c, got, printed, stored, others) = reset_validator_at_lem s s1 addr first in
        reset_loop-other addrs s1 s' b rest (λ m. out (Memᴰ.tail m))
        ∙ others b (λ e. out (Memᴰ.head e))

    -- If the loop over the validators ends, the validator `v` that was stored at an address of the
    -- loop is stored there with unbonding height 0 and its other data; and it is jailed exactly if it
    -- was, or the list of allowed addresses has members and none of them is the printed address.
    pub reset_validators-each :
        (s s' : State) (addr : Bytes) (a : GoString) (v : Validator)
        → reset_validators k allowed s ≡ ok s'
        → Memᴰ addr (k.validator_addresses s)
        → k.validators.get s addr ≡ ok v
        → k.staking_bytes_to_string addr ≡ ok a
        → (w : Validator) × (k.validators.get s' addr ≡ ok w)
          × (w.unbonding_height ≡ 0)
          × (w.operator_address ≡ v.operator_address)
          × (w.other ≡ v.other)
          × ((w.jailed ≡ true) ↔ ((v.jailed ≡ true) ⊎ ((allowed ≢ []) × ¬ Memᴰ a allowed)))
    unfolding reset_validators
    reset_validators-each s s' addr a v h m g p = (
      reset_validator allowed a v,
      reset_loop (k.validator_addresses s) s s' addr a v h m g p,
      (reset_validator-fields allowed a v).0,
      (reset_validator-fields allowed a v).1,
      (reset_validator-fields allowed a v).2,
      (reset_validator-fields allowed a v).3,
    )

    -- The loop over the validators leaves an address that it does not pass.
    pub reset_validators-other :
        (s s' : State) (b : Bytes)
        → reset_validators k allowed s ≡ ok s'
        → ¬ Memᴰ b (k.validator_addresses s)
        → k.validators.get s' b ≡ k.validators.get s b
    unfolding reset_validators
    reset_validators-other s s' b h out = reset_loop-other (k.validator_addresses s) s s' b h out
