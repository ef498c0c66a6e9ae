-- ===== src/App/Export/Outcome.antt =====
-- What the export answers: heights, the state it leaves, and addresses that are not valid.
use chain_rice.Common.{
  ℕ, ◌+◌, ◌%◌, ◌^◌, ◌≡◌, refl, GoString, Bytes, List, [], ◌∷◌, ◌++◌, true, false,
}
use chain_rice.Common.Result.{Error, ok, err, panic, >>=-eq-ok}
use chain_rice.App.Keepers.{Keepers}
use chain_rice.App.Export.{
  check_jail_allowed_addrs, prep_for_zero_height_genesis, write_export, next_height,
  export_app_state_and_validators, ExportedApp,
}

module _ (k : Keepers) where
  open k use {State}

  -- Each string of the list is a validator address.
  abbrev pub Valid : List GoString → Type 0
  Valid [] = Unit
  Valid (a ∷ rest) = ((b : Bytes) × (k.validator_string_to_bytes a ≡ ok b)) × Valid rest

  check-Valid :
      (good rest : List GoString)
      → Valid good
      → check_jail_allowed_addrs k (good ++ rest) ≡ check_jail_allowed_addrs k rest
  unfolding check_jail_allowed_addrs
  check-Valid [] rest h = refl
  check-Valid (a ∷ good) rest ((b, e), h) = rw e (check-Valid good rest h)

  check-err :
      (bad : GoString) (rest : List GoString) (e : Error)
      → k.validator_string_to_bytes bad ≡ err e
      → check_jail_allowed_addrs k (bad ∷ rest) ≡ panic e
  unfolding check_jail_allowed_addrs
  check-err bad rest e h = rw h

  -- An export at height zero panics with the codec's error on the first string of the list of allowed
  -- addresses that is no validator address, whatever the state: no keeper is called.
  pub export_invalid_address :
      (good : List GoString) (bad : GoString) (rest modules : List GoString) (e : Error) (s : State)
      → Valid good
      → k.validator_string_to_bytes bad ≡ err e
      → export_app_state_and_validators k true (good ++ (bad ∷ rest)) modules s ≡ panic e
  unfolding export_app_state_and_validators prep_for_zero_height_genesis
  export_invalid_address good bad rest modules e s valid h =
      rw (check-Valid good (bad ∷ rest) valid, check-err bad rest e h)

  write_export-height :
      (h : ℕ) (modules : List GoString) (s : State) (app : ExportedApp k)
      → write_export k h modules s ≡ ok app
      → app.height ≡ h
  unfolding write_export
  write_export-height h modules s app e =
      let (gen, e1, h1) =
        >>=-eq-ok (k.export_genesis_for_modules k.last_block_height s modules) _ e in
      let (st, e2, h2) = >>=-eq-ok (k.marshal_indent gen) _ h1 in
      let (vals, e3, h3) = >>=-eq-ok (k.write_validators s) _ h2 in
      let (params, e4, h4) = >>=-eq-ok (k.get_consensus_params s) _ h3 in cc

  -- An export that succeeds has the height after the last block's, an int64, and leaves the state; at
  -- height zero it has height 0, and its state is the one that the preparation leaves, which has ended.
  pub export_height :
      (allowed modules : List GoString) (s s' : State) (app : ExportedApp k)
      → (export_app_state_and_validators k false allowed modules s ≡ ok (s', app)
          → (app.height ≡ (k.last_block_height + 1) % 2 ^ 64) × (s' ≡ s))
        × (export_app_state_and_validators k true allowed modules s ≡ ok (s', app)
            → (app.height ≡ 0)
              × (prep_for_zero_height_genesis k k.last_block_height allowed s ≡ ok s'))
  unfolding export_app_state_and_validators
  export_height allowed modules s s' app = (
    λ h.
        let (x, e, r) = >>=-eq-ok (write_export k (next_height k) modules s) _ h in
        let eq = write_export-height (next_height k) modules s x e in (cc, cc),
    λ h.
        let (t, p, h1) =
          >>=-eq-ok (prep_for_zero_height_genesis k k.last_block_height allowed s) _ h in
        let (x, e, r) = >>=-eq-ok (write_export k 0 modules t) _ h1 in
        let eq = write_export-height 0 modules t x e in (cc, cc),
  )
