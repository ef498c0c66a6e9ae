-- ===== src/App/GenesisAccount.antt =====
-- app/genesis_account.go: the account of a simulation's genesis, and its validation.
use chain_rice.Common.{
  ℕ, ◌+◌, ◌%◌, ◌^◌, ◌<◌, ◌≤◌, ◌≡◌, ◌↔◌, ◌⊎◌, refl, GoString, is_empty, Bool, Bool-cases, true,
  false, leb, not, [], ◌∷◌, List, if◌then◌else◌, arith, inl, inr,
}
use chain_rice.Common.Result.{Error, message, Result, ok, err, ◌>>◌, >>=-eq-ok}

-- What the file uses of sdk.Coins and of x/auth: `Coins.IsZero`, `BaseAccount.Validate`, and
-- `ModuleAccount.Validate` on its base account, name and permissions.
pub record AuthTypes : Type 1 where
  pub Coins : Type 0
  pub BaseAccount : Type 0
  pub is_zero : Coins → Bool
  pub base_account_validate : BaseAccount → Result (Unit {0})
  pub module_account_validate : BaseAccount → GoString → List GoString → Result (Unit {0})

abbrev pub err_start_time : Error
err_start_time = message "vesting start-time cannot be before end-time" []

-- An int64 is its 64-bit pattern; this moves its order to the numbers'.
abbrev pub bias : ℕ → ℕ
bias x = (x + 2 ^ 63) % 2 ^ 64

-- `a >= b` on int64
abbrev pub ge_int64 : ℕ → ℕ → Bool
ge_int64 a b = leb (bias b) (bias a)

module _ (auth : AuthTypes) where
  open auth use {Coins, BaseAccount, is_zero, base_account_validate, module_account_validate}

  pub record GenesisAccount : Type 0 where
    pub base_account : BaseAccount
    pub original_vesting : Coins
    pub delegated_free : Coins
    pub delegated_vesting : Coins
    pub start_time : ℕ
    pub end_time : ℕ
    pub module_name : GoString
    pub module_permissions : List GoString

  unfoldable pub validate_vesting : GenesisAccount → Result (Unit {0})
  validate_vesting sga =
      if not (is_zero sga.original_vesting)
      then (if ge_int64 sga.start_time sga.end_time then err err_start_time else ok tt)
      else ok tt

  unfoldable pub validate_module : GenesisAccount → Result (Unit {0})
  validate_module sga =
      if not (is_empty sga.module_name)
      then module_account_validate sga.base_account sga.module_name sga.module_permissions
      else ok tt

  unfoldable pub validate_account : GenesisAccount → Result (Unit {0})
  validate_account sga = do
    validate_vesting sga
    validate_module sga
    base_account_validate sga.base_account

  vesting_iff :
      (sga : GenesisAccount)
      → (validate_vesting sga ≡ ok tt)
        ↔ ((is_zero sga.original_vesting ≡ true) ⊎ (bias sga.start_time < bias sga.end_time))
  unfolding validate_vesting
  vesting_iff sga = elim (Bool-cases (is_zero sga.original_vesting)) [
    | inl z ↦ rw z (λ _. inl refl, λ _. refl)
    | inr n ↦ rw n (
      λ h. inr (ground arith),
      λ h. elim h [ inl x ↦ absurd (ground arith) | inr x ↦ ground arith ],
    )
  ]

  module_iff :
      (sga : GenesisAccount)
      → (validate_module sga ≡ ok tt) ↔ (
          (sga.module_name ≡ [])
          ⊎ (module_account_validate sga.base_account sga.module_name sga.module_permissions
              ≡ ok tt))
  unfolding validate_module
  module_iff sga = cases sga.module_name
    where
      cases :
          (name : GoString)
          → ((if not (is_empty name)
                then module_account_validate sga.base_account name sga.module_permissions
                else ok tt)
              ≡ ok tt)
            ↔ ((name ≡ [])
                ⊎ (module_account_validate sga.base_account name sga.module_permissions ≡ ok tt))
      cases [] = (λ _. inl refl, λ _. refl)
      cases (c ∷ name) = (λ h. inr h, λ h. elim h [ inl x ↦ absurd (ground arith) | inr x ↦ x ])

  -- `validate_account` returns no error exactly if the account has no vesting coins or its start time
  -- is before its end time as an int64, it names no module or is valid as that module's account, and
  -- its base account is valid.
  pub validate_account_iff :
      (sga : GenesisAccount)
      → (validate_account sga ≡ ok tt) ↔ (
          ((is_zero sga.original_vesting ≡ true) ⊎ (bias sga.start_time < bias sga.end_time))
          × ((sga.module_name ≡ [])
              ⊎ (module_account_validate sga.base_account sga.module_name sga.module_permissions
                  ≡ ok tt))
          × (base_account_validate sga.base_account ≡ ok tt))
  unfolding validate_account
  validate_account_iff sga = (
    λ h.
        let (a, e1, h1) = >>=-eq-ok (validate_vesting sga) _ h in
        let (b, e2, h2) = >>=-eq-ok (validate_module sga) _ h1 in
        ((vesting_iff sga).0 e1, (module_iff sga).0 e2, h2),
    λ h. rw ((vesting_iff sga).1 h.0, (module_iff sga).1 h.1) h.2,
  )

  -- With vesting coins and a start time at or behind the end time, `validate_account` returns the error
  -- of the times, whatever the other fields.
  pub validate_account_times :
      (sga : GenesisAccount)
      → is_zero sga.original_vesting ≡ false
      → bias sga.end_time ≤ bias sga.start_time
      → validate_account sga ≡ err err_start_time
  unfolding validate_account validate_vesting
  validate_account_times sga z h = rw z (ground arith)
