-- ===== src/App/Accounts.antt =====
-- app/app.go and app/app_config.go: the module accounts, their permissions, and blocked addresses.
use mathlib.Core.List.{Memᴰ}
use chain_rice.Common.{
  ◌≡◌, ◌≢◌, ◌↔◌, refl, sym, ◌∙◌, GoString, bytes_equal, bytes_equal_iff, Bool, Bool-cases, true,
  false, ◌||◌, Option, none, some, List, [], ◌∷◌, if◌then◌else◌, arith, inl, inr,
}

-- The names that the modules of the SDK and of IBC declare.
pub record Names : Type 0 where
  pub fee_collector : GoString
  pub distr : GoString
  pub mint : GoString
  pub bonded_pool : GoString
  pub not_bonded_pool : GoString
  pub gov : GoString
  pub nft : GoString
  pub ibc_transfer : GoString
  pub ica : GoString
  pub staking : GoString
  pub minter : GoString
  pub burner : GoString

unfoldable pub contains : List GoString → GoString → Bool
contains [] a = false
contains (b ∷ bs) a = let rest = contains bs a in bytes_equal a b || rest

pub contains_iff : (bs : List GoString) (a : GoString) → (contains bs a ≡ true) ↔ Memᴰ a bs
unfolding contains
contains_iff [] a = (λ h. absurd (ground arith), λ m. elim m [ ])
contains_iff (b ∷ bs) a = elim (Bool-cases (bytes_equal a b)) [
  | inl e ↦ (λ _. Memᴰ.head ((bytes_equal_iff a b).0 e), λ _. rw e refl)
  | inr e ↦ rw e (
    λ h. Memᴰ.tail ((contains_iff bs a).0 h),
    λ m. elim m [
      | Memᴰ.head x ↦ absurd (ground (arith, (bytes_equal_iff a b).1 x))
      | Memᴰ.tail x ↦ (contains_iff bs a).1 x
    ],
  )
]

-- A Go map that the pairs of the list were written to in order.
abbrev pub or_else : Option (List GoString) → Option (List GoString) → Option (List GoString)
or_else none o = o
or_else (some p) o = some p

unfoldable pub perms_of : List (GoString × List GoString) → GoString → Option (List GoString)
perms_of [] a = none
perms_of ((b, p) ∷ rest) a =
    let later = perms_of rest a in or_else later (if bytes_equal a b then some p else none)

abbrev pub is_some : Option (List GoString) → Bool
is_some none = false
is_some (some p) = true

abbrev pub names_of : List (GoString × List GoString) → List GoString
names_of [] = []
names_of ((b, p) ∷ rest) = b ∷ names_of rest

is_some-or_else :
    (o o' : Option (List GoString)) → is_some (or_else o o') ≡ (is_some o || is_some o')
is_some-or_else none o' = refl
is_some-or_else (some p) o' = refl

moved : {a b : GoString} {bs : List GoString} → a ≡ b → Memᴰ a bs → Memᴰ b bs
moved e (Memᴰ.head x) = Memᴰ.head (sym e ∙ x)
moved e (Memᴰ.tail m) = Memᴰ.tail (moved e m)

-- The keys of the map are the names of the list.
perms_iff :
    (ps : List (GoString × List GoString)) (a : GoString)
    → (is_some (perms_of ps a) ≡ true) ↔ Memᴰ a (names_of ps)
unfolding perms_of
perms_iff [] a = (λ h. absurd (ground arith), λ m. elim m [ ])
perms_iff ((b, p) ∷ rest) a = elim (Bool-cases (bytes_equal a b)) [
  | inl e ↦
      rw (e, is_some-or_else (perms_of rest a) (some p))
        (λ _. Memᴰ.head ((bytes_equal_iff a b).0 e), λ _. ground arith)
  | inr e ↦
      rw (e, is_some-or_else (perms_of rest a) none)
        (
          λ h. Memᴰ.tail ((perms_iff rest a).0 (ground arith)),
          λ m. elim m [
            | Memᴰ.head x ↦ absurd (ground (arith, (bytes_equal_iff a b).1 x))
            | Memᴰ.tail x ↦ rw ((perms_iff rest a).1 x) refl
          ],
        )
]

module _ (n : Names) where
  unfoldable pub module_acc_perms : List (GoString × List GoString)
  module_acc_perms =
      (n.fee_collector, [])
      ∷ (n.distr, [])
      ∷ (n.mint, n.minter ∷ [])
      ∷ (n.bonded_pool, n.burner ∷ n.staking ∷ [])
      ∷ (n.not_bonded_pool, n.burner ∷ n.staking ∷ [])
      ∷ (n.gov, n.burner ∷ [])
      ∷ (n.nft, [])
      ∷ (n.ibc_transfer, n.minter ∷ n.burner ∷ [])
      ∷ (n.ica, [])
      ∷ []

  unfoldable pub block_acc_addrs : List GoString
  block_acc_addrs =
      n.fee_collector ∷ n.distr ∷ n.mint ∷ n.bonded_pool ∷ n.not_bonded_pool ∷ n.nft ∷ []

  -- The map as its lookup.
  unfoldable pub get_macc_perms : GoString → Option (List GoString)
  get_macc_perms a = perms_of module_acc_perms a

  -- The keys of the second loop are those of the permissions' map.
  abbrev blocked_by : List GoString → GoString → Bool
  blocked_by [] a = is_some (get_macc_perms a)
  blocked_by (b ∷ bs) a = contains (b ∷ bs) a

  unfoldable pub blocked_addresses : GoString → Bool
  blocked_addresses a = blocked_by block_acc_addrs a

  among : (a : GoString) → Memᴰ a block_acc_addrs → Memᴰ a (names_of module_acc_perms)
  unfolding block_acc_addrs module_acc_perms
  among a (Memᴰ.head e) = Memᴰ.head e
  among a (Memᴰ.tail (Memᴰ.head e)) = Memᴰ.tail (Memᴰ.head e)
  among a (Memᴰ.tail (Memᴰ.tail (Memᴰ.head e))) = Memᴰ.tail (Memᴰ.tail (Memᴰ.head e))
  among a (Memᴰ.tail (Memᴰ.tail (Memᴰ.tail (Memᴰ.head e)))) =
      Memᴰ.tail (Memᴰ.tail (Memᴰ.tail (Memᴰ.head e)))
  among a (Memᴰ.tail (Memᴰ.tail (Memᴰ.tail (Memᴰ.tail (Memᴰ.head e))))) =
      Memᴰ.tail (Memᴰ.tail (Memᴰ.tail (Memᴰ.tail (Memᴰ.head e))))
  among a (Memᴰ.tail (Memᴰ.tail (Memᴰ.tail (Memᴰ.tail (Memᴰ.tail (Memᴰ.head e)))))) =
      Memᴰ.tail (Memᴰ.tail (Memᴰ.tail (Memᴰ.tail (Memᴰ.tail (Memᴰ.tail (Memᴰ.head e))))))
  among a (Memᴰ.tail (Memᴰ.tail (Memᴰ.tail (Memᴰ.tail (Memᴰ.tail (Memᴰ.tail m)))))) = elim m [ ]

  back :
      (a : GoString)
      → Memᴰ a (names_of module_acc_perms)
      → a ≢ n.gov
      → a ≢ n.ibc_transfer
      → a ≢ n.ica
      → Memᴰ a block_acc_addrs
  unfolding block_acc_addrs module_acc_perms contains
  back a m g t i =
      (contains_iff block_acc_addrs a).0 (listed ((contains_iff (names_of module_acc_perms) a).1 m))
    where
      listed : contains (names_of module_acc_perms) a ≡ true → contains block_acc_addrs a ≡ true
      listed h = ground (
        arith,
        (bytes_equal_iff a n.gov).0,
        (bytes_equal_iff a n.ibc_transfer).0,
        (bytes_equal_iff a n.ica).0,
      )

  -- `blocked_addresses` has exactly the module accounts that have an entry in the permissions, less
  -- those of gov, of IBC transfers and of interchain accounts, where the names of these three are none
  -- of the blocked ones.
  pub blocked_addresses_iff :
      (a : GoString)
      → ¬ Memᴰ n.gov block_acc_addrs
      → ¬ Memᴰ n.ibc_transfer block_acc_addrs
      → ¬ Memᴰ n.ica block_acc_addrs
      → (blocked_addresses a ≡ true)
        ↔ ((is_some (get_macc_perms a) ≡ true) × (a ≢ n.gov) × (a ≢ n.ibc_transfer) × (a ≢ n.ica))
  unfolding blocked_addresses block_acc_addrs get_macc_perms module_acc_perms
  blocked_addresses_iff a gov transfer ica = (
    λ h.
        let m = (contains_iff block_acc_addrs a).0 h in
        (
          (perms_iff module_acc_perms a).1 (among a m),
          λ e. gov (moved e m),
          λ e. transfer (moved e m),
          λ e. ica (moved e m),
        ),
    λ h.
        (contains_iff block_acc_addrs a).1
          (back a ((perms_iff module_acc_perms a).0 h.0) h.1 h.2 h.3),
  )
