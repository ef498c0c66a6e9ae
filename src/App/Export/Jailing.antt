-- ===== src/App/Export/Jailing.antt =====
-- How the export at height zero changes one validator: the list of allowed addresses and jailing.
use mathlib.Core.List.{Memᴰ, cons-ne-nil}
use chain_rice.Common.{
  ◌≡◌, ◌≢◌, ◌↔◌, ◌⊎◌, refl, bytes_equal, bytes_equal_iff, arith, GoString, Bytes, List, [], ◌∷◌,
  inl, inr, true, not, ◌&&◌, Bool-cases,
}
use chain_rice.App.Keepers.{Validator}
use chain_rice.App.Export.{reset_validator, apply_allowed_addrs, is_allowed}

-- A validator that is reset twice is as after once.
pub reset_validator-idempotent :
    (allowed : List GoString) (a : GoString) (v : Validator)
    → reset_validator allowed a (reset_validator allowed a v) ≡ reset_validator allowed a v
unfolding reset_validator
reset_validator-idempotent allowed a v =
    elim (Bool-cases (apply_allowed_addrs allowed && not (is_allowed allowed a))) [
      | inl e ↦ rw e
      | inr e ↦ rw e
    ]

-- A member behind a head that it is not equal to is in the tail.
pub Memᴰ-tail : {a b : Bytes} {bs : List Bytes} → a ≢ b → Memᴰ a (b ∷ bs) → Memᴰ a bs
Memᴰ-tail ne (Memᴰ.head e) = absurd (ne e)
Memᴰ-tail ne (Memᴰ.tail m) = m

is_allowed_iff :
    (allowed : List GoString) (a : GoString) → (is_allowed allowed a ≡ true) ↔ Memᴰ a allowed
is_allowed_iff [] a = (λ h. absurd (ground arith), λ m. elim m [ ])
is_allowed_iff (b ∷ bs) a = elim (Bool-cases (bytes_equal a b)) [
  | inl e ↦ (λ _. Memᴰ.head ((bytes_equal_iff a b).0 e), λ _. rw e)
  | inr e ↦
      let ne : a ≢ b = λ h. absurd (ground (arith, (bytes_equal_iff a b).1 h)) in
      (
        λ h. Memᴰ.tail ((is_allowed_iff bs a).0 (rw e at h)),
        λ m. rw e ((is_allowed_iff bs a).1 (Memᴰ-tail ne m)),
      )
]

jails_iff :
    (allowed : List GoString) (a : GoString)
    → (apply_allowed_addrs allowed && not (is_allowed allowed a) ≡ true)
      ↔ ((allowed ≢ []) × ¬ Memᴰ a allowed)
jails_iff [] a = (λ h. absurd (ground arith), λ h. absurd (h.0 refl))
jails_iff (b ∷ bs) a = elim (Bool-cases (is_allowed (b ∷ bs) a)) [
  | inl e ↦ (λ h. absurd (ground arith), λ h. absurd (h.1 ((is_allowed_iff (b ∷ bs) a).0 e)))
  | inr e ↦ (
    λ h. (λ x. cons-ne-nil b bs x, λ m. absurd (ground (arith, (is_allowed_iff (b ∷ bs) a).1 m))),
    λ h. ground arith,
  )
]

-- The fields of a validator that is reset.
pub reset_validator-fields :
    (allowed : List GoString) (a : GoString) (v : Validator)
    → let w : Validator = reset_validator allowed a v in
      (w.unbonding_height ≡ 0)
      × (w.operator_address ≡ v.operator_address)
      × (w.other ≡ v.other)
      × ((w.jailed ≡ true) ↔ ((v.jailed ≡ true) ⊎ ((allowed ≢ []) × ¬ Memᴰ a allowed)))
unfolding reset_validator
reset_validator-fields allowed a v = (
  refl,
  refl,
  refl,
  elim (Bool-cases (apply_allowed_addrs allowed && not (is_allowed allowed a))) [
    | inl e ↦ (λ _. inr ((jails_iff allowed a).0 e), λ _. rw e)
    | inr e ↦ (
      λ h. inl (rw e at h),
      λ h. rw e (elim h [ inl j ↦ j | inr j ↦ absurd (ground (arith, (jails_iff allowed a).1 j)) ]),
    )
  ],
)
