-- ===== src/Wire/Single.antt =====
-- The encoding of a message whose one field, number 1, is `Params`: genesis.pb.go, query.pb.go.
use chain_rice.Common.{
  ℕ, ◌+◌, ◌-◌, ◌^◌, ◌<◌, ◌≤◌, ◌≡◌, ◌≢◌, refl, ◌∙◌, GoString, str, some, none, [], ◌∷◌, Bytes,
  length, ◌==◌, if◌then◌else◌, arith, inl, inr,
}
use chain_rice.Common.Result.{Error, ok, err, panic, ◌>>=◌, Result-cases}
use chain_rice.Chainrice.Types.{Params}
use chain_rice.Wire.Varint.{sov}
use chain_rice.Wire.Varint.Encode.{groups, sov-varint}
use chain_rice.Wire.Buffer.{push_byte, push_byte-front}
use chain_rice.Wire.Marshal.{Writer, marshal, marshal-front}
use chain_rice.Wire.Params.{
  params_size, params_unmarshal, push_params, push_params-front, params_unmarshal-nil,
  params_unmarshal-ne-panic,
}
use chain_rice.Wire.Skip.{IsSlice}
use chain_rice.Wire.Unmarshal.{
  Handler, unmarshal, unmarshal_step, read_payload, err_wrong_wire_type, IsTame,
}
use chain_rice.Wire.Unmarshal.Total.{read_payload-ne-panic, read_payload_shrinks}
use chain_rice.Wire.Unmarshal.Steps.{read_payload-zero, unmarshal_step_known, run-step, run-nil}

-- `get` and `put` are the field of the struct `M`.
module _ {M : Type 0} (get : M → Params) (put : M → Params → M) where
  unfoldable pub single_size : M → ℕ
  single_size m = let l = params_size (get m) in 1 + l + sov l

  unfoldable pub single_to_sized_buffer : Writer M
  single_to_sized_buffer m buf = do
    c1 ← push_params (get m) (buf, length buf)
    (buf', i) ← push_byte 0xa c1
    ok (buf', length buf - i)

  unfoldable pub single_field : Handler M
  single_field l n t r m =
      if n == 1
      then (if t == 2
          then (do
            (p, r') ← read_payload l r
            params ← params_unmarshal p (get m)
            ok (some (put m params, r')))
          else err (err_wrong_wire_type (str "Params")))
      else ok none

  single_field-ne-panic :
      (l n t : ℕ) (r : Bytes) (m : M) (e : Error) → IsSlice r → single_field l n t r m ≢ panic e
  unfolding single_field
  single_field-ne-panic l n t r m e s = elim (Result-cases (read_payload l r)) [
    | inl ((p, q), k) ↦
        let inner = read_payload_shrinks l r p q k in
        ground (arith, params_unmarshal-ne-panic p (get m) e (omega arith))
    | inr (inl (x, k)) ↦ ground arith
    | inr (inr (x, k)) ↦ absurd (read_payload-ne-panic l r x k)
  ]

  single_field_shrinks :
      (l n t : ℕ) (r : Bytes) (m m' : M) (r' : Bytes)
      → single_field l n t r m ≡ ok (some (m', r'))
      → length r' ≤ length r
  unfolding single_field
  single_field_shrinks l n t r m m' r' e = elim (Result-cases (read_payload l r)) [
    | inl ((p, q), k) ↦ ground (arith, read_payload_shrinks l r p q k)
    | inr (inl (x, k)) ↦ ground arith
    | inr (inr (x, k)) ↦ ground arith
  ]

  pub single_field-IsTame : IsTame single_field
  single_field-IsTame = record { calm = single_field-ne-panic; shrinks = single_field_shrinks }

  single_size_lem : (m : M) → single_size m ≡ 2
  unfolding single_size groups
  single_size_lem m = omega (arith, sov-varint 0 (omega arith))

  -- `Marshal` writes the tag and an empty payload.
  pub single_marshal : (m : M) → marshal single_size single_to_sized_buffer m ≡ ok (10 ∷ 0 ∷ [])
  unfolding single_to_sized_buffer
  single_marshal m =
      marshal-front single_size single_to_sized_buffer m (10 ∷ 0 ∷ []) (single_size_lem m)
        (rw (push_params-front (get m) 1 [], push_byte-front 10 0 (0 ∷ [])) refl)

  single_step :
      (name : GoString) (l : ℕ) (m : M)
      → l < 2 ^ 63
      → unmarshal_step name single_field l (10 ∷ 0 ∷ []) m ≡ ok (put m (get m), [])
  unfolding single_field
  single_step name l m hl =
      unmarshal_step_known name single_field l 10 (0 ∷ []) m (put m (get m)) [] (omega arith)
        (omega arith) (omega arith) (rw (read_payload-zero l [] hl, params_unmarshal-nil (get m)))

  pub single_unmarshal :
      (name : GoString) (m : M) → unmarshal name single_field (10 ∷ 0 ∷ []) m ≡ ok (put m (get m))
  unfolding unmarshal
  single_unmarshal name m =
      run-step name single_field single_field-IsTame 2 10 (0 ∷ []) m (put m (get m)) []
        (omega arith) (single_step name 2 m (omega arith))
      ∙ run-nil name single_field single_field-IsTame 2 (put m (get m))
