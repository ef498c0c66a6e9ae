-- ===== src/Wire/Unmarshal.antt =====
-- The loop that the `Unmarshal` methods share: a tag, the field that its number selects, and `skip`
-- for the numbers that the message does not have. The code repeats it for each message.
pub mod Total
pub mod Steps
use Prim.Native.Nat.{bit_and}
use chain_rice.Common.{
  ℕ, zero, suc, ◌+◌, ◌-◌, ◌/◌, ◌%◌, ◌^◌, ◌≤◌, ◌<◌, ◌≡◌, ◌≢◌, ◌||◌, refl, GoString, Option, none,
  some, [], ◌∷◌, ltb, leb, ◌==◌, if◌then◌else◌, Bytes, length, length-drop, drop, take, arith, true,
  false, Bool, inl, inr, Bool-cases,
}
use chain_rice.Common.Result.{Error, message, Result, ok, err, panic, ◌>>=◌, Result-cases}
use chain_rice.Wire.Varint.{IsU64, read_varint, err_unexpected_eof, out_of_fuel, slice_out_of_range}
use chain_rice.Wire.Varint.Decode.{read_varint_takes, read_varint-ne-panic}
use chain_rice.Wire.Skip.{IsSlice, err_invalid_length, is_negative, skip, skip-ne-panic, skip_pos}

-- A case of `switch fieldNum`: given `l`, the field number, the wire type, `dAtA[iNdEx:]` behind the
-- tag and the message so far, the message and the input behind the field. `none` is `default`.
abbrev pub Handler : Type 0 → Type 0
Handler M = ℕ → ℕ → ℕ → Bytes → M → Result (Option (M × Bytes))

-- `int32(wire >> 3)` as a pattern of 32 bits, and the test `fieldNum <= 0` on it.
abbrev pub field_num : ℕ → ℕ
field_num wire = wire / 8 % 2 ^ 32

abbrev pub is_illegal_tag : ℕ → Bool
is_illegal_tag n = n == 0 || leb (2 ^ 31) n

-- `dAtA[iNdEx:postIndex]` and `dAtA[postIndex:]`, where the list is `dAtA[iNdEx:]`.
abbrev pub slice_at : ℕ → Bytes → Result (Bytes × Bytes)
slice_at len r =
    if ltb (length r) len then panic slice_out_of_range else ok (take len r, drop len r)

-- The tests of a length against the input, at index `l - len(r)`, and the slice.
abbrev pub cut : ℕ → ℕ → Bytes → Result (Bytes × Bytes)
cut l len r =
    if is_negative len
    then err err_invalid_length
    else if is_negative (l - length r + len)
    then err err_invalid_length
    else if ltb (length r) len
    then err err_unexpected_eof
    else slice_at len r

-- The payload of a field of wire type 2, and the input behind it.
unfoldable pub read_payload : ℕ → Bytes → Result (Bytes × Bytes)
read_payload l rest = do (len, r) ← read_varint rest; cut l len r

-- The `default` case: the field from its tag on is passed over.
unfoldable pub skip_unknown : ℕ → Bytes → Result Bytes
skip_unknown l rest = do
  skippy ← skip rest
  if is_negative (l - length rest + skippy)
      then err err_invalid_length
      else if ltb (length rest) skippy
      then err err_unexpected_eof
      else ok (drop skippy rest)

-- The numbers in the texts are left out.
abbrev pub err_end_group : GoString → Error
err_end_group name = message "proto: %s: wiretype end group for non-group" (name ∷ [])

abbrev pub err_illegal_tag : GoString → Error
err_illegal_tag name = message "proto: %s: illegal tag %d (wire type %d)" (name ∷ [])

abbrev pub err_wrong_wire_type : GoString → Error
err_wrong_wire_type name = message "proto: wrong wireType = %d for field %s" (name ∷ [])

abbrev pub step_default {ℓ} : {M : Type ℓ} → ℕ → Bytes → M → Option (M × Bytes) → Result (M × Bytes)
step_default l rest m (some p) = ok p
step_default l rest m none = do rest' ← skip_unknown l rest; ok (m, rest')

module _ {M : Type 0} (name : GoString) (field : Handler M) where
  -- One round. The index never passes `l`, so the test behind the loop cannot fail.
  unfoldable pub unmarshal_step : ℕ → Bytes → M → Result (M × Bytes)
  unmarshal_step l rest m = do
    (wire, r) ← read_varint rest
    if bit_and wire 0x7 == 4
        then err (err_end_group name)
        else if is_illegal_tag (field_num wire)
        then err (err_illegal_tag name)
        else (do o ← field l (field_num wire) (bit_and wire 0x7) r m; step_default l rest m o)

  unfoldable pub unmarshal_loop : ℕ → ℕ → Bytes → M → Result M
  unmarshal_loop fuel l [] m = ok m
  unmarshal_loop zero l (b ∷ bs) m = panic out_of_fuel
  unmarshal_loop (suc fuel) l (b ∷ bs) m = do
    (m', rest) ← unmarshal_step l (b ∷ bs) m
    unmarshal_loop fuel l rest m'

  -- A round takes a byte at least, so that there are no more rounds than bytes.
  unfoldable pub unmarshal : Bytes → M → Result M
  unmarshal src m = unmarshal_loop (length src) (length src) src m

-- What the loop needs of a handler: it does not panic, and the input does not grow.
pub record IsTame {M : Type 0} (field : Handler M) : Type 0 where
  pub calm : (l n t : ℕ) (r : Bytes) (m : M) (e : Error) → IsSlice r → field l n t r m ≢ panic e
  pub shrinks :
      (l n t : ℕ) (r : Bytes) (m m' : M) (r' : Bytes)
      → field l n t r m ≡ ok (some (m', r'))
      → length r' ≤ length r
