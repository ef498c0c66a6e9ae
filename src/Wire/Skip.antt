-- ===== src/Wire/Skip.antt =====
-- `skipTx` of tx.pb.go: the length of the field at the front of the input, groups included. An `int`
-- has 64 bits, and a pattern of 2 ^ 63 or more is a negative one.
use Prim.Native.Nat.{bit_and}
use chain_rice.Common.{
  ℕ, zero, suc, ◌+◌, ◌-◌, ◌%◌, ◌^◌, ◌≤◌, ◌<◌, ◌≡◌, ◌≢◌, [], leb, ◌==◌, if◌then◌else◌, Bytes, length,
  length-drop, drop, arith, Bool,
}
use chain_rice.Common.{inl, inr, Bool-cases}
use chain_rice.Common.Result.{Result-cases, Error, message, Result, ok, err, panic, ◌>>=◌}
use chain_rice.Wire.Varint.{read_varint, err_unexpected_eof, out_of_fuel}
use chain_rice.Wire.Varint.Decode.{read_varint_takes, read_varint-ne-panic}

abbrev pub err_invalid_length : Error
err_invalid_length = message "proto: negative length found during unmarshaling" []

abbrev pub err_unexpected_end_of_group : Error
err_unexpected_end_of_group = message "proto: unexpected end of group" []

-- The number in the text is left out.
abbrev pub err_illegal_wire_type : Error
err_illegal_wire_type = message "proto: illegal wireType %d" []

-- `x < 0` for an `int` with the pattern `x`.
abbrev pub is_negative : ℕ → Bool
is_negative x = leb (2 ^ 63) x

-- The length of a field, with the index behind its prefix.
abbrev pub add_length : Bytes → ℕ × Bytes → Result ℕ
add_length src (len, r) =
    if is_negative len then err err_invalid_length else ok ((length src - length r + len) % 2 ^ 64)

-- The `switch wireType`, at the index behind the tag: the index behind the field, and the depth.
unfoldable pub skip_field : Bytes → ℕ → ℕ → ℕ → Result (ℕ × ℕ)
skip_field src wire_type i depth =
    if wire_type == 0
    then (do (_, r) ← read_varint (drop i src); ok (length src - length r, depth))
    else if wire_type == 1
    then ok (i + 8, depth)
    else if wire_type == 2
    then (do p ← read_varint (drop i src); i' ← add_length src p; ok (i', depth))
    else if wire_type == 3
    then ok (i, depth + 1)
    else if wire_type == 4
    then (if depth == 0 then err err_unexpected_end_of_group else ok (i, depth - 1))
    else if wire_type == 5
    then ok (i + 4, depth)
    else err err_illegal_wire_type

-- One round of the loop, up to the two tests at its end.
unfoldable pub skip_round : Bytes → ℕ → ℕ → Result (ℕ × ℕ)
skip_round src i depth = do
  (wire, r) ← read_varint (drop i src)
  skip_field src (bit_and wire 0x7) (length src - length r) depth

unfoldable pub skip_loop : ℕ → Bytes → ℕ → ℕ → Result ℕ
skip_loop zero src i depth = panic out_of_fuel
skip_loop (suc fuel) src i depth = if leb (length src) i then err err_unexpected_eof else (do
  (i', depth') ← skip_round src i depth
  if is_negative i'
      then err err_invalid_length
      else if depth' == 0
      then ok i'
      else skip_loop fuel src i' depth')

-- Each round moves the index on, and none begins at the end of the input.
unfoldable pub skip : Bytes → Result ℕ
skip src = skip_loop (length src + 1) src 0 0

-- A Go slice: its length is an `int`.
abbrev pub IsSlice : Bytes → Type 0
IsSlice src = length src < 2 ^ 63

module _ (src : Bytes) (short : IsSlice src) (i depth : ℕ) where
  skip_field_moves :
      (wire_type : ℕ) {i' depth' : ℕ}
      → i ≤ length src
      → skip_field src wire_type i depth ≡ ok (i', depth')
      → i ≤ i'
  unfolding skip_field
  skip_field_moves wire_type h e = elim (Result-cases (read_varint (drop i src))) [
    | inl ((v, r), p) ↦ ground (arith, read_varint_takes (drop i src) v r p, length-drop i src)
    | inr (inl (x, p)) ↦ ground arith
    | inr (inr (x, p)) ↦ ground arith
  ]

  skip_field-ne-panic : (wire_type : ℕ) (e : Error) → skip_field src wire_type i depth ≢ panic e
  unfolding skip_field
  skip_field-ne-panic wire_type e = ground (arith, read_varint-ne-panic (drop i src) e)

module _ (src : Bytes) (short : IsSlice src) (i depth : ℕ) where
  skip_round_moves :
      {i' depth' : ℕ} → i < length src → skip_round src i depth ≡ ok (i', depth') → i < i'
  unfolding skip_round
  skip_round_moves h e = elim (Result-cases (read_varint (drop i src))) [
    | inl ((wire, r), p) ↦
        let behind : ℕ = length src - length r in
        let took = read_varint_takes (drop i src) wire r p in
        let moved =
          skip_field_moves src short behind depth (bit_and wire 7) (omega arith) (rw p at e) in
        omega (arith, length-drop i src)
    | inr (inl (x, p)) ↦ ground arith
    | inr (inr (x, p)) ↦ ground arith
  ]

  skip_round-ne-panic : (e : Error) → skip_round src i depth ≢ panic e
  unfolding skip_round
  skip_round-ne-panic e = elim (Result-cases (read_varint (drop i src))) [
    | inl ((wire, r), p) ↦
        rw p (skip_field-ne-panic src short (length src - length r) depth (bit_and wire 7) e)
    | inr (inl (x, p)) ↦ rw p (ground arith)
    | inr (inr (x, p)) ↦ absurd (read_varint-ne-panic (drop i src) x p)
  ]

module _ (src : Bytes) (short : IsSlice src) where
  -- Fuel for the rounds that are left is enough.
  skip_loop-ne-panic :
      (fuel i depth : ℕ) (e : Error) → length src - i < fuel → skip_loop fuel src i depth ≢ panic e
  unfolding skip_loop
  skip_loop-ne-panic zero i depth e h = absurd (omega arith)
  skip_loop-ne-panic (suc fuel) i depth e h = elim (Bool-cases (leb (length src) i)) [
    | inl stop ↦ rw stop (ground arith)
    | inr go ↦ elim (Result-cases (skip_round src i depth)) [
      | inl ((i', depth'), p) ↦
          rw (go, p)
            (ground (
              arith,
              skip_round_moves src short i depth {i' = i'} {depth' = depth'},
              skip_loop-ne-panic fuel i' depth' e,
            ))
      | inr (inl (x, p)) ↦ rw (go, p) (ground arith)
      | inr (inr (x, p)) ↦ absurd (skip_round-ne-panic src short i depth x p)
    ]
  ]

  skip_loop_moves :
      (fuel i depth n : ℕ) → skip_loop fuel src i depth ≡ ok n → (i < n) × (n < 2 ^ 63)
  unfolding skip_loop
  skip_loop_moves zero i depth n e = cc
  skip_loop_moves (suc fuel) i depth n e = elim (Bool-cases (leb (length src) i)) [
    | inl stop ↦ cc (rw stop at e)
    | inr go ↦ elim (Result-cases (skip_round src i depth)) [
      | inl ((i', depth'), p) ↦ ground (
        arith,
        skip_round_moves src short i depth (ground arith) p,
        skip_loop_moves fuel i' depth' n,
      )
      | inr (inl (x, p)) ↦ ground arith
      | inr (inr (x, p)) ↦ ground arith
    ]
  ]

  -- On an input whose length is an `int`, `skip` ends with a number or an error: its rounds are not
  -- used up, and it does not panic.
  pub skip-ne-panic : (e : Error) → skip src ≢ panic e
  unfolding skip
  skip-ne-panic e = skip_loop-ne-panic (length src + 1) 0 0 e (omega arith)

  -- The field that it finds has a byte at least.
  pub skip_pos : (n : ℕ) → skip src ≡ ok n → (0 < n) × (n < 2 ^ 63)
  unfolding skip
  skip_pos n e = skip_loop_moves (length src + 1) 0 0 n e
