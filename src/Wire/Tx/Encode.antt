-- ===== src/Wire/Tx/Encode.antt =====
-- What `Marshal` writes for `MsgUpdateParams`.
use mathlib.Core.List.{append_assoc}
use mathlib.Core.Path.{subst}
use chain_rice.Common.{
  sym, true, ℕ, suc, ◌+◌, ◌≤◌, ◌≡◌, refl, ap, GoString, [], ◌∷◌, ◌++◌, Bytes, length, length-append,
  ltb, arith,
}
use chain_rice.Common.Result.{ok}
use chain_rice.Chainrice.Types.{MsgUpdateParams}
use chain_rice.Wire.Varint.{sov}
use chain_rice.Wire.Varint.Encode.{varint, groups, sov-varint}
use chain_rice.Wire.Buffer.{
  length-zeros, push_byte-front, push_bytes-front, push_varint-front, zeros, front,
}
use chain_rice.Wire.Marshal.{marshal-front}
use chain_rice.Wire.Params.{push_params-front}
use chain_rice.Wire.Skip.{IsSlice}
use chain_rice.Wire.Tx.{authority_size, msg_size, push_authority, msg_to_sized_buffer, msg_marshal}

-- The bytes of the authority field, which is left out if it is empty.
abbrev pub authority_bytes : GoString → Bytes
authority_bytes [] = []
authority_bytes (c ∷ a) = 10 ∷ (varint (length (c ∷ a)) ++ (c ∷ a))

abbrev pub msg_bytes : MsgUpdateParams → Bytes
msg_bytes m = authority_bytes m.authority ++ (18 ∷ 0 ∷ [])

pub authority_size_lem : (a : GoString) → IsSlice a → authority_size a ≡ length (authority_bytes a)
unfolding authority_size
authority_size_lem [] h = refl
authority_size_lem (c ∷ a) h = ground (
  arith,
  sov-varint (suc (length a)) (omega arith),
  length-append (varint (suc (length a))) (c ∷ a),
)

sov_zero : sov 0 ≡ 1
unfolding groups
sov_zero = sov-varint 0 (omega arith)

msg_size_lem : (m : MsgUpdateParams) → IsSlice m.authority → msg_size m ≡ length (msg_bytes m)
unfolding msg_size
msg_size_lem m h = omega (
  arith,
  sov_zero,
  authority_size_lem m.authority h,
  length-append (authority_bytes m.authority) (18 ∷ 0 ∷ []),
)

pub push_authority-front :
    (a : GoString) (post : Bytes)
    → IsSlice a
    → push_authority a (front (length (authority_bytes a)) post)
      ≡ ok (front 0 (authority_bytes a ++ post))
unfolding push_authority
push_authority-front [] post h = refl
push_authority-front (c ∷ a) post h =
    let v : Bytes = varint (length (c ∷ a)) in
    let sizes : length (authority_bytes (c ∷ a)) ≡ 0 + 1 + length v + length (c ∷ a) =
      omega (arith, length-append v (c ∷ a)) in
    let full : ltb 0 (length (c ∷ a)) ≡ true = ground arith in
    subst
      (λ k. push_authority (c ∷ a) (front k post) ≡ ok (front 0 (authority_bytes (c ∷ a) ++ post)))
      (sym sizes)
      (rw
        (
          full,
          push_bytes-front (c ∷ a) (0 + 1 + length v) post,
          push_varint-front (length (c ∷ a)) (0 + 1) ((c ∷ a) ++ post) (omega arith),
          push_byte-front 10 0 (v ++ ((c ∷ a) ++ post)),
        )
        (ap (λ (t : Bytes). ok (10 ∷ t, 0)) (sym (append_assoc v (c ∷ a) post))))

msg_to_sized_buffer_lem :
    (m : MsgUpdateParams)
    → IsSlice m.authority
    → msg_to_sized_buffer m (front (length (msg_bytes m)) []).0
      ≡ ok (msg_bytes m, length (msg_bytes m))
unfolding msg_to_sized_buffer
msg_to_sized_buffer_lem m h =
    let n : ℕ = length (authority_bytes m.authority) in
    let sizes : length (msg_bytes m) ≡ n + 1 + 1 =
      omega (arith, length-append (authority_bytes m.authority) (18 ∷ 0 ∷ [])) in
    let bytes : Bytes = msg_bytes m in
    let whole : length (zeros (n + 1 + 1) ++ []) ≡ n + 1 + 1 =
      omega (arith, length-append (zeros (n + 1 + 1)) [], length-zeros (n + 1 + 1)) in
    subst (λ k. msg_to_sized_buffer m (front k []).0 ≡ ok (bytes, k)) (sym sizes)
      (rw
        (
          whole,
          push_params-front m.params (n + 1) [],
          push_byte-front 18 n (0 ∷ []),
          push_authority-front m.authority (18 ∷ 0 ∷ []) h,
        )
        (ap (λ (t : ℕ). ok (bytes, t)) (omega arith)))

-- `msg_marshal` succeeds and gives the bytes of the fields in order, the authority left out if empty.
pub msg_marshal_lem : (m : MsgUpdateParams) → IsSlice m.authority → msg_marshal m ≡ ok (msg_bytes m)
unfolding msg_marshal
msg_marshal_lem m h =
    marshal-front msg_size msg_to_sized_buffer m (msg_bytes m) (msg_size_lem m h)
      (msg_to_sized_buffer_lem m h)

pub length-le-authority_bytes :
    (a : GoString) (post : Bytes) → length a ≤ length (authority_bytes a ++ post)
length-le-authority_bytes [] post = omega arith
length-le-authority_bytes (c ∷ a) post =
    let v : Bytes = varint (length (c ∷ a)) in
    omega (arith, length-append (v ++ (c ∷ a)) post, length-append v (c ∷ a))
