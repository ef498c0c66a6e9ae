-- ===== src/Wire/Params.antt =====
-- params.pb.go: the encoding of `Params`, which has no field.
use chain_rice.Common.{
  ℕ, ◌+◌, ◌-◌, ◌≡◌, ◌≢◌, refl, str, Option, none, [], ◌∷◌, ◌++◌, Bytes, length, take, drop,
  take-append-drop, arith,
}
use chain_rice.Common.Result.{Error, Result, ok, panic, ◌>>=◌}
use chain_rice.Chainrice.Types.{Params}
use chain_rice.Wire.Skip.{IsSlice}
use chain_rice.Wire.Unmarshal.Total.{unmarshal-ne-panic}
use chain_rice.Wire.Varint.{index_sub}
use chain_rice.Wire.Buffer.{Cursor, push_varint, push_varint-front, zeros, front, index_sub-zero}
use chain_rice.Wire.Marshal.{Writer, marshal}
use chain_rice.Wire.Unmarshal.{unmarshal_loop, unmarshal, IsTame}
use chain_rice.Wire.Varint.Encode.{groups}

-- `Size`
abbrev pub params_size : Params → ℕ
params_size p = 0

-- `MarshalToSizedBuffer`: `i := len(dAtA)`, and nothing is written.
unfoldable pub params_to_sized_buffer : Writer Params
params_to_sized_buffer p buf = let i = length buf in ok (buf, length buf - i)

unfoldable pub params_marshal : Params → Result Bytes
unfolding marshal params_to_sized_buffer
params_marshal p = marshal params_size params_to_sized_buffer p

-- A `switch` with no case but `default`.
abbrev pub no_field {ℓ} : {M : Type ℓ} → ℕ → ℕ → ℕ → Bytes → M → Result (Option (M × Bytes))
no_field l n t r m = ok none

unfoldable pub params_unmarshal : Bytes → Params → Result Params
params_unmarshal src p = unmarshal (str "Params") no_field src p

-- The block of an enclosing message that writes its `Params` field:
-- `size, err := m.Params.MarshalToSizedBuffer(dAtA[:i])`, `i -= size`, `i = encodeVarint(dAtA, i, size)`.
unfoldable pub push_params : Params → Cursor → Result Cursor
push_params p (buf, i) = do
  (head, size) ← params_to_sized_buffer p (take i buf)
  i' ← index_sub i size
  push_varint size (head ++ drop i buf, i')

pub no_field-IsTame : {M : Type 0} → IsTame {M = M} no_field
no_field-IsTame = record {
  calm = λ l n t r m e s. ground arith;
  shrinks = λ l n t r m m' r' e. ground arith;
}

push_zero : (i : ℕ) (post : Bytes) → push_varint 0 (front (i + 1) post) ≡ ok (front i (0 ∷ post))
unfolding groups
push_zero i post = push_varint-front 0 i post (omega arith)

pub push_params-front :
    (p : Params) (i : ℕ) (post : Bytes)
    → push_params p (front (i + 1) post) ≡ ok (front i (0 ∷ post))
unfolding push_params params_to_sized_buffer
push_params-front p i post =
    let buf : Bytes = zeros (i + 1) ++ post in
    let none_written : length (take (i + 1) buf) - length (take (i + 1) buf) ≡ 0 = omega arith in
    rw (none_written, index_sub-zero (i + 1), take-append-drop (i + 1) buf) (push_zero i post)

pub params_unmarshal-ne-panic :
    (src : Bytes) (p : Params) (e : Error) → IsSlice src → params_unmarshal src p ≢ panic e
unfolding params_unmarshal
params_unmarshal-ne-panic src p e s = unmarshal-ne-panic (str "Params") no_field-IsTame src p e s

pub params_unmarshal-nil : (p : Params) → params_unmarshal [] p ≡ ok p
unfolding params_unmarshal unmarshal unmarshal_loop
params_unmarshal-nil p = refl
