-- ===== src/Wire/Module.antt =====
-- module.pb.go: the encoding of `Module`, the module's part of the app config.

use mathlib.Core.List.{append-nil}
use chain_rice.Common.{
  ℕ, ◌-◌, ◌≤◌, ◌≡◌, ◌≢◌, ap, ◌∙◌, GoString, str, some, none, [], ◌∷◌, ◌++◌, Bytes, length,
  length-append, ◌==◌, if◌then◌else◌, arith, inl, inr,
}
use chain_rice.Common.Result.{Error, Result, ok, err, panic, ◌>>=◌, Result-cases}
use chain_rice.Chainrice.Types.{Module}
use chain_rice.Wire.Varint.Encode.{varint}
use chain_rice.Wire.Buffer.{zeros, front, length-zeros}
use chain_rice.Wire.Marshal.{Writer, marshal, marshal_to, marshal-front}
use chain_rice.Wire.Skip.{IsSlice}
use chain_rice.Wire.Unmarshal.{Handler, unmarshal, read_payload, err_wrong_wire_type, IsTame}
use chain_rice.Wire.Unmarshal.Total.{
  read_payload-ne-panic, read_payload_shrinks, unmarshal-ne-panic,
}
use chain_rice.Wire.Unmarshal.Steps.{read_payload-append, unmarshal_step_known, run-step, run-nil}
use chain_rice.Wire.Tx.{authority_size, push_authority}
use chain_rice.Wire.Tx.Encode.{authority_bytes, authority_size_lem, push_authority-front}

unfoldable pub module_size : Module → ℕ
module_size m = authority_size m.authority

unfoldable pub module_to_sized_buffer : Writer Module
module_to_sized_buffer m buf = do
  (buf', i) ← push_authority m.authority (buf, length buf)
  ok (buf', length buf - i)

unfoldable pub module_marshal : Module → Result Bytes
module_marshal m = marshal module_size module_to_sized_buffer m

unfoldable pub module_marshal_to : Module → Bytes → Result (Bytes × ℕ)
module_marshal_to m buf = marshal_to module_size module_to_sized_buffer m buf

unfoldable pub module_field : Handler Module
module_field l n t r m =
    if n == 1
    then (if t == 2
        then (do (p, r') ← read_payload l r; ok (some (record m { authority = p }, r')))
        else err (err_wrong_wire_type (str "Authority")))
    else ok none

unfoldable pub module_unmarshal : Bytes → Module → Result Module
module_unmarshal src m = unmarshal (str "Module") module_field src m

module_field-ne-panic :
    (l n t : ℕ) (r : Bytes) (m : Module) (e : Error) → IsSlice r → module_field l n t r m ≢ panic e
unfolding module_field
module_field-ne-panic l n t r m e s = ground (arith, read_payload-ne-panic l r e)

module_field_shrinks :
    (l n t : ℕ) (r : Bytes) (m m' : Module) (r' : Bytes)
    → module_field l n t r m ≡ ok (some (m', r'))
    → length r' ≤ length r
unfolding module_field
module_field_shrinks l n t r m m' r' e = elim (Result-cases (read_payload l r)) [
  | inl ((p, q), k) ↦ ground (arith, read_payload_shrinks l r p q k)
  | inr (inl (x, k)) ↦ ground arith
  | inr (inr (x, k)) ↦ ground arith
]

module_field-IsTame : IsTame module_field
module_field-IsTame = record { calm = module_field-ne-panic; shrinks = module_field_shrinks }

module_to_sized_buffer_lem :
    (m : Module)
    → IsSlice m.authority
    → module_to_sized_buffer m (front (length (authority_bytes m.authority)) []).0
      ≡ ok (authority_bytes m.authority, length (authority_bytes m.authority))
unfolding module_to_sized_buffer
module_to_sized_buffer_lem m h =
    let n : ℕ = length (authority_bytes m.authority) in
    let whole : length (zeros n ++ []) ≡ n =
      omega (arith, length-append (zeros n) [], length-zeros n) in
    rw (whole, push_authority-front m.authority [] h, append-nil)
      (ap (λ (t : ℕ). ok (authority_bytes m.authority, t)) (omega arith))

module_marshal_lem :
    (m : Module) → IsSlice m.authority → module_marshal m ≡ ok (authority_bytes m.authority)
unfolding module_marshal module_size
module_marshal_lem m h =
    marshal-front module_size module_to_sized_buffer m (authority_bytes m.authority)
      (authority_size_lem m.authority h) (module_to_sized_buffer_lem m h)

authority_fits : (a : GoString) → IsSlice (authority_bytes a) → IsSlice a
authority_fits [] h = h
authority_fits (c ∷ a) h = omega (arith, length-append (varint (length (c ∷ a))) (c ∷ a))

authority_run :
    (a : GoString)
    → IsSlice (authority_bytes a)
    → module_unmarshal (authority_bytes a) (record { authority = [] })
      ≡ ok (record { authority = a })
unfolding module_unmarshal unmarshal module_field
authority_run [] h =
    run-nil (str "Module") module_field module_field-IsTame 0 (record { authority = [] })
authority_run (c ∷ a) h =
    let l : ℕ = length (authority_bytes (c ∷ a)) in
    let src : Bytes = varint (length (c ∷ a)) ++ (c ∷ a) in
    let read : read_payload l src ≡ ok (c ∷ a, []) =
      rw append-nil at (read_payload-append l (c ∷ a) [] h (authority_fits (c ∷ a) h)) in
    run-step (str "Module") module_field module_field-IsTame l 10 src (record { authority = [] })
      (record { authority = c ∷ a }) [] h
      (unmarshal_step_known (str "Module") module_field l 10 src (record { authority = [] })
        (record { authority = c ∷ a }) [] (omega arith) (omega arith) (omega arith) (rw read))
    ∙ run-nil (str "Module") module_field module_field-IsTame l (record { authority = c ∷ a })

-- A `Module` whose encoding has an `int` for its length goes through `Marshal` and `Unmarshal`
-- unchanged: `module_marshal` does not fail, and decoding into the zero message gives the message.
pub module_unmarshal-module_marshal :
    (m : Module)
    → IsSlice (authority_bytes m.authority)
    → (bytes : Bytes) × (module_marshal m ≡ ok bytes)
      × (module_unmarshal bytes (record { authority = [] }) ≡ ok m)
module_unmarshal-module_marshal m h =
    let fits = authority_fits m.authority h in
    (authority_bytes m.authority, module_marshal_lem m fits, authority_run m.authority h)

-- On every input that is a Go slice, `module_unmarshal` returns a message or an error.
pub module_unmarshal-ne-panic :
    (src : Bytes) (m : Module) (e : Error) → IsSlice src → module_unmarshal src m ≢ panic e
unfolding module_unmarshal
module_unmarshal-ne-panic src m e h =
    unmarshal-ne-panic (str "Module") module_field-IsTame src m e h
