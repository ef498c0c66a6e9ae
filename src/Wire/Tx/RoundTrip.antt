-- ===== src/Wire/Tx/RoundTrip.antt =====
-- `MsgUpdateParams` through `Marshal` and `Unmarshal`.
use mathlib.Core.List.{append_assoc}
use chain_rice.Common.{
  ℕ, ◌^◌, ◌<◌, ◌≤◌, ◌≡◌, ◌≢◌, refl, ap, ◌∙◌, GoString, str, some, [], ◌∷◌, ◌++◌, Bytes, length,
  arith, inl, inr,
}
use chain_rice.Common.Result.{Error, ok, panic, Result-cases}
use chain_rice.Chainrice.Types.{MsgUpdateParams}
use chain_rice.Wire.Varint.Encode.{varint}
use chain_rice.Wire.Params.{params_unmarshal-nil, params_unmarshal-ne-panic}
use chain_rice.Wire.Skip.{IsSlice}
use chain_rice.Wire.Unmarshal.{unmarshal_step, unmarshal, read_payload, IsTame}
use chain_rice.Wire.Unmarshal.Total.{
  read_payload-ne-panic, read_payload_shrinks, unmarshal-ne-panic,
}
use chain_rice.Wire.Unmarshal.Steps.{
  read_payload-zero, read_payload-append, unmarshal_step_known, run, run-step, run-nil,
}
use chain_rice.Wire.Tx.{
  msg_marshal, msg_authority_field, msg_params_field, msg_field, msg_unmarshal,
}
use chain_rice.Wire.Tx.Encode.{
  authority_bytes, msg_bytes, msg_marshal_lem, length-le-authority_bytes,
}

module _ (l n t : ℕ) (r : Bytes) (m : MsgUpdateParams) where
  authority_field-ne-panic : (e : Error) → msg_authority_field l n t r m ≢ panic e
  unfolding msg_authority_field
  authority_field-ne-panic e = ground (arith, read_payload-ne-panic l r e)

  authority_field_shrinks :
      (m' : MsgUpdateParams) (r' : Bytes)
      → msg_authority_field l n t r m ≡ ok (some (m', r'))
      → length r' ≤ length r
  unfolding msg_authority_field
  authority_field_shrinks m' r' e = elim (Result-cases (read_payload l r)) [
    | inl ((p, q), k) ↦ ground (arith, read_payload_shrinks l r p q k)
    | inr (inl (x, k)) ↦ ground arith
    | inr (inr (x, k)) ↦ ground arith
  ]

  params_field-ne-panic : (e : Error) → IsSlice r → msg_params_field l n t r m ≢ panic e
  unfolding msg_params_field
  params_field-ne-panic e s = elim (Result-cases (read_payload l r)) [
    | inl ((p, q), k) ↦
        let inner = read_payload_shrinks l r p q k in
        ground (arith, params_unmarshal-ne-panic p m.params e (omega arith))
    | inr (inl (x, k)) ↦ ground arith
    | inr (inr (x, k)) ↦ absurd (read_payload-ne-panic l r x k)
  ]

  params_field_shrinks :
      (m' : MsgUpdateParams) (r' : Bytes)
      → msg_params_field l n t r m ≡ ok (some (m', r'))
      → length r' ≤ length r
  unfolding msg_params_field
  params_field_shrinks m' r' e = elim (Result-cases (read_payload l r)) [
    | inl ((p, q), k) ↦ ground (arith, read_payload_shrinks l r p q k)
    | inr (inl (x, k)) ↦ ground arith
    | inr (inr (x, k)) ↦ ground arith
  ]

pub msg_field-IsTame : IsTame msg_field
unfolding msg_field
msg_field-IsTame = record {
  calm = λ l n t r m e s.
      ground (arith, authority_field-ne-panic l n t r m e, params_field-ne-panic l n t r m e s);
  shrinks = λ l n t r m m' r' e.
      ground (arith, authority_field_shrinks l n t r m m' r', params_field_shrinks l n t r m m' r');
}

module _ (l : ℕ) (m : MsgUpdateParams) where
  authority_step :
      (c : ℕ) (a rest : Bytes)
      → l < 2 ^ 63
      → IsSlice (c ∷ a)
      → unmarshal_step (str "MsgUpdateParams") msg_field l (authority_bytes (c ∷ a) ++ rest) m
        ≡ ok (record m { authority = c ∷ a }, rest)
  unfolding msg_field
  authority_step c a rest hl h =
      let src : Bytes = varint (length (c ∷ a)) ++ ((c ∷ a) ++ rest) in
      let same : authority_bytes (c ∷ a) ++ rest ≡ 10 ∷ src =
        ap (λ (t : Bytes). 10 ∷ t) (append_assoc (varint (length (c ∷ a))) (c ∷ a) rest) in
      let read = read_payload-append l (c ∷ a) rest hl h in
      rw same (
        unmarshal_step_known (str "MsgUpdateParams") msg_field l 10 src m
          (record m { authority = c ∷ a }) rest (omega arith) (omega arith) (omega arith)
          (unfold msg_authority_field in rw read))

  params_step :
      l < 2 ^ 63 → unmarshal_step (str "MsgUpdateParams") msg_field l (18 ∷ 0 ∷ []) m ≡ ok (m, [])
  unfolding msg_field
  params_step hl =
      unmarshal_step_known (str "MsgUpdateParams") msg_field l 18 (0 ∷ []) m m [] (omega arith)
        (omega arith) (omega arith)
        (unfold msg_params_field in rw (read_payload-zero l [] hl, params_unmarshal-nil m.params))

abbrev pub zero_msg : MsgUpdateParams
zero_msg = record { authority = []; params = record {} }

module _ (l : ℕ) (hl : l < 2 ^ 63) where
  run_params :
      (m : MsgUpdateParams)
      → run (str "MsgUpdateParams") msg_field msg_field-IsTame l (18 ∷ 0 ∷ []) m ≡ ok m
  run_params m =
      run-step (str "MsgUpdateParams") msg_field msg_field-IsTame l 18 (0 ∷ []) m m [] (omega arith)
        (params_step l m hl)
      ∙ run-nil (str "MsgUpdateParams") msg_field msg_field-IsTame l m

  run_msg_bytes :
      (a : GoString) (m : MsgUpdateParams)
      → IsSlice (authority_bytes a ++ (18 ∷ 0 ∷ []))
      → m.authority ≡ []
      → run
          (str "MsgUpdateParams")
          msg_field
          msg_field-IsTame
          l
          (authority_bytes a ++ (18 ∷ 0 ∷ []))
          m
        ≡ ok (record m { authority = a })
  run_msg_bytes [] m h e = run_params m ∙ ap (λ (t : GoString). ok (record m { authority = t })) e
  run_msg_bytes (c ∷ a) m h e =
      run-step (str "MsgUpdateParams") msg_field msg_field-IsTame l 10 _ m
        (record m { authority = c ∷ a }) (18 ∷ 0 ∷ []) h
        (authority_step l m c a (18 ∷ 0 ∷ []) hl
          (omega (arith, length-le-authority_bytes (c ∷ a) (18 ∷ 0 ∷ []))))
      ∙ run_params (record m { authority = c ∷ a })

-- Decoding the bytes of a message gives the message.
pub msg_unmarshal-msg_bytes :
    (m : MsgUpdateParams) → IsSlice (msg_bytes m) → msg_unmarshal (msg_bytes m) zero_msg ≡ ok m
unfolding msg_unmarshal unmarshal
msg_unmarshal-msg_bytes m h = run_msg_bytes (length (msg_bytes m)) h m.authority zero_msg h refl

-- A message that has an `int` for its length goes through `Marshal` and `Unmarshal` unchanged:
-- `msg_marshal` does not fail, and `msg_unmarshal` of its bytes, from the zero message, is the message.
pub msg_unmarshal-msg_marshal :
    (m : MsgUpdateParams)
    → IsSlice (msg_bytes m)
    → (bytes : Bytes) × (msg_marshal m ≡ ok bytes) × (msg_unmarshal bytes zero_msg ≡ ok m)
msg_unmarshal-msg_marshal m h = (
  msg_bytes m,
  msg_marshal_lem m (omega (arith, length-le-authority_bytes m.authority (18 ∷ 0 ∷ []))),
  msg_unmarshal-msg_bytes m h,
)

-- On every input that is a Go slice, `msg_unmarshal` returns a message or an error: no index and no
-- slice is out of range, and the loops end.
pub msg_unmarshal-ne-panic :
    (src : Bytes) (m : MsgUpdateParams) (e : Error) → IsSlice src → msg_unmarshal src m ≢ panic e
unfolding msg_unmarshal
msg_unmarshal-ne-panic src m e h =
    unmarshal-ne-panic (str "MsgUpdateParams") msg_field-IsTame src m e h
