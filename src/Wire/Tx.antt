-- ===== src/Wire/Tx.antt =====
-- tx.pb.go: the encodings of `MsgUpdateParams` and `MsgUpdateParamsResponse`.
pub mod Encode
pub mod RoundTrip
pub mod Fields
use chain_rice.Common.{
  ℕ, suc, ◌+◌, ◌-◌, ◌*◌, ◌^◌, ◌<◌, ◌≤◌, ◌≡◌, ◌≢◌, refl, ap, ◌∙◌, GoString, str, is_empty, Option,
  none, some, [], ◌∷◌, ◌++◌, Bytes, length, length-append, ltb, ◌==◌, if◌then◌else◌, arith,
}
use chain_rice.Common.Result.{Error, Result, ok, err, panic, ◌>>=◌, Result-cases}
use chain_rice.Chainrice.Types.{Params, MsgUpdateParams, MsgUpdateParamsResponse}
use chain_rice.Wire.Varint.{sov, IsU64}
use chain_rice.Wire.Varint.Encode.{varint, groups, sov-varint}
use chain_rice.Wire.Buffer.{
  Cursor, push_byte, push_bytes, push_varint, push_byte-front, push_bytes-front, push_varint-front,
  zeros, front,
}
use chain_rice.Wire.Marshal.{Writer, marshal, marshal-front}
use chain_rice.Wire.Params.{
  params_size, params_unmarshal, push_params, push_params-front, no_field, no_field-IsTame,
}
use chain_rice.Wire.Skip.{IsSlice}
use chain_rice.Wire.Unmarshal.{Handler, unmarshal, read_payload, err_wrong_wire_type, IsTame}
use chain_rice.Wire.Unmarshal.Total.{
  read_payload-ne-panic, read_payload_shrinks, unmarshal-ne-panic,
}
use chain_rice.Wire.Unmarshal.Steps.{
  read_payload-append, unmarshal_step_known, run, run-step, run-nil,
}

-- `Size`, its two parts in the code's order.
unfoldable pub authority_size : GoString → ℕ
authority_size a = let l = length a in if ltb 0 l then 1 + l + sov l else 0

unfoldable pub msg_size : MsgUpdateParams → ℕ
msg_size m = let l = params_size m.params in authority_size m.authority + (1 + l + sov l)

-- `if len(m.Authority) > 0 { ... }`
unfoldable pub push_authority : GoString → Cursor → Result Cursor
push_authority a c =
    if ltb 0 (length a)
    then (do c1 ← push_bytes a c; c2 ← push_varint (length a) c1; push_byte 0xa c2)
    else ok c

-- `MarshalToSizedBuffer`
unfoldable pub msg_to_sized_buffer : Writer MsgUpdateParams
msg_to_sized_buffer m buf = do
  c1 ← push_params m.params (buf, length buf)
  c2 ← push_byte 0x12 c1
  (buf', i) ← push_authority m.authority c2
  ok (buf', length buf - i)

unfoldable pub msg_marshal : MsgUpdateParams → Result Bytes
msg_marshal m = marshal msg_size msg_to_sized_buffer m

-- The cases of `switch fieldNum`.
unfoldable pub msg_authority_field : Handler MsgUpdateParams
msg_authority_field l n t r m =
    if t == 2
    then (do (p, r') ← read_payload l r; ok (some (record m { authority = p }, r')))
    else err (err_wrong_wire_type (str "Authority"))

unfoldable pub msg_params_field : Handler MsgUpdateParams
msg_params_field l n t r m =
    if t == 2
    then (do
      (p, r') ← read_payload l r
      params ← params_unmarshal p m.params
      ok (some (record m { params = params }, r')))
    else err (err_wrong_wire_type (str "Params"))

unfoldable pub msg_field : Handler MsgUpdateParams
unfolding msg_authority_field msg_params_field
msg_field l n t r m =
    if n == 1
    then msg_authority_field l n t r m
    else if n == 2
    then msg_params_field l n t r m
    else ok none

unfoldable pub msg_unmarshal : Bytes → MsgUpdateParams → Result MsgUpdateParams
msg_unmarshal src m = unmarshal (str "MsgUpdateParams") msg_field src m

-- The response has no field.
unfoldable pub response_unmarshal : Bytes → MsgUpdateParamsResponse → Result MsgUpdateParamsResponse
response_unmarshal src m = unmarshal (str "MsgUpdateParamsResponse") no_field src m
