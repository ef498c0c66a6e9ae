-- ===== src/Wire/Tests.antt =====
-- Runs of the encoding at concrete bytes, and the theorems at inputs.
use chain_rice.Common.{◌≡◌, ◌≢◌, refl, [], ◌∷◌, str, Bytes, arith}
use chain_rice.Common.Result.{message, ok, err, panic}
use chain_rice.Chainrice.Types.{MsgUpdateParams, GenesisState, QueryParamsResponse}
use chain_rice.Wire.Varint.{sov, encode_varint, read_varint, read_loop, len64_loop, put_loop}
use chain_rice.Wire.Varint.Encode.{varint, groups, encode_varint-append}
use chain_rice.Wire.Varint.Decode.{read_varint-varint}
use chain_rice.Wire.Buffer.{push_byte, push_bytes, push_varint}
use chain_rice.Wire.Marshal.{marshal}
use chain_rice.Wire.Params.{push_params, params_unmarshal, params_to_sized_buffer}
use chain_rice.Wire.Skip.{skip, skip_loop, skip_round, skip_field, err_unexpected_end_of_group}
use chain_rice.Wire.Unmarshal.{
  unmarshal, unmarshal_loop, unmarshal_step, read_payload, skip_unknown, err_wrong_wire_type,
}
use chain_rice.Wire.Tx.{
  msg_size, authority_size, push_authority, msg_to_sized_buffer, msg_marshal, msg_field,
  msg_unmarshal,
}
use chain_rice.Wire.Tx.RoundTrip.{zero_msg, msg_unmarshal-msg_marshal, msg_unmarshal-ne-panic}

abbrev sample : MsgUpdateParams
sample = record { authority = str "gov"; params = record {} }

abbrev sample_bytes : Bytes
sample_bytes = 10 ∷ 3 ∷ 103 ∷ 111 ∷ 118 ∷ 18 ∷ 0 ∷ []

marshal_sample : msg_marshal sample ≡ ok sample_bytes
unfolding msg_marshal marshal msg_size authority_size sov len64_loop msg_to_sized_buffer push_params
    params_to_sized_buffer push_byte push_bytes push_varint push_authority encode_varint put_loop
marshal_sample = refl

unmarshal_sample : msg_unmarshal sample_bytes zero_msg ≡ ok sample
unfolding msg_unmarshal unmarshal unmarshal_loop unmarshal_step read_varint read_loop msg_field
    read_payload params_unmarshal
unmarshal_sample = refl

-- An unknown field 3 with a group in it, before the authority.
unmarshal_unknown : msg_unmarshal (27 ∷ 8 ∷ 1 ∷ 28 ∷ sample_bytes) zero_msg ≡ ok sample
unfolding msg_unmarshal unmarshal unmarshal_loop unmarshal_step read_varint read_loop msg_field
    read_payload params_unmarshal skip_unknown skip skip_loop skip_round skip_field
unmarshal_unknown = refl

unmarshal_wrong_type :
    msg_unmarshal (8 ∷ 1 ∷ []) zero_msg ≡ err (err_wrong_wire_type (str "Authority"))
unfolding msg_unmarshal unmarshal unmarshal_loop unmarshal_step read_varint read_loop msg_field
unmarshal_wrong_type = refl

skip_stray_end : skip (12 ∷ []) ≡ err err_unexpected_end_of_group
unfolding skip skip_loop skip_round skip_field read_varint read_loop
skip_stray_end = refl

read_too_long : read_varint (varint 300) ≡ ok (300, [])
unfolding read_varint read_loop groups
read_too_long = refl

msg_unmarshal-msg_marshal_example :
    (bytes : Bytes) × (msg_marshal sample ≡ ok bytes) × (msg_unmarshal bytes zero_msg ≡ ok sample)
unfolding groups
msg_unmarshal-msg_marshal_example = msg_unmarshal-msg_marshal sample (omega arith)

msg_unmarshal-ne-panic_example :
    msg_unmarshal (10 ∷ 200 ∷ []) zero_msg ≢ panic (message "out of fuel" [])
msg_unmarshal-ne-panic_example =
    msg_unmarshal-ne-panic (10 ∷ 200 ∷ []) zero_msg (message "out of fuel" []) (omega arith)

encode_varint-append_example :
    encode_varint (1 ∷ 0 ∷ 0 ∷ 9 ∷ []) 3 300 ≡ ok (1 ∷ 172 ∷ 2 ∷ 9 ∷ [], 1)
unfolding groups
encode_varint-append_example =
    encode_varint-append 300 (1 ∷ []) (0 ∷ 0 ∷ []) (9 ∷ []) (omega arith) (omega arith)

read_varint-varint_example : read_varint (172 ∷ 2 ∷ 9 ∷ []) ≡ ok (300, 9 ∷ [])
unfolding groups
read_varint-varint_example = read_varint-varint 300 (9 ∷ []) (omega arith)

abbrev zero_genesis : GenesisState
zero_genesis = record { params = record {} }

abbrev zero_response : QueryParamsResponse
zero_response = record { params = record {} }
