-- ===== src/Wire/Query.antt =====
-- query.pb.go: the encodings of `QueryParamsRequest`, which has no field, and `QueryParamsResponse`.
use chain_rice.Common.{ℕ, ◌-◌, ◌≡◌, ◌≢◌, refl, str, [], ◌∷◌, Bytes, length}
use chain_rice.Common.Result.{Error, Result, ok, panic}
use chain_rice.Chainrice.Types.{Params, QueryParamsRequest, QueryParamsResponse}
use chain_rice.Wire.Marshal.{Writer, marshal, marshal_to}
use chain_rice.Wire.Params.{no_field, no_field-IsTame}
use chain_rice.Wire.Skip.{IsSlice}
use chain_rice.Wire.Unmarshal.{Handler, unmarshal, unmarshal_loop}
use chain_rice.Wire.Unmarshal.Total.{unmarshal-ne-panic}
use chain_rice.Wire.Single.{
  single_size, single_to_sized_buffer, single_field, single_field-IsTame, single_marshal,
  single_unmarshal,
}

abbrev pub request_size : QueryParamsRequest → ℕ
request_size m = 0

unfoldable pub request_to_sized_buffer : Writer QueryParamsRequest
request_to_sized_buffer m buf = let i = length buf in ok (buf, length buf - i)

unfoldable pub request_marshal : QueryParamsRequest → Result Bytes
unfolding request_to_sized_buffer
request_marshal m = marshal request_size request_to_sized_buffer m

unfoldable pub request_unmarshal : Bytes → QueryParamsRequest → Result QueryParamsRequest
request_unmarshal src m = unmarshal (str "QueryParamsRequest") no_field src m

abbrev response_params : QueryParamsResponse → Params
response_params m = m.params

abbrev with_response_params : QueryParamsResponse → Params → QueryParamsResponse
with_response_params m p = record m { params = p }

abbrev pub query_response_size : QueryParamsResponse → ℕ
query_response_size = single_size response_params with_response_params

abbrev pub query_response_to_sized_buffer : Writer QueryParamsResponse
query_response_to_sized_buffer = single_to_sized_buffer response_params with_response_params

unfoldable pub query_response_marshal : QueryParamsResponse → Result Bytes
query_response_marshal m = marshal query_response_size query_response_to_sized_buffer m

unfoldable pub query_response_marshal_to : QueryParamsResponse → Bytes → Result (Bytes × ℕ)
query_response_marshal_to m buf =
    marshal_to query_response_size query_response_to_sized_buffer m buf

abbrev pub query_response_field : Handler QueryParamsResponse
query_response_field = single_field response_params with_response_params

unfoldable pub query_response_unmarshal : Bytes → QueryParamsResponse → Result QueryParamsResponse
query_response_unmarshal src m = unmarshal (str "QueryParamsResponse") query_response_field src m

-- The request and the response of the params query each go through `Marshal` and `Unmarshal`
-- unchanged, whatever message is decoded into.
pub query_unmarshal-query_marshal :
    (q q' : QueryParamsRequest) (m z : QueryParamsResponse)
    → ((bytes : Bytes) × (request_marshal q ≡ ok bytes) × (request_unmarshal bytes q' ≡ ok q))
      × ((bytes : Bytes) × (query_response_marshal m ≡ ok bytes)
          × (query_response_unmarshal bytes z ≡ ok m))
unfolding request_marshal marshal request_unmarshal unmarshal unmarshal_loop query_response_marshal
    query_response_unmarshal
query_unmarshal-query_marshal q q' m z = (
  ([], refl, refl),
  (
    10 ∷ 0 ∷ [],
    single_marshal response_params with_response_params m,
    single_unmarshal response_params with_response_params (str "QueryParamsResponse") z,
  ),
)

-- On every input that is a Go slice, the decoders of the request and of the response return a message
-- or an error.
pub query_unmarshal-ne-panic :
    (src : Bytes) (q : QueryParamsRequest) (m : QueryParamsResponse) (e : Error)
    → IsSlice src
    → (request_unmarshal src q ≢ panic e) × (query_response_unmarshal src m ≢ panic e)
unfolding request_unmarshal query_response_unmarshal
query_unmarshal-ne-panic src q m e h = (
  unmarshal-ne-panic (str "QueryParamsRequest") no_field-IsTame src q e h,
  unmarshal-ne-panic (str "QueryParamsResponse")
      (single_field-IsTame response_params with_response_params) src m e h,
)
