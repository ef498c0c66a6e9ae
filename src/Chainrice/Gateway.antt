-- ===== src/Chainrice/Gateway.antt =====
-- x/chainrice/types/query.pb.gw.go: the params query over HTTP.
use chain_rice.Common.{ℕ, ◌≡◌, ◌⊎◌, inl, inr, refl, GoString, str, some, List, [], ◌∷◌}
use chain_rice.Common.Result.{Error, Result, ok, err, panic, Result-cases}
use chain_rice.Chainrice.Types.{
  Params, MsgUpdateParams, MsgUpdateParamsResponse, QueryParamsRequest, QueryParamsResponse,
}
use chain_rice.Chainrice.Keeper.{Sdk, Keeper, update_params, query_params}
use chain_rice.Chainrice.Genesis.{query-update_params}

pub record ServerMetadata (Md : Type 0) : Type 0 where
  pub header_md : Md
  pub trailer_md : Md

-- What the file uses of grpc-gateway, grpc and net/http. `Writer` is what has been written to a
-- response, `stream` what the server has put into the transport stream of a context, and the choice of
-- marshalers is part of what writes.
pub record Http : Type 1 where
  pub Request : Type 0
  pub Writer : Type 0
  pub Context : Type 0
  pub Md : Type 0
  pub Mux : Type 0
  pub Pattern : Type 0
  pub Conn : Type 0
  pub no_md : Md
  pub join : Md → Md → Md
  pub request_context : Request → Context
  pub with_stream : Context → Context
  pub stream : Context → ServerMetadata Md
  pub with_metadata : Context → ServerMetadata Md → Context
  pub annotate_incoming_context : Context → Request → Result Context
  pub annotate_context : Context → Request → Result Context
  pub http_error : Context → Request → Error → Writer → Writer
  pub forward : Context → Request → QueryParamsResponse → Writer → Writer
  pub handle : GoString → Pattern → (Request → Writer → Result Writer) → Mux → Mux
  pub new_pattern : ℕ → List ℕ → List GoString → GoString → Pattern
  pub dial : GoString → Result Conn
  pub client_of :
      Conn → Context → QueryParamsRequest → Result QueryParamsResponse × ServerMetadata Md

module _ (h : Http) where
  open h use {Request, Writer, Context, Md, Mux}

  abbrev pub Server : Type 0
  Server = Context → QueryParamsRequest → Result QueryParamsResponse

  abbrev pub Client : Type 0
  Client = Context → QueryParamsRequest → Result QueryParamsResponse × ServerMetadata Md

  abbrev pub zero_metadata : ServerMetadata Md
  zero_metadata = record { header_md = h.no_md; trailer_md = h.no_md }

  -- The client writes the metadata, also beside an error.
  unfoldable pub request_query_params :
      Client → Context → Result QueryParamsResponse × ServerMetadata Md
  request_query_params client ctx = client ctx (record {})

  unfoldable pub local_request_query_params :
      Server → Context → Result QueryParamsResponse × ServerMetadata Md
  local_request_query_params server ctx = (server ctx (record {}), zero_metadata)

  -- The reply to the outcome of the query.
  unfoldable pub reply : Context → Request → Writer → Result QueryParamsResponse → Result Writer
  reply ctx req w (ok resp) = ok (h.forward ctx req resp w)
  reply ctx req w (err e) = ok (h.http_error ctx req e w)
  reply ctx req w (panic e) = panic e

  unfoldable pub join_stream : ServerMetadata Md → ServerMetadata Md → ServerMetadata Md
  join_stream md stream = record {
    header_md = h.join md.header_md stream.header_md;
    trailer_md = h.join md.trailer_md stream.trailer_md;
  }

  abbrev answer_local : Server → Context → Request → Writer → Result Context → Result Writer
  answer_local server ctx req w (ok rctx) =
      let (resp, md) = local_request_query_params server rctx in
      reply (h.with_metadata ctx (join_stream md (h.stream ctx))) req w resp
  answer_local server ctx req w (err e) = ok (h.http_error ctx req e w)
  answer_local server ctx req w (panic e) = panic e

  -- The handler that RegisterQueryHandlerServer registers.
  unfoldable pub server_handler : Server → Request → Writer → Result Writer
  server_handler server req w =
      let ctx = h.with_stream (h.request_context req) in
      answer_local server ctx req w (h.annotate_incoming_context ctx req)

  abbrev answer_remote : Client → Context → Request → Writer → Result Context → Result Writer
  answer_remote client ctx req w (ok rctx) =
      let (resp, md) = request_query_params client rctx in reply (h.with_metadata ctx md) req w resp
  answer_remote client ctx req w (err e) = ok (h.http_error ctx req e w)
  answer_remote client ctx req w (panic e) = panic e

  -- The handler that RegisterQueryHandlerClient registers.
  unfoldable pub client_handler : Client → Request → Writer → Result Writer
  client_handler client req w =
      let ctx = h.request_context req in answer_remote client ctx req w (h.annotate_context ctx req)

  -- `/chain-rice/chainrice/v1/params`
  unfoldable pub pattern_query_params : h.Pattern
  pattern_query_params =
      h.new_pattern 1 (2 ∷ 0 ∷ 2 ∷ 1 ∷ 2 ∷ 2 ∷ 2 ∷ 3 ∷ [])
        (str "chain-rice" ∷ str "chainrice" ∷ str "v1" ∷ str "params" ∷ []) []

  unfoldable pub register_query_handler_server : Mux → Server → Mux
  register_query_handler_server mux server =
      h.handle (str "GET") pattern_query_params (server_handler server) mux

  unfoldable pub register_query_handler_client : Mux → Client → Mux
  register_query_handler_client mux client =
      h.handle (str "GET") pattern_query_params (client_handler client) mux

  unfoldable pub register_query_handler : Mux → h.Conn → Mux
  register_query_handler mux conn = register_query_handler_client mux (h.client_of conn)

  -- The registration has no error, so that the connection stays until the context is done.
  abbrev register_dialled : Mux → Result h.Conn → Result Mux
  register_dialled mux (ok conn) = ok (register_query_handler mux conn)
  register_dialled mux (err e) = err e
  register_dialled mux (panic e) = panic e

  unfoldable pub register_query_handler_from_endpoint : Mux → GoString → Result Mux
  register_query_handler_from_endpoint mux endpoint = register_dialled mux (h.dial endpoint)

  -- The query server of the module as it answers from a state.
  abbrev pub query_server : (sdk : Sdk) → Keeper → sdk.State → Server
  query_server sdk k s ctx req = query_params sdk k s (some req)

  -- What the handler of the server has done with a request: it has not been able to annotate the
  -- context and has written that error; or it has forwarded these params in a context that carries
  -- the metadata of the transport stream; or the annotation has panicked.
  abbrev pub Answered : Params → Request → Writer → Result Writer → Type 0
  Answered params req w out =
      let ctx = h.with_stream (h.request_context req) in
      ((e : Error) × (h.annotate_incoming_context ctx req ≡ err e)
        × (out ≡ ok (h.http_error ctx req e w)))
      ⊎ ((rctx : Context) × (h.annotate_incoming_context ctx req ≡ ok rctx)
          × (out
              ≡ ok (
                  h.forward (h.with_metadata ctx (h.stream ctx)) req (record { params = params })
                    w)))
      ⊎ ((e : Error) × (h.annotate_incoming_context ctx req ≡ panic e) × (out ≡ panic e))

  -- After a message that `update_params` accepts, the handler of the server, on every request whose
  -- context can be annotated, forwards the params of the message and writes no error, in a context with
  -- the header and the trailer of the transport stream; and where the context cannot be annotated it
  -- writes that error and no params, or panics as the annotation does. The empty metadata is a unit of
  -- `join`.
  pub server_handler-update_params :
      (join_empty : (md : Md) → h.join h.no_md md ≡ md) (sdk : Sdk) (k : Keeper) (s s' : sdk.State)
      (msg : MsgUpdateParams) (r : MsgUpdateParamsResponse) (req : Request) (w : Writer)
      → update_params sdk k s msg ≡ ok (s', r)
      → Answered msg.params req w (server_handler (query_server sdk k s') req w)
  unfolding server_handler local_request_query_params reply join_stream
  server_handler-update_params join_empty sdk k s s' msg r req w accepted =
      let ctx : Context = h.with_stream (h.request_context req) in
      let answer = (query-update_params sdk k s s' msg r (record {}) accepted).0 in
      elim (Result-cases (h.annotate_incoming_context ctx req)) [
        | inl (rctx, e) ↦ inr (
            inl (
              rctx,
              e,
              rw
                  (
                    e,
                    answer,
                    join_empty (h.stream ctx).header_md,
                    join_empty (h.stream ctx).trailer_md,
                  )
                  refl,
            ))
        | inr (inl (x, e)) ↦ inl (x, e, rw e refl)
        | inr (inr (x, e)) ↦ inr (inr (x, e, rw e refl))
      ]
