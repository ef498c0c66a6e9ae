-- ===== src/Chainrice/GatewayTests.antt =====
-- Runs of the gateway's handlers, where a response is what was written to it.
use chain_rice.Common.{ℕ, ◌≡◌, refl, GoString, str, List, [], ◌∷◌, ◌++◌, none}
use chain_rice.Common.Result.{Error, message, Result, ok, err, not_found}
use chain_rice.Chainrice.Types.{QueryParamsResponse}
use chain_rice.Chainrice.Gateway.{
  Http, Answered, client_handler, request_query_params, local_request_query_params, reply,
  query_server, join_stream, server_handler, register_query_handler_server, pattern_query_params,
  server_handler-update_params,
}
use chain_rice.Chainrice.Keeper.{query_params}
use chain_rice.Chainrice.Tests.{sdk, keeper, from_gov, stored, update_by_gov}

data Written : Type 0 where
  forwarded : List ℕ → QueryParamsResponse → Written
  failed : Error → Written

-- A context is the metadata that it carries; a request is the outcome of annotating its context.
abbrev http : Http
http = record {
  Request = Result (List ℕ);
  Writer = List Written;
  Context = List ℕ;
  Md = List ℕ;
  Mux = List GoString;
  Pattern = List GoString;
  Conn = ℕ;
  no_md = [];
  join = λ a b. a ++ b;
  request_context = λ req. [];
  with_stream = λ ctx. ctx;
  stream = λ ctx. record { header_md = 4 ∷ []; trailer_md = [] };
  with_metadata = λ ctx md. md.header_md;
  annotate_incoming_context = λ ctx req. req;
  annotate_context = λ ctx req. req;
  http_error = λ ctx req e w. failed e ∷ w;
  forward = λ ctx req resp w. forwarded ctx resp ∷ w;
  handle = λ method pattern handler mux. method ∷ pattern;
  new_pattern = λ v ops pool verb. pool;
  dial = λ endpoint. ok 0;
  client_of = λ conn ctx req. (err not_found, record { header_md = []; trailer_md = [] });
}

registered :
    register_query_handler_server http [] (query_server http sdk keeper none)
    ≡ str "GET" ∷ str "chain-rice" ∷ str "chainrice" ∷ str "v1" ∷ str "params" ∷ []
unfolding register_query_handler_server pattern_query_params
registered = refl

bad_context :
    server_handler http (query_server http sdk keeper none) (err (message "timeout" [])) []
    ≡ ok (failed (message "timeout" []) ∷ [])
unfolding server_handler
bad_context = refl

joins_empty : (md : List ℕ) → http.join http.no_md md ≡ md
joins_empty md = refl

server_handler-update_params_example :
    Answered http
      (record {})
      (ok [])
      []
      (server_handler http (query_server http sdk keeper stored) (ok []) [])
server_handler-update_params_example =
    server_handler-update_params http joins_empty sdk keeper none stored from_gov (record {})
      (ok []) [] update_by_gov

forwards :
    server_handler http (query_server http sdk keeper stored) (ok []) []
    ≡ ok (forwarded (4 ∷ []) (record { params = record {} }) ∷ [])
unfolding server_handler local_request_query_params reply join_stream query_params
forwards = refl

client_failed : client_handler http (http.client_of 0) (ok []) [] ≡ ok (failed not_found ∷ [])
unfolding client_handler request_query_params reply
client_failed = refl
