-- ===== src/Client/Rpc.antt =====
-- GQLclient/network/dbms_client.hpp: the calls of the client. The stub of grpc, what a message writes
-- by `DebugString` and how a float is written are parameters; `S` is what stands behind the stub.
use nosql_gql_dbms.Base.{ℕ, List, [], ◌∷◌, ◌++◌, M, pure, ◌>>=◌, Bool, true, false, if◌then◌else◌}
use nosql_gql_dbms.Network.{Fields}
use nosql_gql_dbms.Client.{QueryNode, operation_request, to_request}
use nosql_gql_dbms.Network.Server.{OperationResponse, response_of}
use nosql_gql_dbms.Network.{OperationRequest, NetJson}
use nosql_gql_dbms.Client.Print.{print_json, endl}
use nosql_gql_dbms.Base.{codes, show_int32}

-- What the client uses of `grpc::Status`.
pub record GrpcStatus : Type 0 where
  pub ok : Bool
  pub error_code : ℕ
  pub error_message : List ℕ

-- The loop of `Apply` over the documents of the answer.
unfoldable pub print_all : (show_float : ℕ → List ℕ) → List NetJson → List ℕ
unfolding print_json
print_all show_float [] = []
print_all show_float (t ∷ rest) = print_json show_float t ++ endl ++ print_all show_float rest

-- `Apply`, with what it writes.
unfoldable pub apply :
    {S : Type 0} (show_float : ℕ → List ℕ) (debug : OperationResponse → List ℕ)
    (stub : OperationRequest → M S (GrpcStatus × OperationResponse))
    → OperationRequest
    → M S (List ℕ)
unfolding print_all response_of
apply show_float debug stub request = do
  (status, response) ← stub request
  pure (
      if status.ok
      then debug response
        ++ endl
        ++ codes "Status: OK"
        ++ endl
        ++ print_all show_float (response_of response).collection
      else codes "OperationResponse rpc failed." ++ endl)

-- `Driver::insert` of GQLclient/driver.hpp: a query of the parser is sent.
unfoldable pub insert :
    {S : Type 0} (junk : Fields) (show_float : ℕ → List ℕ) (debug : OperationResponse → List ℕ)
    (stub : OperationRequest → M S (GrpcStatus × OperationResponse))
    → QueryNode
    → M S (List ℕ)
unfolding apply operation_request to_request
insert junk show_float debug stub query =
    apply show_float debug stub (operation_request (to_request junk query))

-- `Ping`: what it returns and what it writes. The message is that of `HelloRequest` and `HelloResponse`.
unfoldable pub ping : {S : Type 0} (stub : List ℕ → M S (GrpcStatus × List ℕ)) → M S (Bool × List ℕ)
ping stub = do
  (status, reply) ← stub (codes "Ping")
  pure (
      if status.ok
      then (true, codes "Received from server: " ++ reply ++ endl)
      else (false, show_int32 status.error_code ++ codes ": " ++ status.error_message ++ endl))
