-- ===== src/Network/Server.antt =====
-- dbms/include/network/driver.hpp, response.hpp and dbms_server.hpp: a request against the file of the
-- server.
use nosql_gql_dbms.Query.{c_string}
use nosql_gql_dbms.Json.{Json, null, node}
use nosql_gql_dbms.Base.{codes}
use nosql_gql_dbms.Base.{◌++◌}
use nosql_gql_dbms.Client.Message.{json_of}
use nosql_gql_dbms.File.TypeDefs.{add_type}
use nosql_gql_dbms.User.{apply}
use nosql_gql_dbms.File.{File}
use nosql_gql_dbms.Iter.{Iter, iter_get, iter_next}
use nosql_gql_dbms.Json.TypeDef.{TypeDef}
use nosql_gql_dbms.Json.Compare.{Floats}
use nosql_gql_dbms.Network.{
  of_json, to_command, OperationRequest, Fields, request_of, to_message, NetJson, JsonMessage,
  Request,
}
use nosql_gql_dbms.Base.{attempt, stop, M, pure}
use nosql_gql_dbms.Text.{string_ctor}
use nosql_gql_dbms.Base.{
  [], ◌∷◌, ◌==◌, if◌then◌else◌, ◌>>=◌, Option, List, some, none, ℕ, zero, suc, Bool, true, false,
}

-- `Response` of namespace Network; `true` is the status OK.
pub record Response : Type 0 where
  pub status : Bool
  pub collection : List NetJson

-- the message `OperationResponse`
pub record OperationResponse : Type 0 where
  pub status : Bool
  pub collection : List JsonMessage

-- the characters of a `std::string` up to its first NUL, which are those that `c_str` and `strlen` see
unfoldable pub before_nul : List ℕ → List ℕ
before_nul [] = []
before_nul (b ∷ bs) = if b == 0 then [] else b ∷ before_nul bs

-- `TYPE_INIT`: a type of the name, without attributes.
unfoldable pub named_type : List ℕ → TypeDef
unfolding before_nul
named_type name = record { name = string_ctor (before_nul name); attr_list = [] }

-- The key of a document as a C string, which the loop of `Driver::execute` prints: `none` where there is no
-- NUL in its block, and for a null pointer.
unfoldable pub printed_key : Json → Option (List ℕ)
unfolding c_string
printed_key null = none
printed_key (node j bro son next) = c_string j.key

-- The loop of `Driver::execute` on fuel. Of the output only the text of the key is read.
unfoldable pub collect : Floats → (junk : Fields) → ℕ → Iter → M File (List NetJson)
unfolding printed_key
collect fl junk zero it = stop
collect fl junk (suc fuel) it = elim (iter_get it) [
  | none ↦ pure []
  | some (j, ent) ↦ elim (printed_key j) [
    | none ↦ stop
    | some printed ↦ elim (of_json junk j) [
      | none ↦ stop
      | some t ↦ do it' ← iter_next fl it; rest ← collect fl junk fuel it'; pure (t ∷ rest)
    ]
  ]
]

-- What `execute` returns for the status of `user_apply` and for the iterator, null but for a read.
unfoldable pub respond : Floats → (junk : Fields) → ℕ → Option (Option Iter) → M File Response
unfolding collect
respond fl junk fuel none = pure (record { status = false; collection = [] })
respond fl junk fuel (some none) = pure (record { status = true; collection = [] })
respond fl junk fuel (some (some it)) = do
  col ← collect fl junk fuel it
  pure (record { status = true; collection = col })

-- `Driver::execute`: the type of the request is added each time, and the status of that thrown away.
unfoldable pub execute : Floats → (junk : Fields) → ℕ → Request → M File Response
unfolding named_type respond
execute fl junk fuel r = do
  _ ← (λ f. attempt (add_type (named_type r.type_name) f))
  applied ← (λ f. attempt (apply fl fuel (to_command r) f))
  respond fl junk fuel applied

unfoldable pub messages : List NetJson → List JsonMessage
messages [] = []
messages (t ∷ rest) = to_message t ∷ messages rest

-- `operator OperationResponse`
unfoldable pub response_message : Response → OperationResponse
unfolding messages
response_message r = record { status = r.status; collection = messages r.collection }

-- The loop of the constructor of `Response` in GQLclient/network/response.hpp.
unfoldable pub trees : List JsonMessage → List NetJson
unfolding json_of
trees [] = []
trees (m ∷ rest) = json_of m ∷ trees rest

-- `Response(const dbms::OperationResponse &)` of the client
unfoldable pub response_of : OperationResponse → Response
unfolding trees
response_of r = record { status = r.status; collection = trees r.collection }

-- `DataBaseServiceImpl::Apply`, but for its printing.
unfoldable pub apply_rpc :
    Floats → (junk : Fields) → ℕ → OperationRequest → M File OperationResponse
unfolding execute response_message
apply_rpc fl junk fuel req = do
  resp ← execute fl junk fuel (request_of req)
  pure (response_message resp)

-- `DataBaseServiceImpl::Ping`: what it answers, and what it writes.
unfoldable pub ping_rpc : List ℕ → List ℕ × List ℕ
ping_rpc request = (codes "Pong", codes "Received from client: " ++ request ++ (b'\n' ∷ []))
