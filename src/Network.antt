-- ===== src/Network.antt =====
-- The messages of protos/dbms.proto, and dbms/include/network/request.hpp between them and the
-- documents and queries of the data base.
pub mod Server
pub mod Laws
pub mod Answer
pub mod Execute
pub mod Insert
mod Tests
use nosql_gql_dbms.Base.{Bool, true, false}
use nosql_gql_dbms.User
use nosql_gql_dbms.User.{Command, read_cmd, update_cmd, delete_cmd}
use nosql_gql_dbms.Json.{node, null, Value, raw, text}
use nosql_gql_dbms.Json.Compare.{string_val}
use nosql_gql_dbms.Query.{Cmp, QueryItem, Query}
use nosql_gql_dbms.Json.{type_string, type_object, value_size, json_ctor, Json, JsonHead}
use nosql_gql_dbms.Base.{length, replicate, drop, take}
use nosql_gql_dbms.Query.{query_item_add}
use nosql_gql_dbms.Text.{string_ctor}
use nosql_gql_dbms.Base.{le_value, le_bytes}
use nosql_gql_dbms.Base.{[], ◌∷◌, ◌++◌, ◌==◌, if◌then◌else◌, Option, List, some, none, ℕ}

-- The members of `struct Json` of namespace Network but for its pointers, which are also those of the
-- message. A number is its pattern of 32 bits.
pub record Fields : Type 0 where
  pub type : ℕ
  pub key : List ℕ
  pub int32_val : ℕ
  pub float_val : ℕ
  pub string_val : List ℕ
  pub bool_val : Bool

-- A pointer to a `Network::Json`, with the links dad, bro and son.
pub data NetJson : Type 0 where
  nullptr : NetJson
  tree : Fields → NetJson → NetJson → NetJson → NetJson

-- A message `Json` in a field of another: `absent` where `has_...` is false.
pub data JsonMessage : Type 0 where
  absent : JsonMessage
  message : Fields → JsonMessage → JsonMessage → JsonMessage → JsonMessage

-- what proto3 gives for the fields of a message that is not there
abbrev pub default_fields : Fields
default_fields = record {
  type = 0;
  key = [];
  int32_val = 0;
  float_val = 0;
  string_val = [];
  bool_val = false;
}

-- A member of the constructor from a message: set only where the message has it.
unfoldable pub link_of : JsonMessage → NetJson
link_of absent = nullptr
link_of (message f dad bro son) = tree f (link_of dad) (link_of bro) (link_of son)

-- `Json(const dbms::Json &)`: the accessor of a message that is not there returns the default one.
unfoldable pub from_message : JsonMessage → NetJson
unfolding link_of
from_message absent = tree default_fields nullptr nullptr nullptr
from_message (message f dad bro son) = tree f (link_of dad) (link_of bro) (link_of son)

-- `operator dbms::Json *`, for a pointer: a null one is not set in the message.
unfoldable pub to_message : NetJson → JsonMessage
to_message nullptr = absent
to_message (tree f dad bro son) = message f (to_message dad) (to_message bro) (to_message son)

-- `n` bytes put over the first ones of a union
abbrev pub over_first : List ℕ → List ℕ → List ℕ
over_first bs union = bs ++ drop (length bs) union

-- the byte of a `bool`
unfoldable pub bool_byte : Bool → ℕ
bool_byte b = if b then 1 else 0

-- A `bool` that is read in memory: a byte that is neither 0 nor 1 is no value of one.
unfoldable pub bool_at : List ℕ → Option Bool
bool_at [] = none
bool_at (b ∷ bs) = if b == 0 then some false else if b == 1 then some true else none

-- The value of a node or of a condition, in a union that was cleared: the three numbers are written one
-- after the other.
unfoldable pub value_of : ℕ → Fields → Value
unfolding bool_byte
value_of type f =
    if type == type_string
    then text (string_ctor f.string_val)
    else if type == type_object
    then raw (replicate value_size 0)
    else raw (
        over_first (le_bytes 1 (bool_byte f.bool_val)) (
          over_first (le_bytes 4 f.float_val)
            (over_first (le_bytes 4 f.int32_val) (replicate value_size 0))))

unfoldable pub head_of : Fields → JsonHead
unfolding value_of
head_of f = record (json_ctor f.type f.key) { value = value_of f.type f }

-- `operator ::Json *`, for a pointer. The copy of the dad hangs on a link that nothing follows.
unfoldable pub to_json : NetJson → Json
unfolding head_of
to_json nullptr = null
to_json (tree f dad bro son) = node (head_of f) (to_json bro) (to_json son) null

-- `Json(const ::Json &)`: what memory held stands in the members that are not set; `none` where the
-- union is read as the pointer that it does not hold, or the pointer as a number, or where the byte that is
-- read as a bool is none. `dad` is null in every
-- document: only `json_dtor` of json.c reads it, and nothing sets it.
unfoldable pub fields_of : (junk : Fields) → JsonHead → Option Fields
unfolding bool_at
fields_of junk j =
    if j.type == type_string
    then elim (string_val j.value) [
      | none ↦ none
      | some s ↦ some (record junk { type = j.type; key = j.key; int32_val = 0; string_val = s })
    ]
    else if j.type == type_object
    then some (record junk { type = j.type; key = j.key; int32_val = 0; string_val = [] })
    else elim j.value [
      | text s ↦ none
      | raw bs ↦ elim (bool_at bs) [
        | none ↦ none
        | some b ↦ some (record {
          type = j.type;
          key = j.key;
          int32_val = le_value (take 4 bs);
          float_val = le_value (take 4 bs);
          string_val = [];
          bool_val = b;
        })
      ]
    ]

unfoldable pub of_json : (junk : Fields) → Json → Option NetJson
unfolding fields_of
of_json junk null = some nullptr
of_json junk (node j bro son next) = elim (fields_of junk j) [
  | none ↦ none
  | some f ↦ elim (of_json junk bro) [
    | none ↦ none
    | some b ↦ elim (of_json junk son) [ none ↦ none | some s ↦ some (tree f nullptr b s) ]
  ]
]

-- `ConditionalItem`, and the message of that name.
pub record ConditionalItem : Type 0 where
  pub path : List (List ℕ)
  pub cmp : Cmp
  pub fields : Fields

-- `toListPath`
unfoldable pub to_list_path : List (List ℕ) → List (List ℕ)
to_list_path [] = []
to_list_path (name ∷ rest) = string_ctor name ∷ to_list_path rest

-- `operator Query_item *`
unfoldable pub to_query_item : ConditionalItem → QueryItem
unfolding value_of to_list_path
to_query_item c = record {
  key = to_list_path c.path;
  query_val = value_of c.fields.type c.fields;
  type = c.fields.type;
  cmp_op = c.cmp;
}

-- The loop of `operator ::Query *` of `Conditional`.
unfoldable pub add_items : Query → List ConditionalItem → Query
unfolding to_query_item
add_items q [] = q
add_items q (c ∷ rest) = add_items (query_item_add q (to_query_item c)) rest

-- `operator ::Query *`: `query_new` leaves the query without the name of a type.
unfoldable pub to_query : List ConditionalItem → Query
unfolding add_items
to_query cs = add_items (record { type_name = none; f_query_itm = [] }) cs

-- `OperationType`, and the message `OperationRequest`: a query and a document may be absent.
pub data OperationType : Type 0 where
  insert read update delete : OperationType

pub record OperationRequest : Type 0 where
  pub operation_type : OperationType
  pub type_name : List ℕ
  pub query : Option (List ConditionalItem)
  pub json : JsonMessage

-- `Request` of the server: both pointers are set, to the defaults where the message has none.
pub record Request : Type 0 where
  pub type : OperationType
  pub type_name : List ℕ
  pub query : List ConditionalItem
  pub json : NetJson

unfoldable pub request_of : OperationRequest → Request
unfolding from_message
request_of r = record {
  type = r.operation_type;
  type_name = r.type_name;
  query = elim r.query [ none ↦ [] | some cs ↦ cs ];
  json = from_message r.json;
}

-- `operator Command`, with what `user_apply` reads for each kind.
unfoldable pub to_command : Request → Command
unfolding to_query to_json
to_command r = elim r.type [
  | insert ↦ User.Command.insert (to_json r.json) (string_ctor r.type_name)
  | read ↦ read_cmd (to_query r.query)
  | update ↦ update_cmd (to_query r.query) (to_json r.json)
  | delete ↦ delete_cmd (to_query r.query)
]
