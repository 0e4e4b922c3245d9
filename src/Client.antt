-- ===== src/Client.antt =====
-- GQLclient/Node.hpp and GQLclient/network/request.hpp: the requests that the client makes of its syntax
-- tree.
pub mod Laws
pub mod Driver
pub mod Message
pub mod Select
pub mod Print
pub mod Repr
pub mod Rpc
pub mod Answered
mod Tests
use nosql_gql_dbms.Base.{Bool}
use nosql_gql_dbms.Client.Message.{json_message, conditional_message}
use nosql_gql_dbms.Network.{OperationType, insert, read, update, delete}
use nosql_gql_dbms.Network.{nullptr, tree}
use nosql_gql_dbms.Query.{Cmp}
use nosql_gql_dbms.Json.{type_float, type_bool, type_int32, type_object, type_string}
use nosql_gql_dbms.Network.{ConditionalItem, OperationRequest, NetJson, Fields}
use nosql_gql_dbms.Base.{[], ◌∷◌, if◌then◌else◌, Option, List, some, none, ℕ}

-- `FieldNode`: a member that its constructor does not set holds what memory held.
pub record FieldNode : Type 0 where
  pub type : ℕ
  pub name : List ℕ
  pub str_value : List ℕ
  pub int_value : ℕ
  pub float_value : ℕ
  pub bool_value : Bool

-- The constructors of `FieldNode` with a value.
unfoldable pub field_str : (junk : FieldNode) → List ℕ → List ℕ → FieldNode
field_str junk name v = record junk { type = type_string; name = name; str_value = v }

unfoldable pub field_int : (junk : FieldNode) → List ℕ → ℕ → FieldNode
field_int junk name v = record junk {
  type = type_int32;
  name = name;
  str_value = [];
  int_value = v;
}

unfoldable pub field_float : (junk : FieldNode) → List ℕ → ℕ → FieldNode
field_float junk name v = record junk {
  type = type_float;
  name = name;
  str_value = [];
  float_value = v;
}

unfoldable pub field_bool : (junk : FieldNode) → List ℕ → Bool → FieldNode
field_bool junk name v = record junk {
  type = type_bool;
  name = name;
  str_value = [];
  bool_value = v;
}

-- The members that `FieldNode::toJson` and `PropertyNode::toConditionalItem` set.
abbrev pub member_fields : FieldNode → Fields
member_fields n = record {
  type = n.type;
  key = n.name;
  int32_val = n.int_value;
  float_val = n.float_value;
  string_val = n.str_value;
  bool_val = n.bool_value;
}

unfoldable pub field_to_json : FieldNode → NetJson
field_to_json n = tree (member_fields n) nullptr nullptr nullptr

-- `Json::addBro`: behind the last brother. It is called on no null pointer.
unfoldable pub add_bro : NetJson → NetJson → NetJson
add_bro nullptr rhs = rhs
add_bro (tree f dad bro son) rhs = tree f dad (add_bro bro rhs) son

-- `Json::addSon`
unfoldable pub add_son : NetJson → NetJson → NetJson
unfolding add_bro
add_son nullptr rhs = nullptr
add_son (tree f dad bro nullptr) rhs = tree f dad bro rhs
add_son (tree f dad bro (tree g d b s)) rhs = tree f dad bro (add_bro (tree g d b s) rhs)

-- The loop of `FieldListNode::toJson`, with `f_son`.
unfoldable pub add_fields : NetJson → List FieldNode → NetJson
unfolding field_to_json add_bro
add_fields f_son [] = f_son
add_fields nullptr (n ∷ rest) = add_fields (field_to_json n) rest
add_fields (tree f d b s) (n ∷ rest) = add_fields (add_bro (tree f d b s) (field_to_json n)) rest

unfoldable pub field_list_to_json : List FieldNode → NetJson
unfolding add_fields
field_list_to_json fields = add_fields nullptr fields

-- `EntityNode`
pub record EntityNode : Type 0 where
  pub is_root : Bool
  pub node_name : List ℕ
  pub field_list : List FieldNode

-- `EntityNode::toJson`, without the flag that it returns beside: the constructor of `Json` leaves the
-- float and the bool as memory held them.
unfoldable pub entity_to_json : (junk : Fields) → EntityNode → NetJson
unfolding add_son field_list_to_json
entity_to_json junk e =
    add_son
      (tree (record junk { type = type_object; key = e.node_name; int32_val = 0; string_val = [] })
        nullptr nullptr nullptr)
      (field_list_to_json e.field_list)

-- The first loop of `EntityListNode::toJson`: the root is the last entity that is one.
unfoldable pub find_root : (junk : Fields) → NetJson → List EntityNode → NetJson
unfolding entity_to_json
find_root junk root [] = root
find_root junk root (e ∷ rest) =
    find_root junk (if e.is_root then entity_to_json junk e else root) rest

-- The second loop: the entities that are no root become sons.
unfoldable pub add_entities : (junk : Fields) → NetJson → List EntityNode → NetJson
unfolding entity_to_json add_son
add_entities junk root [] = root
add_entities junk root (e ∷ rest) =
    add_entities junk (if e.is_root then root else add_son root (entity_to_json junk e)) rest

-- `EntityListNode::toJson`: the `Json` that stands where there is no root has no type set.
unfoldable pub entity_list_to_json : (junk : Fields) → List EntityNode → NetJson
unfolding find_root add_entities
entity_list_to_json junk entities =
    add_entities junk
      (find_root junk
        (tree (record junk { key = []; int32_val = 0; string_val = [] }) nullptr nullptr nullptr)
        entities)
      entities

-- `PropertyNode`
pub record PropertyNode : Type 0 where
  pub field : FieldNode
  pub cmp : Cmp

unfoldable pub to_conditional_item : PropertyNode → ConditionalItem
to_conditional_item p = record {
  path = p.field.name ∷ [];
  cmp = p.cmp;
  fields = member_fields p.field;
}

-- `PropertyListNode::toConditionalItemVector`, and `ConditionNode::toConditional` of it.
unfoldable pub to_conditional : List PropertyNode → List ConditionalItem
unfolding to_conditional_item
to_conditional [] = []
to_conditional (p ∷ rest) = to_conditional_item p ∷ to_conditional rest

-- The bodies of a query, and the queries with theirs.
pub record ConditionBodyNode : Type 0 where
  pub type_name : List ℕ
  pub condition : List PropertyNode

pub record EntityBodyNode : Type 0 where
  pub type_name : List ℕ
  pub entity_list : List EntityNode

pub data QueryNode : Type 0 where
  insert_query : EntityBodyNode → QueryNode
  select_query : ConditionBodyNode → QueryNode
  delete_query : ConditionBodyNode → QueryNode
  update_query : ConditionBodyNode → EntityBodyNode → QueryNode

-- `Request` of the client: null pointers where a query has no such part.
pub record ClientRequest : Type 0 where
  pub type : OperationType
  pub type_name : List ℕ
  pub query : Option (List ConditionalItem)
  pub json : NetJson

-- `InsertQueryNode::toRequest`
unfoldable pub insert_request : (junk : Fields) → EntityBodyNode → ClientRequest
unfolding entity_list_to_json
insert_request junk b = record {
  type = insert;
  type_name = b.type_name;
  query = none;
  json = entity_list_to_json junk b.entity_list;
}

-- `SelectQueryNode::toRequest`
unfoldable pub select_request : ConditionBodyNode → ClientRequest
unfolding to_conditional
select_request c = record {
  type = read;
  type_name = c.type_name;
  query = some (to_conditional c.condition);
  json = nullptr;
}

-- `DeleteQueryNode::toRequest`
unfoldable pub delete_request : ConditionBodyNode → ClientRequest
unfolding to_conditional
delete_request c = record {
  type = delete;
  type_name = c.type_name;
  query = some (to_conditional c.condition);
  json = nullptr;
}

-- `UpdateQueryNode::toRequest`: the name of the type is that of the condition, and that of the body is
-- dropped.
unfoldable pub update_request : (junk : Fields) → ConditionBodyNode → EntityBodyNode → ClientRequest
unfolding entity_list_to_json to_conditional
update_request junk c b = record {
  type = update;
  type_name = c.type_name;
  query = some (to_conditional c.condition);
  json = entity_list_to_json junk b.entity_list;
}

-- `query.toRequest()`, by the class of the node.
unfoldable pub to_request : (junk : Fields) → QueryNode → ClientRequest
unfolding insert_request select_request delete_request update_request
to_request junk (insert_query b) = insert_request junk b
to_request junk (select_query c) = select_request c
to_request junk (delete_query c) = delete_request c
to_request junk (update_query c b) = update_request junk c b

-- `operator dbms::OperationRequest`
unfoldable pub operation_request : ClientRequest → OperationRequest
unfolding json_message conditional_message
operation_request r = record {
  operation_type = r.type;
  type_name = r.type_name;
  query = elim r.query [ none ↦ none | some cs ↦ some (conditional_message cs) ];
  json = json_message r.json;
}
