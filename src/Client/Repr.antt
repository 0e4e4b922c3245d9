-- ===== src/Client/Repr.antt =====
-- The texts of the syntax tree of GQLclient/Node.hpp. `show_float` is `std::to_string` of a float.
use nosql_gql_dbms.Base.{ℕ, ◌+◌, List, [], ◌∷◌, ◌++◌, ◌==◌, if◌then◌else◌, replicate}
use nosql_gql_dbms.Client.{EntityNode, ConditionBodyNode, EntityBodyNode, FieldNode, PropertyNode}
use nosql_gql_dbms.Json.{type_string, type_float, type_bool, type_int32}
use nosql_gql_dbms.Network.{OperationType}
use nosql_gql_dbms.Base.{show_int32, codes, show_bool}
use nosql_gql_dbms.Query.{Cmp}
use nosql_gql_dbms.Query.{gt, ge, lt, le, contained, eq}
use nosql_gql_dbms.Network.{insert, read, update, delete}

-- `offset`
unfoldable pub offset : ℕ → List ℕ
offset level = replicate level b'\t'

-- a branch of the tree that is the last one, and one that is not
abbrev pub last_branch : List ℕ
last_branch = 226 ∷ 148 ∷ 148 ∷ 226 ∷ 148 ∷ 128 ∷ []

abbrev pub inner_branch : List ℕ
inner_branch = 226 ∷ 148 ∷ 156 ∷ 226 ∷ 148 ∷ 128 ∷ []

-- the values of `enum Cmp` and of `enum OperationType` of protos/dbms.proto, as `std::to_string` writes them
abbrev pub show_cmp : Cmp → List ℕ
show_cmp gt = codes "0"
show_cmp ge = codes "1"
show_cmp lt = codes "2"
show_cmp le = codes "3"
show_cmp contained = codes "4"
show_cmp eq = codes "5"

abbrev pub show_command : OperationType → List ℕ
show_command insert = codes "0"
show_command read = codes "1"
show_command update = codes "2"
show_command delete = codes "3"

-- The `switch` over the type.
unfoldable pub repr_value : (show_float : ℕ → List ℕ) → FieldNode → List ℕ
unfolding show_int32 show_bool
repr_value show_float n =
    if n.type == type_string
    then n.str_value
    else if n.type == type_int32
    then show_int32 n.int_value
    else if n.type == type_float
    then show_float n.float_value
    else if n.type == type_bool
    then show_bool n.bool_value
    else []

-- `FieldNode::repr`
unfoldable pub repr_field : (show_float : ℕ → List ℕ) → FieldNode → List ℕ
unfolding repr_value
repr_field show_float n =
    codes "GQLField name: " ++ n.name ++ codes "\tvalue: " ++ repr_value show_float n

-- The loop of `FieldListNode::repr`.
unfoldable pub repr_fields : (show_float : ℕ → List ℕ) → ℕ → List FieldNode → List ℕ
unfolding offset repr_field
repr_fields show_float level [] = []
repr_fields show_float level (n ∷ rest) =
    codes "\n"
    ++ offset level
    ++ last_branch
    ++ repr_field show_float n
    ++ repr_fields show_float level rest

unfoldable pub repr_field_list : (show_float : ℕ → List ℕ) → ℕ → List FieldNode → List ℕ
unfolding repr_fields
repr_field_list show_float level fields =
    codes "GQLFieldList" ++ repr_fields show_float level fields

-- `PropertyNode::repr`
unfoldable pub repr_property : (show_float : ℕ → List ℕ) → PropertyNode → List ℕ
unfolding repr_value
repr_property show_float p =
    codes "GQLProperty name: "
    ++ p.field.name
    ++ codes "\tOperation: "
    ++ show_cmp p.cmp
    ++ codes "\tvalue: "
    ++ repr_value show_float p.field

-- The loop of `PropertyListNode::repr`.
unfoldable pub repr_properties : (show_float : ℕ → List ℕ) → ℕ → List PropertyNode → List ℕ
unfolding offset repr_property
repr_properties show_float level [] = []
repr_properties show_float level (p ∷ rest) =
    codes "\n"
    ++ offset level
    ++ last_branch
    ++ repr_property show_float p
    ++ repr_properties show_float level rest

unfoldable pub repr_property_list : (show_float : ℕ → List ℕ) → ℕ → List PropertyNode → List ℕ
unfolding repr_properties
repr_property_list show_float level ps =
    codes "GQLPropertyList" ++ repr_properties show_float level ps

-- `ConditionNode::repr`
unfoldable pub repr_condition : (show_float : ℕ → List ℕ) → ℕ → List PropertyNode → List ℕ
unfolding repr_property_list offset
repr_condition show_float level ps =
    codes "GQLCondition\n"
    ++ offset level
    ++ last_branch
    ++ repr_property_list show_float (level + 1) ps

-- `EntityNode::repr`
unfoldable pub repr_entity : (show_float : ℕ → List ℕ) → ℕ → EntityNode → List ℕ
unfolding repr_field_list offset
repr_entity show_float level e =
    codes "GQLEntity\n"
    ++ offset level
    ++ inner_branch
    ++ codes "GQLEntityIsRoot "
    ++ (if e.is_root then codes "1" else codes "0")
    ++ codes "\n"
    ++ offset level
    ++ inner_branch
    ++ codes "GQLEntityName "
    ++ e.node_name
    ++ codes "\n"
    ++ offset level
    ++ last_branch
    ++ repr_field_list show_float (level + 1) e.field_list

-- The loop of `EntityListNode::repr`.
unfoldable pub repr_entities : (show_float : ℕ → List ℕ) → ℕ → List EntityNode → List ℕ
unfolding offset repr_entity
repr_entities show_float level [] = []
repr_entities show_float level (e ∷ rest) =
    codes "\n"
    ++ offset level
    ++ last_branch
    ++ repr_entity show_float (level + 1) e
    ++ repr_entities show_float level rest

unfoldable pub repr_entity_list : (show_float : ℕ → List ℕ) → ℕ → List EntityNode → List ℕ
unfolding repr_entities
repr_entity_list show_float level es = codes "GQLEntityList" ++ repr_entities show_float level es

-- `ConditionBodyNode::repr`
unfoldable pub repr_condition_body : (show_float : ℕ → List ℕ) → ℕ → ConditionBodyNode → List ℕ
unfolding repr_condition offset
repr_condition_body show_float level c =
    codes "GQLConditionBody\n"
    ++ offset level
    ++ inner_branch
    ++ codes "GQLWord "
    ++ c.type_name
    ++ codes "\n"
    ++ offset level
    ++ last_branch
    ++ repr_condition show_float (level + 1) c.condition

-- `EntityBodyNode::repr`
unfoldable pub repr_entity_body : (show_float : ℕ → List ℕ) → ℕ → EntityBodyNode → List ℕ
unfolding repr_entity_list offset
repr_entity_body show_float level b =
    codes "GQLEntityBody\n"
    ++ offset level
    ++ inner_branch
    ++ codes "GQLWord "
    ++ b.type_name
    ++ codes "\n"
    ++ offset level
    ++ last_branch
    ++ repr_entity_list show_float (level + 1) b.entity_list

-- the first two lines of a query
abbrev pub repr_head : List ℕ → OperationType → List ℕ
repr_head title command =
    title ++ codes "\n" ++ inner_branch ++ codes "GQLCommand " ++ show_command command ++ codes "\n"

-- The queries. The parser sets `command_`; the level is that of the call.
unfoldable pub repr_insert : (show_float : ℕ → List ℕ) → OperationType → ℕ → EntityBodyNode → List ℕ
unfolding repr_entity_body
repr_insert show_float command level b =
    repr_head (codes "GQLInsertQuery") command
    ++ last_branch
    ++ repr_entity_body show_float (level + 1) b

unfoldable pub repr_select :
    (show_float : ℕ → List ℕ) → OperationType → ℕ → ConditionBodyNode → List ℕ
unfolding repr_condition_body
repr_select show_float command level c =
    repr_head (codes "GQLSelectQuery") command
    ++ last_branch
    ++ repr_condition_body show_float (level + 1) c

unfoldable pub repr_delete :
    (show_float : ℕ → List ℕ) → OperationType → ℕ → ConditionBodyNode → List ℕ
unfolding repr_condition_body
repr_delete show_float command level c =
    repr_head (codes "GQLDeleteQuery") command
    ++ last_branch
    ++ repr_condition_body show_float (level + 1) c

unfoldable pub repr_update :
    (show_float : ℕ → List ℕ) → OperationType → ℕ → ConditionBodyNode → EntityBodyNode → List ℕ
unfolding repr_condition_body repr_entity_body
repr_update show_float command level c b =
    repr_head (codes "GQLUpdateQuery") command
    ++ inner_branch
    ++ repr_condition_body show_float (level + 1) c
    ++ codes "\n"
    ++ last_branch
    ++ repr_entity_body show_float (level + 1) b
