-- ===== src/Client/Laws.antt =====
-- What the client makes of the fields and of the entities of a query, and what the server gets of it.
use nosql_gql_dbms.Client.Message.{json_message-to_message}
use nosql_gql_dbms.Network.{JsonMessage}
use mathlib.Core.List.{append-nil, append_assoc}
use nosql_gql_dbms.Client.{insert_request, insert_query, member_fields}
use nosql_gql_dbms.Json.{null, node}
use nosql_gql_dbms.Network.{
  to_json, request_of, from_message, link_of, to_message, head_of, OperationRequest,
}
use nosql_gql_dbms.Client.{
  operation_request, EntityBodyNode, to_request, entity_list_to_json, add_entities, find_root,
  entity_to_json,
}
use nosql_gql_dbms.Json.Laws.{brothers}
use nosql_gql_dbms.Json.{JsonHead, Json}
use nosql_gql_dbms.Network.Laws.{from_message-to_message}
use nosql_gql_dbms.Base.{Bool-cases}
use nosql_gql_dbms.Base.{inl, inr}
use nosql_gql_dbms.Network.{nullptr, tree}
use nosql_gql_dbms.Network.{NetJson, Fields}
use nosql_gql_dbms.Client.{
  add_bro, add_son, field_to_json, add_fields, FieldNode, field_list_to_json, EntityNode,
}
use nosql_gql_dbms.Json.{type_object}
use nosql_gql_dbms.Base.{[], ◌∷◌, ◌++◌, ◌≡◌, ◌∙◌, if◌then◌else◌, List, refl, sym, ap}

-- Each tree of a chain of brothers, by its members and its first son.
abbrev pub siblings : NetJson → List (Fields × NetJson)
siblings nullptr = []
siblings (tree f d b s) = (f, s) ∷ siblings b

abbrev pub kids : NetJson → List (Fields × NetJson)
kids nullptr = []
kids (tree f d b s) = siblings s

-- the fields as trees without sons
abbrev pub leaves : List FieldNode → List (Fields × NetJson)
leaves [] = []
leaves (n ∷ rest) = (member_fields n, nullptr) ∷ leaves rest

-- what `EntityNode::toJson` sets in the root of its tree
abbrev pub object_fields : (junk : Fields) → EntityNode → Fields
object_fields junk e = record junk {
  type = type_object;
  key = e.node_name;
  int32_val = 0;
  string_val = [];
}

-- the entities that are no root, each with its fields
abbrev pub objects : (junk : Fields) → List EntityNode → List (Fields × NetJson)
objects junk [] = []
objects junk (e ∷ rest) =
    if e.is_root
    then objects junk rest
    else (object_fields junk e, field_list_to_json e.field_list) ∷ objects junk rest

-- the fields of the last root, `fs` where there is none
abbrev pub root_fields : List FieldNode → List EntityNode → List FieldNode
root_fields fs [] = fs
root_fields fs (e ∷ rest) = root_fields (if e.is_root then e.field_list else fs) rest

siblings-add_bro : (t u : NetJson) → siblings (add_bro t u) ≡ siblings t ++ siblings u
unfolding add_bro
siblings-add_bro nullptr u = refl
siblings-add_bro (tree f d b s) u = ap (λ xs. (f, s) ∷ xs) (siblings-add_bro b u)

siblings-add_fields :
    (fs : List FieldNode) (t : NetJson) → siblings (add_fields t fs) ≡ siblings t ++ leaves fs
unfolding add_fields field_to_json
siblings-add_fields [] t = sym (append-nil (siblings t))
siblings-add_fields (n ∷ rest) nullptr = siblings-add_fields rest (field_to_json n)
siblings-add_fields (n ∷ rest) (tree f d b s) =
    siblings-add_fields rest (add_bro (tree f d b s) (field_to_json n))
    ∙ ap (λ xs. xs ++ leaves rest) (siblings-add_bro (tree f d b s) (field_to_json n))
    ∙ append_assoc (siblings (tree f d b s)) ((member_fields n, nullptr) ∷ []) (leaves rest)

-- The fields of an entity become brothers in their order.
siblings-field_list_to_json : (fs : List FieldNode) → siblings (field_list_to_json fs) ≡ leaves fs
unfolding field_list_to_json
siblings-field_list_to_json fs = siblings-add_fields fs nullptr

kids-add_son :
    (f : Fields) (d b s u : NetJson) → kids (add_son (tree f d b s) u) ≡ siblings s ++ siblings u
unfolding add_son
kids-add_son f d b nullptr u = refl
kids-add_son f d b (tree g e c t) u = siblings-add_bro (tree g e c t) u

kids-entity_to_json :
    (junk : Fields) (e : EntityNode) → kids (entity_to_json junk e) ≡ leaves e.field_list
unfolding entity_to_json
kids-entity_to_json junk e =
    kids-add_son (object_fields junk e) nullptr nullptr nullptr (field_list_to_json e.field_list)
    ∙ siblings-field_list_to_json e.field_list

-- a tree that is no null pointer
abbrev pub IsTree : NetJson → Type 0
IsTree nullptr = ⊥
IsTree (tree f d b s) = Unit

IsTree-entity_to_json : (junk : Fields) (e : EntityNode) → IsTree (entity_to_json junk e)
unfolding entity_to_json add_son
IsTree-entity_to_json junk e = tt

siblings-entity_to_json :
    (junk : Fields) (e : EntityNode)
    → siblings (entity_to_json junk e)
      ≡ (object_fields junk e, field_list_to_json e.field_list) ∷ []
unfolding entity_to_json add_son
siblings-entity_to_json junk e = refl

-- The first loop ends with the last root.
find_root-kids :
    (junk : Fields) (fs : List FieldNode) (root : NetJson) (es : List EntityNode)
    → IsTree root
    → kids root ≡ leaves fs
    → IsTree (find_root junk root es) × (kids (find_root junk root es) ≡ leaves (root_fields fs es))
unfolding find_root
find_root-kids junk fs root [] i k = (i, k)
find_root-kids junk fs root (e ∷ rest) i k = elim (Bool-cases e.is_root) [
  | inl y ↦ rw y (
      find_root-kids junk e.field_list (entity_to_json junk e) rest (IsTree-entity_to_json junk e)
        (kids-entity_to_json junk e))
  | inr n ↦ rw n (find_root-kids junk fs root rest i k)
]

IsTree-add_son : (f : Fields) (d b s u : NetJson) → IsTree (add_son (tree f d b s) u)
unfolding add_son
IsTree-add_son f d b nullptr u = tt
IsTree-add_son f d b (tree g e c t) u = tt

-- The second loop puts the other entities behind, in their order.
kids-add_entities :
    (junk : Fields) (es : List EntityNode) (root : NetJson)
    → IsTree root
    → kids (add_entities junk root es) ≡ kids root ++ objects junk es
unfolding add_entities
kids-add_entities junk [] root i = sym (append-nil (kids root))
kids-add_entities junk (e ∷ rest) nullptr i = absurd i
kids-add_entities junk (e ∷ rest) (tree f d b s) i = elim (Bool-cases e.is_root) [
  | inl y ↦ rw y (kids-add_entities junk rest (tree f d b s) tt)
  | inr n ↦ rw n (
      kids-add_entities junk rest (add_son (tree f d b s) (entity_to_json junk e))
        (IsTree-add_son f d b s (entity_to_json junk e))
      ∙ ap (λ xs. xs ++ objects junk rest)
          (kids-add_son f d b s (entity_to_json junk e)
            ∙ ap (λ xs. siblings s ++ xs) (siblings-entity_to_json junk e))
      ∙ append_assoc (siblings s) ((object_fields junk e, field_list_to_json e.field_list) ∷ [])
          (objects junk rest))
]

-- The document of an entity list has the fields of the last root as its first sons, then the other
-- entities in their order, each with its fields as sons: the fields of a root before the last are lost.
pub kids-entity_list_to_json :
    (junk : Fields) (es : List EntityNode)
    → kids (entity_list_to_json junk es) ≡ leaves (root_fields [] es) ++ objects junk es
unfolding entity_list_to_json
kids-entity_list_to_json junk es =
    let start : NetJson =
      tree (record junk { key = []; int32_val = 0; string_val = [] }) nullptr nullptr nullptr in
    let (i, k) = find_root-kids junk [] start es tt refl in
    kids-add_entities junk es (find_root junk start es) i ∙ ap (λ xs. xs ++ objects junk es) k

-- the nodes of the data base that stand for trees of the client
abbrev pub heads : List (Fields × NetJson) → List JsonHead
heads [] = []
heads ((f, s) ∷ rest) = head_of f ∷ heads rest

abbrev pub sons : Json → Json
sons null = null
sons (node j bro son next) = son

brothers-to_json : (t : NetJson) → brothers (to_json t) ≡ heads (siblings t)
unfolding to_json
brothers-to_json nullptr = refl
brothers-to_json (tree f d b s) = ap (λ xs. head_of f ∷ xs) (brothers-to_json b)

sons-to_json : (t : NetJson) → brothers (sons (to_json t)) ≡ heads (kids t)
unfolding to_json
sons-to_json nullptr = refl
sons-to_json (tree f d b s) = brothers-to_json s

kids-from_message : (t : NetJson) → kids (from_message (to_message t)) ≡ kids t
unfolding from_message to_message link_of
kids-from_message nullptr = refl
kids-from_message (tree f d b s) = ap kids (from_message-to_message f d b s)

-- Where the messages arrive as they are sent, the document that the server makes of an insert query of
-- the client has as its sons the fields of the last root and then the other entities, in their order.
pub insert_query-sons :
    (transport : OperationRequest → OperationRequest)
    → ((m : OperationRequest) → transport m ≡ m)
    → (junk : Fields) (b : EntityBodyNode)
    → brothers (
        sons (
          to_json
            (request_of (transport (operation_request (to_request junk (insert_query b))))).json))
      ≡ heads (leaves (root_fields [] b.entity_list) ++ objects junk b.entity_list)
unfolding to_request insert_request operation_request request_of
insert_query-sons transport arrives junk b =
    ap (λ (m : OperationRequest). brothers (sons (to_json (request_of m).json)))
      (arrives (operation_request (to_request junk (insert_query b))))
    ∙ ap (λ (m : JsonMessage). brothers (sons (to_json (from_message m))))
        (json_message-to_message (entity_list_to_json junk b.entity_list))
    ∙ sons-to_json (from_message (to_message (entity_list_to_json junk b.entity_list)))
    ∙ ap heads (
        kids-from_message (entity_list_to_json junk b.entity_list)
        ∙ kids-entity_list_to_json junk b.entity_list)
