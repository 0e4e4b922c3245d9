-- ===== src/Client/Tests.antt =====
-- An insert query with two roots and an object between them.
use nosql_gql_dbms.Client.{
  insert_request, find_root, add_entities, field_list_to_json, add_fields, field_to_json,
  entity_to_json, add_son,
}
use nosql_gql_dbms.Client.Message.{json_message}
use nosql_gql_dbms.Network.{from_message, link_of, head_of, value_of}
use nosql_gql_dbms.Json.{json_ctor}
use nosql_gql_dbms.Text.{string_ctor, strncpy}
use nosql_gql_dbms.Section.Extents.RoundTrip.{IsNode, as_object, as_text}
use nosql_gql_dbms.Client.Rpc.{GrpcStatus}
use nosql_gql_dbms.Client.Rpc
use nosql_gql_dbms.Network.{OperationRequest}
use nosql_gql_dbms.Network.Server.{OperationResponse, apply_rpc, before_nul, named_type}
use nosql_gql_dbms.File.Find.Tests.{one_item, one_item_wf}
use nosql_gql_dbms.File.TypeDefs.Held.{HasTypes}
use nosql_gql_dbms.File.WellFormed.{IsWellFormed, Grows}
use nosql_gql_dbms.File.Tree.RoundTrip.{IsReadBack}
use nosql_gql_dbms.File.{File}
use nosql_gql_dbms.Client.Answered.{written, insert-answered}
use nosql_gql_dbms.Base.{M, ◌>>=◌, pure, ok, ℕ, arith}
use nosql_gql_dbms.Json.{JsonHead, text, type_string, type_object, value_size}
use nosql_gql_dbms.Base.{replicate}
use nosql_gql_dbms.Json.{Json, node, null, raw, type_int32}
use nosql_gql_dbms.Query.{Query, query_check}
use nosql_gql_dbms.Client.Select.{equalities, HasAll, select_bools_iff}
use nosql_gql_dbms.Json.{type_bool}
use nosql_gql_dbms.Base.{List, Bool}
use nosql_gql_dbms.Client.{ConditionBodyNode, select_query}
use nosql_gql_dbms.Base.{leb, ltb, ◌==◌, ◌↔◌, some, none}
use nosql_gql_dbms.Json.Compare.{Floats}
use nosql_gql_dbms.User.{read_cmd}
use nosql_gql_dbms.Network.{to_command}
use nosql_gql_dbms.Client.{insert_query, member_fields}
use nosql_gql_dbms.Client.{
  FieldNode, operation_request, field_int, field_str, entity_list_to_json, to_request, field_float,
  EntityBodyNode, field_bool,
}
use nosql_gql_dbms.Client.Laws.{
  heads, kids-entity_list_to_json, sons, root_fields, leaves, kids, objects, insert_query-sons,
}
use nosql_gql_dbms.Json.Laws.{brothers}
use nosql_gql_dbms.Network.{request_of, Fields, to_json}
use nosql_gql_dbms.Base.{[], ◌∷◌, ◌++◌, ◌≡◌, refl, true, false}

abbrev unset : FieldNode
unset = record {
  type = 5;
  name = [];
  str_value = [];
  int_value = 3;
  float_value = 3;
  bool_value = true;
}

abbrev junk : Fields
junk = member_fields unset

abbrev people : EntityBodyNode
people = record {
  type_name = b'p' ∷ [];
  entity_list =
      record { is_root = true; node_name = []; field_list = field_int unset (b'a' ∷ []) 7 ∷ [] }
      ∷ record {
        is_root = false;
        node_name = b'o' ∷ [];
        field_list =
            field_str unset (b'b' ∷ []) (b'x' ∷ []) ∷ field_bool unset (b'c' ∷ []) true ∷ [];
      }
      ∷ record { is_root = true; node_name = []; field_list = field_float unset (b'd' ∷ []) 9 ∷ [] }
      ∷ [];
}

kids-entity_list_to_json_example :
    kids (entity_list_to_json junk people.entity_list)
    ≡ leaves (field_float unset (b'd' ∷ []) 9 ∷ []) ++ objects junk people.entity_list
kids-entity_list_to_json_example = kids-entity_list_to_json junk people.entity_list

insert_query-sons_example :
    brothers
      (sons (to_json (request_of (operation_request (to_request junk (insert_query people)))).json))
    ≡ heads (leaves (root_fields [] people.entity_list) ++ objects junk people.entity_list)
insert_query-sons_example = insert_query-sons (λ m. m) (λ m. refl) junk people

abbrev floats : Floats
floats = record { eq = λ a b. a == b; lt = λ a b. ltb a b; le = λ a b. leb a b }

-- `select people (c: true)`, and a document with a number and then such a field
abbrev asked_bools : List (List ℕ × Bool)
asked_bools = (b'c' ∷ [], true) ∷ []

abbrev field_of : List ℕ → ℕ → ℕ → JsonHead
field_of key type byte = record {
  key = key;
  type = type;
  value = raw (byte ∷ 0 ∷ 0 ∷ 0 ∷ 0 ∷ 0 ∷ 0 ∷ 0 ∷ []);
  foff = 40;
}

abbrev document_fields : Json
document_fields =
    node (field_of (b'n' ∷ []) type_int32 7)
      (node (field_of (b'c' ∷ []) type_bool 1) null null null) null null

abbrev document_head : JsonHead
document_head = record {
  key = [];
  type = type_object;
  value = raw (replicate value_size 0);
  foff = 0;
}

select_bools_iff_example :
    (q : Query) × (to_command (
        request_of (
          operation_request (
            to_request junk (
              select_query
                (record { type_name = b'p' ∷ []; condition = equalities unset asked_bools })))))
      ≡ read_cmd q)
    × ((query_check floats q (node document_head null document_fields null) none ≡ some true)
        ↔ HasAll asked_bools (brothers document_fields))
select_bools_iff_example =
    select_bools_iff (λ m. m) (λ m. refl) junk unset (b'p' ∷ []) asked_bools floats document_head
      null document_fields null none (λ e. cc, (λ e. cc, tt))

-- `insert p { n: "xy" }`
abbrev person : EntityBodyNode
person = record {
  type_name = b'p' ∷ [];
  entity_list =
      record {
        is_root = true;
        node_name = [];
        field_list = field_str unset (b'n' ∷ []) (b'x' ∷ b'y' ∷ []) ∷ [];
      }
      ∷ [];
}

abbrev root : JsonHead
root = record { key = []; type = type_object; value = raw (replicate value_size 0); foff = 0 }

abbrev text_of_person : JsonHead
text_of_person = record {
  key = b'n' ∷ [];
  type = type_string;
  value = text (b'x' ∷ b'y' ∷ []);
  foff = 0;
}

person-node :
    to_json (request_of (operation_request (to_request junk (insert_query person)))).json
    ≡ node root null (node text_of_person null null null) null
unfolding to_json request_of operation_request to_request insert_request entity_list_to_json
    find_root add_entities field_list_to_json add_fields field_to_json field_str from_message
    link_of json_message head_of value_of json_ctor string_ctor strncpy entity_to_json add_son
person-node = refl

root-IsNode : IsNode root []
unfolding strncpy
root-IsNode = record { key_text = refl; known = omega arith; value = as_object refl refl refl }

text_of_person-IsNode : IsNode text_of_person (b'x' ∷ b'y' ∷ [])
unfolding strncpy
text_of_person-IsNode = record {
  key_text = refl;
  known = omega arith;
  value = as_text refl refl refl;
}

abbrev delivered : GrpcStatus
delivered = record { ok = true; error_code = 0; error_message = [] }

abbrev stub : OperationRequest → M File (GrpcStatus × OperationResponse)
stub m = do resp ← apply_rpc floats junk 9 m; pure (delivered, resp)

one_item-HasTypes : HasTypes one_item []
one_item-HasTypes = record {
  count = refl;
  each = λ i h ts e p. cc;
  apart = tt;
  cross = λ i k h e p q. cc;
}

insert-answered_example :
    (foff place : ℕ) × (g : File) × (nosql_gql_dbms.Client.Rpc.insert junk
        (λ v. [])
        (λ r. [])
        stub
        (insert_query person)
        one_item
      ≡ (ok (written (λ v. []) (λ r. []) []), g))
    × IsWellFormed g
    × Grows one_item g
    × IsReadBack g foff 0 place (node root null (node text_of_person null null null) null)
insert-answered_example =
    insert-answered floats junk 9 (λ v. []) (λ r. []) stub delivered refl (λ m f. refl) person
      one_item [] root null (node text_of_person null null null) null person-node
      (unfold before_nul in refl) one_item_wf one_item-HasTypes tt
      (unfold named_type before_nul string_ctor strncpy in omega arith)
      (
        ([], root-IsNode, omega arith),
        tt,
        ((b'x' ∷ b'y' ∷ [], text_of_person-IsNode, omega arith), tt, tt),
      )
      (omega arith)
