-- ===== src/Json/Pair/Tests.antt =====
-- Pairs of a document and an entity.
use nosql_gql_dbms.Base.{◌≡◌, ◌↔◌, [], ◌∷◌, arith, replicate}
use nosql_gql_dbms.Json.Entity.{Entity, IsEntity}
use nosql_gql_dbms.Json.Entity.{entity_ctor, entity_clear}
use nosql_gql_dbms.Json.{type_object, value_size, type_string, JsonHead}
use nosql_gql_dbms.Json.Pair.{Pair, pair_json_entity_cmp-equal_iff, pair_json_entity_cmp}
use nosql_gql_dbms.Text.{equal}
use nosql_gql_dbms.Json.{raw, text}

abbrev name : JsonHead
name = record { key = b'n' ∷ []; type = type_string; value = text (b'x' ∷ []); foff = 40 }

abbrev person : JsonHead
person = record {
  key = b'p' ∷ [];
  type = type_object;
  value = raw (replicate value_size 0);
  foff = 300;
}

abbrev ent : Entity
ent = entity_ctor 1 1 type_string (record { dad_ptr = 300; bro_ptr = 0; son_ptr = 0 }) entity_clear

ent-IsEntity : IsEntity ent
unfolding entity_ctor
ent-IsEntity = omega arith

abbrev pair : Pair JsonHead Entity
pair = record { f = name; s = ent }

pair_json_entity_cmp-equal_iff_example :
    (pair_json_entity_cmp pair (record pair { f = person }) ≡ equal)
    ↔ ((name.foff ≡ person.foff) × (ent ≡ ent))
pair_json_entity_cmp-equal_iff_example =
    pair_json_entity_cmp-equal_iff pair (record pair { f = person }) (omega arith) (omega arith)
      ent-IsEntity ent-IsEntity
