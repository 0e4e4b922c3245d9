-- ===== src/Bench/Docs.antt =====
-- The documents, the type and the conditions of dbms/src/bench/bench.c.
use nosql_gql_dbms.Base.{ℕ, List, [], ◌∷◌, ◌++◌, Option, replicate}
use nosql_gql_dbms.Base.{codes}
use nosql_gql_dbms.Json.{
  json_ctor, type_object, type_int32, type_bool, type_string, Json, json_add_son,
}
use nosql_gql_dbms.Query.{query_item_add, QueryItem, Query}
use nosql_gql_dbms.Base.{le_bytes}
use nosql_gql_dbms.Json.TypeDef.{TypeDef}
use nosql_gql_dbms.Text.{string_ctor}
use nosql_gql_dbms.Json.{null, node, raw, text}
use nosql_gql_dbms.Query.{eq}

-- `JSON_VALUE_INIT` of include/json/json.h, for each type: the value is put into the cleared union.
unfoldable pub json_init_int32 : List ℕ → ℕ → Json
json_init_int32 key v =
    node (record (json_ctor type_int32 key) { value = raw (le_bytes 4 v ++ replicate 4 0) }) null
      null null

unfoldable pub json_init_string : List ℕ → List ℕ → Json
json_init_string key v = node (record (json_ctor type_string key) { value = text v }) null null null

unfoldable pub json_init_bool : List ℕ → ℕ → Json
json_init_bool key v =
    node (record (json_ctor type_bool key) { value = raw (le_bytes 1 v ++ replicate 7 0) }) null
      null null

unfoldable pub json_init_object : List ℕ → Json
json_init_object key = node (json_ctor type_object key) null null null

-- The city with its location and its amount, and the info with the city and a flag.
unfoldable pub city_json : ℕ → Json
unfolding json_add_son json_init_object json_init_string json_init_int32
city_json amount =
    json_add_son
      (json_add_son (json_init_object (codes "city"))
        (json_init_string (codes "location") (string_ctor (codes "Moscow"))))
      (json_init_int32 (codes "amount") amount)

unfoldable pub flag_json : Json
unfolding json_init_bool
flag_json = json_init_bool (codes "flag") 1

unfoldable pub info_json : ℕ → Json
unfolding json_add_son json_init_object city_json flag_json
info_json amount =
    json_add_son (json_add_son (json_init_object (codes "info")) (city_json amount)) flag_json

unfoldable pub glossary_json : Json
unfolding json_add_son json_init_object json_init_string
glossary_json =
    json_add_son
      (json_add_son
        (json_add_son
          (json_add_son (json_init_object (codes "glossary"))
            (json_init_string (codes "sort") (string_ctor (codes "SGML"))))
          (json_init_string (codes "glossterm")
            (string_ctor (codes "Standard Generalized Markup Language"))))
        (json_init_string (codes "acronym") (string_ctor (codes "SGML"))))
      (json_init_string (codes "abbrev") (string_ctor (codes "ISO 8879:1986")))

-- What `location_json` points at: the first son of the city, which has the amount as its brother by then.
unfoldable pub location_json : ℕ → Json
unfolding city_json
location_json amount = elim (city_json amount) [ null ↦ null | node j bro son next ↦ son ]

-- `TYPE_INIT`
unfoldable pub init_type : List ℕ → TypeDef
init_type name = record { name = string_ctor name; attr_list = [] }

-- An item that compares the bool at the key `flag`, with the type that is given.
unfoldable pub flag_item : ℕ → QueryItem
flag_item type = record {
  key = string_ctor (codes "flag") ∷ [];
  query_val = raw (le_bytes 1 1 ++ replicate 7 0);
  type = type;
  cmp_op = eq;
}

unfoldable pub sort_item : QueryItem
sort_item = record {
  key = string_ctor (codes "sort") ∷ [];
  query_val = text (string_ctor (codes "SGML"));
  type = type_string;
  cmp_op = eq;
}

unfoldable pub one_item_query : Option (List ℕ) → QueryItem → Query
unfolding query_item_add
one_item_query name item = query_item_add (record { type_name = name; f_query_itm = [] }) item
