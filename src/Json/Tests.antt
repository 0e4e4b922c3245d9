-- ===== src/Json/Tests.antt =====
-- Objects, and the theorems on their sons at them.
use nosql_gql_dbms.Base.{◌≡◌, ◌↔◌, refl, [], ◌∷◌, List, ℕ, true, false, replicate}
use nosql_gql_dbms.Text.{string_cmp}
use nosql_gql_dbms.Json.{
  Json, null, node, JsonHead, raw, value_size, type_int32, type_bool, type_object,
}
use nosql_gql_dbms.Json.Compare.{json_is_apply_type}
use nosql_gql_dbms.Json.TypeDef.{TypeDef}
use nosql_gql_dbms.Json.Laws.{Covers, nexts, json_is_apply_type_iff, json_is_apply_type-two}

abbrev field : List ℕ → ℕ → JsonHead
field key type = record { key = key; type = type; value = raw (replicate value_size 0); foff = 0 }

abbrev old : JsonHead
old = field (b'o' ∷ []) type_bool

abbrev age : JsonHead
age = field (b'a' ∷ []) type_int32

abbrev sons : Json
sons = node old (node age null null null) null null

abbrev person : JsonHead
person = field (b'p' ∷ []) type_object

abbrev one_attr : TypeDef
one_attr = record {
  name = b'T' ∷ [];
  attr_list = record { name = b'o' ∷ []; type = type_bool } ∷ [];
}

abbrev two_attrs : TypeDef
two_attrs = record {
  name = b'T' ∷ [];
  attr_list =
      record { name = b'o' ∷ []; type = type_bool }
      ∷ record { name = b'a' ∷ []; type = type_int32 }
      ∷ [];
}

-- An object with a field that has the one attribute is taken for the type.
takes-one : json_is_apply_type person sons one_attr ≡ true
unfolding json_is_apply_type string_cmp
takes-one = refl

json_is_apply_type_iff_example :
    (json_is_apply_type person sons one_attr ≡ true) ↔ Covers one_attr.attr_list (nexts sons)
json_is_apply_type_iff_example = json_is_apply_type_iff person sons one_attr refl

json_is_apply_type-two_example : json_is_apply_type person sons two_attrs ≡ false
json_is_apply_type-two_example =
    json_is_apply_type-two person old (node age null null null) null two_attrs
      (record { name = b'o' ∷ []; type = type_bool })
      (record { name = b'a' ∷ []; type = type_int32 }) [] refl refl
