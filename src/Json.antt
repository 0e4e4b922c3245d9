-- ===== src/Json.antt =====
-- dbms/src/json/json.c: a document as a tree of nodes.
pub mod Compare
pub mod Laws
pub mod Pair
pub mod Memory
mod Tests
pub mod Entity
pub mod TypeDef
use nosql_gql_dbms.Base.{ℕ, List, [], Option, none, some, ◌==◌, if◌then◌else◌, replicate}
use nosql_gql_dbms.Text.{string_ctor}

-- `Json_type` of include/json/type.h, by its values: a number read from a file may be none of them.
abbrev pub type_int32 : ℕ
type_int32 = 0

abbrev pub type_float : ℕ
type_float = 1

abbrev pub type_string : ℕ
type_string = 2

abbrev pub type_bool : ℕ
type_bool = 3

abbrev pub type_object : ℕ
type_object = 4

-- The union `value`, eight bytes: a number, a float or a bool in the first of them, or the
-- pointer `string_val`, which is the text that it points at.
pub data Value : Type 0 where
  raw : List ℕ → Value
  text : List ℕ → Value

-- `sizeof(j->value)`
abbrev pub value_size : ℕ
value_size = 8

-- The members of a node but for its links.
pub record JsonHead : Type 0 where
  pub key : List ℕ
  pub type : ℕ
  pub value : Value
  pub foff : ℕ

-- A pointer to a `Json`: null, or a node with the links bro, son and next. (`dad` points back,
-- and only `json_dtor` follows it.)
pub data Json : Type 0 where
  null : Json
  node : JsonHead → Json → Json → Json → Json

-- `json_new` and `json_ctor`: the union and the links are cleared.
unfoldable pub json_ctor : ℕ → List ℕ → JsonHead
json_ctor type key = record {
  key = string_ctor key;
  type = type;
  value = raw (replicate value_size 0);
  foff = 0;
}

-- The bytes at `json_val_ptr`, `json_val_size` of them. `none`: a union is read as the pointer
-- that it does not hold, or the pointer as a number.
unfoldable pub json_val : JsonHead → Option (List ℕ)
json_val j =
    if j.type == type_object
    then some []
    else if j.type == type_string
    then elim j.value [ text s ↦ some s | raw bs ↦ none ]
    else elim j.value [ text s ↦ none | raw bs ↦ some bs ]

unfoldable pub json_add_bro : Json → Json → Json
json_add_bro null bro = null
json_add_bro (node j null s n) bro = node j bro s n
json_add_bro (node j (node k c t m) s n) bro = node j (json_add_bro (node k c t m) bro) s n

unfoldable pub json_add_son : Json → Json → Json
json_add_son null son = null
json_add_son (node j b null n) son = node j b son n
json_add_son (node j b (node k c s m) n) son = node j b (json_add_bro (node k c s m) son) n

-- `none` where the node to be put behind is null: its link is written.
unfoldable pub json_add_nxt : Json → Json → Option Json
json_add_nxt null next = some null
json_add_nxt (node j b s n) null = none
json_add_nxt (node j b s n) (node k c t m) = some (node j b s (node k c t n))
