-- ===== src/Query.antt =====
-- dbms/src/query: the conditions of a query, and the check of a document against them.
pub mod Laws
mod Tests
use nosql_gql_dbms.Base.{
  ◌-◌, ℕ, ◌+◌, ◌^◌, Bool, true, false, ◌&&◌, List, [], ◌∷◌, Option, none, some, ◌==◌, ltb, leb,
  if◌then◌else◌,
}
use nosql_gql_dbms.Text.{equal, string_cmp}
use nosql_gql_dbms.Json.{
  Json, null, node, JsonHead, Value, type_int32, type_float, type_string, type_bool,
}
use nosql_gql_dbms.Json.TypeDef.{TypeDef}
use nosql_gql_dbms.Json.Compare.{Floats, word_val, bool_val, string_val, json_son_by_key}

-- `Cmp` of include/query/query_item.h.
pub data Cmp : Type 0 where
  gt ge lt le contained eq : Cmp

-- `key` is the path of names down to the field.
pub record QueryItem : Type 0 where
  pub key : List (List ℕ)
  pub query_val : Value
  pub type : ℕ
  pub cmp_op : Cmp

-- Without a type name any type will do.
pub record Query : Type 0 where
  pub type_name : Option (List ℕ)
  pub f_query_itm : List QueryItem

-- The constructors: `query_item_ctor` leaves the value as it is, `query_ctor` the items.
unfoldable pub query_item_ctor : QueryItem → ℕ → List (List ℕ) → Cmp → QueryItem
query_item_ctor q_itm j_type key cmp_op = record q_itm { key = key; type = j_type; cmp_op = cmp_op }

unfoldable pub query_ctor : Query → List ℕ → Query
query_ctor q str = record q { type_name = some str }

unfoldable pub insert_second : QueryItem → List QueryItem → List QueryItem
insert_second item [] = item ∷ []
insert_second item (first ∷ rest) = first ∷ item ∷ rest

-- `query_item_add` inserts behind the first item.
unfoldable pub query_item_add : Query → QueryItem → Query
unfolding insert_second
query_item_add q item = record q { f_query_itm = insert_second item q.f_query_itm }

-- `strcmp(a, b) == 0` on two blocks: `none` where it runs off a block before it sees a NUL or a
-- difference.
unfoldable pub strcmp_eq : List ℕ → List ℕ → Option Bool
strcmp_eq [] bs = none
strcmp_eq (a ∷ s) [] = none
strcmp_eq (a ∷ s) (b ∷ t) =
    if a == b then (if a == 0 then some true else strcmp_eq s t) else some false

-- the text before the NUL; `none` where there is no NUL
unfoldable pub c_string : List ℕ → Option (List ℕ)
c_string [] = none
c_string (b ∷ bs) =
    if b == 0 then some [] else elim (c_string bs) [ none ↦ none | some s ↦ some (b ∷ s) ]

unfoldable pub starts_with : List ℕ → List ℕ → Bool
starts_with [] t = true
starts_with (a ∷ s) [] = false
starts_with (a ∷ s) (b ∷ t) = a == b && starts_with s t

unfoldable pub contains : List ℕ → List ℕ → Bool
unfolding starts_with
contains s [] = starts_with s []
contains s (b ∷ t) = if starts_with s (b ∷ t) then true else contains s t

-- `strstr(text, part) != NULL`: both must end in a NUL inside their blocks.
unfoldable pub strstr_found : List ℕ → List ℕ → Option Bool
unfolding c_string contains
strstr_found t part = elim (c_string t) [
  | none ↦ none
  | some s ↦ elim (c_string part) [ none ↦ none | some p ↦ some (contains p s) ]
]

abbrev pub on_both : {A : Type 0} → Option A → Option A → (A → A → Option Bool) → Option Bool
on_both (some a) (some b) f = f a b
on_both (some a) none f = none
on_both none o f = none

-- `int32_t` order: the sign bit turned makes it the order of the patterns.
unfoldable pub biased : ℕ → ℕ
biased w = if ltb w (2 ^ 31) then w + 2 ^ 31 else w - 2 ^ 31

-- The cases of the two numeric types. `assert` of a text passes, and the case falls through to
-- those below, down to `return false`.
unfoldable pub int32_check : Cmp → ℕ → ℕ → Bool
unfolding biased
int32_check eq a b = a == b
int32_check gt a b = ltb (biased b) (biased a)
int32_check ge a b = leb (biased b) (biased a)
int32_check lt a b = ltb (biased a) (biased b)
int32_check le a b = leb (biased a) (biased b)
int32_check contained a b = false

unfoldable pub float_check : Floats → Cmp → ℕ → ℕ → Bool
float_check fl eq a b = fl.eq a b
float_check fl gt a b = fl.lt b a
float_check fl ge a b = fl.le b a
float_check fl lt a b = fl.lt a b
float_check fl le a b = fl.le a b
float_check fl contained a b = false

unfoldable pub bool_check : Cmp → ℕ → ℕ → Bool
bool_check eq a b = a == b
bool_check _ a b = false

-- A text under an order falls through to the comparison of pointers as numbers: `none`.
unfoldable pub string_check : Cmp → List ℕ → List ℕ → Option Bool
unfolding strcmp_eq strstr_found
string_check eq a b = strcmp_eq a b
string_check contained a b = strstr_found a b
string_check _ a b = none

-- The `switch` of `query_item_check`, by the type of the item and not by that of the node.
unfoldable pub value_check : Floats → QueryItem → JsonHead → Option Bool
unfolding int32_check float_check bool_check string_check
value_check fl q j =
    if q.type == type_string
    then on_both (string_val j.value) (string_val q.query_val) (string_check q.cmp_op)
    else if q.type == type_int32
    then on_both (word_val j.value) (word_val q.query_val) (λ a b. some (int32_check q.cmp_op a b))
    else if q.type == type_float
    then on_both (word_val j.value) (word_val q.query_val)
        (λ a b. some (float_check fl q.cmp_op a b))
    else if q.type == type_bool
    then on_both (bool_val j.value) (bool_val q.query_val) (λ a b. some (bool_check q.cmp_op a b))
    else some false

-- Drill down to the field.
unfoldable pub drill : Json → List (List ℕ) → Json
drill j [] = j
drill j (name ∷ rest) = drill (json_son_by_key j name) rest

unfoldable pub query_item_check : Floats → QueryItem → Json → Option Bool
unfolding drill value_check
query_item_check fl q j = elim (drill j q.key) [
  | null ↦ some false
  | node h b s n ↦ value_check fl q h
]

-- `query_check_type`: `none` is the type that `type_new` returns, with no name.
unfoldable pub query_check_type : Query → Option TypeDef → Bool
query_check_type q type = elim q.type_name [
  | none ↦ true
  | some name ↦ elim type [
    | none ↦ false
    | some t ↦ elim (string_cmp name t.name) [ equal ↦ true | _ ↦ false ]
  ]
]

unfoldable pub check_items : Floats → List QueryItem → Json → Option Bool
check_items fl [] j = some true
check_items fl (q ∷ rest) j = elim (query_item_check fl q j) [
  | none ↦ none
  | some false ↦ some false
  | some true ↦ check_items fl rest j
]

-- `query_check`: every item, and then the type.
unfoldable pub query_check : Floats → Query → Json → Option TypeDef → Option Bool
unfolding check_items query_check_type
query_check fl q j type = elim (check_items fl q.f_query_itm j) [
  | none ↦ none
  | some false ↦ some false
  | some true ↦ some (query_check_type q type)
]
