-- ===== src/Json/Compare.antt =====
-- The comparisons and searches of dbms/src/json/json.c.
use nosql_gql_dbms.Base.{
  ℕ, Bool, true, false, List, [], ◌∷◌, Option, none, some, ◌==◌, ltb, if◌then◌else◌, take, le_value,
}
use nosql_gql_dbms.Text.{Sign, less, equal, greater, string_cmp}
use nosql_gql_dbms.Json.{
  Json, null, node, JsonHead, Value, raw, text, type_int32, type_float, type_string, type_bool,
  type_object,
}
use nosql_gql_dbms.Json.TypeDef.{Attr, TypeDef}

-- What the hardware does with `float`, on the four bytes of one as a number.
pub record Floats : Type 0 where
  pub eq : ℕ → ℕ → Bool
  pub lt : ℕ → ℕ → Bool
  pub le : ℕ → ℕ → Bool

-- The members of the union that holds no pointer; `none` for the bytes of a pointer.
unfoldable pub word_val : Value → Option ℕ
word_val (raw bs) = some (le_value (take 4 bs))
word_val (text s) = none

unfoldable pub bool_val : Value → Option ℕ
bool_val (raw bs) = some (le_value (take 1 bs))
bool_val (text s) = none

unfoldable pub string_val : Value → Option (List ℕ)
string_val (raw bs) = none
string_val (text s) = some s

abbrev pub both : {A : Type 0} → Option A → Option A → (A → A → Sign) → Option Sign
both (some a) (some b) f = some (f a b)
both (some a) none f = none
both none o f = none

abbrev pub sign_of : Bool → Sign
sign_of true = equal
sign_of false = greater

-- `json_cmp`. `none`: a union is read as what it does not hold.
unfoldable pub json_cmp : Floats → JsonHead → JsonHead → Option Sign
unfolding word_val bool_val string_val
json_cmp fl j1 j2 =
    if ltb j2.type j1.type
    then some greater
    else if ltb j1.type j2.type
    then some less
    else elim (string_cmp j1.key j2.key) [
      | less ↦ some less
      | greater ↦ some greater
      | equal ↦
          if j1.type == type_string
          then both (string_val j1.value) (string_val j2.value) string_cmp
          else if j1.type == type_int32
          then both (word_val j1.value) (word_val j2.value) (λ a b. sign_of (a == b))
          else if j1.type == type_float
          then both (word_val j1.value) (word_val j2.value) (λ a b. sign_of (fl.eq a b))
          else if j1.type == type_bool
          then both (bool_val j1.value) (bool_val j2.value) (λ a b. sign_of (a == b))
          else if j1.type == type_object
          then some equal
          else some greater
    ]

-- The loop of `json_is_apply_type`: the sons are walked by `next`. `true` is the status OK.
unfoldable pub apply_loop : List Attr → Json → Bool
apply_loop [] son = true
apply_loop (a ∷ rest) null = false
apply_loop (a ∷ rest) (node j b s next) = elim (string_cmp a.name j.key) [
  | equal ↦ if a.type == j.type then apply_loop rest next else false
  | _ ↦ apply_loop (a ∷ rest) next
]

unfoldable pub json_is_apply_type : JsonHead → Json → TypeDef → Bool
unfolding apply_loop
json_is_apply_type j son t = if j.type == type_object then apply_loop t.attr_list son else true

-- The loop of `json_son_by_key`: the sons are walked by `bro`.
unfoldable pub son_loop : Json → List ℕ → Json
son_loop null key = null
son_loop (node j b s n) key = elim (string_cmp j.key key) [
  | equal ↦ node j b s n
  | _ ↦ son_loop b key
]

unfoldable pub json_son_by_key : Json → List ℕ → Json
unfolding son_loop
json_son_by_key null key = null
json_son_by_key (node j b s n) key = son_loop s key
