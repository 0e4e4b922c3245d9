-- ===== src/Client/Select.antt =====
-- The select query of the client as the data base gets it.
use nosql_gql_dbms.Base.{arith, le_value, ◌==◌, ==→eq, eq→==, inl, inr}
use nosql_gql_dbms.Network.Insert.{Sign-cases}
use nosql_gql_dbms.Client.{FieldNode, field_bool}
use nosql_gql_dbms.Base.{Bool, ◌≢◌, some, true, false, le_bytes}
use nosql_gql_dbms.Json.{JsonHead, node, null, raw, text, Value}
use nosql_gql_dbms.Json.Laws.{brothers}
use nosql_gql_dbms.Json.Compare.{bool_val, son_loop, json_son_by_key}
use nosql_gql_dbms.Network.{bool_byte, value_of}
use nosql_gql_dbms.Query.{eq, value_check, bool_check, query_item_check, drill, on_both}
use nosql_gql_dbms.Text.{less, greater, string_cmp, string_ctor, equal, Sign}
use nosql_gql_dbms.Network.{to_query_item, to_query, request_of, to_command, OperationRequest}
use nosql_gql_dbms.Network.{Fields, ConditionalItem}
use nosql_gql_dbms.Network.Laws.{items, to_query_iff}
use nosql_gql_dbms.Client.Message.{add_keys, item_message, conditional_message}
use nosql_gql_dbms.Client.{
  PropertyNode, ConditionBodyNode, select_query, to_request, select_request, operation_request,
  to_conditional, to_conditional_item,
}
use nosql_gql_dbms.User.{read_cmd}
use nosql_gql_dbms.Query.{Query, QueryItem, query_check}
use nosql_gql_dbms.Query.Laws.{AllPass}
use nosql_gql_dbms.Json.{Json}
use nosql_gql_dbms.Json.Compare.{Floats}
use nosql_gql_dbms.Json.TypeDef.{TypeDef}
use nosql_gql_dbms.Base.{[], ◌∷◌, ◌≡◌, ◌∙◌, ◌↔◌, List, Option, ℕ, refl, sym, ap, ◌++◌}
use mathlib.Core.List.{append_assoc, append-nil}

-- The fields of a document have a bool under the key, as the lowest byte of the first field of the key.
pub data HasBool (key : List ℕ) (v : Bool) : List JsonHead → Type 0 where
  first :
      {j : JsonHead} {js : List JsonHead} {byte : ℕ} {bs : List ℕ}
      → string_cmp j.key key ≡ equal
      → j.value ≡ raw (byte ∷ bs)
      → byte ≡ bool_byte v
      → HasBool key v (j ∷ js)
  further :
      {j : JsonHead} {js : List JsonHead}
      → string_cmp j.key key ≢ equal
      → HasBool key v js
      → HasBool key v (j ∷ js)

add_keys-append : (set ks : List (List ℕ)) → add_keys set ks ≡ set ++ ks
unfolding add_keys
add_keys-append set [] = sym (append-nil set)
add_keys-append set (k ∷ ks) = add_keys-append (set ++ (k ∷ [])) ks ∙ append_assoc set (k ∷ []) ks

-- The message of the conditions holds all of them, in their order.
conditional_message-same : (cs : List ConditionalItem) → conditional_message cs ≡ cs
unfolding conditional_message item_message
conditional_message-same [] = refl
conditional_message-same (c ∷ rest) =
    λ i. record c { path = add_keys-append [] c.path i } ∷ conditional_message-same rest i

-- The command of a select query.
pub to_command-select :
    (junk : Fields) (c : ConditionBodyNode)
    → to_command (request_of (operation_request (to_request junk (select_query c))))
      ≡ read_cmd (to_query (to_conditional c.condition))
unfolding to_request select_request operation_request request_of to_command
to_command-select junk c =
    ap (λ cs. read_cmd (to_query cs)) (conditional_message-same (to_conditional c.condition))

-- Names with bools, as the properties that the parser makes of `name EQ true` and the like.
abbrev pub equalities : (unset : FieldNode) → List (List ℕ × Bool) → List PropertyNode
equalities unset [] = []
equalities unset ((name, v) ∷ rest) =
    record { field = field_bool unset name v; cmp = eq } ∷ equalities unset rest

abbrev pub HasAll : List (List ℕ × Bool) → List JsonHead → Type 0
HasAll [] js = Unit
HasAll ((name, v) ∷ rest) js = HasBool (string_ctor name) v js × HasAll rest js

-- The value of each field fills its union.
abbrev pub AllFilled : List JsonHead → Type 0
AllFilled [] = Unit
AllFilled (j ∷ js) = (j.value ≢ raw []) × AllFilled js

-- The item of one property.
abbrev item_of : FieldNode → List ℕ → Bool → QueryItem
item_of unset name v =
    to_query_item (to_conditional_item (record { field = field_bool unset name v; cmp = eq }))

bool_val-item_of :
    (unset : FieldNode) (name : List ℕ) (v : Bool)
    → bool_val (item_of unset name v).query_val ≡ some (bool_byte v)
unfolding to_query_item to_conditional_item field_bool value_of bool_val bool_byte le_bytes le_value
bool_val-item_of unset name true = refl
bool_val-item_of unset name false = refl

one_byte : (b : ℕ) → le_value (b ∷ []) ≡ b
unfolding le_value
one_byte b = omega arith

-- The test of a bool against a union that is filled.
tests :
    (v : Bool) (x : Value)
    → x ≢ raw []
    → (on_both (bool_val x) (some (bool_byte v)) (λ a b. some (bool_check eq a b)) ≡ some true)
      ↔ ((byte : ℕ) × (bs : List ℕ) × (x ≡ raw (byte ∷ bs)) × (byte ≡ bool_byte v))
unfolding bool_val bool_check
tests v (text s) f = (λ e. cc, λ (byte, bs, e, p). cc)
tests v (raw []) f = absurd (f refl)
tests v (raw (b ∷ bs)) f = (
  λ e.
      let t : (le_value (b ∷ []) == bool_byte v) ≡ true = cc in
      (b, bs, refl, sym (one_byte b) ∙ ==→eq (le_value (b ∷ [])) (bool_byte v) t),
  λ (byte, cs, e, p).
      let h : b ≡ byte = cc in
      ap some (eq→== (le_value (b ∷ [])) (bool_byte v) (one_byte b ∙ h ∙ p)),
)

-- A son that has the key is found, and another is passed over.
son_loop-here :
    (j : JsonHead) (b s n : Json) (key : List ℕ)
    → string_cmp j.key key ≡ equal
    → son_loop (node j b s n) key ≡ node j b s n
unfolding son_loop
son_loop-here j b s n key e = rw (e, son_loop)

son_loop-further :
    (j : JsonHead) (b s n : Json) (key : List ℕ)
    → string_cmp j.key key ≢ equal
    → son_loop (node j b s n) key ≡ son_loop b key
unfolding son_loop
son_loop-further j b s n key d = go (string_cmp j.key key) refl
  where
    go : (c : Sign) → string_cmp j.key key ≡ c → son_loop (node j b s n) key ≡ son_loop b key
    go equal e = absurd (d e)
    go less e = rw (e, son_loop)
    go greater e = rw (e, son_loop)

module _ (fl : Floats) (unset : FieldNode) (name : List ℕ) (v : Bool) where
  abbrev found : Json → Option Bool
  found t = elim t [ null ↦ some false | node h b s n ↦ value_check fl (item_of unset name v) h ]

  value_check-bool :
      (h : JsonHead)
      → h.value ≢ raw []
      → (value_check fl (item_of unset name v) h ≡ some true)
        ↔ ((byte : ℕ) × (bs : List ℕ) × (h.value ≡ raw (byte ∷ bs)) × (byte ≡ bool_byte v))
  unfolding value_check to_query_item to_conditional_item field_bool bool_check
  value_check-bool h filled =
      let same : value_check fl (item_of unset name v) h
          ≡ on_both (bool_val h.value) (some (bool_byte v)) (λ a b. some (bool_check eq a b)) =
        ap (λ o. on_both (bool_val h.value) o (λ a b. some (bool_check eq a b)))
          (bool_val-item_of unset name v) in
      let (there, back) = tests v h.value filled in (λ e. there (sym same ∙ e), λ t. same ∙ back t)

  found-HasBool :
      (s : Json)
      → AllFilled (brothers s)
      → (found (son_loop s (string_ctor name)) ≡ some true)
        ↔ HasBool (string_ctor name) v (brothers s)
  unfolding son_loop
  found-HasBool null f = (λ e. cc, λ b. elim b [ ])
  found-HasBool (node j b s n) (filled, f) =
      elim (Sign-cases (string_cmp j.key (string_ctor name))) [
        | inl y ↦
            let (there, back) = value_check-bool j filled in
            let here = ap found (son_loop-here j b s n (string_ctor name) y) in
            (
              λ e. let (byte, bs, x, p) = there (sym here ∙ e) in first y x p,
              λ h. elim h [
                | first {byte} {bs} z x p ↦ here ∙ back (byte, bs, x, p)
                | further z h' ↦ absurd (z y)
              ],
            )
        | inr d ↦
            let (there, back) = found-HasBool b f in
            let on = ap found (son_loop-further j b s n (string_ctor name) d) in
            (
              λ e. further d (there (sym on ∙ e)),
              λ h. elim h [ first z x p ↦ absurd (d z) | further z h' ↦ on ∙ back h' ],
            )
      ]

  item_check :
      (j : JsonHead) (b s n : Json)
      → query_item_check fl (item_of unset name v) (node j b s n)
        ≡ found (son_loop s (string_ctor name))
  unfolding query_item_check drill json_son_by_key to_query_item to_conditional_item field_bool
  item_check j b s n = refl

AllPass-HasAll :
    (fl : Floats) (unset : FieldNode) (asks : List (List ℕ × Bool)) (j : JsonHead) (b s n : Json)
    → AllFilled (brothers s)
    → AllPass fl (items (to_conditional (equalities unset asks))) (node j b s n)
      ↔ HasAll asks (brothers s)
unfolding to_conditional
AllPass-HasAll fl unset [] j b s n f = (λ _. tt, λ _. tt)
AllPass-HasAll fl unset ((name, v) ∷ rest) j b s n f =
    let (there, back) = found-HasBool fl unset name v s f in
    let (all, all_back) = AllPass-HasAll fl unset rest j b s n f in
    let same = item_check fl unset name v j b s n in
    (λ (e, a). (there (sym same ∙ e), all a), λ (h, a). (same ∙ back h, all_back a))

-- Where the messages arrive as they are sent, the server makes a READ of a select query of the client
-- whose properties ask for bools by `==`. A document, none of whose fields has a union without bytes,
-- passes its query exactly when, for each name that is asked, some field has a key that is equal to the
-- name by `string_cmp`, and the lowest byte of the first such field is the bool that is asked, whatever
-- the type of the document is and whatever type the select names.
pub select_bools_iff :
    (transport : OperationRequest → OperationRequest)
    → ((m : OperationRequest) → transport m ≡ m)
    → (junk : Fields) (unset : FieldNode) (type_name : List ℕ) (asks : List (List ℕ × Bool))
    → (fl : Floats) (j : JsonHead) (b s n : Json) (type : Option TypeDef) → AllFilled (brothers s)
    → (q : Query) × (to_command (
          request_of (
            transport (
              operation_request (
                to_request junk (
                  select_query
                    (record { type_name = type_name; condition = equalities unset asks }))))))
        ≡ read_cmd q)
      × ((query_check fl q (node j b s n) type ≡ some true) ↔ HasAll asks (brothers s))
select_bools_iff transport arrives junk unset type_name asks fl j b s n type f =
    let c : ConditionBodyNode = record {
      type_name = type_name;
      condition = equalities unset asks;
    } in
    let (pass, pass_back) = to_query_iff fl (to_conditional c.condition) (node j b s n) type in
    let (all, all_back) = AllPass-HasAll fl unset asks j b s n f in
    (
      to_query (to_conditional c.condition),
      ap (λ m. to_command (request_of m))
            (arrives (operation_request (to_request junk (select_query c))))
          ∙ to_command-select junk c,
      (λ e. all (pass e), λ h. pass_back (all_back h)),
    )
