-- ===== src/Json/Memory.antt =====
-- What the destructors of dbms/src/json, dbms/src/object and dbms/src/utils free, as the list of the blocks
-- in their order. `none`: a union is read as the pointer that it does not hold.
use nosql_gql_dbms.Base.{
  ℕ, ◌≡◌, refl, ap, ap₂, ◌∙◌, inl, inr, List, [], ◌∷◌, ◌++◌, Option, none, some, ◌==◌,
  if◌then◌else◌, Bool-cases,
}
use nosql_gql_dbms.Json.Entity.{Entity}
use nosql_gql_dbms.Json.{Value}
use nosql_gql_dbms.Json.{null, node, raw, text}
use mathlib.Core.List.{append_assoc}
use nosql_gql_dbms.Base.{==→eq}
use nosql_gql_dbms.Json.{type_string, Json, JsonHead}
use nosql_gql_dbms.Json.TypeDef.{TypeDef, Attr}

-- a block of memory, by what it holds
pub data Block : Type 0 where
  of_chars : List ℕ → Block
  of_string : List ℕ → Block
  of_json : JsonHead → Block
  of_entity : Entity → Block
  of_pair : Block
  of_attr : Attr → Block
  of_attr_list : Block
  of_type : Block

unfoldable pub string_dtor : List ℕ → List Block
string_dtor s = of_chars s ∷ of_string s ∷ []

-- one after the other
abbrev pub then_free : Option (List Block) → Option (List Block) → Option (List Block)
then_free none ys = none
then_free (some xs) none = none
then_free (some xs) (some ys) = some (xs ++ ys)

-- The key, the text of the value, and the node itself.
unfoldable pub free_node : JsonHead → Option (List Block)
unfolding string_dtor
free_node j =
    if j.type == type_string
    then elim j.value [
      | raw bs ↦ none
      | text s ↦ some (string_dtor j.key ++ string_dtor s ++ (of_json j ∷ []))
    ]
    else some (string_dtor j.key ++ (of_json j ∷ []))

-- `json_dtor_with_bro`, which is also the loop of `json_dtor` over the sons.
unfoldable pub json_dtor_with_bro : Json → Option (List Block)
unfolding free_node
json_dtor_with_bro null = some []
json_dtor_with_bro (node j bro son next) =
    then_free (then_free (json_dtor_with_bro son) (free_node j)) (json_dtor_with_bro bro)

-- `json_dtor` of a node whose dad is null, as it is of every document.
unfoldable pub json_dtor : Json → Option (List Block)
unfolding json_dtor_with_bro free_node
json_dtor null = none
json_dtor (node j bro son next) = then_free (json_dtor_with_bro son) (free_node j)

unfoldable pub entity_dtor : Entity → List Block
entity_dtor e = of_entity e ∷ []

unfoldable pub pair_json_entity_dtor : Json × Entity → Option (List Block)
unfolding json_dtor_with_bro entity_dtor
pair_json_entity_dtor (j, e) =
    then_free (json_dtor_with_bro j) (some (entity_dtor e ++ (of_pair ∷ [])))

unfoldable pub attr_dtor : Attr → List Block
unfolding string_dtor
attr_dtor a = string_dtor a.name ++ (of_attr a ∷ [])

-- `list_Attr_dtor`
unfoldable pub attr_list_dtor : List Attr → List Block
unfolding attr_dtor
attr_list_dtor [] = of_attr_list ∷ []
attr_list_dtor (a ∷ rest) = attr_dtor a ++ attr_list_dtor rest

-- `type_dtor` of a type with a name and a list
unfoldable pub type_dtor : TypeDef → List Block
unfolding string_dtor attr_list_dtor
type_dtor t = string_dtor t.name ++ attr_list_dtor t.attr_list ++ (of_type ∷ [])

-- A text stands where the type says so.
abbrev pub AllHeld : Json → Type 0
AllHeld null = Unit
AllHeld (node j bro son next) =
    (j.type ≡ type_string → (s : List ℕ) × (j.value ≡ text s)) × AllHeld bro × AllHeld son

-- the nodes, each behind its sons and before its brothers
abbrev pub postorder : Json → List JsonHead
postorder null = []
postorder (node j bro son next) = postorder son ++ (j ∷ postorder bro)

-- the nodes among the blocks
abbrev pub freed_nodes : List Block → List JsonHead
freed_nodes [] = []
freed_nodes (of_json j ∷ bs) = j ∷ freed_nodes bs
freed_nodes (of_chars s ∷ bs) = freed_nodes bs
freed_nodes (of_string s ∷ bs) = freed_nodes bs
freed_nodes (of_entity e ∷ bs) = freed_nodes bs
freed_nodes (of_pair ∷ bs) = freed_nodes bs
freed_nodes (of_attr a ∷ bs) = freed_nodes bs
freed_nodes (of_attr_list ∷ bs) = freed_nodes bs
freed_nodes (of_type ∷ bs) = freed_nodes bs

pub freed_nodes-append :
    (xs ys : List Block) → freed_nodes (xs ++ ys) ≡ freed_nodes xs ++ freed_nodes ys
freed_nodes-append [] ys = refl
freed_nodes-append (of_json j ∷ xs) ys = ap (λ r. j ∷ r) (freed_nodes-append xs ys)
freed_nodes-append (of_chars s ∷ xs) ys = freed_nodes-append xs ys
freed_nodes-append (of_string s ∷ xs) ys = freed_nodes-append xs ys
freed_nodes-append (of_entity e ∷ xs) ys = freed_nodes-append xs ys
freed_nodes-append (of_pair ∷ xs) ys = freed_nodes-append xs ys
freed_nodes-append (of_attr a ∷ xs) ys = freed_nodes-append xs ys
freed_nodes-append (of_attr_list ∷ xs) ys = freed_nodes-append xs ys
freed_nodes-append (of_type ∷ xs) ys = freed_nodes-append xs ys

freed_nodes-free_node :
    (j : JsonHead)
    → (j.type ≡ type_string → (s : List ℕ) × (j.value ≡ text s))
    → (bs : List Block) × (free_node j ≡ some bs) × (freed_nodes bs ≡ j ∷ [])
unfolding free_node string_dtor
freed_nodes-free_node j h = elim (Bool-cases (j.type == type_string)) [
  | inl y ↦
      let (s, e) = h (==→eq j.type type_string y) in
      (
        string_dtor j.key ++ string_dtor s ++ (of_json j ∷ []),
        rw y (
            ap
              (λ (v : Value). elim v [
                | raw bs ↦ none
                | text r ↦ some (string_dtor j.key ++ string_dtor r ++ (of_json j ∷ []))
              ])
              e),
        refl,
      )
  | inr n ↦ (string_dtor j.key ++ (of_json j ∷ []), rw n refl, refl)
]

-- Where a text stands in each node whose type says so, `json_dtor_with_bro` frees each node of the tree
-- exactly once: each behind its sons, and before its brothers.
pub json_dtor_with_bro-frees :
    (t : Json)
    → AllHeld t
    → (bs : List Block) × (json_dtor_with_bro t ≡ some bs) × (freed_nodes bs ≡ postorder t)
unfolding json_dtor_with_bro
json_dtor_with_bro-frees null h = ([], refl, refl)
json_dtor_with_bro-frees (node j bro son next) (a, b, c) =
    let (xs, x, xn) = json_dtor_with_bro-frees son c in
    let (ys, y, yn) = freed_nodes-free_node j a in
    let (zs, z, zn) = json_dtor_with_bro-frees bro b in
    (
      (xs ++ ys) ++ zs,
      rw (x, y, z) refl,
      freed_nodes-append (xs ++ ys) zs
          ∙ ap₂ (λ p q. p ++ q) (freed_nodes-append xs ys ∙ ap₂ (λ p q. p ++ q) xn yn) zn
          ∙ append_assoc (postorder son) (j ∷ []) (postorder bro),
    )
