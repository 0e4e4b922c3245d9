-- ===== src/Json/Laws.antt =====
-- The check of a document against a type, and the search of a son.
use nosql_gql_dbms.Base.{
  ℕ, ◌≡◌, ◌≢◌, ◌↔◌, refl, ap, List, [], ◌∷◌, ◌++◌, arith, inl, inr, ◌⊎◌, true, false, eq→==,
}
use nosql_gql_dbms.Text.{Sign, less, equal, greater, string_cmp}
use nosql_gql_dbms.Json.{Json, null, node, JsonHead, type_object, json_add_bro}
use nosql_gql_dbms.Json.Compare.{apply_loop, json_is_apply_type, son_loop, json_son_by_key}
use nosql_gql_dbms.Json.TypeDef.{TypeDef, Attr}

-- The chain of a node's brothers, and of a node's `next` links.
abbrev pub brothers : Json → List JsonHead
brothers null = []
brothers (node j b s n) = j ∷ brothers b

abbrev pub nexts : Json → List JsonHead
nexts null = []
nexts (node j b s n) = j ∷ nexts n

-- `json_add_bro` appends the brothers of the second tree to those of the first.
brothers-json_add_bro :
    (j : JsonHead) (b s n bro : Json)
    → brothers (json_add_bro (node j b s n) bro) ≡ brothers (node j b s n) ++ brothers bro
unfolding json_add_bro
brothers-json_add_bro j null s n bro = refl
brothers-json_add_bro j (node k c t m) s n bro =
    ap (λ xs. j ∷ xs) (brothers-json_add_bro k c t m bro)

-- A key with the name of an attribute, and the type that the attribute has.
abbrev pub Meets : Attr → JsonHead → Type 0
Meets a j = (string_cmp a.name j.key ≡ equal) × (a.type ≡ j.type)

-- An attribute list is matched by a list of fields: each attribute in its order by the first field of
-- its name behind the last match.
pub data Covers : List Attr → List JsonHead → Type 0 where
  done : {js : List JsonHead} → Covers [] js
  take_field :
      {a : Attr} {rest : List Attr} {j : JsonHead} {js : List JsonHead}
      → Meets a j
      → Covers rest js
      → Covers (a ∷ rest) (j ∷ js)
  skip_field :
      {a : Attr} {rest : List Attr} {j : JsonHead} {js : List JsonHead}
      → string_cmp a.name j.key ≢ equal
      → Covers (a ∷ rest) js
      → Covers (a ∷ rest) (j ∷ js)

Sign-cases : (c : Sign) → (c ≡ equal) ⊎ (c ≢ equal)
Sign-cases equal = inl refl
Sign-cases less = inr (λ e. cc)
Sign-cases greater = inr (λ e. cc)

apply_loop_sound :
    (as_ : List Attr) (son : Json) → apply_loop as_ son ≡ true → Covers as_ (nexts son)
unfolding apply_loop
apply_loop_sound [] son e = done
apply_loop_sound (a ∷ rest) null e = cc
apply_loop_sound (a ∷ rest) (node j b s n) e = elim (Sign-cases (string_cmp a.name j.key)) [
  | inl same ↦ take_field (same, ground arith) (apply_loop_sound rest n (ground arith))
  | inr other ↦ skip_field other (apply_loop_sound (a ∷ rest) n (ground arith))
]

apply_loop_complete :
    (as_ : List Attr) (son : Json) → Covers as_ (nexts son) → apply_loop as_ son ≡ true
unfolding apply_loop
apply_loop_complete [] son c = refl
apply_loop_complete (a ∷ rest) null c = elim c [ ]
apply_loop_complete (a ∷ rest) (node j b s n) (take_field m c) =
    ground (arith, apply_loop_complete rest n c)
apply_loop_complete (a ∷ rest) (node j b s n) (skip_field o c) =
    ground (arith, apply_loop_complete (a ∷ rest) n c)

-- An object is taken for a type exactly when the attributes of the type are met in their order by the
-- chain of `next` links from its first son.
pub json_is_apply_type_iff :
    (j : JsonHead) (son : Json) (t : TypeDef)
    → j.type ≡ type_object
    → (json_is_apply_type j son t ≡ true) ↔ Covers t.attr_list (nexts son)
unfolding json_is_apply_type
json_is_apply_type_iff j son t e =
    rw (eq→== j.type type_object e)
      (apply_loop_sound t.attr_list son, apply_loop_complete t.attr_list son)

-- An object whose first son has no `next` link is refused for each type with two attributes or more,
-- whatever its other fields are.
pub json_is_apply_type-two :
    (j k : JsonHead) (b s : Json) (t : TypeDef) (a1 a2 : Attr) (rest : List Attr)
    → j.type ≡ type_object
    → t.attr_list ≡ a1 ∷ a2 ∷ rest
    → json_is_apply_type j (node k b s null) t ≡ false
unfolding json_is_apply_type apply_loop
json_is_apply_type-two j k b s t a1 a2 rest e l = rw (eq→== j.type type_object e, l) (ground arith)

-- The fields from the first one of a name on.
abbrev pub from_key : List ℕ → List JsonHead → List JsonHead
from_key key [] = []
from_key key (j ∷ js) = elim (string_cmp j.key key) [ equal ↦ j ∷ js | _ ↦ from_key key js ]

son_loop-from_key :
    (s : Json) (key : List ℕ) → brothers (son_loop s key) ≡ from_key key (brothers s)
unfolding son_loop
son_loop-from_key null key = refl
son_loop-from_key (node j b s n) key = ground (arith, son_loop-from_key b key)

-- The search by key returns the first of the sons that has the key, with the brothers behind it, and
-- null when none has.
pub json_son_by_key-from_key :
    (j : JsonHead) (b s n : Json) (key : List ℕ)
    → brothers (json_son_by_key (node j b s n) key) ≡ from_key key (brothers s)
unfolding json_son_by_key
json_son_by_key-from_key j b s n key = son_loop-from_key s key
