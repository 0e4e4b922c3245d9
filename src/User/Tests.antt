-- ===== src/User/Tests.antt =====
-- A type added to a file with a document, and an insert of that type.
use nosql_gql_dbms.Base.{ℕ, ◌≡◌, refl, [], ◌∷◌, none, arith, ok, failed, true, replicate}
use nosql_gql_dbms.Json.{raw}
use nosql_gql_dbms.File.TypeDefs.{find_type}
use nosql_gql_dbms.Section.Extents.RoundTrip.{as_text, as_object}
use nosql_gql_dbms.File.TypeDefs.Add.{Added}
use nosql_gql_dbms.Json.TypeDef.{TypeDef}
use nosql_gql_dbms.Section.Header.{get_fileoff}
use nosql_gql_dbms.File.TypeDefs.Held.{HasTypes}
use nosql_gql_dbms.Json.{type_string, type_object, value_size, Json, JsonHead}
use nosql_gql_dbms.File.Tree.{Fits}
use nosql_gql_dbms.File.TypeDefs.Add.{add_type-Added}
use nosql_gql_dbms.File.{File, head_at}
use nosql_gql_dbms.Text.{strncmp, string_cmp, strncpy}
use nosql_gql_dbms.Json.Compare.{json_is_apply_type, apply_loop}
use nosql_gql_dbms.File.TypeDefs.Find.{
  find_type-HasTypes, FindsIn-Adds, FindsIn, AllLack, add_type-find_type,
}
use nosql_gql_dbms.Section.Types.RoundTrip.{IsTypeDef}
use nosql_gql_dbms.File.WellFormed.{Grows, IsWellFormed}
use nosql_gql_dbms.Section.Extents.RoundTrip.{IsNode}
use nosql_gql_dbms.File.Tree.RoundTrip.{IsReadBack}
use nosql_gql_dbms.User
use nosql_gql_dbms.User.{insert}
use nosql_gql_dbms.Json.{node, null, text}
use nosql_gql_dbms.File.TypeDefs.{add_type}
use nosql_gql_dbms.File.Find.Tests.{one_item, one_item_wf, floats}
use nosql_gql_dbms.User.Laws.{insert-IsReadBack}

-- A type with one attribute, a text of the key n.
abbrev type : TypeDef
type = record { name = b'p' ∷ []; attr_list = record { name = b'n' ∷ []; type = type_string } ∷ [] }

type-IsTypeDef : IsTypeDef type
unfolding strncpy
type-IsTypeDef = (refl, (refl, omega arith, tt))

one_item-HasTypes : HasTypes one_item []
one_item-HasTypes = record {
  count = refl;
  each = λ i h ts e p. cc;
  apart = tt;
  cross = λ i k h e p q. cc;
}

add_type-Added_example :
    (foff : ℕ) × (g : File) × (add_type type one_item ≡ (ok foff, g)) × Added type one_item [] g
add_type-Added_example =
    add_type-Added type type-IsTypeDef one_item [] one_item_wf one_item-HasTypes (omega arith)
      (omega arith)

add_type-find_type_example :
    (foff i soff : ℕ) × (g : File) × (add_type type one_item ≡ (ok foff, g))
    × (find_type (b'p' ∷ []) g ≡ (ok (i, (soff, type)), g))
    × IsWellFormed g
    × Grows one_item g
add_type-find_type_example =
    add_type-find_type type type-IsTypeDef one_item [] one_item_wf one_item-HasTypes tt
      (omega arith) (omega arith)

-- the file with the type
added : (foff : ℕ) × (g : File) × (add_type type one_item ≡ (ok foff, g)) × Added type one_item [] g
added =
    add_type-Added type type-IsTypeDef one_item [] one_item_wf one_item-HasTypes (omega arith)
      (omega arith)

abbrev g : File
g = added.1

abbrev a : Added type one_item [] g
a = added.3

find_type-HasTypes_example :
    ((i soff : ℕ) (t : TypeDef)
      → FindsIn (b'p' ∷ []) a.lists i soff t
      → find_type (b'p' ∷ []) g ≡ (ok (i, (soff, t)), g))
    × (AllLack (b'p' ∷ []) a.lists → find_type (b'p' ∷ []) g ≡ (failed, g))
find_type-HasTypes_example = find_type-HasTypes (b'p' ∷ []) g a.lists a.has

there : (i : ℕ) × (soff : ℕ) × FindsIn (b'p' ∷ []) a.lists i soff type
unfolding string_cmp strncmp
there = FindsIn-Adds a.adds (b'p' ∷ []) tt refl

abbrev name : JsonHead
name = record { key = b'n' ∷ []; type = type_string; value = text (b'x' ∷ b'y' ∷ []); foff = 0 }

abbrev person : JsonHead
person = record {
  key = b'p' ∷ [];
  type = type_object;
  value = raw (replicate value_size 0);
  foff = 0;
}

name-IsNode : IsNode name (b'x' ∷ b'y' ∷ [])
unfolding strncpy
name-IsNode = record { key_text = refl; known = omega arith; value = as_text refl refl refl }

person-IsNode : IsNode person []
unfolding strncpy
person-IsNode = record { key_text = refl; known = omega arith; value = as_object refl refl refl }

abbrev son : Json
son = node name null null null

person-Fits : Fits (node person null son null)
person-Fits =
    (([], person-IsNode, omega arith), tt, ((b'x' ∷ b'y' ∷ [], name-IsNode, omega arith), tt, tt))

applies : json_is_apply_type person son type ≡ true
unfolding json_is_apply_type apply_loop string_cmp strncmp
applies = refl

insert-IsReadBack_example :
    (foff : ℕ) × (h : File) × (User.apply floats 9
        (insert (node person null son null) (b'p' ∷ []))
        g
      ≡ (ok none, h))
    × IsWellFormed h
    × Grows g h
    × IsReadBack h foff 0
        (get_fileoff (head_at g.f_types there.0) there.1)
        (node person null son null)
insert-IsReadBack_example =
    insert-IsReadBack g a.lists a.has person null son null (b'p' ∷ []) a.wf there.0 there.1 type
      floats 9 there.2 applies person-Fits (omega (arith, a.lsp))
