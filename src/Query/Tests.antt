-- ===== src/Query/Tests.antt =====
-- The checks of a query at concrete documents.
use mathlib.Core.List.{Memᴰ, List}
use nosql_gql_dbms.Query.Laws.{Named}
use nosql_gql_dbms.Text.{IsText, strncpy}
use nosql_gql_dbms.Base.{Option, subst}
use nosql_gql_dbms.Base.{ℕ, ◌≡◌, ◌↔◌, refl, [], ◌∷◌, some, none, true, arith, ◌==◌, ltb, leb}
use nosql_gql_dbms.Json.{
  Json, null, node, JsonHead, raw, text, type_string, type_int32, type_object,
}
use nosql_gql_dbms.Json.Compare.{Floats}
use nosql_gql_dbms.Json.TypeDef.{TypeDef}
use nosql_gql_dbms.Query.{eq, gt, QueryItem, Query, query_item_check, query_check}
use nosql_gql_dbms.Query.Laws.{query_check_iff, query_item_check-text_eq}

-- Floats that are compared as their patterns: enough for tests without floats.
abbrev patterns : Floats
patterns = record { eq = λ a b. a == b; lt = λ a b. ltb a b; le = λ a b. leb a b }

abbrev name_field : JsonHead
name_field = record { key = b'n' ∷ []; type = type_string; value = text (b'x' ∷ []); foff = 0 }

abbrev age_field : JsonHead
age_field = record {
  key = b'a' ∷ [];
  type = type_int32;
  value = raw (30 ∷ 0 ∷ 0 ∷ 0 ∷ 0 ∷ 0 ∷ 0 ∷ 0 ∷ []);
  foff = 0;
}

abbrev person : Json
person =
    node
      (record {
        key = b'p' ∷ [];
        type = type_object;
        value = raw (0 ∷ 0 ∷ 0 ∷ 0 ∷ 0 ∷ 0 ∷ 0 ∷ 0 ∷ []);
        foff = 0;
      })
      null (node name_field (node age_field null null null) null null) null

abbrev over_18 : QueryItem
over_18 = record {
  key = (b'a' ∷ []) ∷ [];
  query_val = raw (18 ∷ 0 ∷ 0 ∷ 0 ∷ 0 ∷ 0 ∷ 0 ∷ 0 ∷ []);
  type = type_int32;
  cmp_op = gt;
}

abbrev adults : Query
adults = record { type_name = some (b'P' ∷ []); f_query_itm = over_18 ∷ [] }

abbrev person_type : TypeDef
person_type = record { name = b'P' ∷ []; attr_list = [] }

abbrev is_x : QueryItem
is_x = record { key = []; query_val = text (b'x' ∷ []); type = type_string; cmp_op = eq }

abbrev or_nil : Option (List ℕ) → List ℕ
or_nil none = []
or_nil (some s) = s

abbrev name_in : Option TypeDef → List ℕ
name_in none = []
name_in (some t) = t.name

query_check_iff_example : (query_check patterns adults person (some person_type) ≡ some true) ↔ (
    ((item : QueryItem)
      → Memᴰ item adults.f_query_itm
      → query_item_check patterns item person ≡ some true)
    × Named adults.type_name (some person_type))
unfolding strncpy
query_check_iff_example =
    query_check_iff patterns adults person (some person_type)
      (λ name e. subst (λ (o : Option (List ℕ)). IsText (or_nil o)) e refl)
      (λ t e. subst (λ (o : Option TypeDef). IsText (name_in o)) e refl)

abbrev minus_one : ℕ
minus_one = 4294967295

query_item_check-text_eq_example :
    query_item_check patterns is_x (node name_field null null null) ≡ none
query_item_check-text_eq_example =
    query_item_check-text_eq patterns is_x name_field null null null (b'x' ∷ []) refl refl refl refl
      refl (omega arith)
