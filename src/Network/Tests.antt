-- ===== src/Network/Tests.antt =====
-- A document that goes through the messages.
use nosql_gql_dbms.Base.{false}
use nosql_gql_dbms.Query.{eq}
use nosql_gql_dbms.Json.{text, raw}
use nosql_gql_dbms.Base.{leb, ltb, ◌==◌}
use nosql_gql_dbms.Json.{JsonHead, type_int32, type_string}
use nosql_gql_dbms.Network.Laws.{head_of-int32_val}
use nosql_gql_dbms.Network.{head_of, ConditionalItem, Fields}
use nosql_gql_dbms.Json.Compare.{Floats}
use nosql_gql_dbms.Base.{[], ◌∷◌, ◌≡◌, true}

abbrev junk : Fields
junk = record { type = 7; key = []; int32_val = 9; float_val = 9; string_val = []; bool_val = true }

abbrev city : JsonHead
city = record { key = b'c' ∷ []; type = type_string; value = text (b'x' ∷ b'y' ∷ []); foff = 40 }

abbrev size : JsonHead
size = record {
  key = b's' ∷ [];
  type = type_int32;
  value = raw (1 ∷ 1 ∷ 0 ∷ 0 ∷ 0 ∷ 0 ∷ 0 ∷ 0 ∷ []);
  foff = 120;
}

abbrev seven : Fields
seven = record {
  type = type_int32;
  key = b'n' ∷ [];
  int32_val = 7;
  float_val = 0;
  string_val = [];
  bool_val = false;
}

head_of-int32_val_example :
    head_of (record seven { int32_val = 7 }) ≡ head_of (record seven { int32_val = 0 })
head_of-int32_val_example = head_of-int32_val seven 7 0

abbrev floats : Floats
floats = record { eq = λ a b. a == b; lt = λ a b. ltb a b; le = λ a b. leb a b }

abbrev is_seven : ConditionalItem
is_seven = record { path = (b'n' ∷ []) ∷ []; cmp = eq; fields = seven }
