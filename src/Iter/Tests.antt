-- ===== src/Iter/Tests.antt =====
-- An iterator that holds a document with a son.
use nosql_gql_dbms.Base.{◌≡◌, refl, List, [], ◌∷◌, some, none, arith, replicate}
use nosql_gql_dbms.Iter.{Iter}
use nosql_gql_dbms.Iter.Memory.{Freed, iter_dtor, iter_dtor-frees, nodes_among}
use nosql_gql_dbms.Json.{JsonHead, node, null, raw, text, type_object, type_string, value_size}
use nosql_gql_dbms.Json.Entity.{entity_clear}

abbrev name : JsonHead
name = record { key = b'n' ∷ []; type = type_string; value = text (b'x' ∷ []); foff = 40 }

abbrev person : JsonHead
person = record {
  key = b'p' ∷ [];
  type = type_object;
  value = raw (replicate value_size 0);
  foff = 300;
}

abbrev two_left : Iter
two_left = record {
  query = record { type_name = none; f_query_itm = [] };
  cur_col =
      (node person null (node name null null null) null, entity_clear)
      ∷ (node name null null null, entity_clear)
      ∷ [];
  cur_sect = 0;
}

iter_dtor-frees_example :
    (bs : List Freed) × (iter_dtor two_left ≡ some bs)
    × (nodes_among bs ≡ name ∷ person ∷ name ∷ [])
iter_dtor-frees_example = iter_dtor-frees two_left (
  (λ e. absurd (omega (arith, e)), tt, (λ e. (b'x' ∷ [], refl), tt, tt)),
  ((λ e. (b'x' ∷ [], refl), tt, tt), tt),
)
