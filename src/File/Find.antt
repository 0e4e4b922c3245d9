-- ===== src/File/Find.antt =====
-- `file_find` of dbms/src/file/file.c, and the iterator of dbms/src/json/iter.c over it.
pub mod Laws
pub mod Tests
use nosql_gql_dbms.Base.{
  ok, failed, fault, Bool, true, false, ℕ, List, [], ◌∷◌, ◌++◌, none, some, M, and_then, attempt,
  pure, stop, ◌>>=◌,
}
use nosql_gql_dbms.Json.{Json}
use nosql_gql_dbms.Json.Compare.{Floats}
use nosql_gql_dbms.Json.Entity.{Entity}
use nosql_gql_dbms.Query.{Query, query_check}
use nosql_gql_dbms.Section.Extents
use nosql_gql_dbms.File.{File, on_ext}
use nosql_gql_dbms.File.Docs
use nosql_gql_dbms.File.TypeDefs.{read_type}

-- A round of the loop of `file_find`: the document at an offset, if it passes. The status of
-- `file_read_type` is thrown away, and leaves the type without a name.
unfoldable pub find_one : Floats → Query → ℕ → M File (List (Json × Entity))
find_one fl query foff = do
  (json, entity) ← Docs.read foff
  type ← (λ f. attempt (read_type entity.type_ptr f))
  elim (query_check fl query json type) [
    | none ↦ stop
    | some true ↦ pure ((json, entity) ∷ [])
    | some false ↦ pure []
  ]

-- The loop of `file_find` over the offsets, with the column `o_obj_col`. The status comes beside
-- the column, which keeps what was found before a failure: `true` is OK.
unfoldable pub find_all :
    Floats → Query → List ℕ → List (Json × Entity) → M File (Bool × List (Json × Entity))
unfolding find_one
find_all fl query [] col f = (ok (true, col), f)
find_all fl query (foff ∷ rest) col f =
    let (o, g) = find_one fl query foff f in
    elim o [
      | ok got ↦ find_all fl query rest (col ++ got) g
      | failed ↦ (ok (false, col), g)
      | fault ↦ (fault, g)
    ]

-- The documents of the i-th section that pass the query.
unfoldable pub find : Floats → Query → ℕ → M File (Bool × List (Json × Entity))
unfolding find_all
find fl query i f =
    and_then (attempt (on_ext i Extents.load f))
      λ got. elim got [ none ↦ pure (false, []) | some foffs ↦ find_all fl query foffs [] ]
