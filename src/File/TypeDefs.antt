-- ===== src/File/TypeDefs.antt =====
-- The types of a file: `file_add_type`, `file_delete_type`, `file_find_type` and `file_read_type`
-- of dbms/src/file/file.c.
pub mod Held
pub mod Grow
pub mod Add
pub mod Find
use nosql_gql_dbms.Base.{
  ℕ, List, none, some, length, failed, M, and_then, pure, fail, ◌>>=◌, ◌>>◌, get,
}
use nosql_gql_dbms.Json.TypeDef.{TypeDef}
use nosql_gql_dbms.Section.Types
use nosql_gql_dbms.Section.Header.{get_fileoff, get_sectoff}
use nosql_gql_dbms.File.{
  File, on_types, first_fit, add_sect_types, get_sect_types, head_at, head_sync,
}

-- `file_add_type` returns the offset of the type: in the first section that takes it, or in a new one.
unfoldable pub add_type : TypeDef → M File ℕ
add_type type = do
  f ← get
  found ← first_fit (λ i. on_types i (Types.write type)) (length f.f_types) 0
  (i, wrt_soff) ← elim found [
    | some r ↦ pure r
    | none ↦ do
      add_sect_types
      soff ← on_types (length f.f_types) (Types.write type)
      pure (length f.f_types, soff)
  ]
  g ← get
  head_sync
  pure (get_fileoff (head_at g.f_types i) wrt_soff)

-- `file_find_type` returns the section, the offset in it, and the type.
unfoldable pub find_type : List ℕ → M File (ℕ × (ℕ × TypeDef))
find_type name f =
    and_then (first_fit (λ i. on_types i (Types.find name)) (length f.f_types) 0 f)
      λ found. elim found [ none ↦ fail | some r ↦ pure r ]

unfoldable pub delete_type : List ℕ → M File (Unit {0})
unfolding find_type
delete_type name = do
  (del_sect, (del_soff, _)) ← find_type name
  on_types del_sect (Types.delete del_soff)
  head_sync

unfoldable pub read_type : ℕ → M File TypeDef
read_type foff f = elim (get_sect_types f foff) [
  | none ↦ (failed, f)
  | some i ↦
      (do (type, _) ← on_types i (Types.read (get_sectoff (head_at f.f_types i) foff)); pure type) f
]
