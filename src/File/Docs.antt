-- ===== src/File/Docs.antt =====
-- The documents of a file: `file_write`, `file_read`, `file_delete` and `file_update` of
-- dbms/src/file/file.c, which follow the links of a tree.
use nosql_gql_dbms.Base.{
  ℕ, zero, suc, ◌+◌, Bool, true, false, not, ◌&&◌, ◌||◌, List, Option, none, some, ◌==◌,
  if◌then◌else◌, length, le_bytes, u64, ok, failed, fault, M, and_then, attempt, pure, stop, ◌>>=◌,
  ◌>>◌, get,
}
use nosql_gql_dbms.Text.{equal}
use nosql_gql_dbms.Json.{JsonHead, Json, null, node, json_val, json_add_bro, json_add_son}
use nosql_gql_dbms.Json.Compare.{Floats, json_cmp}
use nosql_gql_dbms.Json.Entity.{Tplgy, Entity, entity_init}
use nosql_gql_dbms.Section.Extents
use nosql_gql_dbms.Section.Extents.{wrt_itm, promote}
use nosql_gql_dbms.Section.Header.{get_fileoff, get_sectoff}
use nosql_gql_dbms.File.{
  File, on_ext, first_fit, add_sect_ext, get_sect_ext, head_at, head_write, head_sync,
}

-- `sect_ext_write` in the first section that takes the record.
unfoldable pub write_fit : List ℕ → List ℕ → Entity → M File (Option (ℕ × (ℕ × Entity)))
write_fit key val ent f =
    first_fit (λ i. on_ext i (Extents.write key val ent)) (length f.f_extent) 0 f

-- As above, and else in a new section. Returns the section, the offset in it and the entity.
unfoldable pub place : List ℕ → List ℕ → Entity → M File (ℕ × (ℕ × Entity))
unfolding write_fit
place key val ent = do
  found ← write_fit key val ent
  f ← get
  elim found [
    | some r ↦ pure r
    | none ↦ do
      add_sect_ext
      r ← on_ext (length f.f_extent) (Extents.write key val ent)
      pure (length f.f_extent, r)
  ]

-- The entity with the offsets of its brother and of its son.
abbrev pub with_links : Entity → ℕ → ℕ → Entity
with_links e bro son = record e { fam_addr = record e.fam_addr { bro_ptr = bro; son_ptr = son } }

-- `sect_ext_wrt_itm` with its status thrown away.
unfoldable pub rewrite_item : ℕ → ℕ → Entity → M File (Unit {0})
rewrite_item i soff ent f = and_then (attempt (on_ext i (wrt_itm soff ent) f)) (λ _. pure tt)

-- `file_write` returns the offset of the root. A null link has the offset 0, and nothing is
-- written for it. The status of the last write of the item is thrown away.
unfoldable pub write : Json → ℕ → ℕ → M File ℕ
unfolding place rewrite_item
write null dad type_foff = pure 0
write (node j bro son next) dad type_foff = elim (json_val j) [
  | none ↦ stop
  | some val ↦ do
    (i, (soff, ent)) ← place j.key val (
        entity_init (length j.key) (length val) j.type
          (record { dad_ptr = dad; bro_ptr = 0; son_ptr = 0 }) type_foff)
    f ← get
    let wrt_foff = get_fileoff (head_at f.f_extent i) soff
    bro_offset ← write bro dad 0
    son_offset ← write son wrt_foff 0
    rewrite_item i soff (with_links ent bro_offset son_offset)
    head_sync
    pure wrt_foff
]

-- `file_read` on fuel.
unfoldable pub read_tree : ℕ → ℕ → M File (Json × Entity)
read_tree zero foff f = (fault, f)
read_tree (suc fuel) foff f = elim (get_sect_ext f foff) [
  | none ↦ (failed, f)
  | some i ↦
      (do
        (ent, j) ← on_ext i (Extents.read (get_sectoff (head_at f.f_extent i) foff))
        let root = node (record j { foff = foff }) null null null
        with_bro ←
            if ent.fam_addr.bro_ptr == 0
            then pure root
            else (do (bro, _) ← read_tree fuel ent.fam_addr.bro_ptr; pure (json_add_bro root bro))
        with_son ← if ent.fam_addr.son_ptr == 0 then pure with_bro else (do
          (son, _) ← read_tree fuel ent.fam_addr.son_ptr
          pure (json_add_son with_bro son))
        pure (with_son, ent))
        f
]

-- A tree without cycles has fewer nodes than the file has bytes.
unfoldable pub read : ℕ → M File (Json × Entity)
unfolding read_tree
read foff f = read_tree (suc f.lst_sect_ptr) foff f

-- The bytes of a `Fileoff`, put over a link of an item; the status is thrown away.
unfoldable pub put_link : ℕ → ℕ → M File (Unit {0})
put_link foff ptr f = and_then (attempt (head_write foff (le_bytes 8 ptr) f)) (λ _. pure tt)

-- `offsetof(Entity, fam_addr)` with `offsetof(Tplgy, bro_ptr)` and with `offsetof(Tplgy, son_ptr)`
abbrev pub bro_offset : ℕ
bro_offset = 56

abbrev pub son_offset : ℕ
son_offset = 64

-- The end of `file_delete`: the dad's link to its son becomes the brother of the root deleted.
unfoldable pub unlink : Bool → Entity → M File (Unit {0})
unfolding put_link
unlink is_root del =
    if is_root && not (del.fam_addr.dad_ptr == 0)
    then put_link (u64 (del.fam_addr.dad_ptr + son_offset)) del.fam_addr.bro_ptr
    else pure tt

-- `file_delete` on fuel.
unfoldable pub delete_tree : ℕ → ℕ → Bool → M File (Unit {0})
unfolding unlink
delete_tree zero foff is_root f = (fault, f)
delete_tree (suc fuel) foff is_root f = elim (get_sect_ext f foff) [
  | none ↦ (failed, f)
  | some i ↦
      (do
        del ← on_ext i (Extents.delete (get_sectoff (head_at f.f_extent i) foff))
        if is_root || del.fam_addr.bro_ptr == 0
            then pure tt
            else delete_tree fuel del.fam_addr.bro_ptr false
        if del.fam_addr.son_ptr == 0 then pure tt else delete_tree fuel del.fam_addr.son_ptr false
        unlink is_root del
        head_sync)
        f
]

unfoldable pub delete : ℕ → Bool → M File (Unit {0})
unfolding delete_tree
delete foff is_root f = delete_tree (suc f.lst_sect_ptr) foff is_root f

-- Where `sect_ext_update` fails in section i: the old item is deleted, and the new one goes into the
-- first section that takes it. Behind a new section the write goes to section i again.
unfoldable pub move_item : ℕ → ℕ → List ℕ → List ℕ → Entity → M File ℕ
unfolding write_fit
move_item i soff key val ent = do
  _ ← on_ext i (Extents.delete soff)
  found ← write_fit key val ent
  f ← get
  elim found [
    | some (k, (wrt_soff, _)) ↦ pure (get_fileoff (head_at f.f_extent k) wrt_soff)
    | none ↦ do
      add_sect_ext
      (wrt_soff, _) ← on_ext i (Extents.write key val ent)
      g ← get
      pure (get_fileoff (head_at g.f_extent (length f.f_extent)) wrt_soff)
  ]

-- The new item in place of the old one; returns the offset where it stands.
unfoldable pub replace : ℕ → ℕ → ℕ → List ℕ → List ℕ → Entity → Entity → M File ℕ
unfolding move_item
replace i soff foff key val old_ent new_ent f =
    let (o, g) = on_ext i (Extents.update soff key val new_ent) f in
    elim o [
      | ok _ ↦ (ok foff, g)
      | failed ↦ move_item i soff key val (promote old_ent new_ent) g
      | fault ↦ (fault, g)
    ]

abbrev pub is_null : Json → Bool
is_null null = true
is_null (node _ _ _ _) = false

-- The first part of `file_update`: the item at its offset, if it differs from the new node.
unfoldable pub update_item : Floats → ℕ → ℕ → ℕ → JsonHead → Tplgy → ℕ → ℕ → M File (Entity × ℕ)
unfolding replace
update_item fl i soff foff j fam type_ptr cur = do
  (old_ent, old_json) ← on_ext i (Extents.read soff)
  cur' ← elim (json_cmp fl old_json j) [
    | none ↦ stop
    | some equal ↦ pure cur
    | some _ ↦ elim (json_val j) [
      | none ↦ stop
      | some val ↦
          replace i soff foff j.key val old_ent
            (entity_init (length j.key) (length val) j.type fam type_ptr)
    ]
  ]
  pure (old_ent, cur')

-- The last part: the links that the recursion returned.
unfoldable pub update_links : ℕ → ℕ → ℕ → M File (Unit {0})
unfolding put_link
update_links cur bro_ptr son_ptr = do
  if bro_ptr == 0 then pure tt else put_link (u64 (cur + bro_offset)) bro_ptr
  if son_ptr == 0 then pure tt else put_link (u64 (cur + son_offset)) son_ptr
  head_sync

-- `file_update` returns `*cur_fileoff`, which it leaves as it finds it where the root is unchanged.
unfoldable pub update : Floats → Json → ℕ → ℕ → ℕ → Bool → ℕ → M File ℕ
unfolding update_item update_links
update fl null foff dad type_ptr is_root cur f = (fault, f)
update fl (node j bro son next) foff dad type_ptr is_root cur f = elim (get_sect_ext f foff) [
  | none ↦ (failed, f)
  | some i ↦
      (do
        (old_ent, cur') ←
            update_item fl i (get_sectoff (head_at f.f_extent i) foff) foff j
              (record { dad_ptr = dad; bro_ptr = 0; son_ptr = 0 }) type_ptr cur
        bro_ptr ←
            if is_root || is_null bro
            then pure 0
            else if old_ent.fam_addr.bro_ptr == 0
            then write bro cur' 0
            else update fl bro old_ent.fam_addr.bro_ptr cur' 0 false 0
        son_ptr ←
            if is_null son
            then pure 0
            else if old_ent.fam_addr.son_ptr == 0
            then write son cur' 0
            else update fl son old_ent.fam_addr.son_ptr cur' 0 false 0
        update_links cur' bro_ptr son_ptr
        pure cur')
        f
]
