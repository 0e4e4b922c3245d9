-- ===== src/Section/Extents.antt =====
-- `Sect_ext` of dbms/src/section/extents.c: a section of entities, their keys and values.
-- An item is an `Entity`; its record is the value followed by the key.
pub mod Write
pub mod RoundTrip
pub mod Read
pub mod Slots
pub mod Frame
pub mod Cells
pub mod Update
pub mod Boundary
pub mod Delete
use nosql_gql_dbms.Base.{true}
use nosql_gql_dbms.Base.{
  false, Bool, attempt, ℕ, zero, suc, ◌+◌, ◌-◌, ◌%◌, ◌^◌, List, [], ◌∷◌, ◌++◌, Option, none, some,
  ◌==◌, ltb, if◌then◌else◌, length, replicate, u64, u64_mod, neg64, ok, failed, fault, M, and_then,
  pure, stop, ◌>>=◌, ◌>>◌, get, modify,
}
use nosql_gql_dbms.Text.{string_ctor}
use nosql_gql_dbms.Json.{JsonHead, raw, text, value_size, type_string, type_object, json_ctor}
use nosql_gql_dbms.Json.Entity.{
  Entity, entity_size, entity_clear, entity_itm_size, entity_rec_sz, entity_bytes, entity_of_bytes,
}
use nosql_gql_dbms.Section.Header
use nosql_gql_dbms.Section.Record.{push_rec}
use nosql_gql_dbms.Section.Header.{
  Sect, SectHead, section_size, head_size, get_fileoff, set_header, sync, shift_lip, shift_frp,
  cmprs_lip, cmprs_frp,
}

unfoldable pub wrt_itm : ℕ → Entity → M Sect (Unit {0})
wrt_itm soff ent = Header.write soff (entity_bytes ent)

unfoldable pub rd_itm : ℕ → M Sect Entity
rd_itm soff = do bs ← Header.read soff entity_size; pure (entity_of_bytes bs)

-- `sect_ext_write` of a key and of the bytes of a value. Returns the offset of the item, and the
-- entity with its pointers set.
unfoldable pub write : List ℕ → List ℕ → Entity → M Sect (ℕ × Entity)
unfolding push_rec wrt_itm
write key val ent s =
    if ltb s.header.free_space (u64 (entity_size + length key + length val))
    then (failed, s)
    else and_then (push_rec key s) λ key_ptr. do
      val_ptr ← push_rec val
      t ← get
      wrt_itm t.header.lst_itm_ptr (record ent { key_ptr = key_ptr; val_ptr = val_ptr })
      shift_lip entity_size
      sync
      pure (s.header.lst_itm_ptr, record ent { key_ptr = key_ptr; val_ptr = val_ptr })

-- The value by the type of the node. More than eight bytes into the union is out of range.
unfoldable pub read_val : Entity → JsonHead → M Sect JsonHead
read_val ent j =
    if j.type == type_string
    then (do
      str_val ← Header.read ent.val_ptr ent.val_size
      pure (record j { value = text (string_ctor str_val) }))
    else if j.type == type_object
    then pure j
    else if ltb value_size ent.val_size
    then stop
    else do
      bs ← Header.read ent.val_ptr ent.val_size
      pure (record j { value = raw (bs ++ replicate (value_size - ent.val_size) 0) })

-- `sect_ext_read`: the item at an offset, and its node with no links.
unfoldable pub read : ℕ → M Sect (Entity × JsonHead)
unfolding rd_itm read_val
read soff = do
  ent ← rd_itm soff
  key ← Header.read ent.key_ptr ent.key_size
  j ← read_val ent (json_ctor (ent.type % 2 ^ 32) key)
  sync
  pure (ent, j)

-- An item at the border of the items is taken to have its record at the border of the records.
unfoldable pub pull_back : ℕ → Entity → M Sect (Unit {0})
pull_back soff del_entity s =
    if u64 (soff + entity_itm_size del_entity) == s.header.lst_itm_ptr
    then (do shift_lip (neg64 (entity_itm_size del_entity)); shift_frp (entity_rec_sz del_entity)) s
    else (ok tt, s)

-- `sect_ext_delete` returns the entity that it deletes.
unfoldable pub delete : ℕ → M Sect Entity
unfolding rd_itm pull_back wrt_itm
delete soff = do
  del_entity ← rd_itm soff
  pull_back soff del_entity
  Header.write (u64 (del_entity.key_ptr + u64_mod - del_entity.val_size))
      (replicate (entity_rec_sz del_entity) 0)
  wrt_itm soff entity_clear
  cmprs_lip entity_size
  cmprs_frp
  sync
  pure del_entity

-- The promotion of the size of the first record, which stays in the entity also on failure.
abbrev pub promote : Entity → Entity → Entity
promote old_entity new_entity =
    if ltb new_entity.init_rec_sz old_entity.init_rec_sz
    then record new_entity { init_rec_sz = old_entity.init_rec_sz }
    else new_entity

-- `free_space = fst_rec_ptr - lst_itm_ptr` at the borders given; nothing is written.
unfoldable pub set_borders : ℕ → ℕ → M Sect (Unit {0})
set_borders lip frp = modify λ s. record s {
  header = record s.header {
    lst_itm_ptr = lip;
    fst_rec_ptr = frp;
    free_space = u64 (frp + u64_mod - lip);
  };
}

-- The branch of `sect_ext_update` for a record at the border of the records.
unfoldable pub update_boundary : ℕ → List ℕ → List ℕ → Entity → Entity → M Sect Entity
unfolding set_borders
update_boundary soff new_key new_val old_entity new_entity s =
    if ltb (u64 (s.header.free_space + old_entity.init_rec_sz)) new_entity.init_rec_sz
    then (failed, s)
    else (do
      set_borders soff (u64 (s.header.fst_rec_ptr + old_entity.init_rec_sz))
      (save_addr, e) ← write new_key new_val new_entity
      t ← get
      set_borders s.header.lst_itm_ptr t.header.fst_rec_ptr
      sync
      pure e)
        s

-- The branch for an inner record that its gap cannot hold: a new one in the free space. The
-- status of the deletion is thrown away.
unfoldable pub update_moved : ℕ → List ℕ → List ℕ → Entity → M Sect Entity
unfolding set_borders
update_moved soff new_key new_val new_entity s =
    if ltb s.header.free_space (entity_rec_sz new_entity)
    then (failed, s)
    else and_then (attempt (delete soff s)) λ _. do
      d ← get
      set_header (record d.header { lst_itm_ptr = soff })
      (save_addr, e) ← write new_key new_val new_entity
      t ← get
      set_borders d.header.lst_itm_ptr t.header.fst_rec_ptr
      sync
      pure e

-- The branch for an inner record that fits the gap of the old one; the header is not synced last.
unfoldable pub update_gap : ℕ → List ℕ → List ℕ → Entity → Entity → M Sect Entity
unfolding set_borders
update_gap soff new_key new_val old_entity new_entity s =
    (do
      set_borders soff (u64 (old_entity.key_ptr + old_entity.key_size))
      (save_addr, e) ← write new_key new_val new_entity
      set_borders s.header.lst_itm_ptr s.header.fst_rec_ptr
      pure e)
      s

-- `sect_ext_update` returns the new entity as it is written.
unfoldable pub update : ℕ → List ℕ → List ℕ → Entity → M Sect Entity
unfolding rd_itm update_boundary update_moved update_gap
update soff new_key new_val new_ent = do
  old_entity ← rd_itm soff
  s ← get
  let new_entity = promote old_entity new_ent
  if u64 (old_entity.key_ptr + u64_mod - old_entity.val_size) == s.header.fst_rec_ptr
      then update_boundary soff new_key new_val old_entity new_entity
      else if ltb old_entity.init_rec_sz new_entity.init_rec_sz
      then update_moved soff new_key new_val new_entity
      else update_gap soff new_key new_val old_entity new_entity

-- What a round of `sect_ext_load` adds to the offsets of the later rounds.
abbrev pub keep : Option (Entity × JsonHead) → ℕ → List ℕ → List ℕ
keep none foff rest = rest
keep (some _) foff rest = foff ∷ rest

-- `json_dtor` of a node behind `sect_ext_read` of it: where that failed at the value of a text, the text
-- is a null pointer, which `string_dtor` follows.
unfoldable pub text_unread : ℕ → M Sect Bool
unfolding rd_itm
text_unread soff = do
  ent ← rd_itm soff
  key ← Header.read ent.key_ptr ent.key_size
  val ← (λ s. attempt (Header.read ent.val_ptr ent.val_size s))
  pure (elim val [ none ↦ ent.type % 2 ^ 32 == type_string | some bs ↦ false ])

unfoldable pub dtor_read : Option (Entity × JsonHead) → ℕ → M Sect (Unit {0})
unfolding text_unread
dtor_read (some _) soff s = (ok tt, s)
dtor_read none soff s = elim (text_unread soff s).0 [ ok true ↦ (fault, s) | _ ↦ (ok tt, s) ]

-- The loop of `sect_ext_load` on fuel: an item that cannot be read is passed over, if its
-- node can be destroyed.
unfoldable pub load_loop : ℕ → ℕ → M Sect (List ℕ)
unfolding dtor_read
load_loop zero i s = (fault, s)
load_loop (suc fuel) i s =
    if ltb i s.header.lst_itm_ptr
    then and_then (attempt (read i s)) (λ got. do
      dtor_read got i
      later ← load_loop fuel (i + entity_size)
      pure (keep got (get_fileoff s.header i) later))
    else (ok [], s)

-- `sect_ext_load`: the file offsets of the items. A round for each cell is enough.
unfoldable pub load : M Sect (List ℕ)
unfolding load_loop
load s = load_loop (suc s.header.lst_itm_ptr) head_size s
