-- ===== src/Section/Types.antt =====
-- `Sect_types` of dbms/src/section/types.c: a section of types. The item of a type is its
-- `Type_entity` followed by an `Attr_entity` for each attribute; its record has the names, the
-- name of the last attribute lowest.
pub mod Put
pub mod Attrs
pub mod RoundTrip
pub mod Cells
mod Tests
use nosql_gql_dbms.Base.{
  ℕ, zero, suc, ◌+◌, ◌-◌, ◌*◌, ◌%◌, ◌^◌, List, [], ◌∷◌, Option, none, some, ltb, if◌then◌else◌,
  length, replicate, u64, u64_mod, ok, failed, fault, M, and_then, pure, fail, ◌>>=◌, ◌>>◌, get,
}
use nosql_gql_dbms.Text.{string_ctor, string_cmp, equal}
use nosql_gql_dbms.Json.TypeDef.{
  Attr, TypeDef, TypeEntity, AttrEntity, type_entity_size, attr_entity_size, type_ph_sz, type_bytes,
  attr_bytes, type_of_bytes, attr_of_bytes,
}
use nosql_gql_dbms.Section.Header
use nosql_gql_dbms.Section.Header.{Sect, SectHead, head_size, shift_lip, cmprs_lip, cmprs_frp}
use nosql_gql_dbms.Section.Record.{push_rec}

unfoldable pub wrt_type : ℕ → TypeEntity → M Sect (Unit {0})
wrt_type soff ent = Header.write soff (type_bytes ent)

unfoldable pub wrt_atr : ℕ → AttrEntity → M Sect (Unit {0})
wrt_atr soff ent = Header.write soff (attr_bytes ent)

unfoldable pub rd_type : ℕ → M Sect TypeEntity
rd_type soff = do bs ← Header.read soff type_entity_size; pure (type_of_bytes bs)

unfoldable pub rd_atr : ℕ → M Sect AttrEntity
rd_atr soff = do bs ← Header.read soff attr_entity_size; pure (attr_of_bytes bs)

-- A round of the loop of `sect_types_write`: the name, then the item, of one attribute.
unfoldable pub write_attr : Attr → M Sect (Unit {0})
unfolding wrt_atr
write_attr a = do
  name_ptr ← push_rec a.name
  s ← get
  wrt_atr s.header.lst_itm_ptr
      (record { name_size = length a.name; name_ptr = name_ptr; attr_type = a.type })
  shift_lip attr_entity_size

unfoldable pub write_attrs : List Attr → M Sect (Unit {0})
write_attrs [] = pure tt
write_attrs (a ∷ rest) = do write_attr a; write_attrs rest

-- `sect_types_write` returns the offset of the item.
unfoldable pub write : TypeDef → M Sect ℕ
unfolding wrt_type
write t s =
    if ltb s.header.free_space (type_ph_sz t)
    then (failed, s)
    else and_then (push_rec t.name s) λ name_ptr. do
      u ← get
      wrt_type u.header.lst_itm_ptr
          (record { name_size = length t.name; name_ptr = name_ptr; attr_cnt = length t.attr_list })
      shift_lip type_entity_size
      write_attrs t.attr_list
      pure u.header.lst_itm_ptr

-- `sect_types_delete`. With no attribute the type's own item is read for the last attribute's.
unfoldable pub delete : ℕ → M Sect (Unit {0})
unfolding rd_type rd_atr
delete del_soff = do
  t_ent ← rd_type del_soff
  lst_atr_ent ←
      rd_atr
        (u64 (del_soff + type_entity_size + u64 (t_ent.attr_cnt + u64_mod - 1) * attr_entity_size))
  let itm_sz = u64 (type_entity_size + t_ent.attr_cnt * attr_entity_size)
  let rec_sz = u64 (t_ent.name_ptr + t_ent.name_size + u64_mod - lst_atr_ent.name_ptr)
  Header.write del_soff (replicate itm_sz 0)
  Header.write lst_atr_ent.name_ptr (replicate rec_sz 0)
  cmprs_lip attr_entity_size
  cmprs_frp

-- The loop of `sect_types_read`, with the rounds left. The enumeration has 32 bits.
unfoldable pub read_attrs : ℕ → ℕ → M Sect (List Attr)
unfolding rd_atr
read_attrs zero soff = pure []
read_attrs (suc left) soff = do
  a_ent ← rd_atr soff
  a_name ← Header.read a_ent.name_ptr a_ent.name_size
  rest ← read_attrs left (u64 (soff + attr_entity_size))
  pure (record { name = string_ctor a_name; type = a_ent.attr_type % 2 ^ 32 } ∷ rest)

-- `sect_types_read` returns the type and the size of its item.
unfoldable pub read : ℕ → M Sect (TypeDef × ℕ)
unfolding rd_type read_attrs
read soff = do
  t_ent ← rd_type soff
  t_name ← Header.read t_ent.name_ptr t_ent.name_size
  atr_list ← read_attrs t_ent.attr_cnt (u64 (soff + type_entity_size))
  pure (
    record { name = string_ctor t_name; attr_list = atr_list },
    u64 (type_entity_size + t_ent.attr_cnt * attr_entity_size),
  )

-- The loop of `sect_types_load` on fuel.
unfoldable pub load_loop : ℕ → ℕ → M Sect (List (ℕ × TypeDef))
load_loop zero soff s = (fault, s)
load_loop (suc fuel) soff s =
    if ltb soff s.header.lst_itm_ptr
    then and_then (read soff s)
        (λ (t, ph_sz). do rest ← load_loop fuel (u64 (soff + ph_sz)); pure ((soff, t) ∷ rest))
    else (ok [], s)

-- The types with their offsets. Each round takes at least a cell, so `lst_itm_ptr` rounds are enough.
unfoldable pub load : M Sect (List (ℕ × TypeDef))
unfolding load_loop
load s = load_loop (suc s.header.lst_itm_ptr) head_size s

-- The loop of `sect_types_find` over the loaded types.
unfoldable pub find_in : List ℕ → List (ℕ × TypeDef) → Option (ℕ × TypeDef)
find_in type_name [] = none
find_in type_name ((soff, t) ∷ rest) = elim (string_cmp t.name type_name) [
  | equal ↦ some (soff, t)
  | _ ↦ find_in type_name rest
]

unfoldable pub find : List ℕ → M Sect (ℕ × TypeDef)
unfolding find_in
find type_name = do
  type_list ← load
  elim (find_in type_name type_list) [ none ↦ fail | some found ↦ pure found ]
