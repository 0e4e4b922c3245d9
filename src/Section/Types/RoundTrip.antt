-- ===== src/Section/Types/RoundTrip.antt =====
-- Writing a type and reading it back.
use nosql_gql_dbms.Section.Types.Put.{Within-put}
use nosql_gql_dbms.Section.Within.{Within, Within-trans}
use nosql_gql_dbms.Base.{
  subst, ap, ℕ, ◌+◌, ◌-◌, ◌*◌, ◌≤◌, ◌<◌, ◌≡◌, ◌∙◌, refl, inl, inr, List, arith, length, ok, step,
  u64, u64_mod, ltb, le→ltb_false, false,
}
use nosql_gql_dbms.Text.{IsText, string_ctor}
use nosql_gql_dbms.Json.TypeDef.{
  TypeEntity, type_itm_sz, type_rec_sz, TypeDef, type_bytes, attr_entity_size, type_entity_size,
  length-type_bytes, type_of_bytes-type_bytes, names_size, type_ph_sz,
}
use nosql_gql_dbms.Section.Header.{SectHead, section_size, head_size, Sect}
use nosql_gql_dbms.Section.Header.Laws.{IsValid, Holds, borders, read-ok_of_length}
use nosql_gql_dbms.Section.Types.{read_attrs, read, write, write_attrs, rd_type, wrt_type}
use nosql_gql_dbms.Section.Types.Put.{
  put, put-IsValid, header-put, push_name, write_item, shift_item, frame-put, Holds-put_item,
  Holds-put_name, lip-with_name,
}
use nosql_gql_dbms.Section.Types.Attrs.{
  AttrsAt, read_attrs-ok, AreAttrs, WroteAttrs, Frame, write_attrs-ok,
}

-- A type with names as `string_ctor` makes them.
abbrev pub IsTypeDef : TypeDef → Type 0
IsTypeDef t = IsText t.name × AreAttrs t.attr_list

-- the bytes that a type takes of a section
abbrev pub size_of : TypeDef → ℕ
size_of t =
    type_entity_size
    + length t.attr_list * attr_entity_size
    + (length t.name + names_size t.attr_list)

abbrev pub type_entity : TypeDef → ℕ → TypeEntity
type_entity t name_ptr = record {
  name_size = length t.name;
  name_ptr = name_ptr;
  attr_cnt = length t.attr_list;
}

rd_type-ok :
    (soff : ℕ) (e : TypeEntity) (s : Sect)
    → IsValid s
    → soff ≤ section_size
    → (e.name_size < u64_mod) × (e.name_ptr < u64_mod) × (e.attr_cnt < u64_mod)
    → Holds s soff (type_bytes e)
    → rd_type soff s ≡ (ok e, s)
unfolding rd_type
rd_type-ok soff e s v p w h =
    step _ (read-ok_of_length soff type_entity_size (type_bytes e) s v p (length-type_bytes e) h)
    ∙ ap (λ x. (ok x, s)) (type_of_bytes-type_bytes e (omega (arith, w)))

-- the size of the item of a type
abbrev pub item_size : TypeDef → ℕ
item_size t = type_entity_size + length t.attr_list * attr_entity_size

-- At `soff` stands the item of a type with its attributes and its names.
pub record TypeAt (s : Sect) (soff : ℕ) (t : TypeDef) : Type 0 where
  pub name_ptr : ℕ
  pub item : Holds s soff (type_bytes (type_entity t name_ptr))
  pub name : Holds s name_ptr t.name
  pub attrs : AttrsAt s (soff + type_entity_size) t.attr_list
  pub item_low : head_size ≤ soff
  pub item_high : soff + item_size t ≤ s.header.lst_itm_ptr
  pub rec_low : s.header.fst_rec_ptr ≤ name_ptr
  pub rec_high : name_ptr + length t.name ≤ section_size

-- What `sect_types_write` promises of the section `u` that it leaves.
pub record WroteType (t : TypeDef) (s u : Sect) : Type 0 where
  pub valid : IsValid u
  pub header :
      u.header
      ≡ borders
          (s.header.lst_itm_ptr + item_size t)
          (s.header.fst_rec_ptr - (length t.name + names_size t.attr_list))
          s.header
  pub kept : Frame s u
  pub new : TypeAt u s.header.lst_itm_ptr t
  pub within : Within s u

pub read-TypeAt :
    (t : TypeDef) (soff : ℕ) (s : Sect)
    → IsValid s
    → IsTypeDef t
    → TypeAt s soff t
    → read soff s ≡ (ok (t, item_size t), s)
unfolding read string_ctor
read-TypeAt t soff s v (text, attrs) c =
    step _ (
      rd_type-ok soff (type_entity t c.name_ptr) s v (omega (arith, c.item_high, v.balance, v.high))
        (omega (arith, c.item_high, v.balance, v.high, c.rec_high)) c.item)
    ∙ step _ (
        read-ok_of_length c.name_ptr (length t.name) t.name s v (omega (arith, c.rec_high)) refl
          c.name)
    ∙ step _ (
        ap (λ k. read_attrs (length t.attr_list) k s)
          (omega (arith, c.item_high, v.balance, v.high))
        ∙ read_attrs-ok t.attr_list (soff + type_entity_size) s v attrs c.attrs)
    ∙ λ i. (ok (record { name = text i; attr_list = t.attr_list }, size i), s)
  where
    size : u64 (item_size t) ≡ item_size t
    size = omega (arith, c.item_high, v.balance, v.high)

module _ (t : TypeDef) (s : Sect) (v : IsValid s) (fits : size_of t ≤ s.header.free_space) where
  abbrev name_ptr : ℕ
  name_ptr = s.header.fst_rec_ptr - length t.name

  abbrev item : List ℕ
  item = type_bytes (type_entity t name_ptr)

  abbrev with_type : Sect
  with_type = put t.name item type_entity_size s

  length-item : length item ≡ type_entity_size
  length-item = length-type_bytes (type_entity t name_ptr)

  name_fits : type_entity_size + length t.name ≤ s.header.free_space
  name_fits = omega (arith, fits)

  with_type-IsValid : IsValid with_type
  with_type-IsValid = put-IsValid t.name item type_entity_size s length-item v name_fits

  header-with_type :
      with_type.header ≡ borders (s.header.lst_itm_ptr + type_entity_size) name_ptr s.header
  header-with_type = header-put t.name item type_entity_size s length-item v name_fits

  lip-with_type : with_type.header.lst_itm_ptr ≡ s.header.lst_itm_ptr + type_entity_size
  lip-with_type = ap (λ (h : SectHead). h.lst_itm_ptr) header-with_type

  frp-with_type : with_type.header.fst_rec_ptr ≡ name_ptr
  frp-with_type = ap (λ (h : SectHead). h.fst_rec_ptr) header-with_type

  attrs_fit :
      length t.attr_list * attr_entity_size + names_size t.attr_list ≤ with_type.header.free_space
  attrs_fit = omega (arith, fits, v.balance, ap (λ (h : SectHead). h.free_space) header-with_type)

  guard : ltb s.header.free_space (type_ph_sz t) ≡ false
  unfolding type_ph_sz type_itm_sz type_rec_sz
  guard = le→ltb_false s.header.free_space (type_ph_sz t) (omega (arith, fits, v.balance, v.high))

  writes :
      (u : Sect)
      → write_attrs t.attr_list with_type ≡ (ok tt, u)
      → write t s ≡ (ok s.header.lst_itm_ptr, u)
  unfolding write wrt_type
  writes u r = rw guard (
      step _ (push_name t.name item type_entity_size s length-item v name_fits)
      ∙ step _ (write_item t.name item type_entity_size s length-item v name_fits)
      ∙ step _ (shift_item t.name item type_entity_size s length-item v name_fits)
      ∙ step _ r
      ∙ ap (λ k. (ok k, u)) (lip-with_name t.name item type_entity_size s length-item v name_fits))

  module _ (u : Sect) (w : WroteAttrs t.attr_list with_type u) where
    kept-write : Frame s u
    kept-write c cs p q h =
        w.kept c cs p (omega (arith, q, lip-with_type, frp-with_type))
          (frame-put t.name item type_entity_size s length-item v name_fits c cs p q h)

    item_held : Holds u s.header.lst_itm_ptr item
    item_held =
        w.kept s.header.lst_itm_ptr item v.low (inl (omega (arith, lip-with_type, length-item)))
          (Holds-put_item t.name item type_entity_size s length-item v name_fits)

    name_held : Holds u name_ptr t.name
    name_held =
        w.kept name_ptr t.name (omega (arith, v.low, v.balance, fits))
          (inr (omega (arith, frp-with_type)))
          (Holds-put_name t.name item type_entity_size s length-item v name_fits)

    header-write :
        u.header
        ≡ borders
            (s.header.lst_itm_ptr + item_size t)
            (s.header.fst_rec_ptr - (length t.name + names_size t.attr_list))
            s.header
    header-write =
        w.header
        ∙ ap
            (λ (h : SectHead).
              borders (h.lst_itm_ptr + length t.attr_list * attr_entity_size)
                (h.fst_rec_ptr - names_size t.attr_list) h)
            header-with_type
        ∙ λ i. borders (items i) (recs i) s.header
      where
        items :
            s.header.lst_itm_ptr + type_entity_size + length t.attr_list * attr_entity_size
            ≡ s.header.lst_itm_ptr + item_size t
        items = omega arith

        recs :
            s.header.fst_rec_ptr - length t.name - names_size t.attr_list
            ≡ s.header.fst_rec_ptr - (length t.name + names_size t.attr_list)
        recs = omega arith

    wrote_type : WroteType t s u
    wrote_type = record {
      valid = w.valid;
      header = header-write;
      kept = kept-write;
      within =
          Within-trans s with_type u
            (Within-put t.name item type_entity_size s length-item v name_fits) w.within;
      new = record {
        name_ptr = name_ptr;
        item = item_held;
        name = name_held;
        attrs = subst (λ (k : ℕ). AttrsAt u k t.attr_list) lip-with_type w.attrs;
        item_low = v.low;
        item_high = omega (arith, ap (λ (h : SectHead). h.lst_itm_ptr) header-write);
        rec_low = omega (arith, ap (λ (h : SectHead). h.fst_rec_ptr) header-write);
        rec_high = omega (arith, v.balance, v.high, fits);
      };
    }

-- Where a type fits, `sect_types_write` succeeds at the border of the items.
pub write-WroteType :
    (t : TypeDef) (s : Sect)
    → IsValid s
    → size_of t ≤ s.header.free_space
    → (u : Sect) × (write t s ≡ (ok s.header.lst_itm_ptr, u)) × WroteType t s u
write-WroteType t s v fits =
    let (u, r, w) =
      write_attrs-ok t.attr_list (with_type t s v fits) (with_type-IsValid t s v fits)
        (attrs_fit t s v fits) in
    (u, writes t s v fits u r, wrote_type t s v fits u w)

-- A type that fits the free space of a valid section, with names as `string_ctor` makes them, is
-- written at the border of the items, and is read back there as it was, with the size of its item. The
-- section is valid afterwards, and its bytes outside the free space and the header are kept.
pub type_write-read :
    (t : TypeDef) (s : Sect)
    → IsValid s
    → IsTypeDef t
    → size_of t ≤ s.header.free_space
    → (u : Sect) × (write t s ≡ (ok s.header.lst_itm_ptr, u))
      × (read s.header.lst_itm_ptr u ≡ (ok (t, item_size t), u))
      × IsValid u
      × Frame s u
type_write-read t s v d fits =
    let (u, r, w) = write-WroteType t s v fits in
    (u, r, read-TypeAt t s.header.lst_itm_ptr u w.valid d w.new, w.valid, w.kept)
