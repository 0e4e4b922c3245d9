-- ===== src/Section/Types/Attrs.antt =====
-- The attributes of a type in a section: writing them and reading them back.
use nosql_gql_dbms.Section.Types.Put.{Within-put}
use nosql_gql_dbms.Section.Within.{Within-refl, Within, Within-trans}
use nosql_gql_dbms.Base.{
  ap, ℕ, ◌+◌, ◌-◌, ◌*◌, ◌%◌, ◌^◌, ◌≤◌, ◌<◌, ◌≡◌, ◌∙◌, ◌⊎◌, refl, inl, inr, List, [], ◌∷◌, arith,
  length, ok, subst, step, u64_mod,
}
use nosql_gql_dbms.Text.{IsText, string_ctor}
use nosql_gql_dbms.Json.TypeDef.{
  Attr, AttrEntity, attr_bytes, attr_entity_size, length-attr_bytes, attr_of_bytes-attr_bytes,
  names_size,
}
use nosql_gql_dbms.Section.Header.{Sect, SectHead, head_size, section_size}
use nosql_gql_dbms.Section.Header.Laws.{IsValid, Holds, borders, read-ok_of_length}
use nosql_gql_dbms.Section.Types.{write_attr, write_attrs, read_attrs, rd_atr, wrt_atr}
use nosql_gql_dbms.Section.Types.Put.{
  put, put-IsValid, header-put, push_name, write_item, shift_item, frame-put, Holds-put_item,
  Holds-put_name,
}

abbrev pub attr_entity : Attr → ℕ → AttrEntity
attr_entity a name_ptr = record {
  name_size = length a.name;
  name_ptr = name_ptr;
  attr_type = a.type;
}

-- At `soff` stands the item of an attribute with its name among the records.
pub record AttrAt (s : Sect) (soff : ℕ) (a : Attr) : Type 0 where
  pub name_ptr : ℕ
  pub item : Holds s soff (attr_bytes (attr_entity a name_ptr))
  pub name : Holds s name_ptr a.name
  pub item_low : head_size ≤ soff
  pub item_high : soff + attr_entity_size ≤ s.header.lst_itm_ptr
  pub rec_low : s.header.fst_rec_ptr ≤ name_ptr
  pub rec_high : name_ptr + length a.name ≤ section_size

abbrev pub AttrsAt : Sect → ℕ → List Attr → Type 0
AttrsAt s soff [] = Unit
AttrsAt s soff (a ∷ rest) = AttrAt s soff a × AttrsAt s (soff + attr_entity_size) rest

-- Attributes with names as `string_ctor` makes them and with types of 32 bits.
abbrev pub AreAttrs : List Attr → Type 0
AreAttrs [] = Unit
AreAttrs (a ∷ rest) = IsText a.name × (a.type < 2 ^ 32) × AreAttrs rest

rd_atr-ok :
    (soff : ℕ) (e : AttrEntity) (s : Sect)
    → IsValid s
    → soff ≤ section_size
    → (e.name_size < u64_mod) × (e.name_ptr < u64_mod) × (e.attr_type < u64_mod)
    → Holds s soff (attr_bytes e)
    → rd_atr soff s ≡ (ok e, s)
unfolding rd_atr
rd_atr-ok soff e s v p w h =
    step _ (read-ok_of_length soff attr_entity_size (attr_bytes e) s v p (length-attr_bytes e) h)
    ∙ ap (λ x. (ok x, s)) (attr_of_bytes-attr_bytes e (omega (arith, w)))

pub read_attrs-ok :
    (as_ : List Attr) (soff : ℕ) (s : Sect)
    → IsValid s
    → AreAttrs as_
    → AttrsAt s soff as_
    → read_attrs (length as_) soff s ≡ (ok as_, s)
unfolding read_attrs string_ctor
read_attrs-ok [] soff s v w c = refl
read_attrs-ok (a ∷ rest) soff s v (text, small, w) (c, cs) =
    step _ (
      rd_atr-ok soff (attr_entity a c.name_ptr) s v (omega (arith, c.item_high, v.balance, v.high))
        (omega (arith, c.rec_high, small)) c.item)
    ∙ step _ (
        read-ok_of_length c.name_ptr (length a.name) a.name s v (omega (arith, c.rec_high)) refl
          c.name)
    ∙ step _ (
        ap (λ k. read_attrs (length rest) k s) (omega (arith, c.item_high, v.balance, v.high))
        ∙ read_attrs-ok rest (soff + attr_entity_size) s v w cs)
    ∙ λ i. (ok (record { name = text i; type = same i } ∷ rest), s)
  where
    same : a.type % 2 ^ 32 ≡ a.type
    same = omega (arith, small)

-- What a write to the free space of `s` leaves as it is.
abbrev pub Frame : Sect → Sect → Type 0
Frame s t =
    (c : ℕ) (cs : List ℕ)
    → head_size ≤ c
    → (c + length cs ≤ s.header.lst_itm_ptr) ⊎ (s.header.fst_rec_ptr ≤ c)
    → Holds s c cs
    → Holds t c cs

-- What the loop of `sect_types_write` promises of the section `t` that it leaves.
pub record WroteAttrs (as_ : List Attr) (s t : Sect) : Type 0 where
  pub valid : IsValid t
  pub header :
      t.header
      ≡ borders
          (s.header.lst_itm_ptr + length as_ * attr_entity_size)
          (s.header.fst_rec_ptr - names_size as_)
          s.header
  pub kept : Frame s t
  pub attrs : AttrsAt t s.header.lst_itm_ptr as_
  pub within : Within s t

-- the section with the name and the item of an attribute
abbrev attr_item : Attr → Sect → List ℕ
attr_item a s = attr_bytes (attr_entity a (s.header.fst_rec_ptr - length a.name))

abbrev with_attr : Attr → Sect → Sect
with_attr a s = put a.name (attr_item a s) attr_entity_size s

module _ (a : Attr) (s : Sect) (v : IsValid s)
    (fits : attr_entity_size + length a.name ≤ s.header.free_space) where
  length-attr_item : length (attr_item a s) ≡ attr_entity_size
  length-attr_item = length-attr_bytes (attr_entity a (s.header.fst_rec_ptr - length a.name))

  write_attr-ok : write_attr a s ≡ (ok tt, with_attr a s)
  unfolding write_attr wrt_atr
  write_attr-ok =
      step _ (push_name a.name (attr_item a s) attr_entity_size s length-attr_item v fits)
      ∙ step _ (write_item a.name (attr_item a s) attr_entity_size s length-attr_item v fits)
      ∙ shift_item a.name (attr_item a s) attr_entity_size s length-attr_item v fits

  with_attr-IsValid : IsValid (with_attr a s)
  with_attr-IsValid = put-IsValid a.name (attr_item a s) attr_entity_size s length-attr_item v fits

  header-with_attr :
      (with_attr a s).header
      ≡ borders
          (s.header.lst_itm_ptr + attr_entity_size)
          (s.header.fst_rec_ptr - length a.name)
          s.header
  header-with_attr = header-put a.name (attr_item a s) attr_entity_size s length-attr_item v fits

  lip-with_attr : (with_attr a s).header.lst_itm_ptr ≡ s.header.lst_itm_ptr + attr_entity_size
  lip-with_attr = ap (λ (h : SectHead). h.lst_itm_ptr) header-with_attr

  frp-with_attr : (with_attr a s).header.fst_rec_ptr ≡ s.header.fst_rec_ptr - length a.name
  frp-with_attr = ap (λ (h : SectHead). h.fst_rec_ptr) header-with_attr

  free-with_attr :
      (with_attr a s).header.free_space + attr_entity_size + length a.name ≡ s.header.free_space
  free-with_attr = omega (arith, v.balance, ap (λ (h : SectHead). h.free_space) header-with_attr)

  module _ (rest : List Attr) (t : Sect) (w : WroteAttrs rest (with_attr a s) t)
      (room : length rest * attr_entity_size + names_size rest
        ≤ (with_attr a s).header.free_space) where
    lip-wrote :
        t.header.lst_itm_ptr
        ≡ s.header.lst_itm_ptr + attr_entity_size + length rest * attr_entity_size
    lip-wrote = ap (λ (h : SectHead). h.lst_itm_ptr) w.header ∙ omega (arith, lip-with_attr)

    frp-wrote : t.header.fst_rec_ptr ≡ s.header.fst_rec_ptr - length a.name - names_size rest
    frp-wrote = ap (λ (h : SectHead). h.fst_rec_ptr) w.header ∙ omega (arith, frp-with_attr)

    kept-cons : Frame s t
    kept-cons c cs p q h =
        w.kept c cs p (omega (arith, q, lip-with_attr, frp-with_attr))
          (frame-put a.name (attr_item a s) attr_entity_size s length-attr_item v fits c cs p q h)

    first : AttrAt t s.header.lst_itm_ptr a
    first = record {
      name_ptr = s.header.fst_rec_ptr - length a.name;
      item =
          w.kept s.header.lst_itm_ptr (attr_item a s) v.low
            (inl (omega (arith, lip-with_attr, length-attr_item)))
            (Holds-put_item a.name (attr_item a s) attr_entity_size s length-attr_item v fits);
      name =
          w.kept (s.header.fst_rec_ptr - length a.name) a.name
            (omega (arith, v.low, v.balance, fits)) (inr (omega (arith, frp-with_attr)))
            (Holds-put_name a.name (attr_item a s) attr_entity_size s length-attr_item v fits);
      item_low = v.low;
      item_high = omega (arith, lip-wrote);
      rec_low = omega (arith, frp-wrote);
      rec_high = omega (arith, v.balance, v.high, fits);
    }

    header-cons :
        t.header
        ≡ borders
            (s.header.lst_itm_ptr + length (a ∷ rest) * attr_entity_size)
            (s.header.fst_rec_ptr - names_size (a ∷ rest))
            s.header
    header-cons =
        w.header
        ∙ ap
            (λ (h : SectHead).
              borders (h.lst_itm_ptr + length rest * attr_entity_size)
                (h.fst_rec_ptr - names_size rest) h)
            header-with_attr
        ∙ λ i. borders (items i) (recs i) s.header
      where
        items :
            s.header.lst_itm_ptr + attr_entity_size + length rest * attr_entity_size
            ≡ s.header.lst_itm_ptr + length (a ∷ rest) * attr_entity_size
        items = omega arith

        recs :
            s.header.fst_rec_ptr - length a.name - names_size rest
            ≡ s.header.fst_rec_ptr - names_size (a ∷ rest)
        recs = omega arith

    WroteAttrs-cons : WroteAttrs (a ∷ rest) s t
    WroteAttrs-cons = record {
      valid = w.valid;
      header = header-cons;
      kept = kept-cons;
      attrs = (first, subst (λ (k : ℕ). AttrsAt t k rest) lip-with_attr w.attrs);
      within =
          Within-trans s (with_attr a s) t
            (Within-put a.name (attr_item a s) attr_entity_size s length-attr_item v fits) w.within;
    }

WroteAttrs-nil : (s : Sect) → IsValid s → WroteAttrs [] s s
WroteAttrs-nil s v = record {
  valid = v;
  header = λ i. record s.header { lst_itm_ptr = lip i; fst_rec_ptr = frp i; free_space = free i };
  kept = λ c cs p q h. h;
  attrs = tt;
  within = Within-refl s;
}
  where
    lip : s.header.lst_itm_ptr ≡ s.header.lst_itm_ptr + 0
    lip = omega arith

    frp : s.header.fst_rec_ptr ≡ s.header.fst_rec_ptr - 0
    frp = omega arith

    free : s.header.free_space ≡ s.header.fst_rec_ptr - 0 - (s.header.lst_itm_ptr + 0)
    free = omega (arith, v.balance)

pub write_attrs-ok :
    (as_ : List Attr) (s : Sect)
    → IsValid s
    → length as_ * attr_entity_size + names_size as_ ≤ s.header.free_space
    → (t : Sect) × (write_attrs as_ s ≡ (ok tt, t)) × WroteAttrs as_ s t
unfolding write_attrs
write_attrs-ok [] s v fits = (s, refl, WroteAttrs-nil s v)
write_attrs-ok (a ∷ rest) s v fits =
    let first_fits : attr_entity_size + length a.name ≤ s.header.free_space = omega (arith, fits) in
    let room : length rest * attr_entity_size + names_size rest
        ≤ (with_attr a s).header.free_space =
      omega (arith, fits, free-with_attr a s v first_fits) in
    let (t, r, w) = write_attrs-ok rest (with_attr a s) (with_attr-IsValid a s v first_fits) room in
    (t, step _ (write_attr-ok a s v first_fits) ∙ r, WroteAttrs-cons a s v first_fits rest t w room)
