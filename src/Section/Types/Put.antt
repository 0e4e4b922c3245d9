-- ===== src/Section/Types/Put.antt =====
-- One name and one item, as the writes of a type section put them: the name goes onto the records, the
-- item behind the items.
use nosql_gql_dbms.Section.Within.{Within-stored, Within-moved, Within-pushed, Within, Within-trans}
use nosql_gql_dbms.Base.{ap, ℕ, ◌+◌, ◌-◌, ◌≤◌, ◌≡◌, ◌∙◌, ◌⊎◌, List, arith, length, ok}
use nosql_gql_dbms.Section.Header
use nosql_gql_dbms.Section.Header.{Sect, SectHead, head_size, shift_lip}
use nosql_gql_dbms.Section.Header.Laws.{
  Holds-stored-Apart, Holds-moved, IsValid, Holds, stored, moved, borders, header-stored,
  header-moved, stored-IsValid, moved-IsValid, write-ok, shift_lip-up, Holds-stored_self,
}
use nosql_gql_dbms.Section.Record.{push_rec}
use nosql_gql_dbms.Section.Record.Laws.{
  pushed, pushed-IsValid, header-pushed, push_rec-ok, Holds-pushed_self, Holds-pushed,
}

module _ (name item : List ℕ) (n : ℕ) (s : Sect) where
  abbrev pub with_name : Sect
  with_name = pushed name s

  abbrev pub with_item : Sect
  with_item = stored s.header.lst_itm_ptr item with_name

  -- the section with the name and the item
  abbrev pub put : Sect
  put = moved (s.header.lst_itm_ptr + n) (s.header.fst_rec_ptr - length name) with_item

  abbrev pub name_at : ℕ
  name_at = s.header.fst_rec_ptr - length name

  module _ (e : length item ≡ n) (v : IsValid s)
      (fits : n + length name ≤ s.header.free_space) where
    header-with_name : with_name.header ≡ borders s.header.lst_itm_ptr name_at s.header
    header-with_name = header-pushed name s

    pub lip-with_name : with_name.header.lst_itm_ptr ≡ s.header.lst_itm_ptr
    lip-with_name = ap (λ (h : SectHead). h.lst_itm_ptr) header-with_name

    with_name-IsValid : IsValid with_name
    with_name-IsValid = pushed-IsValid name s v (omega arith)

    header-with_item : with_item.header ≡ borders s.header.lst_itm_ptr name_at s.header
    header-with_item = header-stored s.header.lst_itm_ptr item with_name ∙ header-with_name

    with_item-IsValid : IsValid with_item
    with_item-IsValid = stored-IsValid s.header.lst_itm_ptr item with_name with_name-IsValid

    pub put-IsValid : IsValid put
    put-IsValid =
        moved-IsValid (s.header.lst_itm_ptr + n) name_at with_item with_item-IsValid
          (omega (arith, v.low)) (omega (arith, v.balance)) (omega (arith, v.high))

    pub header-put : put.header ≡ borders (s.header.lst_itm_ptr + n) name_at s.header
    header-put =
        header-moved (s.header.lst_itm_ptr + n) name_at with_item
        ∙ ap (λ (h : SectHead). borders (s.header.lst_itm_ptr + n) name_at h) header-with_item

    pub push_name : push_rec name s ≡ (ok name_at, with_name)
    push_name = push_rec-ok name s v (omega arith)

    pub write_item : Header.write with_name.header.lst_itm_ptr item with_name ≡ (ok tt, with_item)
    write_item =
        ap (λ k. Header.write k item with_name) lip-with_name
        ∙ write-ok s.header.lst_itm_ptr item with_name with_name-IsValid
            (omega (arith, e, v.balance, v.high))

    pub shift_item : shift_lip n with_item ≡ (ok tt, put)
    shift_item =
        shift_lip-up n with_item with_item-IsValid (rw header-with_item (omega (arith, v.balance)))
        ∙ ap (λ (h : SectHead). (ok tt, moved (h.lst_itm_ptr + n) h.fst_rec_ptr with_item))
            header-with_item

    -- Outside the free space nothing changes.
    pub frame-put :
        (c : ℕ) (cs : List ℕ)
        → head_size ≤ c
        → (c + length cs ≤ s.header.lst_itm_ptr) ⊎ (s.header.fst_rec_ptr ≤ c)
        → Holds s c cs
        → Holds put c cs
    frame-put c cs p a h = Holds-moved (s.header.lst_itm_ptr + n) name_at with_item c cs p (
        Holds-stored-Apart s.header.lst_itm_ptr item with_name c cs (omega (arith, a, e, v.balance))
          (Holds-pushed name s c cs (omega (arith, v.balance)) p (omega (arith, a, v.balance)) h))

    pub Holds-put_item : Holds put s.header.lst_itm_ptr item
    Holds-put_item =
        Holds-moved (s.header.lst_itm_ptr + n) name_at with_item s.header.lst_itm_ptr item v.low
          (Holds-stored_self s.header.lst_itm_ptr item with_name)

    pub Holds-put_name : Holds put name_at name
    Holds-put_name =
        Holds-moved (s.header.lst_itm_ptr + n) name_at with_item name_at name
          (omega (arith, v.balance, v.low))
          (Holds-stored-Apart s.header.lst_itm_ptr item with_name name_at name
            (omega (arith, e, v.balance)) (Holds-pushed_self name s))

    pub Within-put : Within s put
    Within-put = Within-trans s with_name put (Within-pushed name s v (omega (arith, fits))) (
        Within-trans with_name with_item put
          (Within-stored s.header.lst_itm_ptr item with_name
            (omega (arith, e, v.balance, v.high, fits)))
          (Within-moved (s.header.lst_itm_ptr + n) name_at with_item))
