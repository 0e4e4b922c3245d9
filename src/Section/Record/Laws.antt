-- ===== src/Section/Record/Laws.antt =====
-- What pushing a record does to a valid section.
use nosql_gql_dbms.Base.{◌⊎◌, ap, ℕ, ◌+◌, ◌-◌, ◌≤◌, ◌≡◌, List, arith, length, ok}
use nosql_gql_dbms.Section.Header.{Sect, SectHead, head_size}
use nosql_gql_dbms.Section.Header.Laws.{
  Holds-stored-Apart, Holds-moved, IsValid, Holds, stored, moved, borders, header-stored,
  header-moved, stored-IsValid, moved-IsValid, write-ok, shift_frp-down, Holds-stored_self,
}
use nosql_gql_dbms.Section.Record.{push_rec}

-- the section with `bs` pushed onto its records
unfoldable pub pushed : List ℕ → Sect → Sect
pushed bs s =
    stored (s.header.fst_rec_ptr - length bs) bs
      (moved s.header.lst_itm_ptr (s.header.fst_rec_ptr - length bs) s)

pub pushed-IsValid :
    (bs : List ℕ) (s : Sect) → IsValid s → length bs ≤ s.header.free_space → IsValid (pushed bs s)
unfolding pushed
pushed-IsValid bs s v h =
    stored-IsValid (s.header.fst_rec_ptr - length bs) bs
      (moved s.header.lst_itm_ptr (s.header.fst_rec_ptr - length bs) s)
      (moved-IsValid s.header.lst_itm_ptr (s.header.fst_rec_ptr - length bs) s v v.low (omega arith)
        (omega arith))

pub header-pushed :
    (bs : List ℕ) (s : Sect)
    → (pushed bs s).header
      ≡ borders s.header.lst_itm_ptr (s.header.fst_rec_ptr - length bs) s.header
unfolding pushed
header-pushed bs s =
    rw header-stored (header-moved s.header.lst_itm_ptr (s.header.fst_rec_ptr - length bs) s)

pub push_rec-ok :
    (bs : List ℕ) (s : Sect)
    → IsValid s
    → length bs ≤ s.header.free_space
    → push_rec bs s ≡ (ok (s.header.fst_rec_ptr - length bs), pushed bs s)
unfolding push_rec pushed
push_rec-ok bs s v h =
    let frp = s.header.fst_rec_ptr - length bs in
    let t = moved s.header.lst_itm_ptr frp s in
    let tv : IsValid t =
      moved-IsValid s.header.lst_itm_ptr frp s v v.low (omega arith) (omega arith) in
    let e : t.header.fst_rec_ptr ≡ frp =
      ap (λ (h : SectHead). h.fst_rec_ptr) (header-moved s.header.lst_itm_ptr frp s) in
    simp (shift_frp-down (length bs) s v h, e, write-ok frp bs t tv (omega arith))

pub Holds-pushed_self :
    (bs : List ℕ) (s : Sect) → Holds (pushed bs s) (s.header.fst_rec_ptr - length bs) bs
unfolding pushed
Holds-pushed_self bs s =
    Holds-stored_self (s.header.fst_rec_ptr - length bs) bs
      (moved s.header.lst_itm_ptr (s.header.fst_rec_ptr - length bs) s)

-- Pushing spares what lies below the new record or in the records before it.
pub Holds-pushed :
    (bs : List ℕ) (s : Sect) (c : ℕ) (cs : List ℕ)
    → length bs ≤ s.header.fst_rec_ptr
    → head_size ≤ c
    → (c + length cs ≤ s.header.fst_rec_ptr - length bs) ⊎ (s.header.fst_rec_ptr ≤ c)
    → Holds s c cs
    → Holds (pushed bs s) c cs
unfolding pushed
Holds-pushed bs s c cs l p a h =
    Holds-stored-Apart (s.header.fst_rec_ptr - length bs) bs
      (moved s.header.lst_itm_ptr (s.header.fst_rec_ptr - length bs) s) c cs (omega arith)
      (Holds-moved s.header.lst_itm_ptr (s.header.fst_rec_ptr - length bs) s c cs p h)
