-- ===== src/File/WellFormed.antt =====
-- A well-formed file, the nodes that it stores, and how an operation on one section changes both.
use nosql_gql_dbms.Base.{[], ◌++◌, zero, refl}
use nosql_gql_dbms.Base.{suc, ◌∷◌, ◌*◌, length}
use nosql_gql_dbms.Section.Header.{section_size}
use nosql_gql_dbms.Base.{
  ℕ, ◌+◌, ◌%◌, ◌≤◌, ◌≡◌, ap, ◌∙◌, List, Option, none, some, arith, fault, Outcome, M, get_elem?,
  set, words_bytes,
}
use nosql_gql_dbms.Stdio.{Stream}
use nosql_gql_dbms.Stdio.Laws.{IsSeekable}
use nosql_gql_dbms.Json.Entity.{Entity, entity_size}
use nosql_gql_dbms.Json.{JsonHead}
use nosql_gql_dbms.Section.Header.{Sect, SectHead, head_size, head_words}
use nosql_gql_dbms.Section.Header.Laws.{IsValid, Holds, length-head}
use nosql_gql_dbms.Section.Extents.Slots.{Stores}
use nosql_gql_dbms.Section.Extents.Read.{FitsUnion, node_of}
use nosql_gql_dbms.Section.Extents.Frame.{over, Spares, IsValid-over}
use nosql_gql_dbms.File.{File, on_ext}
use nosql_gql_dbms.File.Layout.{IsLaidOut}

-- The header of a section of entities: its section is valid, it is in the file, it lies behind the
-- header of the file, and its items fill whole cells.
pub record IsHead (f : Stream) (h : SectHead) : Type 0 where
  pub valid : IsValid (over h f)
  pub in_file : Holds (over h f) 0 (words_bytes (head_words h))
  pub above : 8 ≤ h.file_offset
  pub grid : h.lst_itm_ptr % entity_size ≡ head_size

pub record IsWellFormed (f : File) : Type 0 where
  pub laid : IsLaidOut f
  pub start : 8 ≤ f.lst_sect_ptr
  pub room : section_size * length f.f_extent ≤ f.lst_sect_ptr
  pub heads : (i : ℕ) (h : SectHead) → get_elem? f.f_extent i ≡ some h → IsHead f.filp h

-- In the i-th section, at `soff` of it and at `foff` of the file, stands the item `e` of a node with
-- its key and the bytes of its value.
pub record NodeAt (f : File) (i soff foff : ℕ) (e : Entity) (val : List ℕ) (j : JsonHead)
    : Type 0 where
  pub head : SectHead
  pub there : get_elem? f.f_extent i ≡ some head
  pub place : foff ≡ head.file_offset + soff
  pub stores : Stores (over head f.filp) soff e j.key val
  pub fits : FitsUnion e
  pub same : node_of e j.key val ≡ record j { foff = 0 }
  pub grid : soff % entity_size ≡ head_size

-- The offset is that of a cell behind the header of a section and before its border of items.
pub record Used (f : File) (o : ℕ) : Type 0 where
  pub sect : ℕ
  pub head : SectHead
  pub soff : ℕ
  pub there : get_elem? f.f_extent sect ≡ some head
  pub place : o ≡ head.file_offset + soff
  pub low : head_size ≤ soff
  pub high : soff + entity_size ≤ head.lst_itm_ptr

pub Used-NodeAt :
    {f : File} {i soff foff : ℕ} {e : Entity} {val : List ℕ} {j : JsonHead}
    → NodeAt f i soff foff e val j
    → Used f foff
Used-NodeAt {i} {soff} n = record {
  sect = i;
  head = n.head;
  soff = soff;
  there = n.there;
  place = n.place;
  low = n.stores.item_low;
  high = n.stores.item_high;
}

-- What stands in the one file stands in the other.
pub record Grows (f g : File) : Type 0 where
  pub kept :
      (i soff foff : ℕ) (e : Entity) (val : List ℕ) (j : JsonHead)
      → NodeAt f i soff foff e val j
      → NodeAt g i soff foff e val j
  pub used : (o : ℕ) → Used f o → Used g o

pub Grows-refl : (f : File) → Grows f f
Grows-refl f = record { kept = λ i soff foff e val j n. n; used = λ o u. u }

pub Grows-trans : (f g h : File) → Grows f g → Grows g h → Grows f h
Grows-trans f g h a b = record {
  kept = λ i soff foff e val j n. b.kept i soff foff e val j (a.kept i soff foff e val j n);
  used = λ o u. b.used o (a.used o u);
}

-- A change of the stream that spares every section of entities.
abbrev pub AllSpared : File → Stream → Type 0
AllSpared f s = (i : ℕ) (h : SectHead) → get_elem? f.f_extent i ≡ some h → Spares h f.filp s

-- The file with the i-th section of entities as `t` leaves it.
abbrev pub put_sect : ℕ → Sect → File → File
put_sect i t f = record f { f_extent = set f.f_extent i t.header; filp = t.filp }

pub on_ext-ok :
    {A : Type 0} (i : ℕ) (m : M Sect A) (f : File) (h : SectHead) (a : Outcome A) (t : Sect)
    → get_elem? f.f_extent i ≡ some h
    → m (over h f.filp) ≡ (a, t)
    → on_ext i m f ≡ (a, put_sect i t f)
unfolding on_ext
on_ext-ok i m f h a t e r =
    ap
      (λ (o : Option SectHead). elim o [
        | none ↦ (fault, f)
        | some x ↦
            let (b, s) = m (over x f.filp) in
            (b, record f { f_extent = set f.f_extent i s.header; filp = s.filp })
      ])
      e
    ∙ ap
        (λ (x : Outcome _ × Sect).
          (x.0, record f { f_extent = set f.f_extent i x.1.header; filp = x.1.filp }))
        r

pub IsHead-Spares :
    (h : SectHead) (f g : Stream)
    → (IsSeekable f → IsSeekable g)
    → Spares h f g
    → IsHead f h
    → IsHead g h
IsHead-Spares h f g q s v = record {
  valid = IsValid-over h f g q v.valid;
  in_file = s 0 (words_bytes (head_words h)) (omega (arith, length-head h)) v.in_file;
  above = v.above;
  grid = v.grid;
}

-- the borders of the items of the sections, added up
abbrev pub lips : List SectHead → ℕ
lips [] = 0
lips (h ∷ hs) = h.lst_itm_ptr + lips hs

pub lips-append : (hs ks : List SectHead) → lips (hs ++ ks) ≡ lips hs + lips ks
lips-append [] ks = omega arith
lips-append (h ∷ hs) ks = omega (arith, lips-append hs ks)

pub lips-set :
    (hs : List SectHead) (i : ℕ) (h k : SectHead)
    → get_elem? hs i ≡ some h
    → lips (set hs i k) + h.lst_itm_ptr ≡ lips hs + k.lst_itm_ptr
lips-set [] i h k e = cc
lips-set (x ∷ hs) zero h k e =
    let same : x ≡ h = cc in omega (arith, ap (λ (y : SectHead). y.lst_itm_ptr) same)
lips-set (x ∷ hs) (suc i) h k e = omega (arith, lips-set hs i h k e)

lips_small :
    (hs : List SectHead)
    → ((i : ℕ) (h : SectHead) → get_elem? hs i ≡ some h → h.lst_itm_ptr ≤ section_size)
    → lips hs ≤ section_size * length hs
lips_small [] p = omega arith
lips_small (h ∷ hs) p = omega (arith, p 0 h refl, lips_small hs (λ i x e. p (suc i) x e))

-- The items fill no more than the sections, and these no more than the file.
pub lips-IsWellFormed : (f : File) → IsWellFormed f → lips f.f_extent ≤ f.lst_sect_ptr
lips-IsWellFormed f wf = omega (
  arith,
  wf.room,
  lips_small f.f_extent
      (λ i h e. omega (arith, (wf.heads i h e).valid.balance, (wf.heads i h e).valid.high)),
)
