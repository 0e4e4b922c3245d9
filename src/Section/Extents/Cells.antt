-- ===== src/Section/Extents/Cells.antt =====
-- A section as the list of what its cells hold, and `sect_ext_write` and `sect_ext_load` on it.
use nosql_gql_dbms.Base.{
  ℕ, zero, suc, ◌+◌, ◌≤◌, ◌<◌, ◌≡◌, ◌∙◌, refl, ap, sym, subst, List, [], ◌∷◌, ◌++◌, arith, length,
  ok, lt→ltb, step, attempt, le→ltb_false,
}
use nosql_gql_dbms.Stdio.{max_pos}
use nosql_gql_dbms.Stdio.Laws.{IsSeekable}
use nosql_gql_dbms.Json.Entity.{Entity, entity_size}
use nosql_gql_dbms.Section.Header.{
  Sect, SectHead, ctor, new_header, head_size, section_size, get_fileoff,
}
use nosql_gql_dbms.Section.Header.Laws.{
  IsValid, IsSynced, synced, ctor-moved, synced-IsValid, synced-IsSynced, header-synced,
}
use nosql_gql_dbms.Section.Extents.{dtor_read, write, load_loop, load}
use nosql_gql_dbms.Section.Extents.Slots.{written-Wrote, Stores, Wrote, IsFor}
use nosql_gql_dbms.Section.Extents.Write.{written, returns, placed}
use nosql_gql_dbms.Section.Extents.Read.{FitsUnion, read-Stores, node_of}

-- What a cell holds: its entity, and the bytes of the key and of the value.
pub record Cell : Type 0 where
  pub ent : Entity
  pub key : List ℕ
  pub val : List ℕ

-- From `i` up to the border of the items stand these cells, one behind the other.
abbrev pub Cells : Sect → ℕ → List Cell → Type 0
Cells s i [] = i ≡ s.header.lst_itm_ptr
Cells s i (c ∷ cs) = Stores s i c.ent c.key c.val × FitsUnion c.ent × Cells s (i + entity_size) cs

-- The section stands for the list: it is valid, its header is in the file, and its cells are these.
pub record Contents (s : Sect) (cs : List Cell) : Type 0 where
  pub valid : IsValid s
  pub in_file : IsSynced s
  pub cells : Cells s head_size cs

-- The file offsets of cells that follow each other.
abbrev pub cell_offsets : SectHead → ℕ → List Cell → List ℕ
cell_offsets h i [] = []
cell_offsets h i (c ∷ cs) = get_fileoff h i ∷ cell_offsets h (i + entity_size) cs

load_loop-ok :
    (cs : List Cell) (fuel i : ℕ) (s : Sect)
    → IsValid s
    → IsSynced s
    → length cs < fuel
    → Cells s i cs
    → load_loop fuel i s ≡ (ok (cell_offsets s.header i cs), s)
unfolding load_loop dtor_read
load_loop-ok cs zero i s v f l c = absurd (omega arith)
load_loop-ok [] (suc fuel) i s v f l c = rw (le→ltb_false i s.header.lst_itm_ptr (omega (arith, c)))
load_loop-ok (c ∷ cs) (suc fuel) i s v f l (st, u, rest) =
    rw (lt→ltb i s.header.lst_itm_ptr (omega (arith, st.item_high))) (
      step _ (
        ap attempt (
          read-Stores i c.ent c.key c.val s v st u
          ∙ ap (λ t. (ok (c.ent, node_of c.ent c.key c.val), t)) f))
      ∙ step _ (load_loop-ok cs fuel (i + entity_size) s v f (omega arith) rest))

Cells-length :
    (cs : List Cell) (i : ℕ) (s : Sect) → Cells s i cs → length cs + i ≤ s.header.lst_itm_ptr
Cells-length [] i s c = omega (arith, c)
Cells-length (c ∷ cs) i s (st, u, rest) = omega (arith, Cells-length cs (i + entity_size) s rest)

-- `sect_ext_load` on a section that stands for a list of cells ends, lists the file offset of each cell in
-- their order, and leaves the section and the file as they are.
pub load-Contents :
    (s : Sect) (cs : List Cell)
    → Contents s cs
    → load s ≡ (ok (cell_offsets s.header head_size cs), s)
unfolding load
load-Contents s cs c =
    load_loop-ok cs (suc s.header.lst_itm_ptr) head_size s c.valid c.in_file
      (omega (arith, Cells-length cs head_size s c.cells)) c.cells

-- At a place that `fseek` reaches to the end of the section, `sect_head_ctor` succeeds and leaves a
-- section that stands for no cells.
ctor-Contents :
    (offset : ℕ) (s : Sect)
    → offset + section_size < max_pos
    → IsSeekable s.filp
    → (t : Sect) × (ctor offset s ≡ (ok tt, t)) × Contents t []
ctor-Contents offset s p q = (
  synced (record s { header = new_header offset }),
  ctor-moved offset s p q,
  record {
    valid =
        synced-IsValid (record s { header = new_header offset })
          (record {
            balance = refl;
            low = omega arith;
            high = omega arith;
            placed = p;
            seekable = q;
          });
    in_file = synced-IsSynced (record s { header = new_header offset });
    cells = rw (header-synced (record s { header = new_header offset }));
  },
)

Cells-Wrote :
    (key val : List ℕ) (ent : Entity) (s t : Sect) (w : Wrote key val ent s t)
    → FitsUnion ent
    → (cs : List Cell) (i : ℕ) → Cells s i cs
    → Cells t i (cs ++ (record { ent = placed key val ent s; key = key; val = val } ∷ []))
Cells-Wrote key val ent s t w u [] i c = (
  subst (λ (k : ℕ). Stores t k (placed key val ent s) key val) (sym c) w.new,
  u,
  omega (arith, c, ap (λ (h : SectHead). h.lst_itm_ptr) w.header),
)
Cells-Wrote key val ent s t w u (c ∷ cs) i (st, f, rest) =
    (w.kept i c.ent c.key c.val st, f, Cells-Wrote key val ent s t w u cs (i + entity_size) rest)

pub written-Contents :
    (key val : List ℕ) (ent : Entity) (s : Sect) (cs : List Cell)
    → Contents s cs
    → IsFor ent key val
    → FitsUnion ent
    → entity_size + length key + length val ≤ s.header.free_space
    → Contents
        (written key val ent s)
        (cs ++ (record { ent = placed key val ent s; key = key; val = val } ∷ []))
written-Contents key val ent s cs c f u fits =
    let post : Wrote key val ent s (written key val ent s) =
      written-Wrote key val ent s c.valid fits f in
    record {
      valid = post.valid;
      in_file = post.in_file;
      cells = Cells-Wrote key val ent s (written key val ent s) post u cs head_size c.cells;
    }

-- Where the item and the record fit, `sect_ext_write` on a section that stands for a list succeeds
-- at its border of items, and leaves one that stands for the list with the new cell at its end.
pub write-Contents :
    (key val : List ℕ) (ent : Entity) (s : Sect) (cs : List Cell)
    → Contents s cs
    → IsFor ent key val
    → FitsUnion ent
    → entity_size + length key + length val ≤ s.header.free_space
    → (t : Sect) × (write key val ent s ≡ (ok (s.header.lst_itm_ptr, placed key val ent s), t))
      × Contents t (cs ++ (record { ent = placed key val ent s; key = key; val = val } ∷ []))
write-Contents key val ent s cs c f u fits = (
  written key val ent s,
  returns key val ent s c.valid fits,
  written-Contents key val ent s cs c f u fits,
)
