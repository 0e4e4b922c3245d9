-- ===== src/File/Find/Tests.antt =====
-- A file with one document, and the search for it.
use nosql_gql_dbms.Base.{
  ℕ, suc, ◌≡◌, refl, subst, List, [], ◌∷◌, none, arith, ok, ◌>>=◌, true, ltb, leb, ◌==◌,
}
use nosql_gql_dbms.Json.Entity.{Entity, Tplgy}
use nosql_gql_dbms.Json.{Json}
use nosql_gql_dbms.Iter.{iter_ctor}
use nosql_gql_dbms.Iter.Laws.{Finds, drain, iter_ctor-drain, gather}
use nosql_gql_dbms.Section.Extents.Slots.{Stores}
use nosql_gql_dbms.Section.Header.Laws.{Holds-IsSynced, moved, synced, stored}
use nosql_gql_dbms.Section.Extents.Cells.{Contents, Cell, load-Contents}
use nosql_gql_dbms.Section.Record.Laws.{pushed}
use nosql_gql_dbms.File.WellFormed.{on_ext-ok}
use nosql_gql_dbms.Section.Extents.Write.{placed, written}
use nosql_gql_dbms.Base.{get_elem?-set_self}
use nosql_gql_dbms.Section.Header.{SectHead}
use nosql_gql_dbms.File.Find.{find}
use nosql_gql_dbms.Section.Extents.{load}
use nosql_gql_dbms.File.Docs.{read_tree, read}
use nosql_gql_dbms.File.TypeDefs.{read_type}
use nosql_gql_dbms.Json.{null, node, text}
use nosql_gql_dbms.Section.Extents.RoundTrip.{as_text}
use nosql_gql_dbms.File.Grow.{NodeAt-wrote, more-IsWellFormed, wrote-IsWellFormed, more, wrote}
use nosql_gql_dbms.Section.Extents.Slots.{IsFor}
use nosql_gql_dbms.File.Relink.{cleared, cleared-IsWellFormed}
use nosql_gql_dbms.Section.Header.{Sect, new_header}
use nosql_gql_dbms.Query.{query_check, check_items, query_check_type, Query}
use nosql_gql_dbms.Json.Entity.{entity_init}
use nosql_gql_dbms.Section.Extents.RoundTrip.{
  node_of-entity_for, fits_union, entity_for-IsFor, entity_for, IsNode,
}
use nosql_gql_dbms.Json.{JsonHead, type_string}
use nosql_gql_dbms.Section.Header.Laws.{IsValid}
use nosql_gql_dbms.File.{on_ext, sect_of, get_sect_types, File}
use nosql_gql_dbms.Section.Extents.Frame.{over}
use nosql_gql_dbms.File.Tree.Read.{DocAt-ReadBack, ReadBack}
use nosql_gql_dbms.Json.Compare.{Floats}
use nosql_gql_dbms.File.WellFormed.{NodeAt, IsWellFormed}
use nosql_gql_dbms.File.Find.Laws.{find-passing, passing, Reads}
use nosql_gql_dbms.Stdio.{fopen}
use nosql_gql_dbms.Text.{strncpy}
use nosql_gql_dbms.File.Tree.{DocAt}

abbrev pub name : JsonHead
name = record { key = b'n' ∷ []; type = type_string; value = text (b'x' ∷ b'y' ∷ []); foff = 0 }

name-IsNode : IsNode name (b'x' ∷ b'y' ∷ [])
unfolding strncpy
name-IsNode = record { key_text = refl; known = omega arith; value = as_text refl refl refl }

pub cleared_wf : IsWellFormed (cleared fopen)
unfolding fopen
cleared_wf = cleared-IsWellFormed fopen (omega arith)

-- one section, without items
abbrev pub no_items : File
no_items = more (cleared fopen) cleared_wf (omega arith)

pub no_items_wf : IsWellFormed no_items
no_items_wf = more-IsWellFormed (cleared fopen) cleared_wf (omega arith)

abbrev pub orphan : Tplgy
orphan = record { dad_ptr = 0; bro_ptr = 0; son_ptr = 0 }

abbrev pub ent : Entity
ent = entity_for name (b'x' ∷ b'y' ∷ []) orphan 0

abbrev pub section : Sect
section = over (new_header 8) no_items.filp

section-IsValid : IsValid section
section-IsValid = (no_items_wf.heads 0 (new_header 8) refl).valid

-- the document in the section
abbrev pub one_item : File
one_item =
    wrote name.key (b'x' ∷ b'y' ∷ []) ent 0 no_items (new_header 8) no_items_wf refl (omega arith)

is_for : IsFor ent name.key (b'x' ∷ b'y' ∷ [])
is_for =
    entity_for-IsFor name (b'x' ∷ b'y' ∷ []) orphan 0 section section-IsValid name-IsNode
      (omega arith) (omega arith)

pub one_item_wf : IsWellFormed one_item
one_item_wf =
    wrote-IsWellFormed name.key (b'x' ∷ b'y' ∷ []) ent 0 no_items (new_header 8) no_items_wf refl
      (omega arith) is_for

abbrev pub item : Entity
item = placed name.key (b'x' ∷ b'y' ∷ []) ent section

pub NodeAt-name : NodeAt one_item 0 32 40 item (b'x' ∷ b'y' ∷ []) name
NodeAt-name =
    NodeAt-wrote name.key (b'x' ∷ b'y' ∷ []) ent 0 no_items (new_header 8) no_items_wf refl
      (omega arith) is_for name refl
      (fits_union name (b'x' ∷ b'y' ∷ []) orphan 0 section section-IsValid name-IsNode (omega arith)
        (omega arith))
      (node_of-entity_for name (b'x' ∷ b'y' ∷ []) orphan 0 section section-IsValid name-IsNode
        (omega arith) (omega arith))

pub DocAt-name : DocAt one_item (λ o. Unit) 40 0 0 (node name null null null)
unfolding entity_init
DocAt-name = (
  record {
    sect = 0;
    soff = 32;
    ent = item;
    val = b'x' ∷ b'y' ∷ [];
    item = NodeAt-name;
    dad_same = refl;
    type_same = refl;
  },
  tt,
  refl,
  refl,
)

back : ReadBack one_item one_item_wf (suc 8200) 40 0 0 (node name null null null)
back =
    DocAt-ReadBack one_item one_item_wf (λ o. Unit) 8200 40 0 0 name null null null (omega arith)
      DocAt-name

abbrev all : Query
all = record { type_name = none; f_query_itm = [] }

abbrev pub floats : Floats
floats = record { eq = λ a b. a == b; lt = λ a b. ltb a b; le = λ a b. leb a b }

reads : Reads floats all one_item 40
unfolding query_check query_check_type check_items read_type get_sect_types sect_of read read_tree
reads = record {
  json = back.root;
  ent = back.ent;
  type = none;
  passes = true;
  read_is = back.returns;
  type_is = refl;
  check_is = refl;
}

abbrev pub filled : Sect
filled = written name.key (b'x' ∷ b'y' ∷ []) ent section

abbrev pub cell : Cell
cell = record { ent = item; key = name.key; val = b'x' ∷ b'y' ∷ [] }

pub filled_head : NodeAt-name.head ≡ filled.header
filled_head =
    cc (NodeAt-name.there, get_elem?-set_self no_items.f_extent 0 (new_header 8) filled.header refl)

pub filled-Contents : Contents filled (cell ∷ [])
unfolding synced stored moved pushed
filled-Contents = record {
  valid = (one_item_wf.heads 0 filled.header refl).valid;
  in_file = Holds-IsSynced filled (one_item_wf.heads 0 filled.header refl).in_file;
  cells = (
    subst (λ (h : SectHead). Stores (over h one_item.filp) 32 item name.key (b'x' ∷ b'y' ∷ []))
        filled_head NodeAt-name.stores,
    NodeAt-name.fits,
    refl,
  );
}

loads : on_ext 0 load one_item ≡ (ok (40 ∷ []), one_item)
unfolding synced stored moved pushed
loads =
    on_ext-ok 0 load one_item filled.header (ok (40 ∷ [])) filled refl
      (load-Contents filled (cell ∷ []) filled-Contents)

find-passing_example :
    find floats all 0 one_item
    ≡ (ok (true, passing floats all one_item (40 ∷ []) (reads, tt)), one_item)
find-passing_example = find-passing floats all one_item 0 (40 ∷ []) loads (reads, tt)

abbrev col : List (Json × Entity)
col = passing floats all one_item (40 ∷ []) (reads, tt)

finds : Finds floats all one_item (λ i. col)
finds i p = (
  true,
  subst (λ (k : ℕ). find floats all k one_item ≡ (ok (true, col), one_item)) (omega (arith, p))
      (find-passing floats all one_item 0 (40 ∷ []) loads (reads, tt)),
)

iter_ctor-drain_example :
    (iter_ctor floats all >>= drain floats 2) one_item ≡ (ok (gather (λ i. col) 1 0), one_item)
unfolding reads
iter_ctor-drain_example = iter_ctor-drain floats all one_item (λ i. col) finds 2 (omega arith)
