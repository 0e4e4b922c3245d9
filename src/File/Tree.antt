-- ===== src/File/Tree.antt =====
-- A tree of documents in a file: each node at the offset that its brother or its dad has for it.
pub mod Write
pub mod Read
pub mod RoundTrip
use nosql_gql_dbms.Section.Extents.{keep}
use nosql_gql_dbms.File.WellFormed.{lips}
use nosql_gql_dbms.Base.{ℕ, suc, ◌+◌, ◌-◌, ◌*◌, ◌≤◌, ◌<◌, ◌≡◌, List, length, u64_mod, ok}
use nosql_gql_dbms.Json.Entity.{Entity, entity_size}
use nosql_gql_dbms.Json.{Json, null, node, JsonHead}
use nosql_gql_dbms.Section.Header.{section_size, head_size}
use nosql_gql_dbms.Section.Extents.RoundTrip.{IsNode}
use nosql_gql_dbms.File.{File}
use nosql_gql_dbms.File.Docs
use nosql_gql_dbms.File.WellFormed.{IsWellFormed, NodeAt, Used, Grows}

-- The item of a node with its dad and its type.
pub record RootAt (f : File) (foff dad type_ptr : ℕ) (j : JsonHead) : Type 0 where
  pub sect : ℕ
  pub soff : ℕ
  pub ent : Entity
  pub val : List ℕ
  pub item : NodeAt f sect soff foff ent val j
  pub dad_same : ent.fam_addr.dad_ptr ≡ dad
  pub type_same : ent.type_ptr ≡ type_ptr

-- At `foff` stands the tree: each node at the offset that its brother or its dad has for it, 0 for no
-- node, and each at an offset with the property `P`.
abbrev pub DocAt : File → (ℕ → Type 0) → ℕ → ℕ → ℕ → Json → Type 0
DocAt f P foff dad type_ptr null = foff ≡ 0
DocAt f P foff dad type_ptr (node j bro son next) =
    (r : RootAt f foff dad type_ptr j) × P foff
    × DocAt f P r.ent.fam_addr.bro_ptr dad 0 bro
    × DocAt f P r.ent.fam_addr.son_ptr foff 0 son

-- A step that keeps the nodes at the offsets with the property keeps the tree.
pub DocAt-map :
    (f g : File) (P Q : ℕ → Type 0)
    → ((k soff o : ℕ) (e : Entity) (val : List ℕ) (j : JsonHead)
        → P o
        → NodeAt f k soff o e val j
        → NodeAt g k soff o e val j)
    → ((o : ℕ) → P o → Q o)
    → (foff dad type_ptr : ℕ) (t : Json) → DocAt f P foff dad type_ptr t
    → DocAt g Q foff dad type_ptr t
DocAt-map f g P Q keep weak foff dad type_ptr null d = d
DocAt-map f g P Q keep weak foff dad type_ptr (node j bro son next) (r, p, b, s) = (
  record {
    sect = r.sect;
    soff = r.soff;
    ent = r.ent;
    val = r.val;
    item = keep r.sect r.soff foff r.ent r.val j p r.item;
    dad_same = r.dad_same;
    type_same = r.type_same;
  },
  weak foff p,
  DocAt-map f g P Q keep weak r.ent.fam_addr.bro_ptr dad 0 bro b,
  DocAt-map f g P Q keep weak r.ent.fam_addr.son_ptr foff 0 son s,
)

-- Every node is as `json_ctor` makes one, and fits an empty section.
abbrev pub Fits : Json → Type 0
Fits null = Unit
Fits (node j bro son next) =
    ((val : List ℕ) × IsNode j val
      × (entity_size + length j.key + length val ≤ section_size - head_size))
    × Fits bro
    × Fits son

-- the number of nodes
abbrev pub nodes : Json → ℕ
nodes null = 0
nodes (node j bro son next) = suc (nodes bro + nodes son)

abbrev pub Unused : File → ℕ → Type 0
Unused f o = ¬ Used f o

-- What `file_write` does with a tree.
pub record Written (t : Json) (dad type_ptr : ℕ) (f : File) : Type 0 where
  pub foff : ℕ
  pub left : File
  pub returns : Docs.write t dad type_ptr f ≡ (ok foff, left)
  pub wf : IsWellFormed left
  pub grows : Grows f left
  pub doc : DocAt left (Unused f) foff dad type_ptr t
  pub lsp : left.lst_sect_ptr ≤ f.lst_sect_ptr + section_size * nodes t
  pub held : lips f.f_extent + entity_size * nodes t ≤ lips left.f_extent
  pub bound : foff < u64_mod
