-- ===== src/File/Tree/RoundTrip.antt =====
-- `file_write` and `file_read` of dbms/src/file/file.c: a tree of documents that is written is read
-- back, also when other trees are written behind it.
mod Tests
use nosql_gql_dbms.File.Docs
use nosql_gql_dbms.Json.Entity.{entity_size, Entity}
use nosql_gql_dbms.File.{File}
use nosql_gql_dbms.File.Tree.{node, DocAt-map, Unused, Fits, nodes, Written, DocAt}
use nosql_gql_dbms.File.Tree.Read.{ReadBack, DocAt-ReadBack, plain}
use nosql_gql_dbms.File.Tree.Write.{write-Written}
use nosql_gql_dbms.Json.{Json, JsonHead}
use nosql_gql_dbms.File.WellFormed.{lips-IsWellFormed, IsWellFormed, lips}
use nosql_gql_dbms.Section.Header.{section_size}
use nosql_gql_dbms.Stdio.{max_pos}
use nosql_gql_dbms.Base.{u64_mod}
use nosql_gql_dbms.Base.{◌≡◌, ◌≤◌, ◌<◌, ◌+◌, ◌*◌, ℕ, suc, arith, ok}

-- What `file_read` of `foff` returns of the tree that was written there.
pub record IsReadBack (f : File) (foff dad type_ptr : ℕ) (t : Json) : Type 0 where
  pub root : Json
  pub ent : Entity
  pub returns : Docs.read foff f ≡ (ok (root, ent), f)
  pub same : plain root ≡ plain t
  pub dad_same : ent.fam_addr.dad_ptr ≡ dad
  pub type_same : ent.type_ptr ≡ type_ptr

module _ (j : JsonHead) (bro son next : Json) where
  abbrev tree : Json
  tree = node j bro son next

  -- The number of nodes is below the fuel of `Docs.read`.
  pub DocAt-IsReadBack :
      (P : ℕ → Type 0) (foff dad type_ptr : ℕ) (f : File)
      → IsWellFormed f
      → entity_size * nodes tree ≤ lips f.f_extent
      → DocAt f P foff dad type_ptr tree
      → IsReadBack f foff dad type_ptr tree
  unfolding Docs.read
  DocAt-IsReadBack P foff dad type_ptr f wf p d =
      let r : ReadBack f wf (suc f.lst_sect_ptr) foff dad type_ptr tree =
        DocAt-ReadBack f wf P f.lst_sect_ptr foff dad type_ptr j bro son next
          (omega (arith, p, lips-IsWellFormed f wf)) d in
      record {
        root = r.root;
        ent = r.ent;
        returns = r.returns;
        same = r.same;
        dad_same = r.dad_same;
        type_same = r.type_same;
      }

  module _ (dad type_ptr : ℕ) (f : File) (wf : IsWellFormed f) (fit : Fits tree)
      (room : f.lst_sect_ptr + section_size * nodes tree < max_pos) (d : dad < u64_mod)
      (y : type_ptr < u64_mod) where
    first : Written tree dad type_ptr f
    first = write-Written tree dad type_ptr f wf fit room d y

    -- In a well-formed file that may grow by a section for each node, `file_write` of a tree that is not
    -- null, whose nodes are as `json_ctor` makes them and fit an empty section, with offsets of 64 bits
    -- for the dad and the type of its root, succeeds, the file stays well-formed, and `file_read` of the
    -- offset returned gives the tree, each node with its key, its type and its value, and with the dad
    -- and the type of the root.
    pub write-read_tree :
        (foff : ℕ) × (g : File) × (Docs.write tree dad type_ptr f ≡ (ok foff, g))
        × IsWellFormed g
        × IsReadBack g foff dad type_ptr tree
    write-read_tree =
        let w : Written tree dad type_ptr f = first in
        (
          w.foff,
          w.left,
          w.returns,
          w.wf,
          DocAt-IsReadBack (Unused f) w.foff dad type_ptr w.left w.wf (omega (arith, w.held)) w.doc,
        )

    -- The same tree is read back after `file_write` of a second tree of this kind, where the file may
    -- grow by a section for each node of both.
    pub write-write-read :
        (other : Json) (dad' type_ptr' : ℕ)
        → Fits other
        → f.lst_sect_ptr + section_size * (nodes tree + nodes other) < max_pos
        → dad' < u64_mod
        → type_ptr' < u64_mod
        → (foff : ℕ) × (g : File) × (foff' : ℕ) × (h : File) × (Docs.write tree dad type_ptr f
            ≡ (ok foff, g))
          × (Docs.write other dad' type_ptr' g ≡ (ok foff', h))
          × IsReadBack h foff dad type_ptr tree
    write-write-read other dad' type_ptr' fit' room' d' y' =
        let w : Written tree dad type_ptr f = first in
        let v : Written other dad' type_ptr' w.left =
          write-Written other dad' type_ptr' w.left w.wf fit' (omega (arith, room', w.lsp)) d' y' in
        (
          w.foff,
          w.left,
          v.foff,
          v.left,
          w.returns,
          v.returns,
          DocAt-IsReadBack (Unused f) w.foff dad type_ptr v.left v.wf
              (omega (arith, w.held, v.held))
              (DocAt-map w.left v.left (Unused f) (Unused f)
                (λ k soff o e val x p n. v.grows.kept k soff o e val x n) (λ o p. p) w.foff dad
                type_ptr tree w.doc),
        )
