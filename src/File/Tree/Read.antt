-- ===== src/File/Tree/Read.antt =====
-- `file_read` of dbms/src/file/file.c on a tree of documents that stands in a well-formed file.
use nosql_gql_dbms.Section.Extents
use nosql_gql_dbms.Section.Header.{get_sectoff, SectHead, section_size, get_fileoff}
use nosql_gql_dbms.File.{File, get_sect_ext, head_at, on_ext, no_head}
use nosql_gql_dbms.File.WellFormed.{IsWellFormed, on_ext-ok, NodeAt}
use nosql_gql_dbms.Json.{json_ctor, JsonHead, json_add_bro, Json, json_add_son}
use nosql_gql_dbms.Section.Header.Laws.{Holds-IsSynced, IsValid}
use nosql_gql_dbms.File.Layout.{get_sect_ext-get_fileoff}
use nosql_gql_dbms.File.Tree.{null, node, nodes, RootAt, DocAt}
use nosql_gql_dbms.Section.Extents.Frame.{over}
use nosql_gql_dbms.Section.Extents.Read.{node_of, read-Stores}
use nosql_gql_dbms.Base.{set_same}
use nosql_gql_dbms.File.Docs.{read_tree}
use nosql_gql_dbms.Base.{
  ℕ, zero, suc, ◌+◌, ◌≤◌, ◌≡◌, ◌≢◌, refl, ap, ◌∙◌, List, Option, none, some, arith, ok, step, pure,
  ◌>>=◌, ◌==◌, if◌then◌else◌, eq→==, ne→==,
}
use nosql_gql_dbms.Json.Entity.{Entity, entity_size}

-- What `file_read` gives of a document: no offsets, and no list of documents behind a node.
abbrev pub plain : Json → Json
plain null = null
plain (node j bro son next) = node (record j { foff = 0 }) (plain bro) (plain son) null

module _ (f : File) (wf : IsWellFormed f) where
  -- One item.
  module _ (i soff foff : ℕ) (e : Entity) (val : List ℕ) (j : JsonHead)
      (n : NodeAt f i soff foff e val j) where
    valid : IsValid (over n.head f.filp)
    valid = (wf.heads i n.head n.there).valid

    soff_small : soff + entity_size ≤ section_size
    soff_small = omega (arith, n.stores.item_high, valid.balance, valid.high)

    offset : foff ≡ get_fileoff n.head soff
    offset = omega (arith, n.place, valid.placed, soff_small)

    pub found : get_sect_ext f foff ≡ some i
    found =
        ap (get_sect_ext f) offset
        ∙ get_sect_ext-get_fileoff f i soff n.head wf.laid n.there (omega (arith, soff_small))

    head_same : head_at f.f_extent i ≡ n.head
    head_same = ap (λ (o : Option SectHead). elim o [ none ↦ no_head | some z ↦ z ]) n.there

    sectoff : get_sectoff (head_at f.f_extent i) foff ≡ soff
    sectoff =
        ap (λ (h : SectHead). get_sectoff h foff) head_same
        ∙ omega (arith, n.place, valid.placed, soff_small)

    pub reads : on_ext i (Extents.read soff) f ≡ (ok (e, node_of e j.key val), f)
    reads =
        on_ext-ok i (Extents.read soff) f n.head (ok (e, node_of e j.key val)) (over n.head f.filp)
          n.there
          (read-Stores soff e j.key val (over n.head f.filp) valid n.stores n.fits ∙ λ k. (
            ok (e, node_of e j.key val),
            Holds-IsSynced (over n.head f.filp) (wf.heads i n.head n.there).in_file k,
          ))
        ∙ λ k. (
          ok (e, node_of e j.key val),
          record f { f_extent = set_same f.f_extent i n.head n.there k },
        )

    pub nonzero : foff ≢ 0
    nonzero = omega (arith, n.place, n.stores.item_low)

  -- What `file_read` returns of a tree of documents at `foff`.
  pub record ReadBack (fuel foff dad type_ptr : ℕ) (t : Json) : Type 0 where
    pub root : Json
    pub ent : Entity
    pub returns : read_tree fuel foff f ≡ (ok (root, ent), f)
    pub same : plain root ≡ plain t
    pub dad_same : ent.fam_addr.dad_ptr ≡ dad
    pub type_same : ent.type_ptr ≡ type_ptr

  -- What a link to a tree of documents leads to, when `add` hangs it on a node: a null link is not
  -- followed.
  record Link (fuel ptr : ℕ) (t : Json) : Type 0 where
    tree : Json
    same : plain tree ≡ plain t
    returns :
        (add : Json → Json → Json) (root : Json)
        → add root null ≡ root
        → (if ptr == 0 then pure root else (do (u, _) ← read_tree fuel ptr; pure (add root u))) f
          ≡ (ok (add root tree), f)

  Link-null : (fuel ptr : ℕ) → ptr ≡ 0 → Link fuel ptr null
  Link-null fuel ptr z = record {
    tree = null;
    same = refl;
    returns = λ add root e. rw (eq→== ptr 0 z, e) refl;
  }

  Link-ReadBack :
      (fuel ptr dad : ℕ) (t : Json) → ptr ≢ 0 → ReadBack fuel ptr dad 0 t → Link fuel ptr t
  Link-ReadBack fuel ptr dad t z r = record {
    tree = r.root;
    same = r.same;
    returns = λ add root e. rw (ne→== ptr 0 z) (step _ r.returns);
  }

  read_node :
      (fuel foff dad type_ptr : ℕ) (j : JsonHead) (bro son next : Json)
      (r : RootAt f foff dad type_ptr j)
      → Link fuel r.ent.fam_addr.bro_ptr bro
      → Link fuel r.ent.fam_addr.son_ptr son
      → ReadBack (suc fuel) foff dad type_ptr (node j bro son next)
  unfolding read_tree json_add_bro json_add_son json_ctor
  read_node fuel foff dad type_ptr j bro son next r b s =
      let h : JsonHead = record (node_of r.ent j.key r.val) { foff = foff } in
      record {
        root = node h b.tree s.tree null;
        ent = r.ent;
        returns =
            rw
              (
                found r.sect r.soff foff r.ent r.val j r.item,
                sectoff r.sect r.soff foff r.ent r.val j r.item,
                read_tree,
              )
              (step _ (reads r.sect r.soff foff r.ent r.val j r.item)
                ∙ step _ (b.returns json_add_bro (node h null null null) refl)
                ∙ step _ (s.returns json_add_son (node h b.tree null null) refl));
        same = λ k. node (r.item.same k) (b.same k) (s.same k) null;
        dad_same = r.dad_same;
        type_same = r.type_same;
      }

  link :
      (P : ℕ → Type 0) (fuel foff dad : ℕ) (t : Json)
      → nodes t ≤ fuel
      → DocAt f P foff dad 0 t
      → Link fuel foff t
  link P fuel foff dad null p d = Link-null fuel foff d
  link P zero foff dad (node j bro son next) p d = absurd (omega (arith, p))
  link P (suc fuel) foff dad (node j bro son next) p (r, q, b, s) =
      Link-ReadBack (suc fuel) foff dad (node j bro son next)
        (nonzero r.sect r.soff foff r.ent r.val j r.item)
        (read_node fuel foff dad 0 j bro son next r
          (link P fuel r.ent.fam_addr.bro_ptr dad bro (omega (arith, p)) b)
          (link P fuel r.ent.fam_addr.son_ptr foff son (omega (arith, p)) s))

  -- A tree of documents that stands in the file is read back, where there are no more nodes than fuel.
  pub DocAt-ReadBack :
      (P : ℕ → Type 0) (fuel foff dad type_ptr : ℕ) (j : JsonHead) (bro son next : Json)
      → nodes bro + nodes son ≤ fuel
      → DocAt f P foff dad type_ptr (node j bro son next)
      → ReadBack (suc fuel) foff dad type_ptr (node j bro son next)
  DocAt-ReadBack P fuel foff dad type_ptr j bro son next p (r, q, b, s) =
      read_node fuel foff dad type_ptr j bro son next r
        (link P fuel r.ent.fam_addr.bro_ptr dad bro (omega (arith, p)) b)
        (link P fuel r.ent.fam_addr.son_ptr foff son (omega (arith, p)) s)
