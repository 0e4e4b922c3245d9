-- ===== src/File/Tree/Write.antt =====
-- `file_write` of dbms/src/file/file.c on a tree of documents: what stands in the file afterwards.
use nosql_gql_dbms.Section.Header.Laws.{stored}
use nosql_gql_dbms.File.Grow.{lips-wrote}
use nosql_gql_dbms.Base.{set_same}
use nosql_gql_dbms.File.WellFormed.{lips}
use nosql_gql_dbms.Base.{ap}
use nosql_gql_dbms.Base.{
  ℕ, ◌+◌, ◌*◌, ◌<◌, ◌≡◌, ◌≢◌, refl, sym, ◌∙◌, subst, List, some, arith, u64_mod, ok, step,
}
use nosql_gql_dbms.Stdio.{max_pos}
use nosql_gql_dbms.Json.Entity.{Entity, Tplgy}
use nosql_gql_dbms.Json.{Json, null, node, JsonHead, json_val}
use nosql_gql_dbms.Json.Entity.{entity_init}
use nosql_gql_dbms.Section.Header.Laws.{IsValid}
use nosql_gql_dbms.Section.Extents.Slots.{IsFor}
use nosql_gql_dbms.Section.Header.{section_size, get_fileoff}
use nosql_gql_dbms.Section.Extents.RoundTrip.{
  AreOffsets, IsNode, entity_for, json_val-ValueFits, entity_for-IsFor, fits_union,
  node_of-entity_for,
}
use nosql_gql_dbms.Section.Extents.Write.{placed}
use nosql_gql_dbms.Section.Extents.Frame.{over}
use nosql_gql_dbms.File.{File, head_at}
use nosql_gql_dbms.File.Docs
use nosql_gql_dbms.File.Docs.{place, rewrite_item, with_links}
use nosql_gql_dbms.File.WellFormed.{
  IsWellFormed, NodeAt, Used, Grows, Used-NodeAt, Grows-refl, Grows-trans,
}
use nosql_gql_dbms.File.Grow.{
  get_fileoff-wrote, wrote-IsWellFormed, wrote-Grows, NodeAt-wrote, Unused-wrote,
}
use nosql_gql_dbms.File.Place.{Placed, place-Placed, left_by}
use nosql_gql_dbms.File.Relink.{
  relinked, rewrite_item-ok, relinked-IsWellFormed, NodeAt-relinked, NodeAt-relinked_other,
  Used-relinked, headed, head_sync-ok, headed-IsWellFormed, headed-Grows,
}
use nosql_gql_dbms.File.Tree.{RootAt, DocAt, DocAt-map, Fits, nodes, Unused, Written}

-- One node, when its own item is placed and its brothers and sons are written.
module _ (j : JsonHead) (bro son next : Json) (dad type_ptr : ℕ) (f : File) (val : List ℕ)
    (n : IsNode j val) (d : dad < u64_mod) (y : type_ptr < u64_mod) where
  abbrev fam : Tplgy
  fam = record { dad_ptr = dad; bro_ptr = 0; son_ptr = 0 }

  offsets : AreOffsets fam type_ptr
  offsets = omega (arith, d, y)

  abbrev ent : Entity
  ent = entity_for j val fam type_ptr

  module _ (p : Placed j.key val ent f) where
    -- the file with the item, and where it stands
    abbrev first : File
    first = left_by j.key val ent p.base p.fitting

    abbrev foff : ℕ
    foff = get_fileoff (head_at first.f_extent p.fitting.sect) p.fitting.head.lst_itm_ptr

    abbrev item : Entity
    item = placed j.key val ent (over p.fitting.head p.base.filp)

    foff-eq : foff ≡ p.fitting.head.file_offset + p.fitting.head.lst_itm_ptr
    foff-eq =
        get_fileoff-wrote j.key val ent p.fitting.sect p.base p.fitting.head p.base_wf p.fitting.at
          p.fitting.fits

    base_sect : IsValid (over p.fitting.head p.base.filp)
    base_sect = (p.base_wf.heads p.fitting.sect p.fitting.head p.fitting.at).valid

    is_for : IsFor ent j.key val
    is_for =
        entity_for-IsFor j val fam type_ptr (over p.fitting.head p.base.filp) base_sect n offsets
          p.fitting.fits

    first-IsWellFormed : IsWellFormed first
    first-IsWellFormed =
        wrote-IsWellFormed j.key val ent p.fitting.sect p.base p.fitting.head p.base_wf p.fitting.at
          p.fitting.fits is_for

    first-Grows : Grows f first
    first-Grows = Grows-trans f p.base first p.base_grows (
        wrote-Grows j.key val ent p.fitting.sect p.base p.fitting.head p.base_wf p.fitting.at
          p.fitting.fits is_for)

    NodeAt-first : NodeAt first p.fitting.sect p.fitting.head.lst_itm_ptr foff item val j
    NodeAt-first =
        subst (λ (o : ℕ). NodeAt first p.fitting.sect p.fitting.head.lst_itm_ptr o item val j)
          (sym foff-eq)
          (NodeAt-wrote j.key val ent p.fitting.sect p.base p.fitting.head p.base_wf p.fitting.at
            p.fitting.fits is_for j refl
            (fits_union j val fam type_ptr (over p.fitting.head p.base.filp) base_sect n offsets
              p.fitting.fits)
            (node_of-entity_for j val fam type_ptr (over p.fitting.head p.base.filp) base_sect n
              offsets p.fitting.fits))

    Unused-first : Unused f foff
    Unused-first u =
        Unused-wrote j.key val ent p.fitting.sect p.base p.fitting.head p.base_wf p.fitting.at
          p.fitting.fits is_for
          (subst (λ (o : ℕ). Used p.base o) foff-eq (p.base_grows.used foff u))

    -- the brothers and the sons, which are written behind the item
    module _ (b : Written bro dad 0 first) (s : Written son foff 0 b.left) where
      NodeAt-third : NodeAt s.left p.fitting.sect p.fitting.head.lst_itm_ptr foff item val j
      NodeAt-third =
          s.grows.kept p.fitting.sect p.fitting.head.lst_itm_ptr foff item val j
            (b.grows.kept p.fitting.sect p.fitting.head.lst_itm_ptr foff item val j NodeAt-first)

      abbrev third : File
      third =
          relinked s.left p.fitting.sect p.fitting.head.lst_itm_ptr foff item val j s.wf
            NodeAt-third b.foff s.foff b.bound s.bound

      third-wf : IsWellFormed third
      third-wf =
          relinked-IsWellFormed s.left p.fitting.sect p.fitting.head.lst_itm_ptr foff item val j
            s.wf NodeAt-third b.foff s.foff b.bound s.bound

      returns :
          json_val j ≡ some val
          → Docs.write (node j bro son next) dad type_ptr f ≡ (ok foff, headed third)
      unfolding Docs.write
      returns e =
          rw (e, Docs.write)
            (step _ p.returns
              ∙ step _ b.returns
              ∙ step _ s.returns
              ∙ step _ (
                  rewrite_item-ok s.left p.fitting.sect p.fitting.head.lst_itm_ptr foff item val j
                    s.wf NodeAt-third b.foff s.foff b.bound s.bound)
              ∙ step _ (head_sync-ok third third-wf))

      -- The last two steps keep all nodes but the one that is relinked.
      late :
          (k soff o : ℕ) (e : Entity) (v : List ℕ) (x : JsonHead)
          → o ≢ foff
          → NodeAt s.left k soff o e v x
          → NodeAt (headed third) k soff o e v x
      late k soff o e v x ne m = (headed-Grows third third-wf).kept k soff o e v x (
          NodeAt-relinked_other s.left p.fitting.sect p.fitting.head.lst_itm_ptr foff item val j
            s.wf NodeAt-third b.foff s.foff b.bound s.bound k soff o e v x ne m)

      ne_of_Unused : (o : ℕ) → Unused first o → o ≢ foff
      ne_of_Unused o u e = u (subst (λ (x : ℕ). Used first x) (sym e) (Used-NodeAt NodeAt-first))

      bro-at : DocAt (headed third) (Unused f) b.foff dad 0 bro
      bro-at =
          DocAt-map b.left (headed third) (Unused first) (Unused f)
            (λ k soff o e v x u m.
              late k soff o e v x (ne_of_Unused o u) (s.grows.kept k soff o e v x m))
            (λ o u x. u (first-Grows.used o x)) b.foff dad 0 bro b.doc

      son-at : DocAt (headed third) (Unused f) s.foff foff 0 son
      son-at =
          DocAt-map s.left (headed third) (Unused b.left) (Unused f)
            (λ k soff o e v x u m.
              late k soff o e v x (ne_of_Unused o (λ w. u (b.grows.used o w))) m)
            (λ o u x. u (b.grows.used o (first-Grows.used o x))) s.foff foff 0 son s.doc

      root-at : RootAt (headed third) foff dad type_ptr j
      unfolding entity_init
      root-at = record {
        sect = p.fitting.sect;
        soff = p.fitting.head.lst_itm_ptr;
        ent = with_links item b.foff s.foff;
        val = val;
        item =
            (headed-Grows third third-wf).kept p.fitting.sect p.fitting.head.lst_itm_ptr foff
              (with_links item b.foff s.foff) val j
              (NodeAt-relinked s.left p.fitting.sect p.fitting.head.lst_itm_ptr foff item val j s.wf
                NodeAt-third b.foff s.foff b.bound s.bound);
        dad_same = refl;
        type_same = refl;
      }

      kept :
          (k soff o : ℕ) (e : Entity) (v : List ℕ) (x : JsonHead)
          → NodeAt f k soff o e v x
          → NodeAt (headed third) k soff o e v x
      kept k soff o e v x m =
          late k soff o e v x (λ q. Unused-first (subst (λ (z : ℕ). Used f z) q (Used-NodeAt m)))
            (s.grows.kept k soff o e v x
              (b.grows.kept k soff o e v x (first-Grows.kept k soff o e v x m)))

      used : (o : ℕ) → Used f o → Used (headed third) o
      used o u = (headed-Grows third third-wf).used o (
          Used-relinked s.left p.fitting.sect p.fitting.head.lst_itm_ptr foff item val j s.wf
            NodeAt-third b.foff s.foff b.bound s.bound o
            (s.grows.used o (b.grows.used o (first-Grows.used o u))))

      written-node : json_val j ≡ some val → Written (node j bro son next) dad type_ptr f
      unfolding root-at stored
      written-node e = record {
        foff = foff;
        left = headed third;
        returns = returns e;
        wf = headed-IsWellFormed third third-wf;
        grows = record { kept = kept; used = used };
        doc = (root-at, Unused-first, bro-at, son-at);
        lsp = omega (arith, p.base_lsp, b.lsp, s.lsp);
        held = omega (
          arith,
          p.base_lips,
          lips-wrote j.key val ent p.fitting.sect p.base p.fitting.head p.base_wf p.fitting.at
              p.fitting.fits is_for,
          b.held,
          s.held,
          ap lips (set_same s.left.f_extent p.fitting.sect NodeAt-third.head NodeAt-third.there),
        );
        bound = omega arith;
      }

-- In a well-formed file that may grow by a section for each node, `file_write` of a tree whose nodes
-- are as `json_ctor` makes them and fit an empty section, with offsets of 64 bits for the dad and the
-- type of its root, succeeds: the file stays well-formed, each node of the tree stands at an offset that
-- was not in use, with the offsets of its brother and of its son, every node that stood in the file stays
-- as it was, and the file grows by one section for each node at most.
pub write-Written :
    (t : Json) (dad type_ptr : ℕ) (f : File)
    → IsWellFormed f
    → Fits t
    → f.lst_sect_ptr + section_size * nodes t < max_pos
    → dad < u64_mod
    → type_ptr < u64_mod
    → Written t dad type_ptr f
unfolding Docs.write
write-Written null dad type_ptr f wf fit room d y = record {
  foff = 0;
  left = f;
  returns = refl;
  wf = wf;
  grows = Grows-refl f;
  doc = refl;
  lsp = omega arith;
  held = omega arith;
  bound = omega arith;
}
write-Written (node j bro son next) dad type_ptr f wf ((val, n, small), fit_bro, fit_son) room d y =
    let p : Placed j.key val (ent j bro son next dad type_ptr f val n d y) f =
      place-Placed j.key val (ent j bro son next dad type_ptr f val n d y) f wf small
        (omega (arith, room)) in
    let b : Written bro dad 0 (first j bro son next dad type_ptr f val n d y p) =
      write-Written bro dad 0 (first j bro son next dad type_ptr f val n d y p)
        (first-IsWellFormed j bro son next dad type_ptr f val n d y p) fit_bro
        (omega (arith, room, p.base_lsp)) d (omega arith) in
    let s : Written son (foff j bro son next dad type_ptr f val n d y p) 0 b.left =
      write-Written son (foff j bro son next dad type_ptr f val n d y p) 0 b.left b.wf fit_son
        (omega (arith, room, p.base_lsp, b.lsp)) (omega arith) (omega arith) in
    written-node j bro son next dad type_ptr f val n d y p b s (json_val-ValueFits j val n.value)
